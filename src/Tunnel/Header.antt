-- ===== src/Tunnel/Header.antt =====
-- The packet headers of net/Tunnel.ReliableChannel.cpp and net/Tunnel.UnreliableChannel.cpp.
use wetnork.Base.{
  ℕ, ◌+◌, ◌*◌, ◌/◌, ◌%◌, ◌^◌, ◌≤◌, ◌<◌, ◌≡◌, refl, List, [], ◌∷◌, ◌++◌, Option, none, some, length,
  arith, ◌⊎◌, inl, inr,
}
use wetnork.Packet.{Packet, packet_nocapture}

-- The four bytes of a `uint32_t` in network order, as `htonl` leaves them in memory, and back.
pub record NetLong : Type 0 where
  pub byte0 : ℕ
  pub byte1 : ℕ
  pub byte2 : ℕ
  pub byte3 : ℕ

unfoldable pub htonl : ℕ → NetLong
htonl n = record {
  byte0 = n / 2 ^ 24 % 256;
  byte1 = n / 2 ^ 16 % 256;
  byte2 = n / 2 ^ 8 % 256;
  byte3 = n % 256;
}

unfoldable pub ntohl : NetLong → ℕ
ntohl w = ((w.byte0 * 256 + w.byte1) * 256 + w.byte2) * 256 + w.byte3

pub ntohl-htonl : (n : ℕ) → n < 2 ^ 32 → ntohl (htonl n) ≡ n
unfolding ntohl htonl
ntohl-htonl n h = omega arith

-- `header_t`, packed: `seq` is kept in network order.
pub record ReliablePacketHeader : Type 0 where
  pub cid : ℕ
  pub flags : ℕ
  pub net_seq : NetLong

abbrev pub ack : ℕ
ack = 0x01

abbrev pub reliable_size : ℕ
reliable_size = 6

unfoldable pub reliable_header : ℕ → ℕ → ℕ → ReliablePacketHeader
reliable_header cid flags seq = record { cid = cid; flags = flags; net_seq = htonl seq }

unfoldable pub get_seq : ReliablePacketHeader → ℕ
get_seq h = ntohl h.net_seq

-- The constructor from a pointer: a read of six bytes, wherever the packet ends.
unfoldable pub read_reliable : List ℕ → Option ReliablePacketHeader
read_reliable (cid ∷ flags ∷ a ∷ b ∷ c ∷ d ∷ rest) = some (record {
  cid = cid;
  flags = flags;
  net_seq = record { byte0 = a; byte1 = b; byte2 = c; byte3 = d };
})
read_reliable _ = none

-- The bytes of the object, in memory order.
abbrev pub header_bytes : ReliablePacketHeader → List ℕ
header_bytes h =
    h.cid ∷ h.flags ∷ h.net_seq.byte0 ∷ h.net_seq.byte1 ∷ h.net_seq.byte2 ∷ h.net_seq.byte3 ∷ []

-- The conversion to `Packet`.
abbrev pub header_packet : ReliablePacketHeader → Packet
header_packet h = packet_nocapture (header_bytes h) 0 reliable_size

-- A header that was built from a channel, flags and a 32-bit sequence number, and put in front of
-- any bytes, is read back with the same fields.
pub read_reliable-header_bytes :
    (cid flags seq : ℕ) (rest : List ℕ)
    → seq < 2 ^ 32
    → let h = reliable_header cid flags seq in
      (read_reliable (header_bytes h ++ rest) ≡ some h)
      × (h.cid ≡ cid)
      × (h.flags ≡ flags)
      × (get_seq h ≡ seq)
unfolding read_reliable reliable_header get_seq
read_reliable-header_bytes cid flags seq rest h = (refl, refl, refl, ntohl-htonl seq h)

-- Reading a header is possible exactly where six bytes can be read.
pub read_reliable-defined :
    (xs : List ℕ)
    → ((h : ReliablePacketHeader) × (read_reliable xs ≡ some h) × (reliable_size ≤ length xs))
      ⊎ ((read_reliable xs ≡ none) × (length xs < reliable_size))
unfolding read_reliable
read_reliable-defined (cid ∷ flags ∷ a ∷ b ∷ c ∷ d ∷ rest) = inl (_, refl, omega arith)
read_reliable-defined _ = inr (refl, omega arith)

-- `UnreliablePacketHeader`: the channel alone.
pub record UnreliablePacketHeader : Type 0 where
  pub u_cid : ℕ

abbrev pub unreliable_size : ℕ
unreliable_size = 1

unfoldable pub read_unreliable : List ℕ → Option UnreliablePacketHeader
read_unreliable [] = none
read_unreliable (c ∷ rest) = some (record { u_cid = c })

abbrev pub unreliable_packet : UnreliablePacketHeader → Packet
unreliable_packet h = packet_nocapture (h.u_cid ∷ []) 0 unreliable_size
