-- ===== src/Tunnel/Data/Routes.antt =====
-- What the data path of net/Tunnel.cpp does to a packet.
use mathlib.Core.List.{append-nil}
use native.Mathlib.Nat.{add-zero}
use wetnork.Base.{
  ℕ, zero, suc, some, ◌+◌, ◌^◌, ◌<◌, ◌≡◌, refl, ap, ◌∙◌, sym, List, [], ◌∷◌, true, false, not, ◌||◌,
  ◌&&◌, length, take, drop, ◌==◌, if◌then◌else◌, bit_and, holds_under, holds_under_get, arith, inl,
  inr, Bool-cases, All, take_all,
}
use wetnork.Exceptions.{Outcome, ok, throw, invalid_argument, invalid_operation}
use wetnork.Packet.{Packet, packet, get_data, bytes, skip, IsValid}
use wetnork.Packet.View.{bytes-skip, length-bytes}
use wetnork.Stream.Gather.{gather_lem}
use wetnork.Tunnel.Header.{unreliable_packet}
use wetnork.Tunnel.Data.{
  Tunnel, tunnel, Effect, link_write, tun_write, write_packet, get_channel, tun_read, propagate,
}

-- Both tests of the channel byte pass for 0 alone.
channel_table :
    holds_under
      (λ c.
        (bit_and c 0x80 == 0 && bit_and c 0x7f == 0 && c == 0)
        || (not (bit_and c 0x80 == 0 && bit_and c 0x7f == 0) && not (c == 0)))
      256
    ≡ true
unfolding holds_under
channel_table = refl

-- A channel is found for the byte 0 alone; every other byte, reliable or not, is refused.
pub get_channel_lem :
    (t : Tunnel) (c : ℕ)
    → c < 256
    → get_channel t (bit_and c 0x7f) (not (bit_and c 0x80 == 0))
      ≡ (if c == 0 then ok t.data_channel else throw (invalid_argument "id"))
unfolding get_channel
get_channel_lem t c h = ground (arith, holds_under_get _ 256 c h channel_table)

first_byte :
    (n : ℕ) (xs : List ℕ) {c : ℕ} {rest : List ℕ}
    → take n xs ≡ c ∷ rest
    → ((n == 0) ≡ false) × ((more : List ℕ) × (xs ≡ c ∷ more))
first_byte zero xs e = cc
first_byte (suc n) [] e = cc
first_byte (suc n) (x ∷ xs) e = (ground arith, (xs, ground arith))

-- What `propagate` comes to, from the bytes of the packet alone.
abbrev pub outcome : Packet → List ℕ → Outcome (List Effect)
outcome f [] = throw (invalid_operation "Packet too short")
outcome f (c ∷ rest) =
    if c == 0 then ok (tun_write (skip (skip f 1) 1) ∷ []) else throw (invalid_argument "id")

outcome_at :
    (t : Tunnel) (f : Packet) (xs : List ℕ)
    → IsValid f
    → All (λ b. b < 256) xs
    → bytes f ≡ xs
    → propagate t f ≡ outcome f xs
unfolding propagate
outcome_at t f [] v small e =
    let empty : f.length_ ≡ 0 = sym (length-bytes f v) ∙ ap length e in ground (arith, empty)
outcome_at t f (c ∷ rest) v small e =
    let (long, (more, block)) = first_byte f.length_ (get_data f) e in
    rw (long, block, get_channel_lem t c small.0)
      (elim (Bool-cases (c == 0)) [ inl q ↦ rw q | inr q ↦ rw q ])

-- A packet that lies in its block is passed to the device, less its first two bytes, exactly if its
-- first byte is 0, the number of the data channel. Any other first byte, also that of a reliable
-- channel, is refused with an exception, and so is an empty packet; no access is out of bounds.
pub propagate_lem :
    (t : Tunnel) (f : Packet)
    → IsValid f
    → All (λ b. b < 256) (bytes f)
    → propagate t f ≡ outcome f (bytes f)
propagate_lem t f v small = outcome_at t f (bytes f) v small refl

-- What `UnreliableChannel::writePacket` sends for a packet: the channel's number in front of it.
abbrev pub data_frame : Packet → Packet
data_frame p = packet (0 ∷ bytes p) 0 (1 + p.length_)

pub write_packet_lem :
    (p : Packet)
    → IsValid p
    → 1 + p.length_ < 2 ^ 64
    → write_packet tunnel.data_channel p ≡ some (data_frame p)
unfolding write_packet
write_packet_lem p v h =
    let sent =
      gather_lem (unreliable_packet (record { u_cid = 0 }) ∷ p ∷ []) (omega arith) (omega arith) in
    rw (sent, append-nil (bytes p), add-zero p.length_)

pub tun_read_lem :
    (p : Packet)
    → IsValid p
    → 1 + p.length_ < 2 ^ 64
    → tun_read tunnel p ≡ ok (link_write (data_frame p) ∷ [])
unfolding tun_read
tun_read_lem p v h = rw (write_packet_lem p v h)

pub bytes-data_frame : (p : Packet) → IsValid p → bytes (data_frame p) ≡ 0 ∷ bytes p
bytes-data_frame p v = take_all _ _ (omega (arith, length-bytes p v))

-- A packet `p` that the device hands to one tunnel goes to the link as one frame; a packet `f` with
-- that frame's bytes, arriving at any tunnel, makes it write one packet to its device: not `p`, but
-- `p` without its first byte.
pub tun_read-propagate :
    (t : Tunnel) (p f : Packet)
    → IsValid p
    → 1 + p.length_ < 2 ^ 64
    → IsValid f
    → All (λ b. b < 256) (bytes p)
    → bytes f ≡ bytes (data_frame p)
    → (tun_read tunnel p ≡ ok (link_write (data_frame p) ∷ []))
      × (propagate t f ≡ ok (tun_write (skip (skip f 1) 1) ∷ []))
      × (bytes (skip (skip f 1) 1) ≡ drop 1 (bytes p))
tun_read-propagate t p f v h w small same =
    let arrived : bytes f ≡ 0 ∷ bytes p = same ∙ bytes-data_frame p v in
    (
      tun_read_lem p v h,
      outcome_at t f (0 ∷ bytes p) w (omega arith, small) arrived,
      bytes-skip (skip f 1) 1 ∙ ap (drop 1) (bytes-skip f 1 ∙ ap (drop 1) arrived),
    )
