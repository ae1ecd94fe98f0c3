-- ===== src/Tunnel/Reliable/Replies.antt =====
-- What net/Tunnel.ReliableChannel.cpp does with a packet that it reads, on each branch.
use mathlib.Core.List.{append-nil}
use native.Mathlib.Nat.{add-zero}
use wetnork.Base.{
  ℕ, ◌+◌, ◌^◌, ◌<◌, ◌≡◌, refl, List, [], ◌∷◌, ◌++◌, none, some, false, true, ltb, if◌then◌else◌,
  arith, length, take_all, length-append, take-append-drop, Bool-cases, inl, inr, ◌==◌,
}
use wetnork.Packet.{Packet, packet, get_data, bytes, skip, IsValid}
use wetnork.Packet.View.{length-bytes}
use wetnork.Stream.{gather}
use wetnork.Stream.Gather.{gather_lem}
use wetnork.Tunnel.Header.{
  ReliablePacketHeader, reliable_header, reliable_size, read_reliable, get_seq, header_packet,
  header_bytes, ack, ntohl-htonl, read_reliable-defined,
}
use wetnork.Tunnel.Reliable.{
  ReliableChannel, write, receive, can_send, transmit_packet, transmit_queue, on_timeout,
  read_packet, write_packet, u32,
}

-- The frame of an acknowledgement, and that of a data packet.
abbrev pub ack_frame : ℕ → ℕ → List ℕ
ack_frame cid seq = header_bytes (reliable_header cid ack seq)

abbrev pub data_frame : ℕ → ℕ → List ℕ → List ℕ
data_frame cid seq payload = header_bytes (reliable_header cid 0 seq) ++ payload

pub gather_ack :
    (h : ReliablePacketHeader)
    → gather (header_packet h ∷ []) ≡ some (packet (header_bytes h) 0 reliable_size)
gather_ack h = gather_lem (header_packet h ∷ []) (omega arith) (omega arith)

-- A packet that fits into the address space together with its header is sent as one new block:
-- the header's six bytes, then the packet's.
pub transmit_packet_lem :
    (c : ReliableChannel) (p : Packet)
    → IsValid p
    → reliable_size + p.length_ < 2 ^ 64
    → transmit_packet c p
      ≡ some (
          write (packet (data_frame c.cid c.local_seq (bytes p)) 0 (reliable_size + p.length_))
          ∷ [])
unfolding transmit_packet
transmit_packet_lem c p v h =
    let head = header_packet (reliable_header c.cid 0 c.local_seq) in
    rw (gather_lem (head ∷ p ∷ []) (omega arith) (omega arith), append-nil (bytes p), add-zero)

pub read_reliable-bytes :
    (f : Packet) (cid flags seq : ℕ) (payload : List ℕ)
    → bytes f ≡ header_bytes (reliable_header cid flags seq) ++ payload
    → read_reliable (get_data f) ≡ some (reliable_header cid flags seq)
unfolding read_reliable reliable_header
read_reliable-bytes f cid flags seq payload e =
    rw (← take-append-drop f.length_ (get_data f)) (rw e refl)

-- A packet that is a data frame with a 32-bit number is acknowledged under that number in every
-- case, and is passed on, without its header, exactly if the number is above the last one kept.
pub read_packet-data_frame :
    (c : ReliableChannel) (f : Packet) (cid seq : ℕ) (payload : List ℕ)
    → bytes f ≡ data_frame cid seq payload
    → seq < 2 ^ 32
    → read_packet c f
      ≡ some (
          if ltb c.peer_seq seq
          then (
            record c { peer_seq = seq },
            receive (skip f reliable_size)
                ∷ write (packet (ack_frame c.cid seq) 0 reliable_size)
                ∷ [],
          )
          else (c, write (packet (ack_frame c.cid seq) 0 reliable_size) ∷ []))
unfolding read_packet reliable_header get_seq
read_packet-data_frame c f cid seq payload e h = rw (
  read_reliable-bytes f cid 0 seq payload e,
  read_packet,
  ntohl-htonl seq h,
  gather_ack (reliable_header c.cid ack seq),
)

-- Of the packets that begin with an acknowledgement, one of the current number releases the packet
-- in flight, steps the number, stops the timer and signals `canSend`. Any other is ignored.
pub read_packet-ack_frame :
    (c : ReliableChannel) (f : Packet) (cid seq : ℕ) (rest : List ℕ)
    → bytes f ≡ ack_frame cid seq ++ rest
    → seq < 2 ^ 32
    → read_packet c f
      ≡ some (
          if c.local_seq == seq
          then (
            record c {
              local_seq = u32 (c.local_seq + 1);
              in_flight_packet = none;
              timeout_active = false;
            },
            can_send ∷ [],
          )
          else (c, []))
unfolding read_packet reliable_header get_seq
read_packet-ack_frame c f cid seq rest e h =
    rw (read_reliable-bytes f cid ack seq rest e, read_packet, ntohl-htonl seq h)
      (elim (Bool-cases (c.local_seq == seq)) [ inl q ↦ rw q | inr q ↦ rw q ])

-- A packet of less than six bytes, at the end of its block, makes the header's constructor read
-- past the block.
pub read_packet_short :
    (c : ReliableChannel) (f : Packet)
    → length (get_data f) < reliable_size
    → read_packet c f ≡ none
unfolding read_packet
read_packet_short c f h = elim (read_reliable-defined (get_data f)) [
  | inl d ↦ absurd (omega (arith, d.2))
  | inr d ↦ rw (d.0, read_packet)
]

-- A packet is taken exactly if none is in flight. Nothing is sent, and no timer is started.
pub write_packet_lem :
    (c : ReliableChannel) (p : Packet)
    → (c.in_flight_packet ≡ none
        → write_packet c p ≡ (record c { in_flight_packet = some p }, true))
      × ((q : Packet) → c.in_flight_packet ≡ some q → write_packet c p ≡ (c, false))
unfolding write_packet
write_packet_lem c p = (λ e. ground arith, λ q e. ground arith)

-- When the timer fires with nothing in flight, nothing happens.
pub on_timeout_idle :
    (c : ReliableChannel) → c.in_flight_packet ≡ none → on_timeout c ≡ some (c, [])
unfolding on_timeout transmit_queue
on_timeout_idle c e = ground arith

-- When it fires with a packet in flight, that is sent under the current number, and the timer runs.
pub on_timeout_busy :
    (c : ReliableChannel) (p : Packet)
    → c.in_flight_packet ≡ some p
    → IsValid p
    → reliable_size + p.length_ < 2 ^ 64
    → on_timeout c
      ≡ some (
        record c { timeout_active = true },
        write (packet (data_frame c.cid c.local_seq (bytes p)) 0 (reliable_size + p.length_)) ∷ [],
      )
unfolding on_timeout transmit_queue
on_timeout_busy c p e v h = ground (arith, transmit_packet_lem c p v h)

pub bytes-data_frame :
    (cid seq : ℕ) (p : Packet)
    → IsValid p
    → bytes (packet (data_frame cid seq (bytes p)) 0 (reliable_size + p.length_))
      ≡ data_frame cid seq (bytes p)
bytes-data_frame cid seq p v = take_all _ _ (
    omega (
      arith,
      length-append {0} (header_bytes (reliable_header cid 0 seq)) (bytes p),
      length-bytes p v,
    ))
