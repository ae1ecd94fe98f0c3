-- ===== src/Tunnel/Reliable/Slots.antt =====
-- net/Tunnel.ReliableChannel.cpp where the slots of `receive` and `canSend` call the channel back
-- while `readPacket` runs, as a user does that sends its next packet when it can, and where they throw.
pub mod Throwing
use mathlib.Core.List.{append-nil}
use wetnork.Base.{
  ℕ, ◌+◌, ◌≤◌, ◌≡◌, refl, ap, ◌∙◌, List, [], ◌∷◌, ◌++◌, Option, none, some, Bool, false, not, ◌&&◌,
  ltb, ◌==◌, if◌then◌else◌, bit_and, map, length, arith, Bool-cases, Option-cases, inl, inr,
}
use wetnork.Exceptions.{Exception, Outcome, ok, throw, fault}
use wetnork.Packet.{Packet, packet, get_data, skip}
use wetnork.Stream.{gather}
use wetnork.Tunnel.Header.{
  ReliablePacketHeader, reliable_header, reliable_size, read_reliable, read_reliable-defined,
  get_seq, header_packet, header_bytes, ack,
}
use wetnork.Tunnel.Reliable.{
  ReliableChannel, Effect, write, receive, can_send, u32, write_packet, read_header, read_data,
  read_packet,
}
use wetnork.Tunnel.Reliable.Replies.{gather_ack}
use wetnork.Tunnel.Reliable.Timer.{writes, reads, handle, run}

-- What the slots of a signal do when it is called: they write packets, each in view of whether the
-- last one was taken, and return or throw.
pub data Deed : Type 0 where
  returns : Deed
  throws : Exception → Deed
  asks : Packet → (Bool → Deed) → Deed

pub record Slots : Type 0 where
  pub on_receive : Packet → Deed
  pub on_can_send : Deed

-- The channel that the slots leave, and what they throw.
unfoldable pub perform : Deed → ReliableChannel → ReliableChannel × Option Exception
perform returns c = (c, none)
perform (throws e) c = (c, some e)
perform (asks p k) c = perform (k (write_packet c p).1) (write_packet c p).0

-- A call's channel, what it did to the outside, and how it ended.
abbrev pub Result : Type 0
Result = (ReliableChannel × List Effect) × Outcome (Unit {0})

abbrev pub ended : Option Exception → Outcome (Unit {0})
ended none = ok tt
ended (some e) = throw e

abbrev acknowledge : Option Packet → ReliableChannel → List Effect → Result
acknowledge none c es = ((c, es), fault)
acknowledge (some frame) c es = ((c, es ++ write frame ∷ []), ok tt)

-- The end of `readPacket`, which an exception skips.
abbrev then_acknowledge :
    ReliablePacketHeader → List Effect → ReliableChannel × Option Exception → Result
then_acknowledge h es (c, none) = acknowledge (gather (header_packet h ∷ [])) c es
then_acknowledge h es (c, some e) = ((c, es), throw e)

unfoldable pub read_data_with : Slots → ReliableChannel → Packet → ReliablePacketHeader → Result
read_data_with s c p h =
    then_acknowledge (reliable_header c.cid ack (get_seq h))
      (if ltb c.peer_seq (get_seq h) then receive (skip p reliable_size) ∷ [] else [])
      (if ltb c.peer_seq (get_seq h)
        then perform (s.on_receive (skip p reliable_size)) (record c { peer_seq = get_seq h })
        else (c, none))

-- The branch for the acknowledgement of the packet in flight.
abbrev pub acked : ReliableChannel → ReliableChannel
acked c = record c {
  local_seq = u32 (c.local_seq + 1);
  in_flight_packet = none;
  timeout_active = false;
}

unfoldable pub read_ack_with : Slots → ReliableChannel → Result
read_ack_with s c =
    let (c', thrown) = perform s.on_can_send (acked c) in ((c', can_send ∷ []), ended thrown)

unfoldable pub read_header_with : Slots → ReliableChannel → Packet → ReliablePacketHeader → Result
unfolding read_data_with read_ack_with
read_header_with s c p h =
    if not (bit_and h.flags ack == 0) && c.local_seq == get_seq h
    then read_ack_with s c
    else if h.flags == 0
    then read_data_with s c p h
    else ((c, []), ok tt)

abbrev with_header : Slots → ReliableChannel → Packet → Option ReliablePacketHeader → Result
unfolding read_header_with
with_header s c p none = ((c, []), fault)
with_header s c p (some h) = read_header_with s c p h

unfoldable pub read_packet_with : Slots → ReliableChannel → Packet → Result
unfolding with_header
read_packet_with s c p = with_header s c p (read_reliable (get_data p))

-- The slot that a read calls, by what the read does: at most one is called.
abbrev pub slot_called : Slots → List Effect → Deed
slot_called s (receive p ∷ es) = s.on_receive p
slot_called s (can_send ∷ es) = s.on_can_send
slot_called s _ = returns

-- What an exception of the slots skips: all that comes after the call of the slots.
abbrev pub done_until : Option Exception → List Effect → List Effect
done_until none es = es
done_until (some e) [] = []
done_until (some e) (f ∷ es) = f ∷ []

-- The read as it is without slots that call back, and then what the slot does that it calls, on the
-- channel that the read leaves: its writes are answered by that channel.
abbrev pub then_slot : Slots → ReliableChannel → Option (ReliableChannel × List Effect) → Result
then_slot s c none = ((c, []), fault)
then_slot s c (some (c', es)) =
    let (c'', thrown) = perform (slot_called s es) c' in ((c'', done_until thrown es), ended thrown)

read_ack_with-then_slot :
    (s : Slots) (c : ReliableChannel)
    → read_ack_with s c ≡ then_slot s c (some (acked c, can_send ∷ []))
unfolding read_ack_with
read_ack_with-then_slot s c = elim (Option-cases (perform s.on_can_send (acked c)).1) [
  | inl calm ↦ rw calm refl
  | inr (x, thrown) ↦ rw thrown refl
]

acknowledged :
    (h : ReliablePacketHeader) (q : Packet) (r : ReliableChannel × Option Exception)
    → then_acknowledge h (receive q ∷ []) r ≡ (
      (r.0, done_until r.1 (receive q ∷ write (packet (header_bytes h) 0 reliable_size) ∷ [])),
      ended r.1,
    )
acknowledged h q (c, none) = rw (gather_ack h) refl
acknowledged h q (c, some e) = refl

read_data_with-then_slot :
    (s : Slots) (c : ReliableChannel) (f : Packet) (h : ReliablePacketHeader)
    → read_data_with s c f h ≡ then_slot s c (read_data c f h)
unfolding read_data_with read_data perform
read_data_with-then_slot s c f h =
    let reply = reliable_header c.cid ack (get_seq h) in
    elim (Bool-cases (ltb c.peer_seq (get_seq h))) [
      | inl new ↦
          rw (new, gather_ack reply)
            (acknowledged reply (skip f reliable_size)
              (perform (s.on_receive (skip f reliable_size)) (record c { peer_seq = get_seq h })))
      | inr old ↦ rw (old, gather_ack reply) refl
    ]

read_header_with-then_slot :
    (s : Slots) (c : ReliableChannel) (f : Packet) (h : ReliablePacketHeader)
    → read_header_with s c f h ≡ then_slot s c (read_header c f h)
unfolding read_header_with read_header perform
read_header_with-then_slot s c f h =
    elim (Bool-cases (not (bit_and h.flags ack == 0) && c.local_seq == get_seq h)) [
      | inl this ↦ rw this (read_ack_with-then_slot s c)
      | inr other ↦ rw other (elim (Bool-cases (h.flags == 0)) [
        | inl plain ↦ rw plain (read_data_with-then_slot s c f h)
        | inr odd ↦ rw odd refl
      ])
    ]

-- Whatever slots do that write packets to the channel while it reads one, and return or throw: the
-- read does what it does with slots that do neither, up to the call of the slots if they throw, and the
-- slot's writes, each in view of the answers to those before, are answered and kept as if they were made
-- after the read, which ends as the slot does.
pub read_packet_with-then_slot :
    (s : Slots) (c : ReliableChannel) (f : Packet)
    → read_packet_with s c f ≡ then_slot s c (read_packet c f)
unfolding read_packet_with read_packet
read_packet_with-then_slot s c f = elim (Option-cases (read_reliable (get_data f))) [
  | inl e ↦ rw e refl
  | inr (h, e) ↦ rw e (read_header_with-then_slot s c f h)
]
