-- ===== src/Tunnel/Reliable.antt =====
-- net/Tunnel.ReliableChannel.cpp: one packet in flight, acknowledged by its sequence number.
-- A method returns the new channel and what it did to the outside, in order: writes to the stream
-- below, and calls of the signals `receive` and `canSend`. Their results are not used in the source.
pub mod Replies
pub mod Slots
pub mod Nested
pub mod Timer
pub mod Wrap
use wetnork.Base.{
  ℕ, ◌+◌, ◌%◌, ◌^◌, List, [], ◌∷◌, Option, none, some, ◌>>=◌, Bool, true, false, not, ◌&&◌, ltb,
  ◌==◌, if◌then◌else◌, bit_and,
}
use wetnork.Packet.{Packet, get_data, skip}
use wetnork.Stream.{gather}
use wetnork.Tunnel.Header.{
  ReliablePacketHeader, reliable_header, reliable_size, read_reliable, get_seq, header_packet, ack,
}

abbrev pub u32 : ℕ → ℕ
u32 n = n % 2 ^ 32

pub record ReliableChannel : Type 0 where
  pub cid : ℕ
  pub timeout_active : Bool
  pub in_flight_packet : Option Packet
  pub local_seq : ℕ
  pub peer_seq : ℕ

pub data Effect : Type 0 where
  write : Packet → Effect
  receive : Packet → Effect
  can_send : Effect

unfoldable pub reliable_channel : ℕ → ReliableChannel
reliable_channel cid = record {
  cid = cid;
  timeout_active = false;
  in_flight_packet = none;
  local_seq = 0;
  peer_seq = 0;
}

unfoldable pub transmit_packet : ReliableChannel → Packet → Option (List Effect)
transmit_packet c p = do
  frame ← gather (header_packet (reliable_header c.cid 0 c.local_seq) ∷ p ∷ [])
  some (write frame ∷ [])

abbrev transmit_in_flight : ReliableChannel → Option Packet → Option (ReliableChannel × List Effect)
transmit_in_flight c none = some (c, [])
transmit_in_flight c (some p) = do
  es ← transmit_packet c p
  some (record c { timeout_active = true }, es)

unfoldable pub transmit_queue : ReliableChannel → Option (ReliableChannel × List Effect)
transmit_queue c = transmit_in_flight c c.in_flight_packet

unfoldable pub on_timeout : ReliableChannel → Option (ReliableChannel × List Effect)
on_timeout c = transmit_queue c

abbrev write_unless : ReliableChannel → Packet → Option Packet → ReliableChannel × Bool
write_unless c p (some q) = (c, false)
write_unless c p none = (record c { in_flight_packet = some p }, true)

unfoldable pub write_packet : ReliableChannel → Packet → ReliableChannel × Bool
write_packet c p = write_unless c p c.in_flight_packet

-- The branch for a data packet.
unfoldable pub read_data :
    ReliableChannel → Packet → ReliablePacketHeader → Option (ReliableChannel × List Effect)
read_data c p h = do
  frame ← gather (header_packet (reliable_header c.cid ack (get_seq h)) ∷ [])
  some (
      if ltb c.peer_seq (get_seq h)
      then (record c { peer_seq = get_seq h }, receive (skip p reliable_size) ∷ write frame ∷ [])
      else (c, write frame ∷ []))

unfoldable pub read_header :
    ReliableChannel → Packet → ReliablePacketHeader → Option (ReliableChannel × List Effect)
unfolding read_data
read_header c p h =
    if not (bit_and h.flags ack == 0) && c.local_seq == get_seq h
    then some (
      record c {
        local_seq = u32 (c.local_seq + 1);
        in_flight_packet = none;
        timeout_active = false;
      },
      can_send ∷ [],
    )
    else if h.flags == 0
    then read_data c p h
    else some (c, [])

unfoldable pub read_packet : ReliableChannel → Packet → Option (ReliableChannel × List Effect)
unfolding read_header
read_packet c p = do h ← read_reliable (get_data p); read_header c p h
