-- ===== src/Tunnel/Examples.antt =====
-- The channels of net/Tunnel.ReliableChannel.cpp and net/Tunnel.UnreliableChannel.cpp at concrete
-- packets.
use wetnork.Base.{ℕ, ◌≡◌, refl, List, [], ◌∷◌, some, arith, All, ◌<◌}
use wetnork.Exceptions.{ok, throw, invalid_argument, invalid_operation, runtime_error}
use wetnork.Packet.{Packet, packet, skip}
use wetnork.Tunnel.Header.{htonl, reliable_header}
use wetnork.Tunnel.Reliable.{ReliableChannel, write, receive, reliable_channel, read_packet}
use wetnork.Tunnel.Reliable.Replies.{ack_frame}
use wetnork.Tunnel.Reliable.Wrap.{last_seq, read_packets, AreUnheard, read_packets-AreUnheard}
use wetnork.Tunnel.Reliable.Timer.{Below, writes, reads, expires, run, IsSilent, run_never_sends}
use wetnork.Tunnel.Reliable.Slots.{
  Slots, returns, throws, asks, perform, then_slot, read_packet_with, read_packet_with-then_slot,
}
use wetnork.Tunnel.Reliable.Slots.Throwing.{read_packet_with-throw}
use wetnork.Tunnel.Reliable.Nested
use wetnork.Tunnel.Reliable.Nested.{Course, Choices, nested, calls, run_with}
use wetnork.Tunnel.Reliable.Nested.Order.{IsInOrder, run_with-IsInOrder}
use wetnork.Tunnel.Data.{tunnel, propagate}
use wetnork.Tunnel.Data.Routes.{propagate_lem}

-- A data packet under the number 1, and its frame in a block.
abbrev payload : List ℕ
payload = 65 ∷ 66 ∷ []

abbrev data_packet : Packet
data_packet = packet (7 ∷ 0 ∷ 0 ∷ 0 ∷ 0 ∷ 1 ∷ 65 ∷ 66 ∷ []) 0 8

abbrev ack_packet : Packet
ack_packet = packet (7 ∷ 1 ∷ 0 ∷ 0 ∷ 0 ∷ 0 ∷ []) 0 6

abbrev busy : ReliableChannel
busy = record (reliable_channel 7) { in_flight_packet = some data_packet }

-- The stream below is a session that is not open.
abbrev refuses : Below
refuses p = throw (invalid_operation "Session not ready")

run_never_sends_example :
    IsSilent refuses
      (run refuses (reliable_channel 7) (writes data_packet ∷ reads data_packet ∷ expires ∷ []))
run_never_sends_example =
    run_never_sends refuses 7 (writes data_packet ∷ reads data_packet ∷ expires ∷ [])
      (tt, (omega arith, (tt, tt)))

data_packet-AllBytes : All (λ b. b < 256) (7 ∷ 0 ∷ 0 ∷ 0 ∷ 0 ∷ 1 ∷ 65 ∷ 66 ∷ [])
data_packet-AllBytes = (
  omega arith,
  (
    omega arith,
    (omega arith, (omega arith, (omega arith, (omega arith, (omega arith, (omega arith, tt)))))),
  ),
)

ack_packet-AllBytes : All (λ b. b < 256) (7 ∷ 1 ∷ 0 ∷ 0 ∷ 0 ∷ 0 ∷ [])
ack_packet-AllBytes =
    (omega arith, (omega arith, (omega arith, (omega arith, (omega arith, (omega arith, tt))))))

propagate_lem_example : propagate tunnel data_packet ≡ throw (invalid_argument "id")
propagate_lem_example = propagate_lem tunnel data_packet (omega arith) data_packet-AllBytes

-- A channel that has passed on its last packet, and a frame of the number 1.
abbrev worn_out : ReliableChannel
worn_out = record (reliable_channel 7) { peer_seq = last_seq }

read_packets-AreUnheard_example :
    AreUnheard refuses (read_packets refuses worn_out (data_packet ∷ ack_packet ∷ []))
read_packets-AreUnheard_example =
    read_packets-AreUnheard refuses worn_out (data_packet ∷ ack_packet ∷ [])
      ((omega arith, data_packet-AllBytes), ((omega arith, ack_packet-AllBytes), tt)) refl

-- A user that writes its next packet as soon as it can, and throws at every packet.
abbrev impatient : Slots
impatient = record {
  on_receive = λ p. throws (runtime_error "full");
  on_can_send = asks data_packet (λ taken. returns);
}

read_packet_with-then_slot_example :
    read_packet_with impatient busy ack_packet
    ≡ then_slot impatient busy (read_packet busy ack_packet)
read_packet_with-then_slot_example = read_packet_with-then_slot impatient busy ack_packet

read_packet_with-throw_example :
    let c' = (read_packet_with impatient (reliable_channel 7) data_packet).0.0 in
    (read_packet_with impatient (reliable_channel 7) data_packet
      ≡ ((c', receive (skip data_packet 6) ∷ []), throw (runtime_error "full")))
    × (read_packet_with impatient c' data_packet
        ≡ ((c', write (packet (ack_frame 7 1) 0 6) ∷ []), ok tt))
unfolding reliable_channel reliable_header htonl perform
read_packet_with-throw_example =
    read_packet_with-throw impatient impatient (reliable_channel 7) data_packet 7 1 payload
      (runtime_error "full") refl (omega arith) (omega arith) refl

-- A slot that hands the channel each packet again, and then throws; and one that sends when it can.
abbrev stubborn : Choices
stubborn = record {
  on_receive = λ p r. Nested.reads data_packet ∷ Nested.throws (runtime_error "full") ∷ [];
  on_can_send = λ r. Nested.writes data_packet ∷ [];
}

abbrev fresh_course : Course
fresh_course = record { channel = reliable_channel 7; effects = []; numbers = [] }

run_with-IsInOrder_example : IsInOrder (
    run_with
      (nested stubborn 4)
      (calls (Nested.reads data_packet) ∷ Nested.expires ∷ [])
      fresh_course)
run_with-IsInOrder_example =
    run_with-IsInOrder stubborn 4 (calls (Nested.reads data_packet) ∷ Nested.expires ∷ [])
      fresh_course (record { descending = tt; counted = refl })
