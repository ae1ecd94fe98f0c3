-- ===== src/Tunnel/Protocol/Examples.antt =====
-- Two reliable channels of net/Tunnel.ReliableChannel.cpp: the first payload is offered, sent,
-- acknowledged, then the second one, whose frame is still on its way back.
use wetnork.Base.{
  ℕ, ◌+◌, ◌≤◌, ◌≡◌, refl, List, [], ◌∷◌, Option, none, some, Bool, true, false, length, take, drop,
  arith,
}
use wetnork.Packet.{Packet, packet, skip}
use wetnork.Memory.{load, store}
use wetnork.Stream.{gather, sum_lengths, copy_packets}
use wetnork.Tunnel.Header.{htonl, ntohl, reliable_header, get_seq, read_reliable}
use wetnork.Tunnel.Reliable.{
  ReliableChannel, reliable_channel, write_packet, on_timeout, transmit_queue, transmit_packet,
  read_packet, read_header, read_data,
}
use wetnork.Tunnel.Protocol.{System, Step, offer, fire, arrive, return, Reach, start, next, init}
use wetnork.Tunnel.Protocol.Safety.{delivered-Reach}
use wetnork.Tunnel.Protocol.Queue.{Move, view, Step-Move}

abbrev first : Packet
first = packet (65 ∷ 66 ∷ []) 0 2

abbrev second : Packet
second = packet (67 ∷ []) 0 1

abbrev channel : Bool → Option Packet → ℕ → ℕ → ReliableChannel
channel on q local peer = record {
  cid = 7;
  timeout_active = on;
  in_flight_packet = q;
  local_seq = local;
  peer_seq = peer;
}

abbrev frame0 : List ℕ
frame0 = 7 ∷ 0 ∷ 0 ∷ 0 ∷ 0 ∷ 0 ∷ 65 ∷ 66 ∷ []

abbrev frame1 : List ℕ
frame1 = 7 ∷ 0 ∷ 0 ∷ 0 ∷ 0 ∷ 1 ∷ 67 ∷ []

abbrev ack0 : List ℕ
ack0 = 7 ∷ 1 ∷ 0 ∷ 0 ∷ 0 ∷ 0 ∷ []

abbrev ack1 : List ℕ
ack1 = 7 ∷ 1 ∷ 0 ∷ 0 ∷ 0 ∷ 1 ∷ []

abbrev system :
    ReliableChannel
    → ReliableChannel
    → List (List ℕ)
    → List (List ℕ)
    → List (List ℕ)
    → List (List ℕ)
    → System
system s r wire back accepted delivered = record {
  sender = s;
  receiver = r;
  wire = wire;
  back = back;
  accepted = accepted;
  delivered = delivered;
}

abbrev fst_bytes : List (List ℕ)
fst_bytes = (65 ∷ 66 ∷ []) ∷ []

abbrev both_bytes : List (List ℕ)
both_bytes = (65 ∷ 66 ∷ []) ∷ (67 ∷ []) ∷ []

abbrev offered : System
offered = system (channel false (some first) 0 0) (channel false none 0 0) [] [] fst_bytes []

abbrev sent : System
sent = system (channel true (some first) 0 0) (channel false none 0 0) (frame0 ∷ []) [] fst_bytes []

abbrev arrived : System
arrived =
    system (channel true (some first) 0 0) (channel false none 0 0) (frame0 ∷ []) (ack0 ∷ [])
      fst_bytes []

abbrev released : System
released =
    system (channel false none 1 0) (channel false none 0 0) (frame0 ∷ []) (ack0 ∷ []) fst_bytes []

abbrev offered_again : System
offered_again =
    system (channel false (some second) 1 0) (channel false none 0 0) (frame0 ∷ []) (ack0 ∷ [])
      both_bytes []

abbrev sent_again : System
sent_again =
    system (channel true (some second) 1 0) (channel false none 0 0) (frame0 ∷ frame1 ∷ [])
      (ack0 ∷ []) both_bytes []

abbrev passed_on : System
passed_on =
    system (channel true (some second) 1 0) (channel false none 0 1) (frame0 ∷ frame1 ∷ [])
      (ack0 ∷ ack1 ∷ []) both_bytes ((67 ∷ []) ∷ [])

released-Reach : Reach 7 released
unfolding init reliable_channel write_packet on_timeout transmit_queue transmit_packet gather
    sum_lengths copy_packets reliable_header htonl read_packet read_header read_data read_reliable
    get_seq ntohl load store
released-Reach =
    next {s = arrived}
      (next {s = sent}
        (next {s = offered}
          (next {t = offered} start (offer first (omega arith) (omega arith) refl))
          (fire _ _ refl refl))
        (arrive 0 (packet frame0 0 8) refl _ _ refl refl))
      (return 0 (packet ack0 0 6) refl _ _ refl refl)

sent_again-Reach : Reach 7 sent_again
unfolding write_packet on_timeout transmit_queue transmit_packet gather sum_lengths copy_packets
    reliable_header htonl load store
sent_again-Reach =
    next {s = offered_again}
      (next {t = offered_again} released-Reach (offer second (omega arith) (omega arith) refl))
      (fire _ _ refl refl)

last_step : Step sent_again passed_on
unfolding transmit_packet gather sum_lengths copy_packets reliable_header htonl read_packet
    read_header read_data read_reliable get_seq ntohl load store skip
last_step = arrive 1 (packet frame1 0 7) refl _ _ refl refl

passed_on-Reach : Reach 7 passed_on
passed_on-Reach = next sent_again-Reach last_step

delivered-Reach_example :
    (passed_on.delivered ≡ take 1 (drop 1 both_bytes))
    × (1 ≤ 1)
    × (1 ≤ 1 + 1)
    × (length both_bytes ≤ 1 + 1)
delivered-Reach_example = delivered-Reach passed_on-Reach (omega arith)

Step-Move_example : Move (view sent_again) (view passed_on)
Step-Move_example = Step-Move sent_again-Reach (omega arith) last_step
