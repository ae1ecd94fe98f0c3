-- ===== src/Tunnel/Reliable/Nested/Order.antt =====
-- The numbers of the packets that a channel of net/Tunnel.ReliableChannel.cpp passes on, with slots that
-- call it back.
use wetnork.Base.{
  ℕ, zero, suc, ◌≤◌, ◌<◌, ◌≡◌, refl, sym, subst, List, [], ◌∷◌, length, Option, none, some, Bool,
  true, false, not, ◌&&◌, ltb, ◌==◌, if◌then◌else◌, bit_and, arith, Bool-cases, Option-cases, inl,
  inr,
}
use wetnork.Exceptions.{Outcome, ok, throw, fault, unfinished}
use wetnork.Packet.{Packet, get_data, skip}
use wetnork.Stream.{gather}
use wetnork.Tunnel.Header.{
  ReliablePacketHeader, reliable_header, reliable_size, read_reliable, get_seq, header_packet, ack,
}
use wetnork.Tunnel.Reliable.{
  ReliableChannel, Effect, receive, on_timeout, transmit_queue, transmit_packet,
}
use wetnork.Tunnel.Reliable.Replies.{write_packet_lem}
use wetnork.Tunnel.Reliable.Nested.{
  Course, M, then_do, Slots, send, passed_on, read_data_with, read_ack_with, read_header_with,
  read_packet_with, Call, reads, writes, throws, perform_with, make_calls, Choices, nested, Event,
  calls, expires, timed_out, expire, handle_with, run_with,
}

-- The numbers fall from below the bound.
abbrev pub IsDescending : ℕ → List ℕ → Type 0
IsDescending bound [] = Unit
IsDescending bound (n ∷ ns) = (n < bound) × IsDescending n ns

abbrev pub received : List Effect → ℕ
received [] = 0
received (receive p ∷ es) = suc (received es)
received (_ ∷ es) = received es

-- The last packet that was passed on has the largest number of all, there is one number for each that
-- was, and the channel's `peerSeq` is not below them.
pub record IsInOrder (r : Course) : Type 0 where
  pub descending : IsDescending (suc r.channel.peer_seq) r.numbers
  pub counted : received r.effects ≡ length r.numbers

abbrev Keeps : M → Type 0
Keeps m = (r : Course) → IsInOrder r → IsInOrder (m r).0

raise_bound : (m n : ℕ) (ns : List ℕ) → m ≤ n → IsDescending m ns → IsDescending n ns
raise_bound m n [] h d = tt
raise_bound m n (k ∷ ns) h (below, d) = (omega (arith, h, below), d)

then_do-IsInOrder :
    (m : M) (x : Course × Outcome (Unit {0})) → Keeps m → IsInOrder x.0 → IsInOrder (then_do m x).0
then_do-IsInOrder m (r, ok a) keep h = keep r h
then_do-IsInOrder m (r, throw e) keep h = h
then_do-IsInOrder m (r, fault) keep h = h
then_do-IsInOrder m (r, unfinished) keep h = h

send-Keeps : (frame : Option Packet) → Keeps (send frame)
send-Keeps none r h = h
send-Keeps (some frame) r h = record { descending = h.descending; counted = h.counted }

choice-Keeps : (b : Bool) (m m' : M) → Keeps m → Keeps m' → Keeps (if b then m else m')
choice-Keeps true m m' p q = p
choice-Keeps false m m' p q = q

passed_on-IsInOrder :
    (h : ReliablePacketHeader) (p : Packet) (r : Course)
    → r.channel.peer_seq < get_seq h
    → IsInOrder r
    → IsInOrder (passed_on h p r)
passed_on-IsInOrder h p r above i = record {
  descending =
      (omega arith, raise_bound (suc r.channel.peer_seq) (get_seq h) r.numbers above i.descending);
  counted = omega (arith, i.counted);
}

moved :
    (r : Course) (c : ReliableChannel)
    → c.peer_seq ≡ r.channel.peer_seq
    → IsInOrder r
    → IsDescending (suc c.peer_seq) r.numbers
moved r c same i = subst (λ n. IsDescending (suc n) r.numbers) (sym same) i.descending

-- A timeout does nothing to the outside, or writes the packet in flight.
timed_out-IsInOrder :
    (r : Course) (c : ReliableChannel)
    → c.peer_seq ≡ r.channel.peer_seq
    → IsInOrder r
    → IsInOrder (timed_out r (on_timeout c)).0
unfolding on_timeout transmit_queue transmit_packet
timed_out-IsInOrder r c same i = elim (Option-cases c.in_flight_packet) [
  | inl e ↦ rw e (record { descending = moved r c same i; counted = i.counted })
  | inr (p, e) ↦
      let header = header_packet (reliable_header c.cid 0 c.local_seq) in
      elim (Option-cases (gather (header ∷ p ∷ []))) [
        | inl undefined ↦ rw (e, undefined) i
        | inr (frame, sent) ↦
            rw (e, sent) (record { descending = moved r c same i; counted = i.counted })
      ]
]

record AreKeeping (slots : Slots) : Type 0 where
  received-Keeps : (p : Packet) → Keeps (slots.on_receive p)
  can_send-Keeps : Keeps slots.on_can_send

module _ (slots : Slots) (keep : AreKeeping slots) where
  read_data-Keeps : (p : Packet) (h : ReliablePacketHeader) → Keeps (read_data_with slots p h)
  unfolding read_data_with
  read_data-Keeps p h r i =
      let frame = gather (header_packet (reliable_header r.channel.cid ack (get_seq h)) ∷ []) in
      elim (Bool-cases (ltb r.channel.peer_seq (get_seq h))) [
        | inl new ↦ rw new (
            then_do-IsInOrder (send frame)
              (slots.on_receive (skip p reliable_size) (passed_on h p r)) (send-Keeps frame)
              (keep.received-Keeps (skip p reliable_size) (passed_on h p r)
                (passed_on-IsInOrder h p r (ground (arith, new)) i)))
        | inr old ↦ rw old (send-Keeps frame r i)
      ]

  read_ack-Keeps : Keeps (read_ack_with slots)
  unfolding read_ack_with
  read_ack-Keeps r i =
      keep.can_send-Keeps _ (record { descending = i.descending; counted = i.counted })

  read_packet-Keeps : (p : Packet) → Keeps (read_packet_with slots p)
  unfolding read_packet_with read_header_with
  read_packet-Keeps p r i = elim (Option-cases (read_reliable (get_data p))) [
    | inl e ↦ rw e i
    | inr (h, e) ↦ rw e (
        choice-Keeps (not (bit_and h.flags ack == 0) && r.channel.local_seq == get_seq h)
          (read_ack_with slots)
          (if h.flags == 0 then read_data_with slots p h else (λ r'. (r', ok tt))) read_ack-Keeps
          (choice-Keeps (h.flags == 0) (read_data_with slots p h) (λ r'. (r', ok tt))
            (read_data-Keeps p h) (λ r' j. j))
          r i)
  ]

  write_packet-Keeps : (p : Packet) → Keeps (perform_with slots (writes p))
  unfolding perform_with
  write_packet-Keeps p r i = elim (Option-cases r.channel.in_flight_packet) [
    | inl e ↦
        rw ((write_packet_lem r.channel p).0 e)
          (record { descending = i.descending; counted = i.counted })
    | inr (q, e) ↦
        rw ((write_packet_lem r.channel p).1 q e)
          (record { descending = i.descending; counted = i.counted })
  ]

  perform_with-Keeps : (c : Call) → Keeps (perform_with slots c)
  unfolding perform_with
  perform_with-Keeps (reads p) r i = read_packet-Keeps p r i
  perform_with-Keeps (writes p) r i = write_packet-Keeps p r i
  perform_with-Keeps (throws e) r i = i

  make_calls-Keeps : (cs : List Call) → Keeps (make_calls slots cs)
  unfolding make_calls
  make_calls-Keeps [] r i = i
  make_calls-Keeps (c ∷ cs) r i =
      then_do-IsInOrder (make_calls slots cs) (perform_with slots c r) (make_calls-Keeps cs)
        (perform_with-Keeps c r i)

  handle_with-Keeps : (e : Event) → Keeps (handle_with slots e)
  unfolding handle_with
  handle_with-Keeps (calls c) r i = perform_with-Keeps c r i
  handle_with-Keeps expires r i =
      choice-Keeps r.channel.timeout_active expire (λ r'. (r', ok tt))
        (λ r' j. timed_out-IsInOrder r' (record (r'.channel) { timeout_active = false }) refl j)
        (λ r' j. j) r i

nested-AreKeeping : (choices : Choices) (depth : ℕ) → AreKeeping (nested choices depth)
unfolding nested
nested-AreKeeping choices zero = record { received-Keeps = λ p r i. i; can_send-Keeps = λ r i. i }
nested-AreKeeping choices (suc depth) =
    let keep = nested-AreKeeping choices depth in
    record {
      received-Keeps =
          λ p r. make_calls-Keeps (nested choices depth) keep (choices.on_receive p r) r;
      can_send-Keeps = λ r. make_calls-Keeps (nested choices depth) keep (choices.on_can_send r) r;
    }

-- Slots of `receive` and `canSend` may write packets to the channel and hand it packets to read, in which
-- they are called again, to any depth, and they may throw. Whatever the user and the timer do, the numbers
-- of the packets that are passed on keep rising, so that none is passed on twice, if they did before and
-- `peerSeq` was not below them.
pub run_with-IsInOrder :
    (choices : Choices) (depth : ℕ) (es : List Event) (r : Course)
    → IsInOrder r
    → IsInOrder (run_with (nested choices depth) es r)
unfolding run_with
run_with-IsInOrder choices depth [] r i = i
run_with-IsInOrder choices depth (e ∷ es) r i =
    run_with-IsInOrder choices depth es _
      (handle_with-Keeps (nested choices depth) (nested-AreKeeping choices depth) e r i)
