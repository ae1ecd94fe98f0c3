-- ===== src/Tunnel/Reliable/Nested.antt =====
-- net/Tunnel.ReliableChannel.cpp where slots of `receive` and `canSend` write packets to the channel and
-- hand it packets to read, in which they are called again, and where they throw.
pub mod Order
use wetnork.Base.{
  ℕ, zero, suc, List, [], ◌∷◌, Option, none, some, true, false, not, ◌&&◌, ltb, ◌==◌, if◌then◌else◌,
  bit_and,
}
use wetnork.Exceptions.{Exception, Outcome, ok, throw, fault, unfinished}
use wetnork.Packet.{Packet, get_data, skip}
use wetnork.Stream.{gather}
use wetnork.Tunnel.Header.{
  ReliablePacketHeader, reliable_header, reliable_size, read_reliable, get_seq, header_packet, ack,
}
use wetnork.Tunnel.Reliable.{
  ReliableChannel, Effect, write, receive, can_send, write_packet, on_timeout,
}
use wetnork.Tunnel.Reliable.Slots.{acked}

-- A channel with what it did to the outside, and the numbers of the packets that it passed on, each
-- with the last in front.
pub record Course : Type 0 where
  pub channel : ReliableChannel
  pub effects : List Effect
  pub numbers : List ℕ

abbrev pub M : Type 0
M = Course → Course × Outcome (Unit {0})

abbrev pub then_do : M → Course × Outcome (Unit {0}) → Course × Outcome (Unit {0})
then_do m (r, ok a) = m r
then_do m (r, throw e) = (r, throw e)
then_do m (r, fault) = (r, fault)
then_do m (r, unfinished) = (r, unfinished)

pub record Slots : Type 0 where
  pub on_receive : Packet → M
  pub on_can_send : M

abbrev pub send : Option Packet → M
send none r = (r, fault)
send (some frame) r = (record r { effects = write frame ∷ r.effects }, ok tt)

abbrev pub passed_on : ReliablePacketHeader → Packet → Course → Course
passed_on h p r = record {
  channel = record (r.channel) { peer_seq = get_seq h };
  effects = receive (skip p reliable_size) ∷ r.effects;
  numbers = get_seq h ∷ r.numbers;
}

module _ (slots : Slots) where
  unfoldable pub read_data_with : Packet → ReliablePacketHeader → M
  read_data_with p h r =
      let reply =
        send (gather (header_packet (reliable_header r.channel.cid ack (get_seq h)) ∷ [])) in
      if ltb r.channel.peer_seq (get_seq h)
      then then_do reply (slots.on_receive (skip p reliable_size) (passed_on h p r))
      else reply r

  unfoldable pub read_ack_with : M
  read_ack_with r =
      slots.on_can_send (record r { channel = acked r.channel; effects = can_send ∷ r.effects })

  unfoldable pub read_header_with : Packet → ReliablePacketHeader → M
  read_header_with p h r =
      (if not (bit_and h.flags ack == 0) && r.channel.local_seq == get_seq h
          then read_ack_with
          else if h.flags == 0
          then read_data_with p h
          else (λ r'. (r', ok tt)))
        r

  abbrev pub with_header : Packet → Option ReliablePacketHeader → M
  with_header p none r = (r, fault)
  with_header p (some h) r = read_header_with p h r

  unfoldable pub read_packet_with : Packet → M
  read_packet_with p = with_header p (read_reliable (get_data p))

-- What the user of a channel, and its slots, do.
pub data Call : Type 0 where
  reads writes : Packet → Call
  throws : Exception → Call

unfoldable pub perform_with : Slots → Call → M
perform_with slots (reads p) r = read_packet_with slots p r
perform_with slots (writes p) r = (record r { channel = (write_packet r.channel p).0 }, ok tt)
perform_with slots (throws e) r = (r, throw e)

unfoldable pub make_calls : Slots → List Call → M
make_calls slots [] r = (r, ok tt)
make_calls slots (c ∷ cs) r = then_do (make_calls slots cs) (perform_with slots c r)

-- Which calls slots make, in view of all that has happened.
pub record Choices : Type 0 where
  pub on_receive : Packet → Course → List Call
  pub on_can_send : Course → List Call

unfoldable pub nested : Choices → ℕ → Slots
nested choices zero = record {
  on_receive = λ p r. (r, unfinished);
  on_can_send = λ r. (r, unfinished);
}
nested choices (suc depth) = record {
  on_receive = λ p r. make_calls (nested choices depth) (choices.on_receive p r) r;
  on_can_send = λ r. make_calls (nested choices depth) (choices.on_can_send r) r;
}

-- In its event loop, the user calls the channel, or libev does when its timer runs out.
pub data Event : Type 0 where
  calls : Call → Event
  expires : Event

abbrev pub recorded : List Effect → List Effect → List Effect
recorded [] es = es
recorded (f ∷ fs) es = recorded fs (f ∷ es)

abbrev pub timed_out : Course → Option (ReliableChannel × List Effect) → Course × Outcome (Unit {0})
timed_out r none = (r, fault)
timed_out r (some (c, fs)) = (record r { channel = c; effects = recorded fs r.effects }, ok tt)

-- libev stops a timer before it calls `onTimeout`.
abbrev pub expire : M
expire r = timed_out r (on_timeout (record (r.channel) { timeout_active = false }))

unfoldable pub handle_with : Slots → Event → M
handle_with slots (calls c) r = perform_with slots c r
handle_with slots expires r = (if r.channel.timeout_active then expire else (λ r'. (r', ok tt))) r

-- The loop goes on whatever became of an event.
unfoldable pub run_with : Slots → List Event → Course → Course
run_with slots [] r = r
run_with slots (e ∷ es) r = run_with slots es (handle_with slots e r).0
