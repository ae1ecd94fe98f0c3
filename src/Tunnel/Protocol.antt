-- ===== src/Tunnel/Protocol.antt =====
-- Two reliable channels of net/Tunnel.ReliableChannel.cpp over a network that loses, repeats,
-- delays and reorders packets, but does not alter them: one sends, the other receives.
-- The timer of the sender may fire at any time, also where it was not started: every schedule that
-- libev allows is one of these, but not the other way round. In the source the timer never starts
-- (Tunnel/Reliable/Timer), so what is shown here are properties of safety, and none of progress. A write
-- of the stream below that throws is a packet that is lost.

pub mod Invariant
pub mod Arrivals
pub mod Safety
pub mod Queue
mod Examples
use wetnork.Base.{ℕ, ◌+◌, ◌<◌, ◌^◌, ◌≡◌, List, [], ◌∷◌, ◌++◌, some, Bool, true, false, get_elem?}
use wetnork.Packet.{Packet, bytes, IsValid}
use wetnork.Tunnel.Header.{reliable_size}
use wetnork.Tunnel.Reliable.{
  ReliableChannel, Effect, write, receive, reliable_channel, on_timeout, write_packet, read_packet,
}

-- What a list of effects puts on the network, and what it hands to the user.
abbrev pub written : List Effect → List (List ℕ)
written [] = []
written (write p ∷ es) = bytes p ∷ written es
written (_ ∷ es) = written es

abbrev pub received : List Effect → List (List ℕ)
received [] = []
received (receive p ∷ es) = bytes p ∷ received es
received (_ ∷ es) = received es

-- `wire` and `back` hold what was ever sent in each direction; `accepted` holds the payloads for
-- which `writePacket` said true, and `delivered` those that the receiver passed on.
pub record System : Type 0 where
  pub sender : ReliableChannel
  pub receiver : ReliableChannel
  pub wire : List (List ℕ)
  pub back : List (List ℕ)
  pub accepted : List (List ℕ)
  pub delivered : List (List ℕ)

abbrev pub add_if : Bool → List (List ℕ) → List ℕ → List (List ℕ)
add_if true ms m = ms ++ m ∷ []
add_if false ms m = ms

pub data Step (s t : System) : Type 0 where
  offer :
      (p : Packet)
      → IsValid p
      → reliable_size + p.length_ < 2 ^ 64
      → t ≡ record s {
        sender = (write_packet s.sender p).0;
        accepted = add_if (write_packet s.sender p).1 s.accepted (bytes p);
      }
      → Step s t
  fire :
      (c : ReliableChannel) (es : List Effect)
      → on_timeout s.sender ≡ some (c, es)
      → t ≡ record s { sender = c; wire = s.wire ++ written es }
      → Step s t
  arrive :
      (i : ℕ) (f : Packet)
      → get_elem? s.wire i ≡ some (bytes f)
      → (c : ReliableChannel) (es : List Effect) → read_packet s.receiver f ≡ some (c, es)
      → t ≡ record s {
        receiver = c;
        back = s.back ++ written es;
        delivered = s.delivered ++ received es;
      }
      → Step s t
  return :
      (i : ℕ) (f : Packet)
      → get_elem? s.back i ≡ some (bytes f)
      → (c : ReliableChannel) (es : List Effect) → read_packet s.sender f ≡ some (c, es)
      → t ≡ record s { sender = c; wire = s.wire ++ written es }
      → Step s t

unfoldable pub init : ℕ → System
init cid = record {
  sender = reliable_channel cid;
  receiver = reliable_channel cid;
  wire = [];
  back = [];
  accepted = [];
  delivered = [];
}

pub data Reach (cid : ℕ) : System → Type 0 where
  start : Reach cid (init cid)
  next : {s t : System} → Reach cid s → Step s t → Reach cid t
