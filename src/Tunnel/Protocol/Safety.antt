-- ===== src/Tunnel/Protocol/Safety.antt =====
-- What the receiver of net/Tunnel.ReliableChannel.cpp has passed on, in every reachable state.
use wetnork.Base.{
  ℕ, ◌+◌, ◌^◌, ◌≤◌, ◌<◌, ◌≡◌, List, [], ◌∷◌, Option, none, some, Bool, true, false, length, take,
  drop, All-get, arith, length-append,
}
use wetnork.Packet.{Packet, bytes}
use wetnork.Tunnel.Reliable.{write_packet}
use wetnork.Tunnel.Protocol.{System, Step, offer, fire, arrive, return, add_if, Reach, start, next}
use wetnork.Tunnel.Protocol.Invariant.{IsPending, Inv, init-Inv, offer-Inv, fire-Inv}
use wetnork.Tunnel.Protocol.Arrivals.{arrive-Inv, return-Inv}

length-add_if : (b : Bool) (ms : List (List ℕ)) (m : List ℕ) → length ms ≤ length (add_if b ms m)
length-add_if true ms m = omega (arith, length-append ms (m ∷ []))
length-add_if false ms m = omega arith

-- Accepted payloads are never forgotten.
Step-accepted : {s t : System} → Step s t → length s.accepted ≤ length t.accepted
Step-accepted {s} (offer p v h e) =
    rw e (length-add_if (write_packet s.sender p).1 s.accepted (bytes p))
Step-accepted (fire c es r e) = rw e (omega arith)
Step-accepted (arrive i f g c es r e) = rw e (omega arith)
Step-accepted (return i f g c es r e) = rw e (omega arith)

Step-Inv : {s t : System} → length s.accepted < 2 ^ 32 → Step s t → Inv s → Inv t
Step-Inv {s} small (offer p v h e) inv = rw e (offer-Inv s p v h inv)
Step-Inv {s} small (fire c es r e) inv = rw e (fire-Inv s c es r inv)
Step-Inv {s} small (arrive i f g c es r e) inv =
    rw e (arrive-Inv s f c es small (All-get _ s.wire i g inv.data_ok) r inv)
Step-Inv {s} small (return i f g c es r e) inv =
    rw e (return-Inv s f c es small (All-get _ s.back i g inv.acks_ok) r inv)

IsPending-le :
    (ms : List (List ℕ)) (n : ℕ) (q : Option Packet) → IsPending ms n q → length ms ≤ n + 1
IsPending-le ms n none e = omega arith
IsPending-le ms n (some p) e = omega (arith, e.0)

-- As long as the 32-bit numbers have not been used up, the invariant holds in every reachable state.
pub Reach-Inv : {cid : ℕ} {s : System} → Reach cid s → length s.accepted < 2 ^ 32 → Inv s
Reach-Inv {cid} start small = init-Inv cid
Reach-Inv (next {s} r st) small =
    let before : length s.accepted < 2 ^ 32 = omega (arith, Step-accepted st) in
    Step-Inv before st (Reach-Inv r before)

-- In every reachable state, whatever the network loses, repeats or reorders: until 2^32 payloads
-- have been accepted, what the receiver has passed on are the payloads that the sender accepted, in
-- order and each once, from the second one on, as many as the receiver's last number says; and the
-- sender is at most one packet ahead of that.
pub delivered-Reach :
    {cid : ℕ} {s : System}
    → Reach cid s
    → length s.accepted < 2 ^ 32
    → (s.delivered ≡ take s.receiver.peer_seq (drop 1 s.accepted))
      × (s.receiver.peer_seq ≤ s.sender.local_seq)
      × (s.sender.local_seq ≤ s.receiver.peer_seq + 1)
      × (length s.accepted ≤ s.sender.local_seq + 1)
delivered-Reach r small =
    let inv = Reach-Inv r small in
    (inv.delivered_is, inv.peer_le, inv.seq_le, omega (arith, IsPending-le _ _ _ inv.pending))
