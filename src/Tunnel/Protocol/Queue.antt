-- ===== src/Tunnel/Protocol/Queue.antt =====
-- What two channels of net/Tunnel.ReliableChannel.cpp come to for their users: a queue, of which the
-- network, the timer and the numbers are no part.
use mathlib.Core.List.{append-nil}
use wetnork.Base.{
  ℕ, suc, ◌^◌, ◌≤◌, ◌<◌, ◌≡◌, refl, ap, ◌∙◌, subst, List, [], ◌∷◌, ◌++◌, some, Bool, true, false,
  inl, inr, length, drop, get_elem?, All-get, arith, Bool-cases, same_result, ltb, ltb→lt,
  length-take, length-drop,
}
use wetnork.Packet.{Packet, bytes, skip}
use wetnork.Packet.View.{bytes-skip}
use wetnork.Tunnel.Header.{reliable_size}
use wetnork.Tunnel.Reliable.{ReliableChannel, Effect, read_packet, write_packet}
use wetnork.Tunnel.Reliable.Replies.{data_frame, read_packet-data_frame}
use wetnork.Tunnel.Protocol.{System, Step, offer, fire, arrive, return, received, add_if, Reach}
use wetnork.Tunnel.Protocol.Invariant.{IsDataOf, Inv, get_elem?-lt}
use wetnork.Tunnel.Protocol.Safety.{Reach-Inv}

-- The payloads that were accepted, and those that were delivered.
pub record Queue : Type 0 where
  pub sent : List (List ℕ)
  pub got : List (List ℕ)

-- A payload is added at the end, or the one after the last one delivered is delivered, where the
-- first payload counts as delivered from the start; or nothing happens.
pub data Move (s t : Queue) : Type 0 where
  send : (m : List ℕ) → t ≡ record s { sent = s.sent ++ m ∷ [] } → Move s t
  deliver :
      (m : List ℕ)
      → get_elem? s.sent (suc (length s.got)) ≡ some m
      → t ≡ record s { got = s.got ++ m ∷ [] }
      → Move s t
  stay : t ≡ s → Move s t

abbrev pub view : System → Queue
view s = record { sent = s.accepted; got = s.delivered }

add_if-Move : (b : Bool) (m : List ℕ) (s : Queue) → Move s (record s { sent = add_if b s.sent m })
add_if-Move true m s = send m refl
add_if-Move false m s = stay refl

length-delivered :
    (s : System) (k : ℕ)
    → Inv s
    → k ≡ suc s.receiver.peer_seq
    → k < length s.accepted
    → k ≡ suc (length s.delivered)
length-delivered s k inv here count =
    let size = ap length inv.delivered_is in
    omega
      (arith, size, length-take s.receiver.peer_seq (drop 1 s.accepted), length-drop 1 s.accepted)

deliver-Move :
    (s : System) (cid k : ℕ) (m : List ℕ) (f : Packet)
    → bytes f ≡ data_frame cid k m
    → get_elem? s.accepted k ≡ some m
    → k ≤ s.sender.local_seq
    → s.receiver.peer_seq < k
    → Inv s
    → Move
        (view s)
        (record { sent = s.accepted; got = s.delivered ++ bytes (skip f reliable_size) ∷ [] })
deliver-Move s cid k m f frame known le new inv =
    let count : k < length s.accepted = get_elem?-lt s.accepted k known in
    let here : k ≡ suc (length s.delivered) =
      length-delivered s k inv (omega (arith, inv.seq_le)) count in
    deliver m (subst (λ (j : ℕ). get_elem? s.accepted j ≡ some m) here known) (
      ap (λ x. record { sent = s.accepted; got = s.delivered ++ x ∷ [] })
        (bytes-skip f reliable_size ∙ ap (drop reliable_size) frame))

stay-Move : (s : System) → Move (view s) (record { sent = s.accepted; got = s.delivered ++ [] })
stay-Move s = stay (ap (λ d. record { sent = s.accepted; got = d }) (append-nil s.delivered))

arrive-Move :
    (s : System) (f : Packet) (c : ReliableChannel) (es : List Effect)
    → length s.accepted < 2 ^ 32
    → IsDataOf s.accepted s.sender.local_seq (bytes f)
    → read_packet s.receiver f ≡ some (c, es)
    → Inv s
    → Move (view s) (record { sent = s.accepted; got = s.delivered ++ received es })
arrive-Move s f c es small (cid, k, m, frame, known, le) e inv =
    let count : k < length s.accepted = get_elem?-lt s.accepted k known in
    let read = read_packet-data_frame s.receiver f cid k m frame (omega arith) in
    elim (Bool-cases (ltb s.receiver.peer_seq k)) [
      | inl new ↦
          same_result P e (rw new at read)
            (deliver-Move s cid k m f frame known le (ltb→lt _ _ new) inv)
      | inr old ↦ same_result P e (rw old at read) (stay-Move s)
    ]
  where
    P : ReliableChannel → List Effect → Type 0
    P c es = Move (view s) (record { sent = s.accepted; got = s.delivered ++ received es })

-- Two channels over any network implement the queue: until 2^32 payloads have been accepted, every
-- step from a reachable state, be it of the user, the timer or the network, is for the users a move
-- of the queue or nothing at all.
pub Step-Move :
    {cid : ℕ} {s t : System}
    → Reach cid s
    → length s.accepted < 2 ^ 32
    → Step s t
    → Move (view s) (view t)
Step-Move {s} r small (offer p v h e) =
    rw e (add_if-Move (write_packet s.sender p).1 (bytes p) (view s))
Step-Move r small (fire c es q e) = rw e (stay refl)
Step-Move {s} r small (arrive i f g c es q e) =
    let inv = Reach-Inv r small in
    rw e (arrive-Move s f c es small (All-get _ s.wire i g inv.data_ok) q inv)
Step-Move r small (return i f g c es q e) = rw e (stay refl)
