-- ===== src/Tunnel/Protocol/Arrivals.antt =====
-- Frames that arrive at a channel of net/Tunnel.ReliableChannel.cpp, and the invariant.
use wetnork.Base.{
  ℕ, suc, ◌+◌, ◌^◌, ◌≤◌, ◌<◌, ◌≡◌, refl, ap, ◌∙◌, sym, subst, List, [], ◌∷◌, ◌++◌, Option, none,
  some, inl, inr, false, length, take, drop, get_elem?, All-append, All-map, arith, take-suc,
  Bool-cases, same_result, ltb, ltb→lt, ◌==◌, ==_iff,
}
use mathlib.Core.List.{append-nil}
use wetnork.Packet.{Packet, bytes, skip}
use wetnork.Packet.View.{bytes-skip}
use wetnork.Tunnel.Header.{reliable_size}
use wetnork.Tunnel.Reliable.{ReliableChannel, Effect, read_packet, u32}
use wetnork.Tunnel.Reliable.Replies.{
  ack_frame, data_frame, read_packet-data_frame, read_packet-ack_frame,
}
use wetnork.Tunnel.Protocol.{System, written, received}
use wetnork.Tunnel.Protocol.Invariant.{IsPending, IsDataOf, IsAckOf, Inv, get_elem?-lt}

get_elem?-drop_one : (ms : List (List ℕ)) (i : ℕ) → get_elem? ms (suc i) ≡ get_elem? (drop 1 ms) i
get_elem?-drop_one [] i = refl
get_elem?-drop_one (x ∷ ms) i = refl

IsAckOf-raise :
    (ms : List (List ℕ)) (n n' : ℕ) → n ≤ n' → (f : List ℕ) → IsAckOf ms n f → IsAckOf ms n' f
IsAckOf-raise ms n n' h f (cid, k, e, le, l) = (cid, k, e, omega arith, l)

IsDataOf-raise :
    (ms : List (List ℕ)) (n n' : ℕ) → n ≤ n' → (f : List ℕ) → IsDataOf ms n f → IsDataOf ms n' f
IsDataOf-raise ms n n' h f (cid, k, m, e, g, le) = (cid, k, m, e, g, omega arith)

-- A number above those seen is the next one, and its payload the next to be delivered.
fresh-Inv :
    (s : System) (cid k : ℕ) (m : List ℕ) (f : Packet)
    → bytes f ≡ data_frame cid k m
    → get_elem? s.accepted k ≡ some m
    → k ≤ s.sender.local_seq
    → s.receiver.peer_seq < k
    → Inv s
    → Inv (record s {
      receiver = record s.receiver { peer_seq = k };
      back = s.back ++ ack_frame s.receiver.cid k ∷ [];
      delivered = s.delivered ++ bytes (skip f reliable_size) ∷ [];
    })
fresh-Inv s cid k m f frame known le new inv =
    let peer = s.receiver.peer_seq in
    let here : k ≡ suc peer = omega (arith, inv.seq_le) in
    let count : k < length s.accepted = get_elem?-lt s.accepted k known in
    let next : get_elem? (drop 1 s.accepted) peer ≡ some m =
      sym (get_elem?-drop_one s.accepted peer)
      ∙ subst (λ (j : ℕ). get_elem? s.accepted j ≡ some m) here known in
    let payload : bytes (skip f reliable_size) ≡ m =
      bytes-skip f reliable_size ∙ ap (drop reliable_size) frame in
    record {
      pending = inv.pending;
      data_ok = inv.data_ok;
      acks_ok =
          All-append (IsAckOf s.accepted k) s.back _
            (All-map _ _ (IsAckOf-raise s.accepted peer k (omega arith)) s.back inv.acks_ok)
            ((s.receiver.cid, k, refl, omega arith, count), tt);
      peer_le = le;
      seq_le = omega (arith, inv.seq_le);
      peer_known = omega arith;
      delivered_is =
          ap (λ d. d ++ bytes (skip f reliable_size) ∷ []) inv.delivered_is
          ∙ ap (λ x. take peer (drop 1 s.accepted) ++ x ∷ []) payload
          ∙ sym (take-suc peer (drop 1 s.accepted) next)
          ∙ ap (λ n. take n (drop 1 s.accepted)) (sym here);
    }

repeat-Inv :
    (s : System) (k : ℕ)
    → k < length s.accepted
    → k ≤ s.receiver.peer_seq
    → Inv s
    → Inv (record s {
      back = s.back ++ ack_frame s.receiver.cid k ∷ [];
      delivered = s.delivered ++ [];
    })
repeat-Inv s k count old inv = record {
  pending = inv.pending;
  data_ok = inv.data_ok;
  acks_ok =
      All-append (IsAckOf s.accepted s.receiver.peer_seq) s.back _ inv.acks_ok
        ((s.receiver.cid, k, refl, old, count), tt);
  peer_le = inv.peer_le;
  seq_le = inv.seq_le;
  peer_known = inv.peer_known;
  delivered_is = append-nil s.delivered ∙ inv.delivered_is;
}

-- A data packet that arrives leaves the receiver in step with the sender.
pub arrive-Inv :
    (s : System) (f : Packet) (c : ReliableChannel) (es : List Effect)
    → length s.accepted < 2 ^ 32
    → IsDataOf s.accepted s.sender.local_seq (bytes f)
    → read_packet s.receiver f ≡ some (c, es)
    → Inv s
    → Inv (record s {
      receiver = c;
      back = s.back ++ written es;
      delivered = s.delivered ++ received es;
    })
arrive-Inv s f c es small (cid, k, m, frame, known, le) e inv =
    let count : k < length s.accepted = get_elem?-lt s.accepted k known in
    let read = read_packet-data_frame s.receiver f cid k m frame (omega arith) in
    elim (Bool-cases (ltb s.receiver.peer_seq k)) [
      | inl new ↦
          same_result P e (rw new at read)
            (fresh-Inv s cid k m f frame known le (ltb→lt _ _ new) inv)
      | inr old ↦ same_result P e (rw old at read) (repeat-Inv s k count (ground arith) inv)
    ]
  where
    P : ReliableChannel → List Effect → Type 0
    P c es = Inv (record s {
      receiver = c;
      back = s.back ++ written es;
      delivered = s.delivered ++ received es;
    })

IsPending-flying :
    (ms : List (List ℕ)) (n : ℕ) (q : Option Packet)
    → n < length ms
    → IsPending ms n q
    → length ms ≡ suc n
IsPending-flying ms n none h e = absurd (omega arith)
IsPending-flying ms n (some p) h e = e.0

-- The acknowledgement of the packet in flight: the next number waits for the next packet.
released-Inv :
    (s : System)
    → length s.accepted < 2 ^ 32
    → s.sender.local_seq ≤ s.receiver.peer_seq
    → s.sender.local_seq < length s.accepted
    → Inv s
    → Inv (record s {
      sender = record s.sender {
        local_seq = u32 (s.sender.local_seq + 1);
        in_flight_packet = none;
        timeout_active = false;
      };
      wire = s.wire ++ [];
    })
released-Inv s small acked flying inv =
    let n = s.sender.local_seq in
    let step : u32 (n + 1) ≡ suc n = omega arith in
    rw (step, append-nil s.wire)
      (record {
        pending = IsPending-flying s.accepted n s.sender.in_flight_packet flying inv.pending;
        data_ok =
            All-map _ _ (IsDataOf-raise s.accepted n (suc n) (omega arith)) s.wire inv.data_ok;
        acks_ok = inv.acks_ok;
        peer_le = omega (arith, inv.peer_le);
        seq_le = omega arith;
        peer_known = inv.peer_known;
        delivered_is = inv.delivered_is;
      })

-- An acknowledgement that arrives is that of the packet in flight, or is ignored.
pub return-Inv :
    (s : System) (f : Packet) (c : ReliableChannel) (es : List Effect)
    → length s.accepted < 2 ^ 32
    → IsAckOf s.accepted s.receiver.peer_seq (bytes f)
    → read_packet s.sender f ≡ some (c, es)
    → Inv s
    → Inv (record s { sender = c; wire = s.wire ++ written es })
return-Inv s f c es small (cid, k, frame, le, count) e inv =
    let read = read_packet-ack_frame s.sender f cid k [] frame (omega arith) in
    elim (Bool-cases (s.sender.local_seq == k)) [
      | inl same ↦
          let this : s.sender.local_seq ≡ k = (==_iff _ k).0 same in
          same_result P e (rw same at read) (released-Inv s small (omega arith) (omega arith) inv)
      | inr other ↦ same_result P e (rw other at read) (rw (append-nil s.wire) inv)
    ]
  where
    P : ReliableChannel → List Effect → Type 0
    P c es = Inv (record s { sender = c; wire = s.wire ++ written es })
