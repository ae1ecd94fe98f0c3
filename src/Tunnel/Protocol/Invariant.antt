-- ===== src/Tunnel/Protocol/Invariant.antt =====
-- What holds of two channels of net/Tunnel.ReliableChannel.cpp and the network between them.
use mathlib.Core.List.{append-nil}
use native.Mathlib.Nat.{le_refl}
use wetnork.Base.{
  ℕ, zero, suc, ◌+◌, ◌-◌, ◌^◌, ◌≤◌, ◌<◌, ◌≡◌, refl, ◌∙◌, sym, subst, List, [], ◌∷◌, ◌++◌, Option,
  none, some, true, inl, inr, length, take, drop, get_elem?, All, All-append, All-map, arith,
  length-append, get_elem?-append_left, get_elem?-append_last, take-append_of_le, Option-cases,
  same_result,
}
use wetnork.Packet.{Packet, packet, bytes, IsValid}
use wetnork.Tunnel.Header.{reliable_size}
use wetnork.Tunnel.Reliable.{ReliableChannel, Effect, on_timeout, write_packet, reliable_channel}
use wetnork.Tunnel.Reliable.Replies.{
  ack_frame, data_frame, write_packet_lem, on_timeout_idle, on_timeout_busy, bytes-data_frame,
}
use wetnork.Tunnel.Protocol.{System, written, add_if, init}

-- The packet in flight is the last accepted one, under the current number.
abbrev pub IsPending : List (List ℕ) → ℕ → Option Packet → Type 0
IsPending ms n none = length ms ≡ n
IsPending ms n (some p) =
    (length ms ≡ suc n)
    × (get_elem? ms n ≡ some (bytes p))
    × IsValid p
    × (reliable_size + p.length_ < 2 ^ 64)

-- A frame carries an accepted payload under its number, up to the current one.
abbrev pub IsDataOf : List (List ℕ) → ℕ → List ℕ → Type 0
IsDataOf ms n f =
    (cid k : ℕ) × (m : List ℕ) × (f ≡ data_frame cid k m) × (get_elem? ms k ≡ some m) × (k ≤ n)

abbrev pub IsAckOf : List (List ℕ) → ℕ → List ℕ → Type 0
IsAckOf ms peer f = (cid k : ℕ) × (f ≡ ack_frame cid k) × (k ≤ peer) × (k < length ms)

pub record Inv (s : System) : Type 0 where
  pub pending : IsPending s.accepted s.sender.local_seq s.sender.in_flight_packet
  pub data_ok : All (IsDataOf s.accepted s.sender.local_seq) s.wire
  pub acks_ok : All (IsAckOf s.accepted s.receiver.peer_seq) s.back
  pub peer_le : s.receiver.peer_seq ≤ s.sender.local_seq
  pub seq_le : s.sender.local_seq ≤ s.receiver.peer_seq + 1
  pub peer_known : s.receiver.peer_seq ≤ length s.accepted - 1
  pub delivered_is : s.delivered ≡ take s.receiver.peer_seq (drop 1 s.accepted)

pub init-Inv : (cid : ℕ) → Inv (init cid)
unfolding init reliable_channel
init-Inv cid = record {
  pending = refl;
  data_ok = tt;
  acks_ok = tt;
  peer_le = omega arith;
  seq_le = omega arith;
  peer_known = omega arith;
  delivered_is = refl;
}

pub get_elem?-lt :
    (ms : List (List ℕ)) (k : ℕ) {m : List ℕ} → get_elem? ms k ≡ some m → k < length ms
get_elem?-lt [] k e = cc
get_elem?-lt (x ∷ ms) zero e = omega arith
get_elem?-lt (x ∷ ms) (suc k) e = omega (arith, get_elem?-lt ms k e)

IsDataOf-grow :
    (ms : List (List ℕ)) (m : List ℕ) (n : ℕ) (f : List ℕ)
    → IsDataOf ms n f
    → IsDataOf (ms ++ m ∷ []) n f
IsDataOf-grow ms m n f (cid, k, x, e, g, h) =
    (cid, k, x, e, get_elem?-append_left ms (m ∷ []) k (get_elem?-lt ms k g) ∙ g, h)

IsAckOf-grow :
    (ms : List (List ℕ)) (m : List ℕ) (n : ℕ) (f : List ℕ)
    → IsAckOf ms n f
    → IsAckOf (ms ++ m ∷ []) n f
IsAckOf-grow ms m n f (cid, k, e, h, l) = (cid, k, e, h, omega (arith, length-append ms (m ∷ [])))

delivered-grow :
    (ms : List (List ℕ)) (m : List ℕ) (n : ℕ)
    → n ≤ length ms - 1
    → take n (drop 1 ms) ≡ take n (drop 1 (ms ++ m ∷ []))
delivered-grow [] m zero h = refl
delivered-grow [] m (suc n) h = absurd (omega arith)
delivered-grow (x ∷ ms) m n h = sym (take-append_of_le n ms (m ∷ []) (omega arith))

-- A packet is accepted only when none is in flight, and becomes the next one.
accept-Inv :
    (s : System) (p : Packet)
    → IsValid p
    → reliable_size + p.length_ < 2 ^ 64
    → s.sender.in_flight_packet ≡ none
    → Inv s
    → Inv (record s {
      sender = record s.sender { in_flight_packet = some p };
      accepted = s.accepted ++ bytes p ∷ [];
    })
accept-Inv s p v h e inv =
    let m = bytes p in
    let count : length s.accepted ≡ s.sender.local_seq =
      subst (IsPending s.accepted s.sender.local_seq) e inv.pending in
    record {
      pending = (
        omega (arith, length-append s.accepted (m ∷ [])),
        get_elem?-append_last s.accepted m s.sender.local_seq (sym count),
        v,
        h,
      );
      data_ok = All-map _ _ (IsDataOf-grow s.accepted m s.sender.local_seq) s.wire inv.data_ok;
      acks_ok = All-map _ _ (IsAckOf-grow s.accepted m s.receiver.peer_seq) s.back inv.acks_ok;
      peer_le = inv.peer_le;
      seq_le = inv.seq_le;
      peer_known = omega (arith, length-append s.accepted (m ∷ []), inv.peer_known);
      delivered_is =
          inv.delivered_is ∙ delivered-grow s.accepted m s.receiver.peer_seq inv.peer_known;
    }

pub offer-Inv :
    (s : System) (p : Packet)
    → IsValid p
    → reliable_size + p.length_ < 2 ^ 64
    → Inv s
    → Inv (record s {
      sender = (write_packet s.sender p).0;
      accepted = add_if (write_packet s.sender p).1 s.accepted (bytes p);
    })
offer-Inv s p v h inv = elim (Option-cases s.sender.in_flight_packet) [
  | inl e ↦ rw ((write_packet_lem s.sender p).0 e) (accept-Inv s p v h e inv)
  | inr (q, e) ↦ rw ((write_packet_lem s.sender p).1 q e) inv
]

sent-Inv :
    (s : System) (p : Packet)
    → get_elem? s.accepted s.sender.local_seq ≡ some (bytes p)
    → IsValid p
    → Inv s
    → Inv (record s {
      sender = record s.sender { timeout_active = true };
      wire =
          s.wire
          ++ bytes (
              packet
                (data_frame s.sender.cid s.sender.local_seq (bytes p))
                0
                (reliable_size + p.length_))
            ∷ [];
    })
sent-Inv s p known v inv = record {
  pending = inv.pending;
  data_ok = All-append (IsDataOf s.accepted s.sender.local_seq) s.wire _ inv.data_ok (
    (
      s.sender.cid,
      s.sender.local_seq,
      bytes p,
      bytes-data_frame s.sender.cid s.sender.local_seq p v,
      known,
      le_refl _,
    ),
    tt,
  );
  acks_ok = inv.acks_ok;
  peer_le = inv.peer_le;
  seq_le = inv.seq_le;
  peer_known = inv.peer_known;
  delivered_is = inv.delivered_is;
}

-- What the timer sends is the pending payload under the current number.
pub fire-Inv :
    (s : System) (c : ReliableChannel) (es : List Effect)
    → on_timeout s.sender ≡ some (c, es)
    → Inv s
    → Inv (record s { sender = c; wire = s.wire ++ written es })
fire-Inv s c es e inv = elim (Option-cases s.sender.in_flight_packet) [
  | inl idle ↦
      same_result (λ c es. Inv (record s { sender = c; wire = s.wire ++ written es })) e
        (on_timeout_idle s.sender idle) (rw (append-nil s.wire) inv)
  | inr (p, busy) ↦
      let held = subst (IsPending s.accepted s.sender.local_seq) busy inv.pending in
      same_result (λ c es. Inv (record s { sender = c; wire = s.wire ++ written es })) e
        (on_timeout_busy s.sender p busy held.2 held.3) (sent-Inv s p held.1 held.2 inv)
]
