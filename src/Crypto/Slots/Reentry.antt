-- ===== src/Crypto/Slots/Reentry.antt =====
-- Histories of sessions of net/CryptoSession.cpp whose slots of `read` make calls of the session.
use wetnork.Base.{ℕ, zero, suc, ◌≡◌, refl, List, [], ◌∷◌, ltb, Bool-cases, length, inl, inr, arith}
use wetnork.Exceptions.{Outcome, ok, throw, fault, unfinished}
use wetnork.Packet.{Packet}
use wetnork.Crypto.Library.{Library}
use wetnork.Crypto.Session.{
  Event, state_changed, read, opening, renegotiating, closed, gnutls_rehandshake, gnutls_bye,
  Session, M, ◌>>◌, set_state, after,
}
use wetnork.Crypto.Session.Same.{gnutls_rehandshake-IsSame}
use wetnork.Crypto.Handlers.{
  is_invalid, is_open, is_over, open_session, handle_handshake, not_ready, renegotiate, close,
}
use wetnork.Crypto.States.{can_follow_refl, Inv, Ended}
use wetnork.Crypto.Calls.{Call, opens, renegotiates, closes, reads, writes, perform, perform-Ended}
use wetnork.Crypto.Lifecycle.{Ended-trans}
use wetnork.Crypto.Slots.{set_state_with, open_session_with, renegotiate_with, close_with}
use wetnork.Crypto.Slots.Nested.{perform_with, make_calls, run_with}
use wetnork.Crypto.Slots.Calls.{
  on_read_only, if_read, then_read, choice-DoesLast, after-DoesLast, set_state-DoesLast,
  bye-DoesLast, handlers-DoesLast, read_packet-DoesLast,
}

module _ {L : Library} where
  -- Slots of `read` that make calls, in which packets are passed on to the same slots, to a depth.
  unfoldable pub slots_of : (Packet → Session L → List Call) → ℕ → ℕ → Packet → M L (Unit {0})
  slots_of slot fuel zero p s = (s, unfinished)
  slots_of slot fuel (suc depth) p s =
      make_calls (on_read_only (slots_of slot fuel depth)) fuel (slot p s) s

  open_session-DoesLast :
      (f : Packet → M L (Unit {0})) (fuel : ℕ) (s : Session L)
      → open_session_with (on_read_only f) fuel s ≡ then_read f (length s.log) (open_session fuel s)
  unfolding open_session_with open_session set_state_with set_state
  open_session-DoesLast f fuel s =
      let n = length s.log in
      choice-DoesLast f n (is_invalid s.state) _ _ (set_state opening >> handle_handshake fuel)
        not_ready
        (λ t k.
          (handlers-DoesLast f n fuel).0 (set_state opening t).0 (omega (arith, k.0), inr refl))
        (λ t k. refl) s (omega arith, inl refl)

  renegotiate-DoesLast :
      (f : Packet → M L (Unit {0})) (s : Session L)
      → renegotiate_with (on_read_only f) s ≡ then_read f (length s.log) (renegotiate s)
  unfolding renegotiate_with renegotiate
  renegotiate-DoesLast f s =
      let n = length s.log in
      choice-DoesLast f n (is_open s.state)
        (gnutls_rehandshake >> set_state_with (on_read_only f) renegotiating) not_ready
        (gnutls_rehandshake >> set_state renegotiating) not_ready
        (λ t k.
          after-DoesLast f n t (gnutls_rehandshake t)
            (λ _. set_state_with (on_read_only f) renegotiating) (λ _. set_state renegotiating) k
            (gnutls_rehandshake-IsSame t) (λ _. set_state-DoesLast f n renegotiating))
        (λ t k. refl) s (omega arith, inl refl)

  close-DoesLast :
      (f : Packet → M L (Unit {0})) (s : Session L)
      → close_with (on_read_only f) s ≡ then_read f (length s.log) (close s)
  unfolding close_with close
  close-DoesLast f s =
      let n = length s.log in
      choice-DoesLast f n (is_over s.state) not_ready _ not_ready (gnutls_bye >> set_state closed)
        (λ t k. refl) (bye-DoesLast f n) s (omega arith, inl refl)

  after-Ended :
      (s : Session L) (k : M L (Unit {0})) (r : Session L × Outcome (Unit {0}))
      → Ended s r.0
      → ((t : Session L) → Inv t → Ended t (k t).0)
      → Ended s (after (λ _. k) r).0
  after-Ended s k (t, ok a) p h = Ended-trans p (h t p.inv)
  after-Ended s k (t, throw e) p h = p
  after-Ended s k (t, fault) p h = p
  after-Ended s k (t, unfinished) p h = p

  if_read-Ended :
      (f : Packet → M L (Unit {0})) (es : List Event) (s : Session L)
      → ((p : Packet) → Ended s (f p s).0)
      → Inv s
      → Ended s (if_read f es s).0
  if_read-Ended f [] s h v = record { inv = v; follows = can_follow_refl s.state }
  if_read-Ended f (state_changed old new ∷ es) s h v = record {
    inv = v;
    follows = can_follow_refl s.state;
  }
  if_read-Ended f (read p ∷ es) s h v = h p

  then_read-Ended :
      (f : Packet → M L (Unit {0})) (n : ℕ) (s : Session L) (r : Session L × Outcome (Unit {0}))
      → ((p : Packet) (t : Session L) → Inv t → Ended t (f p t).0)
      → Ended s r.0
      → Ended s (then_read f n r).0
  then_read-Ended f n s (t, ok a) h e = elim (Bool-cases (ltb n (length t.log))) [
    | inl new ↦ rw new (Ended-trans e (if_read-Ended f t.log t (λ p. h p t e.inv) e.inv))
    | inr old ↦ rw old e
  ]
  then_read-Ended f n s (t, throw x) h e = e
  then_read-Ended f n s (t, fault) h e = e
  then_read-Ended f n s (t, unfinished) h e = e

  perform_with-Ended :
      (f : Packet → M L (Unit {0})) (fuel : ℕ) (c : Call) (s : Session L)
      → ((p : Packet) (t : Session L) → Inv t → Ended t (f p t).0)
      → Inv s
      → Ended s (perform_with (on_read_only f) fuel c s).0
  unfolding perform_with perform
  perform_with-Ended f fuel opens s h v =
      rw (open_session-DoesLast f fuel s)
        (then_read-Ended f (length s.log) s _ h (perform-Ended fuel opens s v))
  perform_with-Ended f fuel renegotiates s h v =
      rw (renegotiate-DoesLast f s)
        (then_read-Ended f (length s.log) s _ h (perform-Ended fuel renegotiates s v))
  perform_with-Ended f fuel closes s h v =
      rw (close-DoesLast f s)
        (then_read-Ended f (length s.log) s _ h (perform-Ended fuel closes s v))
  perform_with-Ended f fuel (reads p) s h v =
      rw (read_packet-DoesLast f fuel p s)
        (then_read-Ended f (length s.log) s _ h (perform-Ended fuel (reads p) s v))
  perform_with-Ended f fuel (writes p) s h v = perform-Ended fuel (writes p) s v

  make_calls-Ended :
      (f : Packet → M L (Unit {0})) (fuel : ℕ) (cs : List Call) (s : Session L)
      → ((p : Packet) (t : Session L) → Inv t → Ended t (f p t).0)
      → Inv s
      → Ended s (make_calls (on_read_only f) fuel cs s).0
  unfolding make_calls
  make_calls-Ended f fuel [] s h v = record { inv = v; follows = can_follow_refl s.state }
  make_calls-Ended f fuel (c ∷ cs) s h v =
      after-Ended s (make_calls (on_read_only f) fuel cs) (perform_with (on_read_only f) fuel c s)
        (perform_with-Ended f fuel c s h v) (λ t w. make_calls-Ended f fuel cs t h w)

  slots_of-Ended :
      (slot : Packet → Session L → List Call) (fuel depth : ℕ) (p : Packet) (s : Session L)
      → Inv s
      → Ended s (slots_of slot fuel depth p s).0
  unfolding slots_of
  slots_of-Ended slot fuel zero p s v = record { inv = v; follows = can_follow_refl s.state }
  slots_of-Ended slot fuel (suc depth) p s v =
      make_calls-Ended (slots_of slot fuel depth) fuel (slot p s) s (slots_of-Ended slot fuel depth)
        v

  -- The slots of `read` may make any calls of the session, which depend on the packet and on the
  -- session, and the packets passed on in these calls reach the same slots, to any depth. After
  -- any calls of a session with such slots, its state is one that the state before can be
  -- followed by, and the invariant holds if it held before: each announced change names the state
  -- announced before it as the old one, and the session's state is the one announced last, unless
  -- it is `Aborted`.
  pub run_with-Ended :
      (slot : Packet → Session L → List Call) (fuel depth : ℕ) (cs : List Call) (s : Session L)
      → Inv s
      → Ended s (run_with (on_read_only (slots_of slot fuel depth)) fuel cs s)
  unfolding run_with
  run_with-Ended slot fuel depth [] s v = record { inv = v; follows = can_follow_refl s.state }
  run_with-Ended slot fuel depth (c ∷ cs) s v =
      let first =
        perform_with-Ended (slots_of slot fuel depth) fuel c s (slots_of-Ended slot fuel depth) v in
      Ended-trans first (run_with-Ended slot fuel depth cs _ first.inv)
