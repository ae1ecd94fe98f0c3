-- ===== src/Crypto/Slots/Announced.antt =====
-- The announcements of sessions of net/CryptoSession.cpp whose slots call the session back.
use wetnork.Base.{ℕ, zero, suc, ◌≡◌, refl, inl, inr, List, [], ◌∷◌, some, if◌then◌else◌}
use wetnork.Exceptions.{ok}
use wetnork.Crypto.Library.{Library}
use wetnork.Crypto.Session.{opening, renegotiating, aborted, Session, ◌>>◌, gnutls_rehandshake}
use wetnork.Crypto.Session.Same.{gnutls_rehandshake-IsSame}
use wetnork.Crypto.Handlers.{is_open, is_invalid, is_over, is_handshaking, not_ready, write}
use wetnork.Crypto.States.{Inv}
use wetnork.Crypto.Calls.{
  Call, opens, renegotiates, closes, reads, writes, perform, perform-Ended, write-IsSame,
}
use wetnork.Crypto.Slots.{
  Slots, set_state_with, handle_handshake_with, handle_data_with, handle_packet_with,
  read_packet_with, open_session_with, renegotiate_with, close_with,
}
use wetnork.Crypto.Slots.Nested.{perform_with, make_calls, run_with, Choices, nested}
use wetnork.Crypto.Slots.Keeps.{
  Keeps, IsKnown-Inv, IsKept-Inv, IsKept-after, called, choice-Keeps, not_ready-Keeps, AreKeeping,
  set_state-Keeps, then_Keeps, bye-Keeps, handlers-Keeps,
}

module _ {L : Library} (slots : Slots L) (keep : AreKeeping slots) where
  perform_with-Keeps : (fuel : ℕ) (c : Call) → Keeps (perform_with slots fuel c)
  unfolding perform_with open_session_with renegotiate_with close_with read_packet_with
      handle_packet_with
  perform_with-Keeps fuel opens s k =
      choice-Keeps (is_invalid s.state) _ not_ready
        (then_Keeps slots keep opening (handle_handshake_with slots fuel)
          (handlers-Keeps slots keep fuel).0)
        not_ready-Keeps s k
  perform_with-Keeps fuel renegotiates s k =
      choice-Keeps (is_open s.state) (gnutls_rehandshake >> set_state_with slots renegotiating)
        not_ready
        (λ t k'.
          IsKept-after (gnutls_rehandshake t) (λ _. set_state_with slots renegotiating)
            (called t (gnutls_rehandshake t) (gnutls_rehandshake-IsSame t) k')
            (λ _. set_state-Keeps slots keep renegotiating))
        not_ready-Keeps s k
  perform_with-Keeps fuel closes s k =
      choice-Keeps (is_over s.state) not_ready _ not_ready-Keeps (bye-Keeps slots keep) s k
  perform_with-Keeps fuel (reads p) s k =
      choice-Keeps (is_handshaking s.state) _
        (if is_open s.state then handle_data_with slots fuel else not_ready)
        (handlers-Keeps slots keep fuel).0
        (choice-Keeps (is_open s.state) _ not_ready (handlers-Keeps slots keep fuel).1
          not_ready-Keeps)
        (record s { current_packet = some p }) k
  perform_with-Keeps fuel (writes p) s k =
      IsKept-after (write p s) (λ _ t. (t, ok tt)) (called s (write p s) (write-IsSame p s) k)
        (λ _ t k'. k')

  make_calls-Keeps : (fuel : ℕ) (cs : List Call) → Keeps (make_calls slots fuel cs)
  unfolding make_calls
  make_calls-Keeps fuel [] s k = k
  make_calls-Keeps fuel (c ∷ cs) s k =
      IsKept-after (perform_with slots fuel c s) (λ _. make_calls slots fuel cs)
        (perform_with-Keeps fuel c s k) (λ _. make_calls-Keeps fuel cs)

  -- An aborted session refuses the call.
  aborted-Inv :
      (fuel : ℕ) (c : Call) (s : Session L)
      → Inv s
      → s.state ≡ aborted
      → Inv (perform_with slots fuel c s).0
  unfolding perform_with open_session_with renegotiate_with close_with read_packet_with
      handle_packet_with write perform
  aborted-Inv fuel opens s v e = rw e (record { chained = v.chained; known = inr refl })
  aborted-Inv fuel renegotiates s v e = rw e (record { chained = v.chained; known = inr refl })
  aborted-Inv fuel closes s v e = rw e (record { chained = v.chained; known = inr refl })
  aborted-Inv fuel (reads p) s v e = rw e (record { chained = v.chained; known = inr refl })
  aborted-Inv fuel (writes p) s v e = (perform-Ended fuel (writes p) s v).inv

  perform_with-Inv :
      (fuel : ℕ) (c : Call) (s : Session L) → Inv s → Inv (perform_with slots fuel c s).0
  perform_with-Inv fuel c s v = elim v.known [
    | inl known ↦
        IsKept-Inv (perform_with slots fuel c s) (perform_with-Keeps fuel c s (v.chained, known))
    | inr over ↦ aborted-Inv fuel c s v over
  ]

module _ {L : Library} (choices : Choices L) (fuel : ℕ) where
  nested-AreKeeping : (depth : ℕ) → AreKeeping (nested choices fuel depth)
  unfolding nested
  nested-AreKeeping zero = record {
    changed-Keeps = λ old s k. IsKnown-Inv s k;
    read-Keeps = λ p s k. IsKnown-Inv s k;
  }
  nested-AreKeeping (suc depth) =
      let keep = nested-AreKeeping depth in
      record {
        changed-Keeps = λ old s.
            make_calls-Keeps (nested choices fuel depth) keep fuel (choices.on_change old s) s;
        read-Keeps =
            λ p s. make_calls-Keeps (nested choices fuel depth) keep fuel (choices.on_read p s) s;
      }

  -- The slots of `stateChanged` and of `read` may make any calls of the session, which depend on what
  -- they are called with and on the session, and in which they are called again, to any depth. Any calls
  -- of a session with such slots keep the invariant, if it held before: each announced change names the
  -- state announced before it as the old one, and the session's state is the one announced last, unless
  -- it is `Aborted`.
  pub run_with-Inv :
      (depth : ℕ) (cs : List Call) (s : Session L)
      → Inv s
      → Inv (run_with (nested choices fuel depth) fuel cs s)
  unfolding run_with
  run_with-Inv depth [] s v = v
  run_with-Inv depth (c ∷ cs) s v =
      run_with-Inv depth cs _
        (perform_with-Inv (nested choices fuel depth) (nested-AreKeeping depth) fuel c s v)
