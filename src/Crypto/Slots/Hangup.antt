-- ===== src/Crypto/Slots/Hangup.antt =====
-- A slot of `stateChanged` of net/CryptoSession.cpp that closes the session while it opens.
use wetnork.Base.{ℕ, suc, ◌≡◌, refl, ap, sym, ◌∙◌, false, Bool-cases, inl, inr, if◌then◌else◌}
use wetnork.Exceptions.{Code, ok}
use wetnork.Crypto.Library.{Library, is_again, is_success, is_got_application_data}
use wetnork.Crypto.Session.{
  invalid, opening, opened, closed, aborted, Session, set_state, fail, gnutls_bye, gnutls_handshake,
  after, ◌>>◌,
}
use wetnork.Crypto.Session.Same.{gnutls_handshake-IsSame}
use wetnork.Crypto.Handlers.{is_handshaking, is_invalid, not_ready, return, close}
use wetnork.Crypto.Slots.{
  Slots, set_state_with, handshake_switch_with, handle_handshake_with, handle_data_with,
  open_session_with,
}

module _ {L : Library} where
  -- The session is closed as soon as it tells that it shakes hands.
  abbrev pub hangs_up : Slots L
  hangs_up = record {
    on_state_changed = λ old s. (if is_handshaking s.state then close else return) s;
    on_read = λ p. return;
  }

  hung_up :
      (s t : Session L) (r : Code)
      → gnutls_bye (set_state opening s).0 ≡ (t, ok r)
      → set_state_with hangs_up opening s ≡ set_state closed t
  unfolding set_state_with set_state close
  hung_up s t r bye = ap (after (λ _. set_state closed)) bye

  goes_on :
      (fuel : ℕ) (s : Session L)
      → s.state ≡ invalid
      → open_session_with hangs_up fuel s
        ≡ after (λ _. handle_handshake_with hangs_up fuel) (set_state_with hangs_up opening s)
  unfolding open_session_with
  goes_on fuel s i =
      ap
        (λ st.
          (if is_invalid st
              then (set_state_with hangs_up opening >> handle_handshake_with hangs_up fuel)
              else not_ready)
            s)
        i

  -- The end of a handshake that neither waits nor meets data.
  switched :
      (fuel : ℕ) (ret : Code) (u : Session L)
      → is_got_application_data ret ≡ false
      → is_again ret ≡ false
      → (handshake_switch_with hangs_up (handle_data_with hangs_up fuel) ret u).0.state
        ≡ (if is_success ret then opened else aborted)
  unfolding handshake_switch_with set_state_with set_state fail
  switched fuel ret u other over =
      rw (other, over)
        (elim (Bool-cases (is_success ret)) [ inl e ↦ rw e refl | inr e ↦ rw e refl ])

  -- If a slot of `stateChanged` closes a session while `open` runs, and then the handshake, which
  -- `open` goes on with, neither waits nor meets data, the closed session does not stay closed: it is
  -- open if the handshake succeeds, and aborted if that fails.
  pub open_session-hangs_up :
      (fuel : ℕ) (s t u : Session L) (r ret : Code)
      → s.state ≡ invalid
      → gnutls_bye (set_state opening s).0 ≡ (t, ok r)
      → gnutls_handshake (set_state closed t).0 ≡ (u, ok ret)
      → is_got_application_data ret ≡ false
      → is_again ret ≡ false
      → (u.state ≡ closed)
        × ((open_session_with hangs_up (suc fuel) s).0.state
            ≡ (if is_success ret then opened else aborted))
  unfolding handle_handshake_with set_state
  open_session-hangs_up fuel s t u r ret i bye shake other over =
      let next = handshake_switch_with hangs_up (handle_data_with hangs_up fuel) in
      let whole : open_session_with hangs_up (suc fuel) s ≡ next ret u =
        goes_on (suc fuel) s i
        ∙ ap (after (λ _. handle_handshake_with hangs_up (suc fuel))) (hung_up s t r bye)
        ∙ ap (after next) shake in
      (
        ap (λ x. x.0.state) (sym shake)
            ∙ (gnutls_handshake-IsSame (set_state closed t).0).same_state,
        ap (λ x. x.0.state) whole ∙ switched fuel ret u other over,
      )
