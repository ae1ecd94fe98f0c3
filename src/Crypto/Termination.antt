-- ===== src/Crypto/Termination.antt =====
-- How long `handleHandshake` and `handleData` of net/CryptoSession.cpp call each other.
use wetnork.Base.{
  ℕ, zero, suc, ◌≤◌, ◌≡◌, refl, List, Option, none, some, Bool, true, false, if◌then◌else◌, take,
  length, ◌∷◌, ◌↔◌, ◌∙◌, Bool-cases, inl, inr,
}
use wetnork.Exceptions.{Code, natural, negative, Outcome, ok, throw, fault, unfinished}
use wetnork.Memory.{load, load_lem}
use wetnork.Packet.{packet}
use wetnork.Crypto.Library.{Library, is_again, is_rehandshake, is_got_application_data, is_success}
use wetnork.Crypto.Session.{
  State, opened, renegotiating, closed, Session, M, ◌>>◌, set_state, fail, propagate, after,
  buffer_size, read, gnutls_handshake, gnutls_record_recv, gnutls_bye,
}
use wetnork.Crypto.Session.Transport.{
  IsFinished, IsFinished-after, gnutls_handshake-IsFinished, gnutls_record_recv-IsFinished,
  gnutls_bye-IsFinished,
}
use wetnork.Crypto.Handlers.{
  handshake_switch, recv_switch, close_once, propagate_loaded, handle_handshake, handle_data,
}

-- GnuTLS makes the handlers call each other as often as there is fuel: a handshake meets application
-- data, and reading that meets a request for a handshake, and so on, call after call.
unfoldable mutual
  pub HandshakeAlternates : {L : Library} → ℕ → Session L → Type 0
  HandshakeAlternates zero s = Unit {0}
  HandshakeAlternates {L} (suc fuel) s =
      (t : Session L) × (ret : Code) × (gnutls_handshake s ≡ (t, ok ret))
      × (is_got_application_data ret ≡ true)
      × DataAlternates fuel t

  pub DataAlternates : {L : Library} → ℕ → Session L → Type 0
  DataAlternates zero s = Unit {0}
  DataAlternates {L} (suc fuel) s =
      (t : Session L) × (r : Code × List ℕ) × (gnutls_record_recv buffer_size s ≡ (t, ok r))
      × (is_rehandshake r.0 ≡ true)
      × HandshakeAlternates fuel (set_state renegotiating t).0

module _ {L : Library} where
  choice-IsFinished :
      {A : Type 0} (b : Bool) (f g : M L A) (s : Session L)
      → (b ≡ true → IsFinished (f s).1)
      → IsFinished (g s).1
      → IsFinished ((if b then f else g) s).1
  choice-IsFinished true f g s p q = p refl
  choice-IsFinished false f g s p q = q

  handshake_switch-IsFinished :
      (m : M L (Unit {0})) (ret : Code) (s : Session L)
      → (is_got_application_data ret ≡ true → IsFinished (m s).1)
      → IsFinished (handshake_switch m ret s).1
  unfolding set_state fail
  handshake_switch-IsFinished m ret s h = choice-IsFinished (is_got_application_data ret) m _ s h (
      choice-IsFinished (is_again ret) _ _ s (λ _. tt)
        (choice-IsFinished (is_success ret) (set_state opened) (fail ret) s (λ _. tt) tt))

  close_once-IsFinished : (st : State) (s : Session L) → IsFinished (close_once st s).1
  unfolding set_state
  close_once-IsFinished closed s = tt
  close_once-IsFinished _ s =
      IsFinished-after (λ _. set_state closed) (gnutls_bye s) (gnutls_bye-IsFinished s)
        (λ _ t _. tt)

  propagate_loaded-IsFinished :
      (o : Option (List ℕ)) (n : ℕ) (s : Session L) → IsFinished (propagate_loaded o n s).1
  unfolding propagate
  propagate_loaded-IsFinished none n s = tt
  propagate_loaded-IsFinished (some bs) n s = tt

  recv_switch-IsFinished :
      (m : M L (Unit {0})) (ret : Code) (buffer : List ℕ) (s : Session L)
      → (is_rehandshake ret ≡ true → IsFinished (m (set_state renegotiating s).0).1)
      → IsFinished (recv_switch m ret buffer s).1
  unfolding set_state fail
  recv_switch-IsFinished m (negative n) buffer s h =
      choice-IsFinished (is_rehandshake (negative n)) (set_state renegotiating >> m)
        (fail (negative n)) s h tt
  recv_switch-IsFinished m (natural zero) buffer s h = close_once-IsFinished s.state s
  recv_switch-IsFinished m (natural (suc n)) buffer s h =
      propagate_loaded-IsFinished (load (suc n) buffer) (suc n) s

-- An outcome that is finished is not `unfinished`.
not_finished : {A : Type 0} (o : Outcome A) → o ≡ unfinished → IsFinished o → ⊥
not_finished (ok a) e h = cc
not_finished (throw x) e h = cc
not_finished fault e h = cc
not_finished unfinished e h = h

module _ {L : Library} where
  switch_goes_on :
      (m : M L (Unit {0})) (ret : Code) (t : Session L)
      → (handshake_switch m ret t).1 ≡ unfinished
      → (is_got_application_data ret ≡ true) × ((m t).1 ≡ unfinished)
  switch_goes_on m ret t e = elim (Bool-cases (is_got_application_data ret)) [
    | inl got ↦ (got, rw got at e)
    | inr other ↦ absurd (not_finished _ e (handshake_switch-IsFinished m ret t (λ got. cc)))
  ]

  recv_goes_on :
      (m : M L (Unit {0})) (ret : Code) (buffer : List ℕ) (t : Session L)
      → (recv_switch m ret buffer t).1 ≡ unfinished
      → (is_rehandshake ret ≡ true) × ((m (set_state renegotiating t).0).1 ≡ unfinished)
  unfolding set_state
  recv_goes_on m (negative n) buffer t e = elim (Bool-cases (is_rehandshake (negative n))) [
    | inl asked ↦ (asked, rw asked at e)
    | inr other ↦
        absurd (not_finished _ e (recv_switch-IsFinished m (negative n) buffer t (λ asked. cc)))
  ]
  recv_goes_on m (natural n) buffer t e =
      absurd (not_finished _ e (recv_switch-IsFinished m (natural n) buffer t (λ asked. cc)))

  after_goes_on :
      {A : Type 0} (f : A → M L (Unit {0})) (r : Session L × Outcome A)
      → IsFinished r.1
      → (after f r).1 ≡ unfinished
      → (t : Session L) × (a : A) × (r ≡ (t, ok a)) × ((f a t).1 ≡ unfinished)
  after_goes_on f (t, ok a) h e = (t, a, refl, e)
  after_goes_on f (t, throw x) h e = cc
  after_goes_on f (t, fault) h e = cc
  after_goes_on f (t, unfinished) h e = absurd h

module _ {L : Library} where
  alternates :
      (fuel : ℕ) (s : Session L)
      → ((handle_handshake fuel s).1 ≡ unfinished → HandshakeAlternates fuel s)
        × ((handle_data fuel s).1 ≡ unfinished → DataAlternates fuel s)
  unfolding handle_handshake HandshakeAlternates
  alternates zero s = (λ e. tt, λ e. tt)
  alternates (suc fuel) s = (
    λ e.
        let (t, ret, same, on) =
          after_goes_on (handshake_switch (handle_data fuel)) (gnutls_handshake s)
            (gnutls_handshake-IsFinished s) e in
        let (got, rest) = switch_goes_on (handle_data fuel) ret t on in
        (t, ret, same, got, (alternates fuel t).1 rest),
    λ e.
        let (t, r, same, on) =
          after_goes_on (λ (r : Code × List ℕ). recv_switch (handle_handshake fuel) r.0 r.1)
            (gnutls_record_recv buffer_size s) (gnutls_record_recv-IsFinished buffer_size s) e in
        let (asked, rest) = recv_goes_on (handle_handshake fuel) r.0 r.1 t on in
        (t, r, same, asked, (alternates fuel (set_state renegotiating t).0).0 rest),
  )

  recv_asked :
      (m : M L (Unit {0})) (ret : Code) (buffer : List ℕ) (t : Session L)
      → is_rehandshake ret ≡ true
      → (recv_switch m ret buffer t).1 ≡ (m (set_state renegotiating t).0).1
  unfolding set_state
  recv_asked m (negative n) buffer t h = rw h refl
  recv_asked m (natural n) buffer t h = cc

  runs_out :
      (fuel : ℕ) (s : Session L)
      → (HandshakeAlternates fuel s → (handle_handshake fuel s).1 ≡ unfinished)
        × (DataAlternates fuel s → (handle_data fuel s).1 ≡ unfinished)
  unfolding handle_handshake HandshakeAlternates
  runs_out zero s = (λ h. refl, λ h. refl)
  runs_out (suc fuel) s = (
    λ (t, ret, same, got, rest). rw (same, got) ((runs_out fuel t).1 rest),
    λ (t, r, same, asked, rest). rw same (
        recv_asked (handle_handshake fuel) r.0 r.1 t asked
        ∙ (runs_out fuel (set_state renegotiating t).0).0 rest),
  )

  -- However much fuel there is, it does not suffice exactly if GnuTLS makes the handlers call each other
  -- that often: application data within a handshake, and a request for a handshake within that, in
  -- turns, without one other answer. So the handlers go on without end only if GnuTLS does.
  pub handlers-unfinished_iff :
      (fuel : ℕ) (s : Session L)
      → (((handle_handshake fuel s).1 ≡ unfinished) ↔ HandshakeAlternates fuel s)
        × (((handle_data fuel s).1 ≡ unfinished) ↔ DataAlternates fuel s)
  handlers-unfinished_iff fuel s =
      let (a, b) = alternates fuel s in let (c, d) = runs_out fuel s in ((a, c), (b, d))

-- Application data, at least one byte, that GnuTLS puts into the block and returns the length of, is
-- passed on as one packet of exactly those bytes, and nothing else of the session changes.
pub handle_data_delivers :
    {L : Library} (fuel n : ℕ) (block : List ℕ) (s t : Session L)
    → gnutls_record_recv buffer_size s ≡ (t, ok (natural (suc n), block))
    → suc n ≤ length block
    → handle_data (suc fuel) s
      ≡ (record t { log = read (packet (take (suc n) block) 0 (suc n)) ∷ t.log }, ok tt)
unfolding handle_data propagate
handle_data_delivers fuel n block s t e h = rw (e, load_lem (suc n) block h)
