-- ===== src/Crypto/Context/Sessions.antt =====
-- The sessions of GnuTLS that net/CryptoContext.cpp makes and net/CryptoSession.cpp releases.
use wetnork.Base.{
  ℕ, ◌≡◌, refl, List, ◌∷◌, false, not, ◌&&◌, ◌==◌, Bool-cases, inl, inr, if◌then◌else◌, arith,
}
use wetnork.Exceptions.{Code, Outcome, ok, throw, fault, unfinished}
use wetnork.Host.Kernel.{count, close_last}
use wetnork.Crypto.Library.{is_error}
use wetnork.Crypto.Context.{
  Held, SessionHandle, open_session, move_session, destroy_session, succeeds,
}

-- The sessions that a scope leaves allocated which opens a session and destroys the object, if
-- there is one.
abbrev pub left_by : Outcome Held → List ℕ → List ℕ
left_by (ok h) ss = h.sessions
left_by _ ss = ss

abbrev pub leave : Held × Outcome SessionHandle → List ℕ
leave (h, ok o) = left_by (destroy_session o h) h.sessions
leave (h, _) = h.sessions

destroy_last :
    (at s : ℕ) (ss : List ℕ) (n : ℕ) (t : ℕ → ℕ)
    → destroy_session
        (record { at = at; session = s })
        (record { credentials = n; sessions = s ∷ ss; transport = t })
      ≡ ok (record { credentials = n; sessions = ss; transport = t })
unfolding destroy_session
destroy_last at s ss n t =
    let there : (count s (s ∷ ss) == 0) ≡ false = ground arith in rw (there, close_last s ss) refl

-- `openSession` succeeds exactly if both calls do. A session that it makes is released by the
-- object's destructor; but if the first call succeeds and the second fails, the session stays
-- allocated, and there is no object to release it.
pub open_session_holds :
    (init set : Code) (new at : ℕ) (h : Held)
    → let r = open_session init new set at h in
      (succeeds r.1 ≡ (not (is_error init) && not (is_error set)))
      × (leave r ≡ (if not (is_error init) && is_error set then new ∷ h.sessions else h.sessions))
unfolding open_session
open_session_holds init set new at h = elim (Bool-cases (is_error init)) [
  | inl bad ↦ rw bad (refl, refl)
  | inr good ↦ rw good (elim (Bool-cases (is_error set)) [
    | inl bad ↦ rw bad (refl, refl)
    | inr fine ↦
        rw
          (
            fine,
            destroy_last at new h.sessions h.credentials
                (λ s. if s == new then at else h.transport s),
          )
          (refl, refl)
  ])
]

-- The two destructors, one after the other.
abbrev pub both : Outcome Held → SessionHandle → Outcome Held
both (ok h) o = destroy_session o h
both (throw e) o = throw e
both fault o = fault
both unfinished o = unfinished

destroy_none :
    (o : SessionHandle) (h : Held) → count o.session h.sessions ≡ 0 → destroy_session o h ≡ fault
unfolding destroy_session
destroy_none o h e = rw e refl

twice :
    (at to s : ℕ) (ss : List ℕ) (n : ℕ) (t : ℕ → ℕ)
    → count s ss ≡ 0
    → both
        (destroy_session
          (record { at = at; session = s })
          (record { credentials = n; sessions = s ∷ ss; transport = t }))
        (record { at = to; session = s })
      ≡ fault
twice at to s ss n t e = rw (destroy_last at s ss n t) (
    destroy_none (record { at = to; session = s })
      (record { credentials = n; sessions = ss; transport = t }) e)

called : (new at : ℕ) (t : ℕ → ℕ) → (if new == new then at else t new) ≡ at
called new at t = ground arith

-- A session object that `openSession` made, of a session that was not allocated before, and that was
-- then moved to another address: GnuTLS goes on to call the object that was moved from, and
-- destroying both objects, in either order, deinitialises the session twice, which is a fault.
pub move_session_faults :
    (init set : Code) (new at to : ℕ) (h : Held)
    → is_error init ≡ false
    → is_error set ≡ false
    → count new h.sessions ≡ 0
    → let r = open_session init new set at h in
      (o : SessionHandle) × (r.1 ≡ ok o)
      × (r.0.transport (move_session to o).0.session ≡ at)
      × (both (destroy_session (move_session to o).1 r.0) (move_session to o).0 ≡ fault)
      × (both (destroy_session (move_session to o).0 r.0) (move_session to o).1 ≡ fault)
unfolding open_session move_session
move_session_faults init set new at to h good fine none_yet =
    let callee : ℕ → ℕ = λ s. if s == new then at else h.transport s in
    rw (good, fine)
      (
        record { at = at; session = new },
        refl,
        called new at h.transport,
        twice at to new h.sessions h.credentials callee none_yet,
        twice to at new h.sessions h.credentials callee none_yet,
      )
