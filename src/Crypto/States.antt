-- ===== src/Crypto/States.antt =====
-- The states of a session of net/CryptoSession.cpp: which may follow which, and how they are
-- announced.
use wetnork.Base.{ℕ, ◌≡◌, refl, ◌⊎◌, List, [], ◌∷◌, Bool, true, false, ◌||◌, ltb, ◌==◌, arith}
use wetnork.Crypto.Library.{Library}
use wetnork.Crypto.Session.{
  State, invalid, opening, opened, renegotiating, closed, aborted, Event, state_changed, read,
  Session,
}

-- 0 before `open`, 1 in the first handshake, 2 when that is done, 3 at the end.
abbrev pub phase : State → ℕ
phase invalid = 0
phase opening = 1
phase opened = 2
phase renegotiating = 2
phase closed = 3
phase aborted = 4

-- A session goes on through the phases, and to and fro between `Open` and `Renegotiating` only.
-- Nothing follows `Closed` or `Aborted`.
abbrev pub can_follow : State → State → Bool
can_follow closed closed = true
can_follow closed _ = false
can_follow s t = ltb (phase s) (phase t) || (phase s == phase t)

pub can_follow_refl : (s : State) → can_follow s s ≡ true
can_follow_refl invalid = refl
can_follow_refl _ = refl

pub can_follow_trans :
    (s t u : State) → can_follow s t ≡ true → can_follow t u ≡ true → can_follow s u ≡ true
can_follow_trans s t u p q = ground arith

abbrev pub is_active : State → Bool
is_active opening = true
is_active opened = true
is_active renegotiating = true
is_active _ = false

-- The state that was announced last.
abbrev pub announced : List Event → State
announced [] = invalid
announced (state_changed old new ∷ es) = new
announced (read p ∷ es) = announced es

-- Each announcement names, as the old state, the one announced before.
abbrev pub IsChained : List Event → Type 0
IsChained [] = Unit {0}
IsChained (state_changed old new ∷ es) = (old ≡ announced es) × IsChained es
IsChained (read p ∷ es) = IsChained es

-- What holds of a session between two calls.
pub record Inv {L : Library} (s : Session L) : Type 0 where
  pub chained : IsChained s.log
  pub known : (s.state ≡ announced s.log) ⊎ (s.state ≡ aborted)

-- What holds while a handler runs.
pub record IsLive {L : Library} (s : Session L) : Type 0 where
  pub chained : IsChained s.log
  pub known : s.state ≡ announced s.log
  pub active : is_active s.state ≡ true

-- What a call that began in `s` has made of it.
pub record Ended {L : Library} (s t : Session L) : Type 0 where
  pub inv : Inv t
  pub follows : can_follow s.state t.state ≡ true
