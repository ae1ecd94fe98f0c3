-- ===== src/Signals.antt =====
-- What the program asks of the signals that include/signal.hpp takes from a library: an interface.
-- A slot is a method of the object at an address; a connection is known by a number.
use wetnork.Base.{ℕ, ◌≡◌, List, [], ◌∷◌, ◌++◌, Bool, false, ◌||◌, ◌==◌, if◌then◌else◌}

-- Connections with the addresses of their slots' objects, in the order of connection.
abbrev pub Entries : Type 0
Entries = List (ℕ × ℕ)

abbrev pub has_connection : ℕ → Entries → Bool
has_connection c [] = false
has_connection c ((k, at) ∷ es) = k == c || has_connection c es

abbrev pub without : ℕ → Entries → Entries
without c [] = []
without c ((k, at) ∷ es) = let rest = without c es in if k == c then rest else (k, at) ∷ rest

abbrev pub addresses : Entries → List ℕ
addresses [] = []
addresses ((c, at) ∷ es) = at ∷ addresses es

pub record Signals : Type 1 where
  pub Signal : Type 0
  pub empty : Signal
  pub entries : Signal → Entries
  pub connect : ℕ → Signal → Signal × ℕ
  pub disconnect : ℕ → Signal → Signal
  pub entries-empty : entries empty ≡ []
  pub entries-connect :
      (at : ℕ) (s : Signal) → entries (connect at s).0 ≡ entries s ++ ((connect at s).1, at) ∷ []
  pub connect_fresh : (at : ℕ) (s : Signal) → has_connection (connect at s).1 (entries s) ≡ false
  pub entries-disconnect : (c : ℕ) (s : Signal) → entries (disconnect c s) ≡ without c (entries s)
