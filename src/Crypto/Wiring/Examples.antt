-- ===== src/Crypto/Wiring/Examples.antt =====
-- Session objects on a stream whose signal is a list of connections.
use wetnork.Base.{
  ℕ, suc, ◌+◌, ◌≤◌, ◌≡◌, ◌≢◌, refl, [], ◌∷◌, ◌++◌, false, ◌==◌, if◌then◌else◌, arith,
}
use wetnork.Exceptions.{Outcome, ok, throw, fault, invalid_operation}
use wetnork.Signals.{Signals, Entries, has_connection, without}
use wetnork.Crypto.Wiring.{
  World, nothing_made, make, move, destroy, perform, destroy_stray, propagate, makes, destroys, run,
  propagate-run, move_faults,
}

-- A number above all that are taken.
abbrev next_number : Entries → ℕ
next_number [] = 0
next_number ((k, at) ∷ es) = suc (k + next_number es)

above_all : (n : ℕ) (es : Entries) → next_number es ≤ n → has_connection n es ≡ false
above_all n [] h = refl
above_all n ((k, at) ∷ es) h = ground (arith, h, above_all n es)

abbrev listed : Signals
listed = record {
  Signal = Entries;
  empty = [];
  entries = λ es. es;
  connect = λ at es. (es ++ (next_number es, at) ∷ [], next_number es);
  disconnect = without;
  entries-empty = refl;
  entries-connect = λ at es. refl;
  connect_fresh = λ at es. above_all (next_number es) es (omega arith);
  entries-disconnect = λ c es. refl;
}

abbrev fresh_world : World listed
fresh_world = nothing_made

-- The object at 192 was not opened.
abbrev slot : ℕ → Outcome (Unit {0})
slot at = if at == 192 then throw (invalid_operation "Session not ready") else ok tt

propagate-run_example :
    propagate slot (run (makes 64 ∷ makes 128 ∷ makes 192 ∷ destroys 0 ∷ makes 64 ∷ []) fresh_world)
    ≡ (128 ∷ 192 ∷ [], throw (invalid_operation "Session not ready"))
unfolding run perform destroy make
propagate-run_example =
    propagate-run slot (makes 64 ∷ makes 128 ∷ makes 192 ∷ destroys 0 ∷ makes 64 ∷ []) fresh_world
      refl

differ : ◌≢◌ {A = ℕ} 128 64
differ e = omega (arith, e)

move_faults_example :
    propagate slot (destroy_stray 64 (move 128 64 (make 64 (make 32 fresh_world))))
    ≡ (32 ∷ [], fault)
unfolding make
move_faults_example = move_faults slot 64 128 (make 32 fresh_world) refl refl differ (refl, tt)
