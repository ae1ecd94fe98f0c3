-- ===== src/Crypto/Wiring.antt =====
-- Which session objects of net/CryptoSession.cpp a packet of the stream below is handed to. The
-- constructor connects the method of the object at its address to the stream's signal `read`, and
-- keeps the connection in `nextOnRead`, which disconnects it when the object is destroyed, and goes
-- over to the new object when the object is moved.
mod Examples
use mathlib.Core.List.{append_assoc}
use wetnork.Base.{
  ℕ, ◌+◌, ◌≡◌, ◌≢◌, refl, ap, ◌∙◌, sym, subst, All, List, [], ◌∷◌, ◌++◌, Bool, true, false, not,
  ◌&&◌, ◌==◌, if◌then◌else◌, arith,
}
use wetnork.Exceptions.{Outcome, ok, throw, fault, unfinished}
use wetnork.Host.Kernel.{count, close_fd, close_last, one_if, one_if_self}
use wetnork.Signals.{Signals, Entries, has_connection, without, addresses}

-- `objects` are the session objects that hold a connection, with their addresses; `strays` the
-- addresses of objects that were moved from and are not destroyed yet.
pub record World (S : Signals) : Type 0 where
  pub read : S.Signal
  pub objects : Entries
  pub strays : List ℕ

abbrev renamed : ℕ → ℕ → Entries → Entries
renamed at to [] = []
renamed at to ((c, a) ∷ es) = let rest = renamed at to es in (c, if a == at then to else a) ∷ rest

-- The connections of the object at an address.
abbrev held_at : ℕ → Entries → List ℕ
held_at at [] = []
held_at at ((c, a) ∷ es) = let rest = held_at at es in if a == at then c ∷ rest else rest

module _ {S : Signals} where
  abbrev pub nothing_made : World S
  nothing_made = record { read = S.empty; objects = []; strays = [] }

  unfoldable pub make : ℕ → World S → World S
  make at w =
      let (read', c) = S.connect at w.read in
      record w { read = read'; objects = w.objects ++ (c, at) ∷ [] }

  unfoldable pub move : ℕ → ℕ → World S → World S
  move to at w = record w { objects = renamed at to w.objects; strays = at ∷ w.strays }

  -- The destructor of an object with the connection `c`, and of one that was moved from.
  unfoldable pub destroy : ℕ → World S → World S
  destroy c w = record w { read = S.disconnect c w.read; objects = without c w.objects }

  unfoldable pub destroy_stray : ℕ → World S → World S
  destroy_stray at w = record w { strays = close_fd at w.strays }

abbrev pub then_call :
    ℕ → List ℕ × Outcome (Unit {0}) → Outcome (Unit {0}) → List ℕ × Outcome (Unit {0})
then_call at (ats, o) (ok a) = (at ∷ ats, o)
then_call at r (throw e) = (at ∷ [], throw e)
then_call at r fault = (at ∷ [], fault)
then_call at r unfinished = (at ∷ [], unfinished)

-- The objects that are called, in order, and how the emission ends. `slot` says how `readPacket` of the
-- object at an address ends: an exception, which every object that is not opened yet throws, leaves the
-- emission, and the slots behind are not called.
abbrev pub called : (ℕ → Outcome (Unit {0})) → List ℕ → List ℕ → List ℕ × Outcome (Unit {0})
called slot live [] = ([], ok tt)
called slot live (at ∷ slots) =
    let rest = called slot live slots in
    if count at live == 0 then ([], fault) else then_call at rest (slot at)

module _ {S : Signals} where
  -- The stream below calls its signal: the objects of the slots must be there.
  unfoldable pub propagate : (ℕ → Outcome (Unit {0})) → World S → List ℕ × Outcome (Unit {0})
  propagate slot w = called slot (addresses w.objects ++ w.strays) (addresses (S.entries w.read))

pub data Event : Type 0 where
  makes destroys : ℕ → Event

module _ {S : Signals} where
  unfoldable pub perform : Event → World S → World S
  perform (makes at) w = make at w
  perform (destroys c) w = destroy c w

  unfoldable pub run : List Event → World S → World S
  run [] w = w
  run (e ∷ es) w = run es (perform e w)

count-append : (n : ℕ) (xs ys : List ℕ) → count n (xs ++ ys) ≡ count n xs + count n ys
count-append n [] ys = omega arith
count-append n (x ∷ xs) ys = omega (arith, count-append n xs ys)

addresses-append : (es fs : Entries) → addresses (es ++ fs) ≡ addresses es ++ addresses fs
addresses-append [] fs = refl
addresses-append ((c, a) ∷ es) fs = ap (λ xs. a ∷ xs) (addresses-append es fs)

-- What is called where every object is there: those up to the first that does not return.
abbrev pub up_to_throw : (ℕ → Outcome (Unit {0})) → List ℕ → List ℕ × Outcome (Unit {0})
up_to_throw slot [] = ([], ok tt)
up_to_throw slot (at ∷ slots) = let rest = up_to_throw slot slots in then_call at rest (slot at)

called_self :
    (slot : ℕ → Outcome (Unit {0})) (before xs more : List ℕ)
    → called slot (before ++ (xs ++ more)) xs ≡ up_to_throw slot xs
called_self slot before [] more = refl
called_self slot before (x ∷ xs) more =
    let rest : called slot (before ++ x ∷ (xs ++ more)) xs ≡ up_to_throw slot xs =
      ap (λ live. called slot live xs) (sym (append_assoc before (x ∷ []) (xs ++ more)))
      ∙ called_self slot (before ++ x ∷ []) xs more in
    let there : (count x (before ++ x ∷ (xs ++ more)) == 0) ≡ false =
      ground (arith, count-append x before (x ∷ (xs ++ more)), one_if_self x) in
    rw (there, rest) refl

-- The slots before the last one return, and the object of the last one is not there.
called_last :
    (slot : ℕ → Outcome (Unit {0})) (live more xs : List ℕ) (at : ℕ)
    → count at (live ++ (xs ++ more)) ≡ 0
    → All (λ x. slot x ≡ ok tt) xs
    → called slot (live ++ (xs ++ more)) (xs ++ at ∷ []) ≡ (xs, fault)
called_last slot live more [] at e r =
    let gone : (count at (live ++ more) == 0) ≡ true = ground (arith, e) in rw gone refl
called_last slot live more (x ∷ xs) at e r =
    let same : (live ++ x ∷ []) ++ (xs ++ more) ≡ live ++ x ∷ (xs ++ more) =
      append_assoc live (x ∷ []) (xs ++ more) in
    let rest : called slot (live ++ x ∷ (xs ++ more)) (xs ++ at ∷ []) ≡ (xs, fault) =
      subst (λ l. called slot l (xs ++ at ∷ []) ≡ (xs, fault)) same
        (called_last slot (live ++ x ∷ []) more xs at (ap (count at) same ∙ e) r.1) in
    let there : (count x (live ++ x ∷ (xs ++ more)) == 0) ≡ false =
      ground (arith, count-append x live (x ∷ (xs ++ more)), one_if_self x) in
    rw (there, r.0, rest) refl

one_if-differ : (m n : ℕ) → m ≢ n → one_if m n ≡ 0
one_if-differ m n h = ground (arith, h)

renamed_last :
    (at to c : ℕ) (es : Entries)
    → count at (addresses es) ≡ 0
    → renamed at to (es ++ (c, at) ∷ []) ≡ es ++ (c, to) ∷ []
renamed_last at to c [] e = ground arith
renamed_last at to c ((k, a) ∷ es) e =
    let other : (a == at) ≡ false = ground (arith, e) in
    rw (other, renamed_last at to c es (omega (arith, e))) refl

without_last :
    (c at : ℕ) (es : Entries) → has_connection c es ≡ false → without c (es ++ (c, at) ∷ []) ≡ es
without_last c at [] h = ground arith
without_last c at ((k, a) ∷ es) h = ground (arith, h, without_last c at es)

module _ {S : Signals} where
  -- The signal's connections are those of the objects, as they are where nothing was made yet.
  abbrev pub IsWired : World S → Type 0
  IsWired w = S.entries w.read ≡ w.objects

  perform-IsWired : (e : Event) (w : World S) → IsWired w → IsWired (perform e w)
  unfolding perform make destroy
  perform-IsWired (makes at) w h =
      S.entries-connect at w.read ∙ ap (λ es. es ++ ((S.connect at w.read).1, at) ∷ []) h
  perform-IsWired (destroys c) w h = S.entries-disconnect c w.read ∙ ap (without c) h

  pub run-IsWired : (es : List Event) (w : World S) → IsWired w → IsWired (run es w)
  unfolding run
  run-IsWired [] w h = h
  run-IsWired (e ∷ es) w h = run-IsWired es (perform e w) (perform-IsWired e w h)

  propagate_wired :
      (slot : ℕ → Outcome (Unit {0})) (w : World S)
      → IsWired w
      → propagate slot w ≡ up_to_throw slot (addresses w.objects)
  unfolding propagate
  propagate_wired slot w h = rw h (called_self slot [] (addresses w.objects) w.strays)

  -- However session objects are made and destroyed on one stream, as long as none is moved: when the
  -- stream passes on a packet, the objects that are there are handed it, once each and in the order in
  -- which they were made, up to the first whose `readPacket` throws, and no other, if the signal's
  -- connections were those of the objects before.
  pub propagate-run :
      (slot : ℕ → Outcome (Unit {0})) (es : List Event) (w : World S)
      → IsWired w
      → propagate slot (run es w) ≡ up_to_throw slot (addresses (run es w).objects)
  propagate-run slot es w h = propagate_wired slot (run es w) (run-IsWired es w h)

  -- An object that is destroyed right after it was made leaves every other one connected.
  pub destroy-make :
      (at : ℕ) (w : World S)
      → IsWired w
      → (destroy (S.connect at w.read).1 (make at w)).objects ≡ w.objects
  unfolding destroy make
  destroy-make at w h =
      without_last (S.connect at w.read).1 at w.objects
        (sym (ap (has_connection (S.connect at w.read).1) h) ∙ S.connect_fresh at w.read)

  -- One more object is made at a free address, moved to another, and the object that was moved from is
  -- destroyed, as a function that returns or passes on a session does: then the next packet that the
  -- stream passes on is handed, after the objects made before if these all return, to an object that is
  -- not there.
  pub move_faults :
      (slot : ℕ → Outcome (Unit {0})) (at to : ℕ) (w : World S)
      → IsWired w
      → count at (addresses w.objects ++ w.strays) ≡ 0
      → to ≢ at
      → All (λ x. slot x ≡ ok tt) (addresses w.objects)
      → propagate slot (destroy_stray at (move to at (make at w))) ≡ (addresses w.objects, fault)
  unfolding propagate destroy_stray move make
  move_faults slot at to w h free differ returns =
      let c = (S.connect at w.read).1 in
      let others : count at (addresses w.objects) + count at w.strays ≡ 0 =
        sym (count-append at (addresses w.objects) w.strays) ∙ free in
      let gone : count at (addresses (w.objects ++ (c, to) ∷ []) ++ w.strays) ≡ 0 =
        rw (addresses-append w.objects ((c, to) ∷ [])) (
          omega (
            arith,
            others,
            count-append at (addresses w.objects ++ to ∷ []) w.strays,
            count-append at (addresses w.objects) (to ∷ []),
            one_if-differ to at differ,
          )) in
      let slots : addresses (S.entries (S.connect at w.read).0) ≡ addresses w.objects ++ at ∷ [] =
        ap addresses (S.entries-connect at w.read ∙ ap (λ es. es ++ (c, at) ∷ []) h)
        ∙ addresses-append w.objects ((c, at) ∷ []) in
      let live : addresses (w.objects ++ (c, to) ∷ []) ++ w.strays
          ≡ addresses w.objects ++ to ∷ w.strays =
        ap (λ xs. xs ++ w.strays) (addresses-append w.objects ((c, to) ∷ []))
        ∙ append_assoc (addresses w.objects) (to ∷ []) w.strays in
      rw
        (
          slots,
          renamed_last at to c w.objects (omega (arith, others)),
          close_last at w.strays,
          live,
        )
        (called_last slot [] (to ∷ w.strays) (addresses w.objects) at
          (ap (count at) (sym live) ∙ gone) returns)
