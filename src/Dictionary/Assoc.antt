-- ===== src/Dictionary/Assoc.antt =====
-- A dictionary as an association list, for keys with a test for equality.
use wetnork.Base.{◌≡◌, refl, List, [], ◌∷◌, Option, none, some, Bool, true, false, if◌then◌else◌}
use wetnork.Dictionary.{Dictionary}

module _ {K V : Type 0} (eq : K → K → Bool) (eq_refl : (k : K) → eq k k ≡ true) where
  unfoldable pub lookup : K → List (K × V) → Option V
  lookup k [] = none
  lookup k ((j, v) ∷ m) = if eq j k then some v else lookup k m

  unfoldable pub insert : K → V → List (K × V) → List (K × V)
  insert k v [] = (k, v) ∷ []
  insert k v ((j, w) ∷ m) = let rest = insert k v m in if eq j k then (k, v) ∷ m else (j, w) ∷ rest

  abbrev pub has_none : List (K × V) → Bool
  has_none [] = true
  has_none _ = false

  pub lookup-nil : (k : K) → lookup k [] ≡ none
  unfolding lookup
  lookup-nil k = refl

  pub lookup-insert_nil : (k : K) (v : V) → lookup k (insert k v []) ≡ some v
  unfolding lookup insert
  lookup-insert_nil k v = rw (eq_refl k) refl

  pub insert-insert_nil : (k : K) (v w : V) → insert k w (insert k v []) ≡ insert k w []
  unfolding insert
  insert-insert_nil k v w = rw (eq_refl k) refl

  pub has_none-insert_nil : (k : K) (v : V) → has_none (insert k v []) ≡ false
  unfolding insert
  has_none-insert_nil k v = refl

  abbrev pub assoc : Dictionary K V
  assoc = record {
    Map = List (K × V);
    empty = [];
    is_empty = has_none;
    find = lookup;
    put = insert;
    find-empty = lookup-nil;
    find-put_empty = lookup-insert_nil;
    put-put_empty = insert-insert_nil;
    is_empty-put_empty = has_none-insert_nil;
  }
