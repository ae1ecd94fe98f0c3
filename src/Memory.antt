-- ===== src/Memory.antt =====
-- Copies between byte blocks, as the program makes them with `memcpy`. `none` is an access past
-- the end of a block, which the program must not make.
use wetnork.Base.{
  ℕ, ◌+◌, ◌≤◌, ◌≡◌, ap, ◌∙◌, sym, List, ◌++◌, Option, some, none, length, take, drop, arith, leb,
  ltb, ◌-◌, ◌<◌, if◌then◌else◌, length-append, length-take, length-drop, le→leb, take-append_left,
  ◌%◌, ◌^◌,
}
use mathlib.Core.List.{append_assoc}

-- `size_t` arithmetic.
abbrev pub u64 : ℕ → ℕ
u64 n = n % 2 ^ 64

-- A `size_t` that is kept in an `int`, as the `size_t` that it is taken for again.
abbrev pub through_int : ℕ → ℕ
through_int n = let r = n % 2 ^ 32 in if ltb r (2 ^ 31) then r else r + (2 ^ 64 - 2 ^ 32)

pub through_int_small : (n : ℕ) → n < 2 ^ 31 → through_int n ≡ n
through_int_small n h = ground arith

-- `len` bytes from the start of `source`, a pointer into a block.
unfoldable pub load : ℕ → List ℕ → Option (List ℕ)
load len source = if leb len (length source) then some (take len source) else none

-- `block` with `xs` written at `offset`.
abbrev pub overwrite : List ℕ → ℕ → List ℕ → List ℕ
overwrite block offset xs = take offset block ++ (xs ++ drop (offset + length xs) block)

unfoldable pub store : List ℕ → ℕ → List ℕ → Option (List ℕ)
store block offset xs =
    if leb (offset + length xs) (length block) then some (overwrite block offset xs) else none

pub load_lem :
    (len : ℕ) (source : List ℕ) → len ≤ length source → load len source ≡ some (take len source)
unfolding load
load_lem len source h = rw (le→leb _ _ h)

-- A store within the block succeeds, keeps the block's length and what stands before, and puts
-- `xs` behind that.
pub store_lem :
    (block : List ℕ) (offset : ℕ) (xs : List ℕ)
    → offset + length xs ≤ length block
    → (store block offset xs ≡ some (overwrite block offset xs))
      × (length (overwrite block offset xs) ≡ length block)
      × (take (offset + length xs) (overwrite block offset xs) ≡ take offset block ++ xs)
unfolding store
store_lem block offset xs h = (
  rw (le→leb _ _ h),
  omega (
    arith,
    length-append (take offset block) (xs ++ drop (offset + length xs) block),
    length-append xs (drop (offset + length xs) block),
    length-take offset block,
    length-drop (offset + length xs) block,
  ),
  ap (take (offset + length xs)) (sym (append_assoc (take offset block) xs _))
      ∙ take-append_left (offset + length xs) (take offset block ++ xs) _
          (omega (arith, length-append (take offset block) xs, length-take offset block)),
)
