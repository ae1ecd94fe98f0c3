-- ===== src/Crypto/Keys.antt =====
-- include/crypto.hpp and common/KeyFingerprint.cpp. A `char` is kept as its byte; comparison is
-- that of signed characters, as on the machines that the program's TUN code is for.
use wetnork.Base.{
  ℕ, ◌+◌, ◌%◌, ◌<◌, ◌≡◌, refl, sym, ◌↔◌, List, [], ◌∷◌, Option, none, some, Bool, true, false, not,
  ◌&&◌, ◌||◌, ltb, ◌==◌, if◌then◌else◌, All, arith,
}
use wetnork.Exceptions.{Outcome, ok, throw, fault, invalid_argument}
use wetnork.Memory.{load}

pub record KeyFingerprint : Type 0 where
  pub chars : List ℕ

abbrev assigned : Option (List ℕ) → Outcome KeyFingerprint
assigned none = fault
assigned (some cs) = ok (record { chars = cs })

-- The constructor, from a pointer that may be null.
unfoldable pub key_fingerprint : Option (List ℕ) → ℕ → Outcome KeyFingerprint
key_fingerprint none len = throw (invalid_argument "data")
key_fingerprint (some block) len =
    if ltb len 1 || ltb 128 len
    then throw (invalid_argument "length")
    else assigned (load len block)

-- The order of signed characters, on their bytes.
abbrev pub rank : ℕ → ℕ
rank c = (c + 128) % 256

-- `operator<` and `operator==` of `std::vector<char>`.
pub less_chars : List ℕ → List ℕ → Bool
less_chars xs [] = false
less_chars [] (y ∷ ys) = true
less_chars (x ∷ xs) (y ∷ ys) =
    let rest = less_chars xs ys in
    if ltb (rank x) (rank y) then true else if ltb (rank y) (rank x) then false else rest

pub equal_chars : List ℕ → List ℕ → Bool
equal_chars [] [] = true
equal_chars (x ∷ xs) (y ∷ ys) = x == y && equal_chars xs ys
equal_chars _ _ = false

unfoldable pub less : KeyFingerprint → KeyFingerprint → Bool
less a b = less_chars a.chars b.chars

unfoldable pub equal : KeyFingerprint → KeyFingerprint → Bool
equal a b = equal_chars a.chars b.chars

abbrev pub IsBytes : List ℕ → Type 0
IsBytes cs = All (λ c. c < 256) cs

less_chars_irrefl : (xs : List ℕ) → less_chars xs xs ≡ false
unfolding less_chars
less_chars_irrefl [] = refl
less_chars_irrefl (x ∷ xs) = ground (arith, less_chars_irrefl xs)

less_chars_trans :
    (xs ys zs : List ℕ)
    → less_chars xs ys ≡ true
    → less_chars ys zs ≡ true
    → less_chars xs zs ≡ true
unfolding less_chars
less_chars_trans xs ys [] p q = q
less_chars_trans xs [] (z ∷ zs) p q = cc
less_chars_trans [] (y ∷ ys) (z ∷ zs) p q = refl
less_chars_trans (x ∷ xs) (y ∷ ys) (z ∷ zs) p q = ground (arith, less_chars_trans xs ys zs)

-- Neither before the other: the same.
less_chars_antisym :
    (xs ys : List ℕ)
    → IsBytes xs
    → IsBytes ys
    → less_chars xs ys ≡ false
    → less_chars ys xs ≡ false
    → xs ≡ ys
unfolding less_chars
less_chars_antisym [] [] v w p q = refl
less_chars_antisym [] (y ∷ ys) v w p q = cc
less_chars_antisym (x ∷ xs) [] v w p q = cc
less_chars_antisym (x ∷ xs) (y ∷ ys) v w p q = ground (arith, less_chars_antisym xs ys v.1 w.1)

equal_chars_iff : (xs ys : List ℕ) → (equal_chars xs ys ≡ true) ↔ (xs ≡ ys)
unfolding equal_chars
equal_chars_iff [] [] = (λ _. refl, λ _. refl)
equal_chars_iff [] (y ∷ ys) = (λ e. cc, λ e. cc)
equal_chars_iff (x ∷ xs) [] = (λ e. cc, λ e. cc)
equal_chars_iff (x ∷ xs) (y ∷ ys) =
    let ih = equal_chars_iff xs ys in (ground (arith, ih.0), ground (arith, ih.1))

same_bool : (x y : Bool) → (x ≡ true → y ≡ true) → (y ≡ true → x ≡ true) → x ≡ y
same_bool true y f g = sym (f refl)
same_bool false true f g = g refl
same_bool false false f g = refl

equal_chars_refl : (xs : List ℕ) → equal_chars xs xs ≡ true
equal_chars_refl xs = (equal_chars_iff xs xs).1 refl

less_chars_equal :
    (xs ys : List ℕ)
    → IsBytes xs
    → IsBytes ys
    → (not (less_chars xs ys) && not (less_chars ys xs)) ≡ equal_chars xs ys
less_chars_equal xs ys v w =
    let from_equal : xs ≡ ys → (not (less_chars xs ys) && not (less_chars ys xs)) ≡ true =
      λ e. rw (e, less_chars_irrefl ys) in
    same_bool (not (less_chars xs ys) && not (less_chars ys xs)) (equal_chars xs ys)
      (λ h.
        (equal_chars_iff xs ys).1
          (less_chars_antisym xs ys v w (ground (arith, h)) (ground (arith, h))))
      (λ h. from_equal ((equal_chars_iff xs ys).0 h))

-- `<` on fingerprints of bytes is a strict order, as `std::set` wants it: nothing is less than
-- itself, it is transitive, and two fingerprints of which neither is less are `==`.
pub less-IsStrictOrder :
    (a b c : KeyFingerprint)
    → IsBytes a.chars
    → IsBytes b.chars
    → (less a a ≡ false)
      × ((less a b && less b c && not (less a c)) ≡ false)
      × ((not (less a b) && not (less b a)) ≡ equal a b)
unfolding less equal
less-IsStrictOrder a b c v w = (
  less_chars_irrefl a.chars,
  ground (arith, less_chars_trans a.chars b.chars c.chars),
  less_chars_equal a.chars b.chars v w,
)

pub key_equal_iff : (a b : KeyFingerprint) → (equal a b ≡ true) ↔ (a.chars ≡ b.chars)
unfolding equal
key_equal_iff a b = equal_chars_iff a.chars b.chars
