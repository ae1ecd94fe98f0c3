-- ===== src/Base/Faults.antt =====
-- A chain of steps each of which may fault: `none` is a fault, and nothing runs after it.
use mathlib.Core.Path.{◌≡◌, refl, sym, ◌∙◌, subst}
use mathlib.Core.Option.{Option, none, some, some-injective}

infixl 5 ◌>>=◌
abbrev pub ◌>>=◌ {ℓ κ} : {A : Type ℓ} {B : Type κ} → Option A → (A → Option B) → Option B
none >>= f = none
some a >>= f = f a

pub >>=-eq-some {ℓ κ} :
    {A : Type ℓ} {B : Type κ} (m : Option A) (f : A → Option B) {b : B}
    → (m >>= f) ≡ some b
    → (a : A) × (m ≡ some a) × (f a ≡ some b)
>>=-eq-some none f h = cc
>>=-eq-some (some a) f h = (a, refl, h)

-- Two runs of the same step have the same result.
pub same_result {ℓ κ μ} :
    {A : Type ℓ} {B : Type κ} (P : A → B → Type μ) {m : Option (A × B)} {a a' : A} {b b' : B}
    → m ≡ some (a, b)
    → m ≡ some (a', b')
    → P a' b'
    → P a b
same_result P e e' x = subst (λ r. P r.0 r.1) (some-injective _ _ (sym e' ∙ e)) x
