-- ===== src/Address/Classes.antt =====
-- Addresses of include/IPAddress.hpp up to the program's own `==`: what the union holds behind an
-- IPv4 address is forgotten.
use mathlib.Core.Equiv.{IsEquiv, iso_to_equiv}
use mathlib.Core.HLevel.{Σ_prop_path}
use mathlib.Core.List
use mathlib.Core.List.{append-nil}
use mathlib.Core.Option.{some-injective}
use mathlib.Core.Quot
use mathlib.Core.Quot.{Quot, Quot-set}
use native.Mathlib.Nat.{ℕ_set}
use wetnork.Base.{
  ℕ, ◌-◌, ◌≡◌, refl, ap, ap₂, ◌∙◌, sym, ◌↔◌, List, [], ◌∷◌, ◌++◌, some, true, ◌%◌, drop, length,
  replicate, arith, length-append, length-replicate, take-append_left,
}
use wetnork.Ipc.{run}
use wetnork.Address.{
  AddressFamily, ipv4, ipv6, IpAddress, native_family, size_of, equal, serialize, int_bytes,
}
use wetnork.Address.Order.{IsWellFormed, address_bytes, equal_iff}
use wetnork.Address.Archives.{run-serialize, size-le, length-address_bytes}

-- An address whose union has its 16 bytes.
abbrev pub Whole : Type 0
Whole = (ip : IpAddress) × IsWellFormed ip

abbrev pub Same : Whole → Whole → Type 0
Same a b = equal a.0 b.0 ≡ true

pub Class : Type 0
Class = Quot Same

-- What an address is: its family, and as many bytes as that has.
abbrev pub Canonical : Type 0
Canonical = (c : AddressFamily × List ℕ) × (length c.1 ≡ size_of c.0)

Canonical-IsSet : IsSet Canonical
Canonical-IsSet = hlevel (ℕ_set, List.is_set)

Canonical-ext : {a b : Canonical} → a.0.0 ≡ b.0.0 → a.0.1 ≡ b.0.1 → a ≡ b
Canonical-ext e f = Σ_prop_path (λ c. ℕ_set _ _) (ap₂ (λ x y. (x, y)) e f)

parts_of : Whole → Canonical
parts_of a = ((a.0.family, address_bytes a.0), length-address_bytes a.0 a.1)

parts_of-Same : (a b : Whole) → Same a b → parts_of a ≡ parts_of b
unfolding parts_of
parts_of-Same a b e = let same = (equal_iff a.0 b.0 a.1 b.1).0 e in Canonical-ext same.0 same.1

-- What the accessors of an address tell of its class.
pub canonical : Class → Canonical
unfolding parts_of Class
canonical = Quot.lift Canonical-IsSet parts_of parts_of-Same

-- An address of those parts, with a union that is otherwise 0.
padded : Canonical → Whole
padded ((f, bs), h) = (
  record { addr = bs ++ replicate (16 - size_of f) 0; family = f },
  omega (
    arith,
    length-append bs (replicate (16 - size_of f) 0),
    length-replicate {A = ℕ} (16 - size_of f) 0,
    size-le f,
  ),
)

parts_of-padded : (c : Canonical) → parts_of (padded c) ≡ c
unfolding parts_of padded
parts_of-padded ((f, bs), h) = Canonical-ext refl (take-append_left (size_of f) bs _ h)

padded-parts_of : (a : Whole) → Same (padded (parts_of a)) a
unfolding parts_of padded
padded-parts_of a = (equal_iff (padded (parts_of a)).0 a.0 (padded (parts_of a)).1 a.1).1 (
  refl,
  take-append_left (size_of a.0.family) (address_bytes a.0) _ (length-address_bytes a.0 a.1),
)

class_of : Canonical → Class
unfolding Class
class_of c = Quot.mk (padded c)

class_of-canonical : (q : Class) → class_of (canonical q) ≡ q
unfolding class_of canonical Class
class_of-canonical = Quot.ind (λ q. Quot-set _ _) (λ a. Quot.sound (padded-parts_of a))

canonical-class_of : (c : Canonical) → canonical (class_of c) ≡ c
unfolding class_of canonical Class
canonical-class_of c = parts_of-padded c

-- The addresses up to the program's `==` are exactly the pairs of a family and as many bytes as that
-- has: different classes differ in one of these, and every such pair is that of a class.
pub canonical-IsEquiv : IsEquiv canonical
canonical-IsEquiv =
    (iso_to_equiv (record {
      fun = canonical;
      inv = class_of;
      rinv = canonical-class_of;
      linv = class_of-canonical;
    })).1

first_byte : List ℕ → ℕ
first_byte [] = 0
first_byte (x ∷ xs) = x

same_family : (f g : AddressFamily) → native_family f % 256 ≡ native_family g % 256 → f ≡ g
unfolding native_family
same_family ipv4 ipv4 e = refl
same_family ipv6 ipv6 e = refl
same_family ipv4 ipv6 e = absurd (omega arith)
same_family ipv6 ipv4 e = absurd (omega arith)

-- Two addresses whose unions have their 16 bytes are `==` exactly if they have the same archive, so
-- an archive holds what `==` compares, and nothing of what it does not.
pub equal-run-serialize :
    (a b : IpAddress)
    → IsWellFormed a
    → IsWellFormed b
    → (equal a b ≡ true) ↔ (run (serialize a) ≡ run (serialize b))
unfolding int_bytes first_byte
equal-run-serialize a b v w =
    let iff = equal_iff a b v w in
    (
      λ e.
          run-serialize a
          ∙ ap₂
              (λ f bs.
                some (record { bytes_ = int_bytes (native_family f) ++ (bs ++ []); fds = [] }))
              (iff.0 e).0 (iff.0 e).1
          ∙ sym (run-serialize b),
      λ e.
          let whole =
            ap (λ x. x.bytes_) (some-injective _ _ (sym (run-serialize a) ∙ e ∙ run-serialize b)) in
          iff.1 (
            same_family a.family b.family (ap first_byte whole),
            sym (append-nil (address_bytes a)) ∙ ap (drop 4) whole ∙ append-nil (address_bytes b),
          ),
    )
