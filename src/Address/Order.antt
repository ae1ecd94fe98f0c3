-- ===== src/Address/Order.antt =====
-- The comparisons of include/IPAddress.hpp.
use wetnork.Base.{
  ℕ, zero, suc, ◌≤◌, ◌≡◌, ◌≢◌, refl, ap, sym, ◌↔◌, List, [], ◌∷◌, true, not, ◌&&◌, ◌||◌, length,
  take, ltb, ◌==◌, arith, Bool-cases, inl, inr,
}
use wetnork.Address.{
  AddressFamily, ipv4, ipv6, IpAddress, native_family, size_of, memcmp, to_bool, is_zero, less,
  equal,
}

abbrev pub IsWellFormed : IpAddress → Type 0
IsWellFormed ip = length ip.addr ≡ 16

-- `memcmp` is 0 exactly on equal bytes.
pub memcmp_zero :
    (n : ℕ) (xs ys : List ℕ)
    → n ≤ length xs
    → n ≤ length ys
    → (is_zero (memcmp xs ys n) ≡ true) ↔ (take n xs ≡ take n ys)
unfolding memcmp
memcmp_zero zero xs ys h k = (λ _. refl, λ _. refl)
memcmp_zero (suc n) [] ys h k = absurd (omega arith)
memcmp_zero (suc n) (x ∷ xs) [] h k = absurd (omega arith)
memcmp_zero (suc n) (x ∷ xs) (y ∷ ys) h k =
    let ih = memcmp_zero n xs ys (omega arith) (omega arith) in
    (ground (arith, ih.0), ground (arith, ih.1))

pub memcmp_ne :
    (n : ℕ) (xs ys : List ℕ)
    → n ≤ length xs
    → n ≤ length ys
    → take n xs ≢ take n ys
    → to_bool (memcmp xs ys n) ≡ true
memcmp_ne n xs ys h k ne = elim (Bool-cases (to_bool (memcmp xs ys n))) [
  | inl differ ↦ differ
  | inr same ↦ absurd (ne ((memcmp_zero n xs ys h k).0 (ap not same)))
]

-- The bytes of the address itself.
abbrev pub address_bytes : IpAddress → List ℕ
address_bytes ip = take (size_of ip.family) ip.addr

equal_parts :
    (f g : AddressFamily) (xs ys : List ℕ)
    → length xs ≡ 16
    → length ys ≡ 16
    → ((native_family f == native_family g && is_zero (memcmp xs ys (size_of f))) ≡ true)
      ↔ ((f ≡ g) × (take (size_of f) xs ≡ take (size_of g) ys))
unfolding native_family
equal_parts ipv4 ipv4 xs ys h k =
    let same = memcmp_zero 4 xs ys (omega arith) (omega arith) in
    (λ e. (refl, same.0 e), λ p. same.1 p.1)
equal_parts ipv6 ipv6 xs ys h k =
    let same = memcmp_zero 16 xs ys (omega arith) (omega arith) in
    (λ e. (refl, same.0 e), λ p. same.1 p.1)
equal_parts ipv4 ipv6 xs ys h k = (λ e. cc, λ p. cc)
equal_parts ipv6 ipv4 xs ys h k = (λ e. cc, λ p. cc)

-- On addresses whose union has its 16 bytes, `==` says true exactly for the same family and the same
-- address; what the union holds behind an IPv4 address plays no part.
pub equal_iff :
    (a b : IpAddress)
    → IsWellFormed a
    → IsWellFormed b
    → (equal a b ≡ true) ↔ ((a.family ≡ b.family) × (address_bytes a ≡ address_bytes b))
unfolding equal
equal_iff a b v w = equal_parts a.family b.family a.addr b.addr v w

less_parts :
    (f g : AddressFamily) (xs ys : List ℕ)
    → length xs ≡ 16
    → length ys ≡ 16
    → f ≡ g
    → take (size_of f) xs ≢ take (size_of g) ys
    → (ltb (native_family f) (native_family g) || to_bool (memcmp xs ys (size_of f))) ≡ true
unfolding native_family
less_parts ipv4 ipv4 xs ys h k e ne = memcmp_ne 4 xs ys (omega arith) (omega arith) ne
less_parts ipv6 ipv6 xs ys h k e ne = memcmp_ne 16 xs ys (omega arith) (omega arith) ne
less_parts ipv4 ipv6 xs ys h k e ne = cc
less_parts ipv6 ipv4 xs ys h k e ne = cc

-- `<` is no order: of two different addresses of one family, whose unions have their 16 bytes, each
-- is less than the other.
pub less_both_ways :
    (a b : IpAddress)
    → IsWellFormed a
    → IsWellFormed b
    → a.family ≡ b.family
    → address_bytes a ≢ address_bytes b
    → (less a b ≡ true) × (less b a ≡ true)
unfolding less
less_both_ways a b v w f ne = (
  less_parts a.family b.family a.addr b.addr v w f ne,
  less_parts b.family a.family b.addr a.addr w v (sym f) (λ e. ne (sym e)),
)
