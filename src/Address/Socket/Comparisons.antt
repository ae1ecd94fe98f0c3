-- ===== src/Address/Socket/Comparisons.antt =====
-- The comparisons of include/SocketAddress.hpp, and copies through native addresses.
use wetnork.Base.{
  ℕ, ◌≤◌, ◌≡◌, ◌≢◌, refl, ap, sym, List, ◌∷◌, ◌++◌, some, true, false, length, take, ltb, ◌==◌,
  arith, none, if◌then◌else◌, replicate, take_all, length-take, length-append, take-append_left,
  ==_refl,
}
use wetnork.Exceptions.{ok}
use wetnork.Memory.{load_lem}
use wetnork.Address.{AddressFamily, ipv4, ipv6}
use wetnork.Address.Order.{memcmp_ne, memcmp_zero}
use wetnork.Address.Socket.{
  SocketAddress, sin_family, native, native_len, len_of, family, less, equal, of_sockaddr,
}

-- The bytes of the native address.
abbrev pub native_bytes : AddressFamily → SocketAddress → List ℕ
native_bytes f a = take (len_of f) (native a)

len-le : (f : AddressFamily) → len_of f ≤ 28
len-le ipv4 = omega arith
len-le ipv6 = omega arith

less_one_way :
    (f : AddressFamily) (a b : SocketAddress)
    → length a.rest ≡ 24
    → length b.rest ≡ 24
    → family a ≡ some f
    → family b ≡ some f
    → native_bytes f a ≢ native_bytes f b
    → less a b ≡ some true
unfolding less native_len
less_one_way f a b v w p q ne =
    let differ =
      memcmp_ne (len_of f) (native a) (native b) (omega (arith, len-le f)) (omega (arith, len-le f))
        ne in
    let same : ltb (len_of f) (len_of f) ≡ false = ground arith in rw (p, q, same, differ) refl

-- `<` is no order: of two socket addresses, with the 28 bytes of the union, of one family that differ in
-- their native bytes, each is less than the other.
pub socket_less_both_ways :
    (f : AddressFamily) (a b : SocketAddress)
    → length a.rest ≡ 24
    → length b.rest ≡ 24
    → family a ≡ some f
    → family b ≡ some f
    → native_bytes f a ≢ native_bytes f b
    → (less a b ≡ some true) × (less b a ≡ some true)
socket_less_both_ways f a b v w p q ne =
    (less_one_way f a b v w p q ne, less_one_way f b a w v q p (λ e. ne (sym e)))

-- The copy through the native address: what follows it in the union is zero.
abbrev pub copy_of : AddressFamily → SocketAddress → SocketAddress
copy_of ipv4 a = record a { rest = take 12 a.rest ++ replicate 12 0 }
copy_of ipv6 a = record a { rest = take 24 a.rest ++ replicate 0 0 }

family_four :
    (n : ℕ)
    → (if n == 2 then some ipv4 else if n == 10 then some ipv6 else none) ≡ some ipv4
    → (n == 2) ≡ true
family_four n e = ground arith

family_six :
    (n : ℕ)
    → (if n == 2 then some ipv4 else if n == 10 then some ipv6 else none) ≡ some ipv6
    → ((n == 2) ≡ false) × ((n == 10) ≡ true)
family_six n e = ground arith

copies :
    (f : AddressFamily) (a : SocketAddress)
    → length a.rest ≡ 24
    → family a ≡ some f
    → of_sockaddr (native_bytes f a) ≡ ok (copy_of f a)
unfolding of_sockaddr family
copies ipv4 a v p =
    let size : length (take 12 a.rest) ≡ 12 = omega (arith, length-take 12 a.rest) in
    rw
      (
        family_four (sin_family a) p,
        load_lem 16 (a.family0 ∷ a.family1 ∷ a.port0 ∷ a.port1 ∷ take 12 a.rest) (omega arith),
        take_all 12 (take 12 a.rest) (omega arith),
        size,
      )
      refl
copies ipv6 a v p =
    let size : length (take 24 a.rest) ≡ 24 = omega (arith, length-take 24 a.rest) in
    let (other, this) = family_six (sin_family a) p in
    rw
      (
        other,
        this,
        load_lem 28 (a.family0 ∷ a.family1 ∷ a.port0 ∷ a.port1 ∷ take 24 a.rest) (omega arith),
        take_all 24 (take 24 a.rest) (omega arith),
        size,
      )
      refl

copy_bytes :
    (f : AddressFamily) (a : SocketAddress)
    → length a.rest ≡ 24
    → (native_bytes f a ≡ native_bytes f (copy_of f a)) × (length (copy_of f a).rest ≡ 24)
copy_bytes ipv4 a v =
    let size : length (take 12 a.rest) ≡ 12 = omega (arith, length-take 12 a.rest) in
    (
      ap (λ xs. a.family0 ∷ a.family1 ∷ a.port0 ∷ a.port1 ∷ xs)
          (sym (take-append_left 12 (take 12 a.rest) (replicate 12 0) size)),
      omega (arith, length-append (take 12 a.rest) (replicate 12 0)),
    )
copy_bytes ipv6 a v =
    let size : length (take 24 a.rest) ≡ 24 = omega (arith, length-take 24 a.rest) in
    (
      ap (λ xs. a.family0 ∷ a.family1 ∷ a.port0 ∷ a.port1 ∷ xs)
          (sym (take-append_left 24 (take 24 a.rest) (replicate 0 0) size)),
      omega (arith, length-append (take 24 a.rest) (replicate 0 0)),
    )

copy_family : (f : AddressFamily) (a : SocketAddress) → sin_family (copy_of f a) ≡ sin_family a
copy_family ipv4 a = refl
copy_family ipv6 a = refl

-- A socket address of 28 bytes and a known family, copied through its native address, comes out
-- equal by the program's own `==`.
pub of_sockaddr-native :
    (f : AddressFamily) (a : SocketAddress)
    → length a.rest ≡ 24
    → family a ≡ some f
    → (copy : SocketAddress) × (of_sockaddr (native_bytes f a) ≡ ok copy)
      × (equal a copy ≡ some true)
unfolding equal native_len
of_sockaddr-native f a v p =
    let (same_bytes, size) = copy_bytes f a v in
    let bytes_equal =
      (memcmp_zero (len_of f) (native a) (native (copy_of f a)) (omega (arith, len-le f))
          (omega (arith, len-le f, size))).1
        same_bytes in
    (copy_of f a, copies f a v p, rw (p, copy_family f a, ==_refl (sin_family a), bytes_equal) refl)
