-- ===== src/Address.antt =====
-- include/IPAddress.hpp and common/IPAddress.cpp.
pub mod Order
pub mod Archives
pub mod Classes
pub mod Native
pub mod Text
pub mod Socket
mod Examples
use wetnork.Base.{
  ℕ, ◌+◌, ◌*◌, ◌/◌, ◌%◌, List, [], ◌∷◌, ◌++◌, Option, none, some, ◌>>=◌, Bool, true, false, not,
  ◌&&◌, ◌||◌, ltb, ◌==◌, if◌then◌else◌, take, zero, suc, ◌^◌,
}
use wetnork.Exceptions.{Code, natural, negative, Outcome, ok, throw, invalid_argument}
use wetnork.Ipc.{Serializer, push_raw, Deserializer, pop_raw}

-- `AF_INET` and `AF_INET6` of Linux.
pub data AddressFamily : Type 0 where
  ipv4 ipv6 : AddressFamily

unfoldable pub native_family : AddressFamily → ℕ
native_family ipv4 = 2
native_family ipv6 = 10

-- `addr_` is the union's 16 bytes, of which an IPv4 address takes the first four.
pub record IpAddress : Type 0 where
  pub addr : List ℕ
  pub family : AddressFamily

-- `rest` is what the constructor leaves indeterminate in the union.
unfoldable pub of_in_addr : List ℕ → List ℕ → IpAddress
of_in_addr native rest = record { addr = native ++ rest; family = ipv4 }

unfoldable pub of_in6_addr : List ℕ → IpAddress
of_in6_addr native = record { addr = native; family = ipv6 }

abbrev pub size_of : AddressFamily → ℕ
size_of ipv4 = 4
size_of ipv6 = 16

unfoldable pub native_size : IpAddress → ℕ
native_size ip = size_of ip.family

-- `std::memcmp` on unsigned bytes, of which the source uses the sign.
pub memcmp : List ℕ → List ℕ → ℕ → Code
memcmp xs ys zero = natural 0
memcmp (x ∷ xs) (y ∷ ys) (suc n) =
    let rest = memcmp xs ys n in if x == y then rest else if ltb x y then negative 0 else natural 1
memcmp _ _ _ = natural 0

-- An `int` where a `bool` is wanted.
abbrev pub to_bool : Code → Bool
to_bool (natural n) = not (n == 0)
to_bool (negative n) = true

abbrev pub is_zero : Code → Bool
is_zero c = not (to_bool c)

unfoldable pub less : IpAddress → IpAddress → Bool
unfolding native_family native_size
less lhs rhs =
    ltb (native_family lhs.family) (native_family rhs.family)
    || to_bool (memcmp lhs.addr rhs.addr (native_size lhs))

unfoldable pub equal : IpAddress → IpAddress → Bool
unfolding native_family native_size
equal lhs rhs =
    native_family lhs.family == native_family rhs.family
    && is_zero (memcmp lhs.addr rhs.addr (native_size lhs))

-- `inet_pton` for one family: the address, if the text is one.
abbrev parsed : Option IpAddress → Outcome IpAddress
parsed none = throw (invalid_argument "Cannot parse address")
parsed (some ip) = ok ip

abbrev made {ℓ κ} : {A : Type ℓ} {B : Type κ} → (A → B) → Option A → Option B
made f none = none
made f (some a) = some (f a)

unfoldable pub has_colon : List ℕ → Bool
has_colon [] = false
has_colon (c ∷ cs) = c == b':' || has_colon cs

unfoldable pub parse :
    (List ℕ → Option (List ℕ)) → (List ℕ → Option (List ℕ)) → List ℕ → List ℕ → Outcome IpAddress
unfolding has_colon
parse pton4 pton6 rest text =
    if has_colon text
    then parsed (made of_in6_addr (pton6 text))
    else parsed (made (λ native. of_in_addr native rest) (pton4 text))

-- The `int` of an enumeration as a little-endian machine keeps it.
unfoldable pub int_bytes : ℕ → List ℕ
int_bytes n = n % 256 ∷ n / 2 ^ 8 % 256 ∷ n / 2 ^ 16 % 256 ∷ n / 2 ^ 24 % 256 ∷ []

unfoldable pub int_of : List ℕ → ℕ
int_of (a ∷ b ∷ c ∷ d ∷ []) = a + 256 * (b + 256 * (c + 256 * d))
int_of _ = 0

unfoldable pub serialize : IpAddress → Serializer → Option Serializer
unfolding native_family int_bytes
serialize ip s = do
  s' ← push_raw (int_bytes (native_family ip.family)) s
  push_raw (take (size_of ip.family) ip.addr) s'

abbrev read_in_addr : List ℕ → Deserializer → Option (IpAddress × Deserializer)
read_in_addr rest d = do (native, d') ← pop_raw (size_of ipv4) d; some (of_in_addr native rest, d')

abbrev read_in6_addr : Deserializer → Option (IpAddress × Deserializer)
read_in6_addr d = do (native, d') ← pop_raw (size_of ipv6) d; some (of_in6_addr native, d')

abbrev read_address : List ℕ → ℕ → Deserializer → Option (IpAddress × Deserializer)
read_address rest family d =
    if family == 2 then read_in_addr rest d else if family == 10 then read_in6_addr d else none

-- An unknown family leaves the result without a value, which is a fault at its first use.
unfoldable pub deserialize : List ℕ → Deserializer → Option (IpAddress × Deserializer)
unfolding int_of
deserialize rest d = do (family, d') ← pop_raw 4 d; read_address rest (int_of family) d'
