-- ===== src/Address/Socket.antt =====
-- include/SocketAddress.hpp and common/SocketAddress.cpp, with the layout of `sockaddr_in` (16 bytes)
-- and `sockaddr_in6` (28 bytes) on a little-endian Linux.
pub mod Conversions
pub mod Comparisons
use wetnork.Base.{
  ℕ, ◌+◌, ◌-◌, ◌*◌, ◌/◌, ◌%◌, List, ◌∷◌, ◌++◌, Option, none, some, ◌>>=◌, Bool, ◌&&◌, ltb, ◌==◌,
  if◌then◌else◌, take, drop, length, replicate,
}
use wetnork.Exceptions.{negative, Outcome, ok, throw, fault, invalid_argument}
use wetnork.Memory.{load}
use wetnork.Address.{
  AddressFamily, ipv4, ipv6, IpAddress, native_family, of_in_addr, of_in6_addr, memcmp, to_bool,
  is_zero,
}

-- The union's 28 bytes: the family and the port, in network order, stand at the same place in both
-- members; `rest` is the other 24.
pub record SocketAddress : Type 0 where
  pub family0 : ℕ
  pub family1 : ℕ
  pub port0 : ℕ
  pub port1 : ℕ
  pub rest : List ℕ

abbrev pub native : SocketAddress → List ℕ
native a = a.family0 ∷ a.family1 ∷ a.port0 ∷ a.port1 ∷ a.rest

abbrev pub sin_family : SocketAddress → ℕ
sin_family a = a.family0 + 256 * a.family1

-- `rest` after `memset` and the assignment of the address.
abbrev pub rest_of : IpAddress → AddressFamily → List ℕ
rest_of ip ipv4 = take 4 ip.addr ++ replicate 20 0
rest_of ip ipv6 = replicate 4 0 ++ (take 16 ip.addr ++ replicate 4 0)

unfoldable pub of_ip_address : IpAddress → ℕ → SocketAddress
of_ip_address ip port = record {
  family0 = native_family ip.family % 256;
  family1 = native_family ip.family / 256;
  port0 = port / 256 % 256;
  port1 = port % 256;
  rest = rest_of ip ip.family;
}

-- The bytes of a native address that is copied over the zeroed union.
abbrev filled : Option (List ℕ) → Outcome SocketAddress
filled (some (f ∷ g ∷ p ∷ q ∷ bs)) = ok (record {
  family0 = f;
  family1 = g;
  port0 = p;
  port1 = q;
  rest = bs ++ replicate (24 - length bs) 0;
})
filled _ = fault

abbrev copied : ℕ → List ℕ → Outcome SocketAddress
copied family block =
    if family == 2
    then filled (load 16 block)
    else if family == 10
    then filled (load 28 block)
    else throw (invalid_argument "Unsupported address family")

-- The constructor from a native address, of which the family is read first.
unfoldable pub of_sockaddr : List ℕ → Outcome SocketAddress
of_sockaddr (f ∷ g ∷ block) = copied (f + 256 * g) (f ∷ g ∷ block)
of_sockaddr _ = fault

-- A family that is none of the enumeration's leaves the functions below without a result.
unfoldable pub family : SocketAddress → Option AddressFamily
family a = if sin_family a == 2 then some ipv4 else if sin_family a == 10 then some ipv6 else none

abbrev pub len_of : AddressFamily → ℕ
len_of ipv4 = 16
len_of ipv6 = 28

unfoldable pub native_len : SocketAddress → Option ℕ
native_len a = do f ← family a; some (len_of f)

abbrev address_at : SocketAddress → List ℕ → AddressFamily → IpAddress
address_at a unset ipv4 = of_in_addr (take 4 a.rest) unset
address_at a unset ipv6 = of_in6_addr (take 16 (drop 4 a.rest))

-- `unset` is what the constructor of an IPv4 address leaves indeterminate.
unfoldable pub address : List ℕ → SocketAddress → Option IpAddress
address unset a = do f ← family a; some (address_at a unset f)

-- The two bytes of the port as a little-endian machine reads them.
unfoldable pub get_port : SocketAddress → ℕ
get_port a = a.port0 + 256 * a.port1

unfoldable pub less : SocketAddress → SocketAddress → Option Bool
less lhs rhs = do
  n ← native_len lhs
  m ← native_len rhs
  some (to_bool (if ltb n m then negative 0 else memcmp (native lhs) (native rhs) n))

unfoldable pub equal : SocketAddress → SocketAddress → Option Bool
equal lhs rhs = do
  n ← native_len lhs
  some (sin_family lhs == sin_family rhs && is_zero (memcmp (native lhs) (native rhs) n))
