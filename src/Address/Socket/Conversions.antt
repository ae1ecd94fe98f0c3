-- ===== src/Address/Socket/Conversions.antt =====
-- Socket addresses of common/SocketAddress.cpp made from IP addresses, and what they give back.
use wetnork.Base.{
  ℕ, ◌/◌, ◌%◌, ◌<◌, ◌≡◌, refl, ap, ◌↔◌, List, some, true, take, length, arith, ◌^◌,
  take-append_left, length-take, replicate,
}
use wetnork.Address.{
  AddressFamily, ipv4, ipv6, IpAddress, native_family, equal, of_in_addr, of_in6_addr,
}
use wetnork.Address.Order.{IsWellFormed}
use wetnork.Address.Archives.{restored, restored-equal}
use wetnork.Address.Socket.{of_ip_address, address, family, get_port}

given_back :
    (f : AddressFamily) (xs unset : List ℕ) (port : ℕ)
    → length xs ≡ 16
    → (family (of_ip_address (record { addr = xs; family = f }) port) ≡ some f)
      × (address unset (of_ip_address (record { addr = xs; family = f }) port)
          ≡ some (restored f xs unset))
unfolding family address of_ip_address native_family
given_back ipv4 xs unset port h = (
  refl,
  ap (λ ys. some (of_in_addr ys unset))
      (take-append_left 4 (take 4 xs) (replicate 20 0) (omega (arith, length-take 4 xs))),
)
given_back ipv6 xs unset port h = (
  refl,
  ap (λ ys. some (of_in6_addr ys))
      (take-append_left 16 (take 16 xs) (replicate 4 0) (omega (arith, length-take 16 xs))),
)

-- A socket address that is made from an IP address, whose union has its 16 bytes, and a port, has
-- that address's family, and gives back an address that is equal to it by the program's own `==`.
pub address-of_ip_address :
    (ip : IpAddress) (port : ℕ) (unset : List ℕ)
    → IsWellFormed ip
    → length unset ≡ 12
    → (family (of_ip_address ip port) ≡ some ip.family)
      × ((copy : IpAddress) × (address unset (of_ip_address ip port) ≡ some copy)
          × (equal ip copy ≡ true))
address-of_ip_address ip port unset v h =
    let (same_family, back) = given_back ip.family ip.addr unset port v in
    (same_family, (_, back, restored-equal ip.family ip.addr unset v h))

-- The port that a socket address gives back is the one it was made from exactly if that port's two
-- bytes are the same: it comes back in network order.
pub get_port-of_ip_address :
    (ip : IpAddress) (port : ℕ)
    → port < 2 ^ 16
    → (get_port (of_ip_address ip port) ≡ port) ↔ (port / 256 ≡ port % 256)
unfolding get_port of_ip_address
get_port-of_ip_address ip port h = (λ e. omega arith, λ e. omega arith)
