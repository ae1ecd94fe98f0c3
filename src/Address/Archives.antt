-- ===== src/Address/Archives.antt =====
-- IP addresses of common/IPAddress.cpp in archives.
use mathlib.Core.Path.{fun_ext}
use wetnork.Base.{
  ℕ, ◌+◌, ◌≤◌, ◌≡◌, refl, ap, ◌∙◌, sym, List, [], ◌∷◌, ◌++◌, Option, none, some, ◌>>=◌, true,
  length, take, arith, length-append, length-take, take-append_left, take_all,
}
use wetnork.Ipc
use wetnork.Ipc.{Archive, push_raw, push_array, Write, raw, write, run, Deserializer, deserializer}
use wetnork.Ipc.RoundTrip.{run-writes, pop_raw_at}
use wetnork.Address.{
  AddressFamily, ipv4, ipv6, IpAddress, native_family, size_of, of_in_addr, of_in6_addr, int_bytes,
  equal, serialize, deserialize, read_in_addr, read_in6_addr,
}
use wetnork.Address.Order.{IsWellFormed, address_bytes, equal_iff}

-- The two writes of `serialize`.
abbrev writes : IpAddress → List Write
writes ip = raw (int_bytes (native_family ip.family)) ∷ raw (address_bytes ip) ∷ []

bind_some {ℓ} : {A : Type ℓ} (m : Option A) → (m >>= λ a. some a) ≡ m
bind_some none = refl
bind_some (some a) = refl

serialize-writes : (ip : IpAddress) → serialize ip ≡ push_array write (writes ip)
unfolding serialize push_array write
serialize-writes ip = fun_ext λ s. sym (
    ap (λ k. push_raw (int_bytes (native_family ip.family)) s >>= k)
      (fun_ext λ s'. bind_some (push_raw (address_bytes ip) s')))

-- The archive of an address.
abbrev pub archive_of : IpAddress → Archive
archive_of ip = record {
  bytes_ = int_bytes (native_family ip.family) ++ (address_bytes ip ++ []);
  fds = [];
}

pub size-le : (f : AddressFamily) → size_of f ≤ 16
size-le ipv4 = omega arith
size-le ipv6 = omega arith

pub length-address_bytes :
    (ip : IpAddress) → IsWellFormed ip → length (address_bytes ip) ≡ size_of ip.family
length-address_bytes ip h =
    omega (arith, length-take (size_of ip.family) ip.addr, h, size-le ip.family)

pub run-serialize : (ip : IpAddress) → run (serialize ip) ≡ some (archive_of ip)
unfolding int_bytes
run-serialize ip =
    ap run (serialize-writes ip)
    ∙ run-writes (writes ip) (
        omega (
          arith,
          length-append (address_bytes ip) [],
          length-take (size_of ip.family) ip.addr,
          size-le ip.family,
        ))

-- What `deserialize` makes of the archive, for each family.
abbrev pub restored : AddressFamily → List ℕ → List ℕ → IpAddress
restored ipv4 xs rest = of_in_addr (take 4 xs) rest
restored ipv6 xs rest = of_in6_addr (take 16 xs)

restores :
    (f : AddressFamily) (xs rest : List ℕ) (k : ℕ)
    → length xs ≡ 16
    → deserialize rest (record {
      archive = archive_of (record { addr = xs; family = f });
      byte_offset = 0;
      fd_offset = k;
    })
      ≡ some (
        restored f xs rest,
        record {
          archive = archive_of (record { addr = xs; family = f });
          byte_offset = 4 + size_of f;
          fd_offset = k;
        },
      )
unfolding deserialize native_family int_bytes
restores ipv4 xs rest k h =
    rw (pop_raw_at [] (2 ∷ 0 ∷ 0 ∷ 0 ∷ []) (take 4 xs ++ []) [] 0 4 k refl refl (omega arith)) (
      rw (
        pop_raw_at (2 ∷ 0 ∷ 0 ∷ 0 ∷ []) (take 4 xs) [] [] 4 4 k refl
            (omega (arith, length-take 4 xs)) (omega arith),
        read_in_addr,
      ))
restores ipv6 xs rest k h =
    rw (pop_raw_at [] (10 ∷ 0 ∷ 0 ∷ 0 ∷ []) (take 16 xs ++ []) [] 0 4 k refl refl (omega arith)) (
      rw (
        pop_raw_at (10 ∷ 0 ∷ 0 ∷ 0 ∷ []) (take 16 xs) [] [] 4 16 k refl
            (omega (arith, length-take 16 xs)) (omega arith),
        read_in6_addr,
      ))

pub restored-equal :
    (f : AddressFamily) (xs rest : List ℕ)
    → length xs ≡ 16
    → length rest ≡ 12
    → equal (record { addr = xs; family = f }) (restored f xs rest) ≡ true
unfolding of_in_addr of_in6_addr
restored-equal ipv4 xs rest h k =
    let front : length (take 4 xs) ≡ 4 = omega (arith, length-take 4 xs) in
    (equal_iff (record { addr = xs; family = ipv4 }) (of_in_addr (take 4 xs) rest) h
        (omega (arith, length-append (take 4 xs) rest))).1
      (refl, sym (take-append_left 4 (take 4 xs) rest front))
restored-equal ipv6 xs rest h k =
    (equal_iff (record { addr = xs; family = ipv6 }) (of_in6_addr (take 16 xs)) h
        (omega (arith, length-take 16 xs))).1
      (refl, ap (take 16) (sym (take_all 16 xs (omega arith))))

archive_of-length :
    (f : AddressFamily) (xs : List ℕ)
    → length xs ≡ 16
    → 4 + size_of f ≡ length (archive_of (record { addr = xs; family = f })).bytes_
unfolding int_bytes
archive_of-length ipv4 xs h = omega (arith, length-append (take 4 xs) [], length-take 4 xs)
archive_of-length ipv6 xs h = omega (arith, length-append (take 16 xs) [], length-take 16 xs)

-- An address whose union has its 16 bytes, given to `ipc::serialize`: the address's own function
-- `deserialize`, on a deserializer of the archive whose offset is 0, makes an address equal to it by the
-- program's own `==`, and has read the whole archive.
pub deserialize-serialize :
    (ip : IpAddress) (rest : List ℕ) (k : ℕ)
    → IsWellFormed ip
    → length rest ≡ 12
    → (a : Archive) × (copy : IpAddress) × (d : Deserializer) × (Ipc.serialize serialize ip
        ≡ some a)
      × (deserialize rest (deserializer a 0 k) ≡ some (copy, d))
      × (equal ip copy ≡ true)
      × (d.byte_offset ≡ length a.bytes_)
unfolding Ipc.serialize deserializer
deserialize-serialize ip rest k v h = (
  archive_of ip,
  restored ip.family ip.addr rest,
  _,
  run-serialize ip,
  restores ip.family ip.addr rest k v,
  restored-equal ip.family ip.addr rest v h,
  archive_of-length ip.family ip.addr v,
)
