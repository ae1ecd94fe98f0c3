-- ===== src/Host/Registry/Ownership.antt =====
-- The descriptors that a registry of host/TunRegistry.cpp owns.
use wetnork.Base.{ℕ, ◌+◌, ◌≤◌, ◌≡◌, List, [], ◌∷◌, Option, none, some, arith}
use wetnork.Exceptions.{natural}
use wetnork.Host.Kernel.{Answer, granted, failed, count, count-close_fd, one_if_self}
use wetnork.Host.Device.{TunDevice, destroy, close, owned, count-close}
use wetnork.Host.Registry.{
  Devices, Registry, find, put, erase, Interface, destroy_old, create_device, close_device,
  destroy_registry, destroy_all,
}

-- How often a descriptor is owned by the devices of the map.
abbrev pub owned_count : ℕ → Devices → ℕ
owned_count n [] = 0
owned_count n ((k, d) ∷ ds) = count n (owned d) + owned_count n ds

-- The open descriptors are those of the devices and the rest of the process's, each as often as it
-- is owned: none is leaked, and none is closed that a device still uses.
abbrev pub IsBalanced : List ℕ → Registry → Type 0
IsBalanced others r = (n : ℕ) → count n r.fds ≡ count n others + owned_count n r.devices

old_count : ℕ → Option TunDevice → ℕ
old_count n none = 0
old_count n (some d) = count n (owned d)

owned_count-put :
    (n : ℕ) (k : List ℕ) (d : TunDevice) (ds : Devices)
    → owned_count n (put k d ds) + old_count n (find k ds) ≡ owned_count n ds + count n (owned d)
unfolding put find old_count
owned_count-put n k d [] = omega arith
owned_count-put n k d ((j, e) ∷ ds) = ground (arith, owned_count-put n k d ds)

owned_count-erase :
    (n : ℕ) (k : List ℕ) (ds : Devices)
    → owned_count n (erase k ds) + old_count n (find k ds) ≡ owned_count n ds
unfolding erase find old_count
owned_count-erase n k [] = omega arith
owned_count-erase n k ((j, e) ∷ ds) = ground (arith, owned_count-erase n k ds)

count-destroy_old :
    (n : ℕ) (o : Option TunDevice) (fds : List ℕ)
    → ((m : ℕ) → old_count m o ≤ count m fds)
    → count n (destroy_old o fds) + old_count n o ≡ count n fds
unfolding old_count destroy
count-destroy_old n none fds h = omega arith
count-destroy_old n (some d) fds h = count-close d n fds h

-- Making a device keeps the balance, also when the kernel refuses, or names it like an old one.
pub create_device-IsBalanced :
    (others : List ℕ) (control : Answer ℕ) (made : Answer Interface) (r : Registry)
    → IsBalanced others r
    → IsBalanced others (create_device control made r).0
unfolding create_device
create_device-IsBalanced others (failed errno) made r b n = b n
create_device-IsBalanced others (granted fd) (failed errno) r b n =
    omega (arith, b n, count-close_fd fd n (fd ∷ r.fds) (omega (arith, one_if_self fd)))
create_device-IsBalanced others (granted fd) (granted i) r b n =
    let old = find i.if_name r.devices in
    let d : TunDevice = record {
      fd = natural fd;
      if_index = natural i.if_index;
      name = i.if_name;
    } in
    omega (
      arith,
      b n,
      owned_count-put n i.if_name d r.devices,
      count-destroy_old n old (fd ∷ r.fds)
          (λ m. omega (arith, b m, owned_count-erase m i.if_name r.devices)),
    )

pub close_device-IsBalanced :
    (others : List ℕ) (name : List ℕ) (r : Registry)
    → IsBalanced others r
    → IsBalanced others (close_device r name).0
unfolding close_device
close_device-IsBalanced others name r b n = omega (
  arith,
  b n,
  owned_count-erase n name r.devices,
  count-destroy_old n (find name r.devices) r.fds
      (λ m. omega (arith, b m, owned_count-erase m name r.devices)),
)

pub data Call : Type 0 where
  creates : Answer ℕ → Answer Interface → Call
  closes : List ℕ → Call

unfoldable pub perform : Registry → Call → Registry
perform r (creates control made) = (create_device control made r).0
perform r (closes name) = (close_device r name).0

unfoldable pub run : Registry → List Call → Registry
run r [] = r
run r (c ∷ cs) = run (perform r c) cs

perform-IsBalanced :
    (others : List ℕ) (r : Registry) (c : Call)
    → IsBalanced others r
    → IsBalanced others (perform r c)
unfolding perform
perform-IsBalanced others r (creates control made) b =
    create_device-IsBalanced others control made r b
perform-IsBalanced others r (closes name) b = close_device-IsBalanced others name r b

-- After any calls, whatever the kernel answered, every open descriptor of the process is one of
-- its others or is owned by exactly the devices in the registry: none was leaked, and none was
-- closed early or twice.
pub run-IsBalanced :
    (others : List ℕ) (r : Registry) (cs : List Call)
    → IsBalanced others r
    → IsBalanced others (run r cs)
unfolding run
run-IsBalanced others r [] b = b
run-IsBalanced others r (c ∷ cs) b =
    run-IsBalanced others (perform r c) cs (perform-IsBalanced others r c b)

count-destroy_all :
    (ds : Devices) (n : ℕ) (fds : List ℕ)
    → ((m : ℕ) → owned_count m ds ≤ count m fds)
    → count n (destroy_all ds fds) + owned_count n ds ≡ count n fds
unfolding destroy_all destroy
count-destroy_all [] n fds h = omega arith
count-destroy_all ((k, d) ∷ ds) n fds h =
    let closed : (m : ℕ) → count m (close d fds) + count m (owned d) ≡ count m fds =
      λ m. count-close d m fds (λ j. omega (arith, h j)) in
    omega
      (arith, closed n, count-destroy_all ds n (close d fds) (λ m. omega (arith, h m, closed m)))

-- A registry that is destroyed after any calls, whatever the kernel answered, leaves open exactly
-- the descriptors of the process that are not its own.
pub destroy_registry-run :
    (others : List ℕ) (r : Registry) (cs : List Call) (n : ℕ)
    → IsBalanced others r
    → count n (destroy_registry (run r cs)) ≡ count n others
unfolding destroy_registry
destroy_registry-run others r cs n b =
    let kept = run-IsBalanced others r cs b in
    omega (
      arith,
      kept n,
      count-destroy_all (run r cs).devices n (run r cs).fds (λ m. omega (arith, kept m)),
    )
