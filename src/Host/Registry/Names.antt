-- ===== src/Host/Registry/Names.antt =====
-- The map of host/TunRegistry.cpp by name.
use wetnork.Base.{ℕ, ◌≡◌, refl, List, [], ◌∷◌, none, some, true, if◌then◌else◌, arith, ◌↔◌}
use wetnork.Exceptions.{natural}
use wetnork.Host.Kernel.{Answer, granted, failed}
use wetnork.Host.Device.{TunDevice}
use wetnork.Host.Registry.{
  Devices, Registry, same_text, find, put, erase, Interface, create_device, find_device,
  close_device, is_found,
}

pub same_text_iff : (xs ys : List ℕ) → (same_text xs ys ≡ true) ↔ (xs ≡ ys)
unfolding same_text
same_text_iff [] [] = (λ _. refl, λ _. refl)
same_text_iff [] (y ∷ ys) = (λ e. cc, λ e. cc)
same_text_iff (x ∷ xs) [] = (λ e. cc, λ e. cc)
same_text_iff (x ∷ xs) (y ∷ ys) =
    let ih = same_text_iff xs ys in (ground (arith, ih.0), ground (arith, ih.1))

find-put :
    (j k : List ℕ) (d : TunDevice) (ds : Devices)
    → find j (put k d ds) ≡ (if same_text k j then some d else find j ds)
unfolding find put
find-put j k d [] = refl
find-put j k d ((i, e) ∷ ds) =
    ground (arith, same_text_iff k j, same_text_iff i k, same_text_iff i j, find-put j k d ds)

-- A device that was made is found under the interface's name, and a lookup of any other name gives
-- what it gave before.
pub find_device-create_device :
    (fd : ℕ) (i : Interface) (r : Registry) (name : List ℕ)
    → find_device (create_device (granted fd) (granted i) r).0 name ≡ (
        if same_text i.if_name name
        then some (record { fd = natural fd; if_index = natural i.if_index; name = i.if_name })
        else find_device r name)
unfolding find_device create_device
find_device-create_device fd i r name = find-put name i.if_name _ r.devices

-- No name twice, as in a map.
abbrev pub IsMap : Devices → Type 0
IsMap [] = Unit {0}
IsMap ((k, d) ∷ ds) = (find k ds ≡ none) × IsMap ds

find-erase :
    (j k : List ℕ) (ds : Devices)
    → IsMap ds
    → find j (erase k ds) ≡ (if same_text k j then none else find j ds)
unfolding find erase
find-erase j k [] m = ground arith
find-erase j k ((i, e) ∷ ds) m =
    ground
      (arith, same_text_iff k j, same_text_iff i k, same_text_iff i j, m.0, find-erase j k ds m.1)

put-IsMap : (k : List ℕ) (d : TunDevice) (ds : Devices) → IsMap ds → IsMap (put k d ds)
unfolding put find
put-IsMap k d [] m = (refl, tt)
put-IsMap k d ((i, e) ∷ ds) m =
    ground (arith, same_text_iff k i, same_text_iff i k, find-put i k d ds, put-IsMap k d ds m.1)

erase-IsMap : (k : List ℕ) (ds : Devices) → IsMap ds → IsMap (erase k ds)
unfolding erase
erase-IsMap k [] m = tt
erase-IsMap k ((i, e) ∷ ds) m = ground (arith, find-erase i k ds m.1, erase-IsMap k ds m.1)

-- In a registry with distinct names, closing a name says whether there was a device of that name;
-- afterwards there is none, every other name gives the device that it gave before, and the names
-- are still distinct.
pub close_device-find_device :
    (r : Registry) (name other : List ℕ)
    → IsMap r.devices
    → ((close_device r name).1 ≡ is_found (find_device r name))
      × (find_device (close_device r name).0 other
          ≡ (if same_text name other then none else find_device r other))
      × IsMap (close_device r name).0.devices
unfolding close_device find_device
close_device-find_device r name other m =
    (refl, find-erase other name r.devices m, erase-IsMap name r.devices m)

pub create_device-IsMap :
    (control : Answer ℕ) (made : Answer Interface) (r : Registry)
    → IsMap r.devices
    → IsMap (create_device control made r).0.devices
unfolding create_device
create_device-IsMap (failed errno) made r m = m
create_device-IsMap (granted fd) (failed errno) r m = m
create_device-IsMap (granted fd) (granted i) r m = put-IsMap i.if_name _ r.devices m
