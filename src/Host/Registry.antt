-- ===== src/Host/Registry.antt =====
-- host/TunRegistry.hpp and host/TunRegistry.cpp. The map of devices is an association list by
-- name; an erased or replaced entry runs the destructor of its device.
pub mod Ownership
pub mod Names
pub mod View
use wetnork.Base.{
  ℕ, List, [], ◌∷◌, Option, none, some, Bool, true, false, ◌&&◌, ◌==◌, if◌then◌else◌,
}
use wetnork.Exceptions.{natural, Outcome, ok, throw, system_error}
use wetnork.Host.Kernel.{Answer, granted, failed, close_fd}
use wetnork.Host.Device.{TunDevice, destroy}

-- `std::string::operator==`.
unfoldable pub same_text : List ℕ → List ℕ → Bool
same_text [] [] = true
same_text (x ∷ xs) (y ∷ ys) = x == y && same_text xs ys
same_text _ _ = false

abbrev pub Devices : Type 0
Devices = List (List ℕ × TunDevice)

-- The registry, and the descriptors that the process has open.
pub record Registry : Type 0 where
  pub devices : Devices
  pub fds : List ℕ

unfoldable pub find : List ℕ → Devices → Option TunDevice
find k [] = none
find k ((j, d) ∷ ds) = if same_text j k then some d else find k ds

unfoldable pub put : List ℕ → TunDevice → Devices → Devices
put k d [] = (k, d) ∷ []
put k d ((j, e) ∷ ds) = if same_text j k then (j, d) ∷ ds else (j, e) ∷ put k d ds

unfoldable pub erase : List ℕ → Devices → Devices
erase k [] = []
erase k ((j, d) ∷ ds) = if same_text j k then ds else (j, d) ∷ erase k ds

abbrev destroy_old : Option TunDevice → List ℕ → List ℕ
destroy_old none fds = fds
destroy_old (some d) fds = destroy d fds

-- What the kernel makes of the name template: the interface's name and its index.
pub record Interface : Type 0 where
  pub if_name : List ℕ
  pub if_index : ℕ

-- After `open`: the `ioctl` that makes the interface, then the entry in the map.
abbrev configured : ℕ → Answer Interface → Registry → Registry × Outcome TunDevice
configured fd (failed errno) r =
    (record r { fds = close_fd fd (fd ∷ r.fds) }, throw (system_error errno))
configured fd (granted i) r =
    let d : TunDevice = record {
      fd = natural fd;
      if_index = natural i.if_index;
      name = i.if_name;
    } in
    (
      record {
        devices = put i.if_name d r.devices;
        fds = destroy_old (find i.if_name r.devices) (fd ∷ r.fds);
      },
      ok d,
    )

abbrev opened : Answer ℕ → Answer Interface → Registry → Registry × Outcome TunDevice
opened (failed errno) made r = (r, throw (system_error errno))
opened (granted fd) made r = configured fd made r

unfoldable pub create_device : Answer ℕ → Answer Interface → Registry → Registry × Outcome TunDevice
create_device control made r = opened control made r

unfoldable pub find_device : Registry → List ℕ → Option TunDevice
find_device r name = find name r.devices

abbrev pub is_found : Option TunDevice → Bool
is_found none = false
is_found (some d) = true

unfoldable pub close_device : Registry → List ℕ → Registry × Bool
close_device r name = (
  record { devices = erase name r.devices; fds = destroy_old (find name r.devices) r.fds },
  is_found (find name r.devices),
)

destroy_all : Devices → List ℕ → List ℕ
destroy_all [] fds = fds
destroy_all ((k, d) ∷ ds) fds = destroy_all ds (destroy d fds)

-- The destructor: that of the map destroys every device.
unfoldable pub destroy_registry : Registry → List ℕ
unfolding destroy_all
destroy_registry r = destroy_all r.devices r.fds
