-- ===== src/Host/Device.antt =====
-- include/host/TunDevice.hpp and host/TunDevice.cpp. Operations take the open descriptors to new
-- ones. `left` is what a moved-from string holds, which the standard leaves open.
use wetnork.Base.{ℕ, ◌+◌, ◌≤◌, ◌≡◌, refl, List, [], ◌∷◌, arith}
use wetnork.Exceptions.{Code, natural, negative, Outcome, ok, throw, system_error}
use wetnork.Host.Kernel.{Answer, granted, failed, count, one_if_self, close_fd, count-close_fd}

pub record TunDevice : Type 0 where
  pub fd : Code
  pub if_index : Code
  pub name : List ℕ

abbrev close_code : Code → List ℕ → List ℕ
close_code (natural n) fds = close_fd n fds
close_code (negative n) fds = fds

unfoldable pub close : TunDevice → List ℕ → List ℕ
close d fds = close_code d.fd fds

-- The destructor.
unfoldable pub destroy : TunDevice → List ℕ → List ℕ
unfolding close
destroy d fds = close d fds

-- The move constructor: the new device and what is left of the other.
unfoldable pub move : List ℕ → TunDevice → TunDevice × TunDevice
move left other = (
  record { fd = other.fd; if_index = other.if_index; name = other.name },
  record { fd = negative 0; if_index = negative 0; name = left },
)

pub record Assigned : Type 0 where
  pub target : TunDevice
  pub source : TunDevice
  pub fds : List ℕ

-- The move assignment, for two different objects.
unfoldable pub assign : List ℕ → TunDevice → TunDevice → List ℕ → Assigned
unfolding close
assign left this rhs fds = record {
  target = record this { fd = rhs.fd; name = rhs.name };
  source = record { fd = negative 0; if_index = negative 0; name = left };
  fds = close this fds;
}

abbrev duplicate : TunDevice → Answer ℕ → List ℕ → Outcome TunDevice × List ℕ
duplicate d (granted n) fds =
    (ok (record { fd = natural n; if_index = d.if_index; name = d.name }), n ∷ fds)
duplicate d (failed errno) fds = (throw (system_error errno), fds)

unfoldable pub dup : TunDevice → Answer ℕ → List ℕ → Outcome TunDevice × List ℕ
dup d answer fds = duplicate d answer fds

-- The descriptors that a device will close.
abbrev pub owned_by : Code → List ℕ
owned_by (natural n) = n ∷ []
owned_by (negative n) = []

abbrev pub owned : TunDevice → List ℕ
owned d = owned_by d.fd

count-close_code :
    (c : Code) (n : ℕ) (fds : List ℕ)
    → ((m : ℕ) → count m (owned_by c) ≤ count m fds)
    → count n (close_code c fds) + count n (owned_by c) ≡ count n fds
count-close_code (natural m) n fds h =
    omega (arith, count-close_fd m n fds (omega (arith, h m, one_if_self m)))
count-close_code (negative m) n fds h = omega arith

-- Closing a device whose descriptor is open closes that and no other.
pub count-close :
    (d : TunDevice) (n : ℕ) (fds : List ℕ)
    → ((m : ℕ) → count m (owned d) ≤ count m fds)
    → count n (close d fds) + count n (owned d) ≡ count n fds
unfolding close
count-close d n fds h = count-close_code d.fd n fds h

-- A moved device has what the other had, and the other is left with no descriptor to close, so
-- its destructor does nothing.
pub move-owned :
    (left : List ℕ) (d : TunDevice) (fds : List ℕ)
    → (owned (move left d).0 ≡ owned d)
      × (owned (move left d).1 ≡ [])
      × (destroy (move left d).1 fds ≡ fds)
unfolding move destroy
move-owned left d fds = (refl, refl, refl)

-- A move assignment closes what the target had and gives it the source's descriptor and name,
-- which the source loses; but the target keeps its old interface index.
pub assign-owned :
    (left : List ℕ) (this rhs : TunDevice) (fds : List ℕ) (n : ℕ)
    → ((m : ℕ) → count m (owned this) ≤ count m fds)
    → let r = assign left this rhs fds in
      (count n r.fds + count n (owned this) ≡ count n fds)
      × (owned r.target ≡ owned rhs)
      × (owned r.source ≡ [])
      × (r.target.name ≡ rhs.name)
      × (r.target.if_index ≡ this.if_index)
unfolding assign
assign-owned left this rhs fds n h = (count-close this n fds h, refl, refl, refl, refl)
