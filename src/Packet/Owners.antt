-- ===== src/Packet/Owners.antt =====
-- Who deletes the blocks of include/Packet.hpp: each `shared_ptr` of a packet counts the owners of its
-- block, and the last owner runs the deleter. `none` is a fault: the deletion of a block that is not
-- allocated.
pub mod Counts
pub mod Sites
mod Examples
use wetnork.Base.{
  ℕ, zero, suc, ◌+◌, List, [], ◌∷◌, ◌++◌, Option, none, some, ◌>>=◌, get_elem?, ◌==◌, if◌then◌else◌,
}
use wetnork.Host.Kernel.{count, close_fd}
use wetnork.Packet.{Deleter, array_delete, null_delete}

-- The count that the packets of one block share, or that of a `unique_ptr`, which is at most 1.
pub record Control : Type 0 where
  pub block : ℕ
  pub deleter : Deleter
  pub owners : ℕ

abbrev pub control : ℕ → Deleter → ℕ → Control
control b d owners = record { block = b; deleter = d; owners = owners }

-- `blocks` are those that `new[]` allocated. A count is known by its position among all that were made.
pub record Heap : Type 0 where
  pub blocks : List ℕ
  pub controls : List Control

abbrev pub set_control : ℕ → Control → List Control → List Control
set_control c k' [] = []
set_control zero k' (k ∷ ks) = k' ∷ ks
set_control (suc c) k' (k ∷ ks) = k ∷ set_control c k' ks

-- `new uint8_t[]`, kept by a `unique_ptr` or taken over by a packet at once.
unfoldable pub allocate : ℕ → Heap → Heap
allocate b h = record {
  blocks = b ∷ h.blocks;
  controls = h.controls ++ control b array_delete 1 ∷ [];
}

-- The constructor of a packet, on a block that somebody else allocated.
unfoldable pub take_over : ℕ → Heap → Heap
take_over b h = record h { controls = h.controls ++ control b array_delete 1 ∷ [] }

-- The constructor with the tag `NoCapture`.
unfoldable pub refer : ℕ → Heap → Heap
refer b h = record h { controls = h.controls ++ control b null_delete 1 ∷ [] }

-- Without an owner there is no packet that could be copied.
abbrev shared : ℕ → Control → ℕ → Heap → Heap
shared c k zero h = h
shared c k (suc n) h = record h {
  controls = set_control c (record k { owners = suc (suc n) }) h.controls;
}

abbrev share_found : ℕ → Option Control → Heap → Heap
share_found c none h = h
share_found c (some k) h = shared c k k.owners h

-- A copy of a packet, and the packet that `skip` or `truncate` makes of it.
unfoldable pub share : ℕ → Heap → Heap
share c h = share_found c (get_elem? h.controls c) h

-- `ArrayDelete` and `NullDelete`.
unfoldable pub delete : Deleter → ℕ → List ℕ → Option (List ℕ)
delete null_delete b blocks = some blocks
delete array_delete b blocks = if count b blocks == 0 then none else some (close_fd b blocks)

abbrev left : ℕ → Control → ℕ → Heap → Option Heap
left c k zero h = some h
left c k (suc zero) h = do
  blocks' ← delete k.deleter k.block h.blocks
  some (record { blocks = blocks'; controls = set_control c (record k { owners = 0 }) h.controls })
left c k (suc (suc n)) h =
    some (record h { controls = set_control c (record k { owners = suc n }) h.controls })

abbrev leave_found : ℕ → Option Control → Heap → Option Heap
leave_found c none h = some h
leave_found c (some k) h = left c k k.owners h

-- The destructor of a packet, or of a `unique_ptr`.
unfoldable pub leave : ℕ → Heap → Option Heap
leave c h = leave_found c (get_elem? h.controls c) h

pub data Event : Type 0 where
  allocates refers shares leaves : ℕ → Event

unfoldable pub perform : Event → Heap → Option Heap
perform (allocates b) h = some (allocate b h)
perform (refers b) h = some (refer b h)
perform (shares c) h = some (share c h)
perform (leaves c) h = leave c h

unfoldable pub run : List Event → Heap → Option Heap
run [] h = some h
run (e ∷ es) h = do h' ← perform e h; run es h'
