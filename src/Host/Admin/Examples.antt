-- ===== src/Host/Admin/Examples.antt =====
-- Changes of host/TunAdminContext.cpp at concrete devices and answers of libnl.
use wetnork.Base.{refl, ℕ, [], ◌∷◌, some}
use wetnork.Exceptions.{natural}
use wetnork.Host.Kernel.{granted, failed}
use wetnork.Host.Device.{TunDevice}
use wetnork.Host.Admin.{Netlink, Answers}
use wetnork.Host.Admin.Handles.{Handles, makes, moves, assigns, destroys, run}
use wetnork.Host.Admin.Handles.Owned.{IsSafe, run-IsSafe}

abbrev device : ℕ → ℕ → TunDevice
device fd index = record { fd = natural fd; if_index = natural index; name = 116 ∷ [] }

abbrev netlink : Netlink
netlink = record { sockets = 3 ∷ []; links = []; changes = [] }

abbrev refused : Answers
refused = record { get = granted 8; alloc = some 9; change = failed 1 }

abbrev no_objects : Handles
no_objects = record { objects = []; links = [] }

-- The first of two objects is moved, and the second is assigned to itself.
run-IsSafe_example :
    IsSafe (run (makes 8 ∷ makes 9 ∷ moves 0 ∷ assigns 1 1 ∷ destroys 0 ∷ []) no_objects)
run-IsSafe_example =
    run-IsSafe (makes 8 ∷ makes 9 ∷ moves 0 ∷ assigns 1 1 ∷ destroys 0 ∷ []) no_objects (λ n. refl)
