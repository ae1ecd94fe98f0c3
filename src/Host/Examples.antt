-- ===== src/Host/Examples.antt =====
-- Devices and the registry of host/TunRegistry.cpp at concrete names and descriptors.
use wetnork.Base.{◌≡◌, refl, List, [], ◌∷◌, arith}
use wetnork.Exceptions.{natural}
use wetnork.Host.Kernel.{granted, failed}
use wetnork.Host.Device.{TunDevice}
use wetnork.Host.Registry.{Registry, Interface, find}
use wetnork.Host.Registry.Ownership.{Call, creates, closes, run, IsBalanced, run-IsBalanced}
use wetnork.Host.Registry.View
use wetnork.Host.Registry.View.{Request, finds, serve_all, specified_all, view, serve_all-refines}
use wetnork.Host.Registry.Names.{IsMap}

abbrev tun0 : Interface
tun0 = record { if_name = b't' ∷ b'0' ∷ []; if_index = 4 }

abbrev device0 : TunDevice
device0 = record { fd = natural 5; if_index = natural 4; name = b't' ∷ b'0' ∷ [] }

abbrev device1 : TunDevice
device1 = record { fd = natural 6; if_index = natural 9; name = b't' ∷ b'1' ∷ [] }

abbrev only_console : Registry
only_console = record { devices = []; fds = 1 ∷ [] }

abbrev with_device : Registry
with_device = record { devices = (b't' ∷ b'0' ∷ [], device0) ∷ []; fds = 5 ∷ 1 ∷ [] }

abbrev calls : List Call
calls =
    creates (granted 5) (granted tun0)
    ∷ creates (granted 6) (failed 16)
    ∷ creates (granted 7) (granted tun0)
    ∷ closes (b't' ∷ b'0' ∷ [])
    ∷ []

run-IsBalanced_example : IsBalanced (1 ∷ []) (run only_console calls)
run-IsBalanced_example = run-IsBalanced (1 ∷ []) only_console calls (λ n. omega arith)

abbrev requests : List Request
requests =
    View.creates (granted 5) (granted tun0)
    ∷ View.creates (granted 6) (failed 16)
    ∷ finds (b't' ∷ b'0' ∷ [])
    ∷ View.closes (b't' ∷ b'0' ∷ [])
    ∷ finds (b't' ∷ b'0' ∷ [])
    ∷ []

serve_all-refines_example :
    ((serve_all requests with_device).0 ≡ (specified_all requests (view with_device)).0)
    × (view (serve_all requests with_device).1 ≡ (specified_all requests (view with_device)).1)
    × IsMap (serve_all requests with_device).1.devices
unfolding find
serve_all-refines_example = serve_all-refines requests with_device (refl, tt)
