-- ===== src/Tun.antt =====
-- net/tun.hpp and net/TunDevice.cpp: a TUN device as a stream. The answers of the kernel are
-- arguments.
use wetnork.Base.{ℕ, ◌-◌, ◌^◌, List, Bool, true, false, length}
use wetnork.Exceptions.{Outcome, ok, fault}
use wetnork.Memory.{load, overwrite}
use wetnork.Packet.{Packet, packet, get_data}
use wetnork.Host.Kernel.{Answer, granted, failed, close_fd}
use wetnork.Base.{Option, none, some}

-- `watching` says that the watcher of libev runs.
pub record TunDevice : Type 0 where
  pub fd : ℕ
  pub name : List ℕ
  pub watching : Bool

unfoldable pub tun_device : ℕ → List ℕ → TunDevice
tun_device fd name = record { fd = fd; name = name; watching = true }

-- The destructor, with the open descriptors.
unfoldable pub destroy : TunDevice → List ℕ → TunDevice × List ℕ
destroy d fds = (record d { watching = false }, close_fd d.fd fds)

abbrev pub is_granted : Answer ℕ → Bool
is_granted (granted n) = true
is_granted (failed errno) = false

-- What the kernel is given to write, and what `write` returns for its answer.
abbrev given : Option (List ℕ) → Bool → Outcome (List ℕ × Bool)
given none b = fault
given (some bs) b = ok (bs, b)

unfoldable pub write : Packet → Answer ℕ → Outcome (List ℕ × Bool)
write p answer = given (load p.length_ (get_data p)) (is_granted answer)

abbrev pub read_size : ℕ
read_size = 65536

-- -1 as a `size_t`.
abbrev pub minus_one : ℕ
minus_one = 2 ^ 64 - 1

-- The packet that the slots of `read` are called with. `old` is what the new block, of `read_size`
-- bytes, holds before the kernel writes to it; `len` takes the kernel's result, an error's too.
unfoldable pub watcher_event : List ℕ → Answer (List ℕ) → Packet
watcher_event old (granted bs) = packet (overwrite old 0 bs) 0 (length bs)
watcher_event old (failed errno) = packet old 0 minus_one
