-- ===== src/Ipc/Examples.antt =====
-- Archives of include/ipc at concrete writes.
use wetnork.Base.{ℕ, true, ◌↔◌, List, length, ◌+◌, ◌≡◌, [], ◌∷◌, some, arith}
use wetnork.Exceptions.{ok}
use wetnork.Ipc.Offsets.{is_ok, read_all-returns_iff}
use wetnork.Ipc.Reading.{read_all, read_all-run}
use wetnork.Ipc.{Archive, Deserializer, deserializer, Write, raw, fd, write, push_array, run}

abbrev items : List Write
items = raw (1 ∷ 2 ∷ []) ∷ fd 5 ∷ raw (3 ∷ []) ∷ []

read_all-run_example :
    (a : Archive) × (d : Deserializer) × (run (push_array write items) ≡ some a)
    × (read_all items (deserializer a 0 0) ≡ ok (items, d))
    × (d.byte_offset ≡ length a.bytes_)
    × (d.fd_offset + d.fd_offset ≡ length a.fds)
read_all-run_example = read_all-run items (omega arith)

read_all-returns_iff_example :
    (a : Archive) × (run (push_array write items) ≡ some a)
    × ((is_ok (read_all items (deserializer a 2 0)) ≡ true) ↔ (◌≡◌ {A = ℕ} 2 0))
read_all-returns_iff_example =
    read_all-returns_iff items 2 (omega arith) (omega arith) (omega arith)
