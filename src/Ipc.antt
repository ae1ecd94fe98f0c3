-- ===== src/Ipc.antt =====
-- include/ipc: archives, and the classes that write and read them.
pub mod RoundTrip
pub mod Reading
pub mod Offsets
pub mod Types
mod Examples
use wetnork.Base.{
  ℕ, ◌+◌, List, [], ◌∷◌, ◌++◌, Option, none, some, ◌>>=◌, drop, get_elem?, replicate, length,
}
use wetnork.Exceptions.{Outcome, ok, throw, fault, unfinished, out_of_range}
use wetnork.Memory.{u64, load, store}

-- Bytes and adjoint file descriptors. `length()` is that of `bytes_`.
pub record Archive : Type 0 where
  pub bytes_ : List ℕ
  pub fds : List ℕ

-- In the first pass `buffer` is null, and only the offset moves.
pub record Serializer : Type 0 where
  pub buffer : Option (List ℕ)
  pub offset : ℕ
  pub fds_ : List ℕ

abbrev stored : Serializer → ℕ → Option (List ℕ) → Option Serializer
stored s len none = none
stored s len (some block) = some (record s { buffer = some block; offset = u64 (s.offset + len) })

abbrev push_to : Option (List ℕ) → List ℕ → Serializer → Option Serializer
push_to none item s = some (record s { offset = u64 (s.offset + length item) })
push_to (some block) item s = stored s (length item) (store block s.offset item)

-- `item` is the object representation of the value; also for an array of such.
unfoldable pub push_raw : List ℕ → Serializer → Option Serializer
push_raw item s = push_to s.buffer item s

-- An array of values of a type that is not bit-copied is written element by element.
unfoldable pub push_array {ℓ} :
    {A : Type ℓ} → (A → Serializer → Option Serializer) → List A → Serializer → Option Serializer
push_array write [] s = some s
push_array write (x ∷ xs) s = do s' ← write x s; push_array write xs s'

unfoldable pub write_fd : ℕ → Serializer → Serializer
write_fd fd s = record s { fds_ = s.fds_ ++ fd ∷ [] }

-- What a type's `serialize` can do to a serializer, one public call after another.
pub data Write : Type 0 where
  raw : List ℕ → Write
  fd : ℕ → Write

unfoldable pub write : Write → Serializer → Option Serializer
write (raw item) s = push_raw item s
write (fd n) s = some (write_fd n s)

abbrev archived : Serializer → Option (List ℕ) → Option Archive
archived s none = none
archived s (some block) = some (record { bytes_ = block; fds = s.fds_ })

-- Two passes over the same item: the first finds the size, the second fills a block of that size,
-- whose first contents are indeterminate in the source.
unfoldable pub run : (Serializer → Option Serializer) → Option Archive
run item = do
  sized ← item (record { buffer = none; offset = 0; fds_ = [] })
  filled ← item (record sized { buffer = some (replicate sized.offset 0); offset = 0 })
  archived filled filled.buffer

pub record Deserializer : Type 0 where
  pub archive : Archive
  pub byte_offset : ℕ
  pub fd_offset : ℕ

unfoldable pub pop_raw : ℕ → Deserializer → Option (List ℕ × Deserializer)
pop_raw len d = do
  item ← load len (drop d.byte_offset d.archive.bytes_)
  some (item, record d { byte_offset = u64 (d.byte_offset + len) })

abbrev found : Option ℕ → Outcome ℕ
found none = throw (out_of_range "vector::at")
found (some n) = ok n

-- The offset moves also when there is no such descriptor.
unfoldable pub read_fd : Deserializer → Deserializer × Outcome ℕ
read_fd d = (record d { fd_offset = d.fd_offset + 1 }, found (get_elem? d.archive.fds d.fd_offset))

-- The constructor leaves both offsets indeterminate.
unfoldable pub deserializer : Archive → ℕ → ℕ → Deserializer
deserializer archive byte_offset fd_offset = record {
  archive = archive;
  byte_offset = byte_offset;
  fd_offset = fd_offset;
}

-- What a type's `deserialize` can ask a deserializer for.
pub data Read : Type 0 where
  some_bytes : ℕ → Read
  some_fd : Read

abbrev as_raw : Option (List ℕ × Deserializer) → Outcome (Write × Deserializer)
as_raw none = fault
as_raw (some (item, d)) = ok (raw item, d)

abbrev as_fd : Deserializer × Outcome ℕ → Outcome (Write × Deserializer)
as_fd (d, ok n) = ok (fd n, d)
as_fd (d, throw e) = throw e
as_fd (d, fault) = fault
as_fd (d, unfinished) = unfinished

unfoldable pub read : Read → Deserializer → Outcome (Write × Deserializer)
unfolding pop_raw read_fd
read (some_bytes len) d = as_raw (pop_raw len d)
read some_fd d = as_fd (read_fd d)

-- `ipc::serialize`, of a type with a function of its own.
unfoldable pub serialize {ℓ} :
    {A : Type ℓ} → (A → Serializer → Option Serializer) → A → Option Archive
unfolding run
serialize write_item item = run (write_item item)
