-- ===== src/Packet.antt =====
-- include/Packet.hpp and common/Packet.cpp: immutable views of a reference-counted byte block.
-- `buffer` is the block that `data_` points to; `deleter` is the one that its owner count runs.
pub mod View
pub mod Owners
use wetnork.Base.{ℕ, ◌+◌, ◌-◌, ◌≤◌, List, length, take, drop, ltb, if◌then◌else◌}

-- `ArrayDelete` frees the block with the last packet; `NullDelete` leaves it to its owner.
pub data Deleter : Type 0 where
  array_delete null_delete : Deleter

pub record Packet : Type 0 where
  pub buffer : List ℕ
  pub deleter : Deleter
  pub offset : ℕ
  pub length_ : ℕ

-- The constructor that takes the block over.
abbrev pub packet : List ℕ → ℕ → ℕ → Packet
packet block offset len = record {
  buffer = block;
  deleter = array_delete;
  offset = offset;
  length_ = len;
}

-- The constructor with the tag `NoCapture`.
abbrev pub packet_nocapture : List ℕ → ℕ → ℕ → Packet
packet_nocapture block offset len = record {
  buffer = block;
  deleter = null_delete;
  offset = offset;
  length_ = len;
}

-- What `data()` points at: the rest of the block, past the packet's end too.
abbrev pub get_data : Packet → List ℕ
get_data p = drop p.offset p.buffer

unfoldable pub skip : Packet → ℕ → Packet
skip p count =
    let n = if ltb p.length_ count then p.length_ else count in
    record p { offset = p.offset + n; length_ = p.length_ - n }

unfoldable pub truncate : Packet → ℕ → Packet
truncate p len = record p { length_ = if ltb p.length_ len then p.length_ else len }

-- The bytes of a packet, and that they lie within its block.
abbrev pub bytes : Packet → List ℕ
bytes p = take p.length_ (get_data p)

abbrev pub IsValid : Packet → Type 0
IsValid p = p.offset + p.length_ ≤ length p.buffer
