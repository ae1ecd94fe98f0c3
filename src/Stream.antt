-- ===== src/Stream.antt =====
-- include/network.hpp, `Stream`: the gathering `write`, which joins packets into one new block.
pub mod Gather
mod Examples
use wetnork.Base.{ℕ, ◌+◌, List, [], ◌∷◌, Option, some, ◌>>=◌, replicate}
use wetnork.Memory.{u64, load, store}
use wetnork.Packet.{Packet, packet, get_data}

-- The loop that adds up the lengths, in `size_t`.
unfoldable pub sum_lengths : ℕ → List Packet → ℕ
sum_lengths size [] = size
sum_lengths size (p ∷ ps) = sum_lengths (u64 (size + p.length_)) ps

-- The loop that copies each packet to its place.
unfoldable pub copy_packets : List ℕ → ℕ → List Packet → Option (List ℕ)
copy_packets buffer offset [] = some buffer
copy_packets buffer offset (p ∷ ps) = do
  source ← load p.length_ (get_data p)
  buffer' ← store buffer offset source
  copy_packets buffer' (u64 (offset + p.length_)) ps

-- The packet that `write(begin, end)` hands to the virtual `write`. The new block's first contents
-- are indeterminate in the source; zeros stand for them, and every one of them is overwritten.
unfoldable pub gather : List Packet → Option Packet
gather ps = do
  let size = sum_lengths 0 ps
  buffer ← copy_packets (replicate size 0) 0 ps
  some (packet buffer 0 size)
