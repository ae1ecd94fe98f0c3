-- ===== src/Stream/Gather.antt =====
-- The gathering `write` of include/network.hpp against the concatenation of the packets.
use Prim.Native.Nat.add
use mathlib.Core.List.{append_assoc, append-nil}
use wetnork.Base.{
  ℕ, ◌+◌, ◌<◌, ◌^◌, ◌≡◌, refl, ap, ◌∙◌, sym, List, [], ◌∷◌, ◌++◌, some, length, take, arith,
  replicate, All, length-replicate, length-drop, take_all, length-append,
}
use wetnork.Memory.{u64, overwrite, load_lem, store_lem}
use wetnork.Packet.{Packet, packet, get_data, bytes, IsValid}
use wetnork.Packet.View.{length-bytes}
use wetnork.Stream.{sum_lengths, copy_packets, gather}

-- The bytes of all packets in order, and how many there are.
abbrev pub joined : List Packet → List ℕ
joined [] = []
joined (p ∷ ps) = bytes p ++ joined ps

abbrev pub total : List Packet → ℕ
total [] = 0
total (p ∷ ps) = p.length_ + total ps

pub length-joined : (ps : List Packet) → All IsValid ps → length (joined ps) ≡ total ps
length-joined [] v = refl
length-joined (p ∷ ps) v =
    omega (arith, length-append (bytes p) (joined ps), length-bytes p v.0, length-joined ps v.1)

sum_lengths_lem :
    (size : ℕ) (ps : List Packet) → size + total ps < 2 ^ 64 → sum_lengths size ps ≡ size + total ps
unfolding sum_lengths
sum_lengths_lem size [] h = omega arith
sum_lengths_lem size (p ∷ ps) h =
    let e : u64 (size + p.length_) ≡ size + p.length_ = omega arith in
    rw e (omega (arith, sum_lengths_lem (size + p.length_) ps (omega arith)))

-- The copying loop fills the rest of the block with the packets' bytes, wherever it starts.
copy_packets_lem :
    (ps : List Packet) (buffer : List ℕ) (offset : ℕ)
    → All IsValid ps
    → length buffer ≡ offset + total ps
    → offset + total ps < 2 ^ 64
    → copy_packets buffer offset ps ≡ some (take offset buffer ++ joined ps)
unfolding copy_packets
copy_packets_lem [] buffer offset v e h =
    ap some (sym (append-nil (take offset buffer) ∙ take_all offset buffer (omega arith)))
copy_packets_lem (p ∷ ps) buffer offset v e h =
    let size : length (bytes p) ≡ p.length_ = length-bytes p v.0 in
    let stored = store_lem buffer offset (bytes p) (omega arith) in
    let next : u64 (offset + p.length_) ≡ offset + length (bytes p) = omega arith in
    rw
      (
        load_lem p.length_ (get_data p) (omega (arith, length-drop p.offset p.buffer)),
        stored.0,
        next,
      )
      (copy_packets_lem ps (overwrite buffer offset (bytes p)) (offset + length (bytes p)) v.1
          (omega arith) (omega arith)
        ∙ ap (λ t. some (t ++ joined ps)) stored.2
        ∙ ap some (append_assoc (take offset buffer) (bytes p) (joined ps)))

-- For packets that lie in their blocks, and together fill less than the address space, the write
-- makes no access out of bounds, and hands on one new block that holds exactly the packets' bytes
-- in order.
pub gather_lem :
    (ps : List Packet)
    → All IsValid ps
    → total ps < 2 ^ 64
    → gather ps ≡ some (packet (joined ps) 0 (total ps))
unfolding gather
gather_lem ps v h = rw (
  sum_lengths_lem 0 ps (omega arith),
  add.zero (total ps),
  copy_packets_lem ps (replicate (total ps) 0) 0 v
      (omega (arith, length-replicate {0} {A = ℕ} (total ps) 0)) (omega arith),
)
