-- ===== src/Packet/View.antt =====
-- `skip` and `truncate` of common/Packet.cpp, seen on the bytes of a packet.
use wetnork.Base.{
  ℕ, ◌+◌, ◌-◌, ◌≡◌, ap, ap₂, ◌∙◌, ◌++◌, length, take, drop, arith, drop_all, length-take,
  length-drop, drop-take, drop-drop, take-take, take-append-drop, sym, ltb, ltb→lt, Bool-cases, inl,
  inr, refl, min,
}
use wetnork.Packet.{Packet, skip, truncate, bytes, get_data, IsValid}

pub length-bytes : (p : Packet) → IsValid p → length (bytes p) ≡ p.length_
length-bytes p v = omega (arith, length-take p.length_ (get_data p), length-drop p.offset p.buffer)

bytes-skip_le :
    (p : Packet) (n : ℕ) → take (p.length_ - n) (drop (p.offset + n) p.buffer) ≡ drop n (bytes p)
bytes-skip_le p n =
    ap (take (p.length_ - n)) (sym (drop-drop n p.offset p.buffer))
    ∙ sym (drop-take n p.length_ (get_data p))

pub bytes-skip : (p : Packet) (count : ℕ) → bytes (skip p count) ≡ drop count (bytes p)
unfolding skip
bytes-skip p count = elim (Bool-cases (ltb p.length_ count)) [
  | inl over ↦ rw over (
      bytes-skip_le p p.length_
      ∙ drop_all p.length_ (bytes p) (omega (arith, length-take p.length_ (get_data p)))
      ∙ sym (
          drop_all count (bytes p)
            (omega (arith, ltb→lt _ _ over, length-take p.length_ (get_data p)))))
  | inr within ↦ rw within (bytes-skip_le p count)
]

pub bytes-truncate : (p : Packet) (len : ℕ) → bytes (truncate p len) ≡ take len (bytes p)
unfolding truncate
bytes-truncate p len =
    ap (λ n. take n (get_data p)) (ground arith) ∙ sym (take-take len p.length_ (get_data p))

-- Skipping `count` bytes of a packet that lies in its block drops that many from the front of its
-- bytes, all of them if there are fewer; the new packet lies in the same block and owns it in the
-- same way.
pub skip_lem :
    (p : Packet) (count : ℕ)
    → IsValid p
    → (bytes (skip p count) ≡ drop count (bytes p))
      × IsValid (skip p count)
      × ((skip p count).length_ ≡ p.length_ - count)
      × ((skip p count).deleter ≡ p.deleter)
unfolding skip
skip_lem p count v = (bytes-skip p count, ground arith, ground arith, refl)

-- Truncating a packet that lies in its block keeps the first `len` of its bytes, and all of them if
-- there are fewer: it never makes a packet longer.
pub truncate_lem :
    (p : Packet) (len : ℕ)
    → IsValid p
    → (bytes (truncate p len) ≡ take len (bytes p))
      × IsValid (truncate p len)
      × ((truncate p len).length_ ≡ min len p.length_)
unfolding truncate
truncate_lem p len v = (bytes-truncate p len, ground arith, ground arith)

-- A packet is what `truncate` keeps followed by what `skip` leaves, wherever it is cut.
pub truncate-append-skip : (p : Packet) (n : ℕ) → bytes (truncate p n) ++ bytes (skip p n) ≡ bytes p
truncate-append-skip p n =
    ap₂ ◌++◌ (bytes-truncate p n) (bytes-skip p n) ∙ take-append-drop n (bytes p)
