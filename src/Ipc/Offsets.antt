-- ===== src/Ipc/Offsets.antt =====
-- What a deserializer of include/ipc/Deserializer.hpp reads from the offset that its constructor leaves.
use mathlib.Core.Option.{some-injective}
use wetnork.Base.{
  ◌==◌, ℕ, ◌+◌, ◌^◌, ◌≤◌, ◌<◌, ◌≡◌, refl, ap, sym, ◌∙◌, ◌↔◌, List, [], ◌∷◌, some, Bool, true, false,
  length, drop, get_elem?, leb, arith, length-append, length-drop, Bool-cases, Option-cases, inl,
  inr,
}
use wetnork.Exceptions.{Outcome, ok, throw, fault, unfinished}
use wetnork.Memory.{u64, load}
use wetnork.Ipc.{
  Archive, deserializer, Write, raw, fd, write, push_array, run, read, pop_raw, read_fd,
}
use wetnork.Ipc.RoundTrip.{raws, run-writes}
use wetnork.Ipc.Reading.{then_on, read_all, read_all-run}

abbrev pub is_ok : {A : Type 0} → Outcome A → Bool
is_ok (ok a) = true
is_ok _ = false

is_ok-then_on :
    {A B : Type 0} (m : Outcome A) (f : A → Outcome B)
    → is_ok m ≡ false
    → is_ok (then_on m f) ≡ false
is_ok-then_on (ok a) f e = cc
is_ok-then_on (throw x) f e = refl
is_ok-then_on fault f e = refl
is_ok-then_on unfinished f e = refl

-- Reads that ask for more bytes than there are behind the offset do not return, if they ask for any.
overruns :
    (ws : List Write) (a : Archive) (m k : ℕ)
    → m < 2 ^ 64
    → length a.bytes_ < 2 ^ 64
    → 1 ≤ length (raws ws)
    → length a.bytes_ < m + length (raws ws)
    → is_ok (read_all ws (deserializer a m k)) ≡ false
unfolding read_all read pop_raw read_fd deserializer load
overruns [] a m k small whole any more = absurd (omega arith)
overruns (raw item ∷ ws) a m k small whole any more =
    let size = length-append item (raws ws) in
    let left = length-drop m a.bytes_ in
    elim (Bool-cases (leb (length item) (length (drop m a.bytes_)))) [
      | inl fits ↦
          let enough : length item ≤ length (drop m a.bytes_) = ground (arith, fits) in
          let next : u64 (m + length item) ≡ m + length item = omega (arith, enough, left) in
          rw (fits, next)
            (is_ok-then_on _ _ (
              overruns ws a (m + length item) k (omega (arith, enough, left)) whole
                (omega (arith, enough, left, size, any, more)) (omega (arith, size, more))))
      | inr over ↦ rw over refl
    ]
overruns (fd n ∷ ws) a m k small whole any more = elim (Option-cases (get_elem? a.fds k)) [
  | inl missing ↦ rw missing refl
  | inr (x, there) ↦ rw there (is_ok-then_on _ _ (overruns ws a m (k + 1) small whole any more))
]

-- Values and descriptors are written, at least a byte of them and less than the address space, and a
-- deserializer of the archive is asked for the same in the same order, with the offset for descriptors
-- at 0. It returns exactly if its offset for bytes, which its constructor does not set, is 0 too.
pub read_all-returns_iff :
    (ws : List Write) (m : ℕ)
    → 1 ≤ length (raws ws)
    → length (raws ws) < 2 ^ 64
    → m < 2 ^ 64
    → (a : Archive) × (run (push_array write ws) ≡ some a)
      × ((is_ok (read_all ws (deserializer a m 0)) ≡ true) ↔ (m ≡ 0))
read_all-returns_iff ws m any small offset =
    let (a, d, runs, reads, whole, fds) = read_all-run ws small in
    let size : length a.bytes_ ≡ length (raws ws) =
      ap (λ x. length x.bytes_) (some-injective _ _ (sym runs ∙ run-writes ws small)) in
    (
      a,
      runs,
      (
        λ e. elim (Bool-cases (m == 0)) [
          | inl zero_ ↦ ground (arith, zero_)
          | inr other ↦
              let positive : 1 ≤ m = ground (arith, other) in
              let over =
                overruns ws a m 0 offset (omega (arith, size)) any
                  (omega (arith, size, positive)) in
              cc
        ],
        λ e. rw (e, reads) refl,
      ),
    )
