-- ===== src/Ipc/Reading.antt =====
-- What a deserializer of include/ipc/Deserializer.hpp reads from the archive of a serializer.
use mathlib.Core.List.{append_assoc, append-nil}
use wetnork.Base.{
  ℕ, zero, suc, ◌+◌, ◌^◌, ◌<◌, ◌≡◌, refl, ap, ap₂, ◌∙◌, sym, List, [], ◌∷◌, ◌++◌, some, length,
  drop, get_elem?, arith, length-append, take-append_left, drop-append_left, drop-drop,
}
use wetnork.Exceptions.{Outcome, ok, throw, fault, unfinished}
use wetnork.Memory.{u64, load_lem}
use wetnork.Ipc.{
  Archive, Deserializer, deserializer, Write, raw, fd, write, push_array, run, Read, some_bytes,
  some_fd, read, pop_raw, read_fd,
}
use wetnork.Ipc.RoundTrip.{raws, fds_of, run-writes}

-- The read that belongs to a write.
abbrev pub read_of : Write → Read
read_of (raw item) = some_bytes (length item)
read_of (fd n) = some_fd

abbrev pub then_on : {A B : Type 0} → Outcome A → (A → Outcome B) → Outcome B
then_on (ok a) f = f a
then_on (throw e) f = throw e
then_on fault f = fault
then_on unfinished f = unfinished

-- The reads that belong to a list of writes, one after another.
unfoldable pub read_all : List Write → Deserializer → Outcome (List Write × Deserializer)
read_all [] d = ok ([], d)
read_all (w ∷ ws) d =
    then_on (read (read_of w) d) (λ r. then_on (read_all ws r.1) (λ rs. ok (r.0 ∷ rs.0, rs.1)))

get_elem?-drop : (k n : ℕ) (xs ys : List ℕ) → drop k xs ≡ n ∷ ys → get_elem? xs k ≡ some n
get_elem?-drop zero n [] ys e = cc
get_elem?-drop zero n (x ∷ xs) ys e = ground (arith, e)
get_elem?-drop (suc k) n [] ys e = cc
get_elem?-drop (suc k) n (x ∷ xs) ys e = get_elem?-drop k n xs ys e

read_raw :
    (a : Archive) (m k : ℕ) (item rest : List ℕ)
    → drop m a.bytes_ ≡ item ++ rest
    → m + length item < 2 ^ 64
    → read (some_bytes (length item)) (deserializer a m k)
      ≡ ok (raw item, deserializer a (m + length item) k)
unfolding read pop_raw deserializer
read_raw a m k item rest e h =
    let next : u64 (m + length item) ≡ m + length item = omega arith in
    rw
      (
        e,
        load_lem (length item) (item ++ rest) (omega (arith, length-append item rest)),
        take-append_left (length item) item rest refl,
        next,
      )
      refl

read_one_fd :
    (a : Archive) (m k n : ℕ) (rest : List ℕ)
    → drop k a.fds ≡ n ∷ rest
    → read some_fd (deserializer a m k) ≡ ok (fd n, deserializer a m (k + 1))
unfolding read read_fd deserializer
read_one_fd a m k n rest e = rw (get_elem?-drop k n a.fds rest e) refl

dropped_on :
    (m : ℕ) (xs item rest : List ℕ) → drop m xs ≡ item ++ rest → drop (m + length item) xs ≡ rest
dropped_on m xs item rest e =
    sym (drop-drop (length item) m xs)
    ∙ ap (drop (length item)) e
    ∙ drop-append_left (length item) item rest refl

reads_back :
    (ws : List Write) (a : Archive) (m k : ℕ) (rest more : List ℕ)
    → drop m a.bytes_ ≡ raws ws ++ rest
    → drop k a.fds ≡ fds_of ws ++ more
    → m + length (raws ws) < 2 ^ 64
    → read_all ws (deserializer a m k)
      ≡ ok (ws, deserializer a (m + length (raws ws)) (k + length (fds_of ws)))
unfolding read_all
reads_back [] a m k rest more e f h =
    ap₂ (λ i j. ok ([], deserializer a i j)) (omega arith) (omega arith)
reads_back (raw item ∷ ws) a m k rest more e f h =
    let size = length-append item (raws ws) in
    let here : drop m a.bytes_ ≡ item ++ (raws ws ++ rest) = e ∙ append_assoc item (raws ws) rest in
    rw
      (
        read_raw a m k item (raws ws ++ rest) here (omega arith),
        reads_back ws a (m + length item) k rest more
            (dropped_on m a.bytes_ item (raws ws ++ rest) here) f (omega arith),
      )
      (ap (λ i. ok (raw item ∷ ws, deserializer a i (k + length (fds_of ws)))) (omega arith))
reads_back (fd n ∷ ws) a m k rest more e f h =
    rw
      (
        read_one_fd a m k n (fds_of ws ++ more) f,
        reads_back ws a m (k + 1) rest more e (dropped_on k a.fds (n ∷ []) (fds_of ws ++ more) f) h,
      )
      (ap (λ j. ok (fd n ∷ ws, deserializer a (m + length (raws ws)) j)) (omega arith))

-- Whatever values and descriptors are written, if they fill less than the address space, a
-- deserializer of the archive whose offsets are 0, asked for the same in the same order, gives back
-- the same values and descriptors, without a fault or an exception. It has then read all of the
-- bytes, and half of the descriptors.
pub read_all-run :
    (ws : List Write)
    → length (raws ws) < 2 ^ 64
    → (a : Archive) × (d : Deserializer) × (run (push_array write ws) ≡ some a)
      × (read_all ws (deserializer a 0 0) ≡ ok (ws, d))
      × (d.byte_offset ≡ length a.bytes_)
      × (d.fd_offset + d.fd_offset ≡ length a.fds)
unfolding deserializer
read_all-run ws h =
    let a : Archive = record { bytes_ = raws ws; fds = fds_of ws ++ fds_of ws } in
    (
      a,
      deserializer a (0 + length (raws ws)) (0 + length (fds_of ws)),
      run-writes ws h,
      reads_back ws a 0 0 [] (fds_of ws) (sym (append-nil (raws ws))) refl (omega arith),
      omega arith,
      omega (arith, length-append (fds_of ws) (fds_of ws)),
    )
