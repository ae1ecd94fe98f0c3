-- ===== src/Ipc/RoundTrip.antt =====
-- What include/ipc/Serializer.hpp puts into an archive, and how include/ipc/Deserializer.hpp
-- finds it there.
use Prim.Native.Nat.add
use mathlib.Core.List.{append_assoc, append-nil}
use native.Mathlib.Nat.{add-zero}
use wetnork.Base.{
  ℕ, ◌+◌, ◌^◌, ◌<◌, ◌≡◌, ap, ap₂, ◌∙◌, List, [], ◌∷◌, ◌++◌, Option, none, some, length, take,
  replicate, arith, length-append, length-replicate, take_all, drop-append_left, take-append_left,
}
use wetnork.Memory.{u64, overwrite, store_lem, load_lem}
use wetnork.Ipc.{Serializer, push_raw, push_array, write_fd, Write, raw, fd, write, run, pop_raw}

-- The bytes that a list of writes produces, and its descriptors.
abbrev pub raws : List Write → List ℕ
raws [] = []
raws (raw item ∷ ws) = item ++ raws ws
raws (fd n ∷ ws) = raws ws

abbrev pub fds_of : List Write → List ℕ
fds_of [] = []
fds_of (raw item ∷ ws) = fds_of ws
fds_of (fd n ∷ ws) = n ∷ fds_of ws

abbrev state : Option (List ℕ) → ℕ → List ℕ → Serializer
state block n fs = record { buffer = block; offset = n; fds_ = fs }

-- The first pass adds up the sizes.
sizing :
    (ws : List Write) (n : ℕ) (fs : List ℕ)
    → n + length (raws ws) < 2 ^ 64
    → push_array write ws (record { buffer = none; offset = n; fds_ = fs })
      ≡ some (record { buffer = none; offset = n + length (raws ws); fds_ = fs ++ fds_of ws })
unfolding push_array write push_raw write_fd
sizing [] n fs h = rw (add-zero n, append-nil fs)
sizing (raw item ∷ ws) n fs h =
    let size = length-append item (raws ws) in
    let next : u64 (n + length item) ≡ n + length item = omega arith in
    rw next (
      sizing ws (n + length item) fs (omega arith)
      ∙ ap (λ m. some (state none m (fs ++ fds_of ws))) (omega arith))
sizing (fd k ∷ ws) n fs h =
    sizing ws n (fs ++ k ∷ []) h
    ∙ ap (λ f. some (state none (n + length (raws ws)) f)) (append_assoc fs (k ∷ []) (fds_of ws))

-- The second pass fills the block.
filling :
    (ws : List Write) (block : List ℕ) (n : ℕ) (fs : List ℕ)
    → length block ≡ n + length (raws ws)
    → n + length (raws ws) < 2 ^ 64
    → push_array write ws (record { buffer = some block; offset = n; fds_ = fs })
      ≡ some (record {
        buffer = some (take n block ++ raws ws);
        offset = n + length (raws ws);
        fds_ = fs ++ fds_of ws;
      })
unfolding push_array write push_raw write_fd
filling [] block n fs e h =
    rw (add-zero n, append-nil fs, append-nil (take n block), take_all n block (omega arith))
filling (raw item ∷ ws) block n fs e h =
    let size = length-append item (raws ws) in
    let next : u64 (n + length item) ≡ n + length item = omega arith in
    let (stores, keeps, holds) = store_lem block n item (omega arith) in
    rw (stores, next)
      (filling ws (overwrite block n item) (n + length item) fs (omega arith) (omega arith)
        ∙ ap₂ (λ b m. some (state (some b) m (fs ++ fds_of ws)))
            (ap (λ b. b ++ raws ws) holds ∙ append_assoc (take n block) item (raws ws))
            (omega arith))
filling (fd k ∷ ws) block n fs e h =
    filling ws block n (fs ++ k ∷ []) e h
    ∙ ap (λ f. some (state (some (take n block ++ raws ws)) (n + length (raws ws)) f))
        (append_assoc fs (k ∷ []) (fds_of ws))

-- For any writes that fill less than the address space, the two passes write nowhere out of the
-- block, and the archive holds exactly the bytes written, in order. Its descriptors are those
-- written, in order, twice over.
pub run-writes :
    (ws : List Write)
    → length (raws ws) < 2 ^ 64
    → run (push_array write ws) ≡ some (record { bytes_ = raws ws; fds = fds_of ws ++ fds_of ws })
unfolding run
run-writes ws h =
    let n = length (raws ws) in
    let size = length-replicate {0} {A = ℕ} n 0 in
    rw (
      sizing ws 0 [] (omega arith),
      add.zero n,
      filling ws (replicate n 0) 0 (fds_of ws) (omega arith) (omega arith),
    )

-- Reading at an offset, behind any bytes and before any others, finds what was written there, and
-- leaves the offset behind it.
pub pop_raw_at :
    (before item rest : List ℕ) (fds : List ℕ) (m n k : ℕ)
    → length before ≡ m
    → length item ≡ n
    → m + n < 2 ^ 64
    → pop_raw n (record {
      archive = record { bytes_ = before ++ (item ++ rest); fds = fds };
      byte_offset = m;
      fd_offset = k;
    })
      ≡ some (
        item,
        record {
          archive = record { bytes_ = before ++ (item ++ rest); fds = fds };
          byte_offset = m + n;
          fd_offset = k;
        },
      )
unfolding pop_raw
pop_raw_at before item rest fds m n k e f h =
    let next : u64 (m + n) ≡ m + n = omega arith in
    rw (
      drop-append_left m before (item ++ rest) e,
      load_lem n (item ++ rest) (omega (arith, length-append item rest)),
      take-append_left n item rest f,
      next,
    )
