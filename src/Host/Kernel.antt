-- ===== src/Host/Kernel.antt =====
-- The descriptors that the process has open. The kernel is no part of the repository's sources:
-- its answers are arguments of the operations that ask it.
use wetnork.Base.{ℕ, ◌+◌, ◌≤◌, ◌≡◌, List, [], ◌∷◌, ◌==◌, if◌then◌else◌, arith}

pub data Answer (A : Type 0) : Type 0 where
  granted : A → Answer A
  failed : ℕ → Answer A

abbrev pub one_if : ℕ → ℕ → ℕ
one_if m n = if m == n then 1 else 0

abbrev pub count : ℕ → List ℕ → ℕ
count n [] = 0
count n (m ∷ ms) = one_if m n + count n ms

-- `::close`: a descriptor that is not open stays so.
unfoldable pub close_fd : ℕ → List ℕ → List ℕ
close_fd m [] = []
close_fd m (x ∷ xs) = if x == m then xs else x ∷ close_fd m xs

-- Closing an open descriptor removes it once.
pub count-close_fd :
    (m n : ℕ) (xs : List ℕ) → 1 ≤ count m xs → count n (close_fd m xs) + one_if m n ≡ count n xs
unfolding close_fd
count-close_fd m n [] h = absurd (omega arith)
count-close_fd m n (x ∷ xs) h = ground (arith, count-close_fd m n xs)

pub one_if_self : (m : ℕ) → one_if m m ≡ 1
one_if_self m = ground arith

-- The descriptor that was opened last is closed first.
pub close_last : (fd : ℕ) (fds : List ℕ) → close_fd fd (fd ∷ fds) ≡ fds
unfolding close_fd
close_last fd fds = ground arith
