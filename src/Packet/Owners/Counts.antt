-- ===== src/Packet/Owners/Counts.antt =====
-- The owner counts of include/Packet.hpp against the blocks that are allocated.
use wetnork.Base.{
  ℕ, zero, suc, ◌+◌, ◌≤◌, ◌≡◌, refl, ap, List, [], ◌∷◌, ◌++◌, Option, none, some, get_elem?, ◌==◌,
  ◌⊎◌, inl, inr, arith, Bool-cases, Option-cases,
}
use wetnork.Host.Kernel.{count, count-close_fd, one_if, one_if_self}
use wetnork.Packet.{Deleter, array_delete, null_delete}
use wetnork.Packet.Owners.{
  Control, control, Heap, set_control, allocate, refer, share, shared, delete, left, leave, Event,
  allocates, refers, shares, leaves, perform, run,
}

-- Whether the count will delete the block.
abbrev pub held_by : Deleter → ℕ → ℕ → ℕ → ℕ
held_by array_delete (suc owners) b n = one_if b n
held_by _ _ b n = 0

abbrev held : ℕ → Control → ℕ
held n k = held_by k.deleter k.owners k.block n

-- By how many living counts a block will be deleted.
abbrev pub holders : ℕ → List Control → ℕ
holders n [] = 0
holders n (k ∷ ks) = held n k + holders n ks

pub holders-append :
    (n : ℕ) (ks : List Control) (k : Control) → holders n (ks ++ k ∷ []) ≡ holders n ks + held n k
holders-append n [] k = omega arith
holders-append n (j ∷ ks) k = omega (arith, holders-append n ks k)

holders-set_control :
    (n c : ℕ) (k k' : Control) (ks : List Control)
    → get_elem? ks c ≡ some k
    → holders n (set_control c k' ks) + held n k ≡ holders n ks + held n k'
holders-set_control n c k k' [] e = cc
holders-set_control n zero k k' (j ∷ ks) e = ground (arith, e)
holders-set_control n (suc c) k k' (j ∷ ks) e = omega (arith, holders-set_control n c k k' ks e)

-- Each allocated block is deleted by one living count for each time it was allocated, and besides
-- by as many as `excess` says.
abbrev pub IsBalanced : (ℕ → ℕ) → Heap → Type 0
IsBalanced excess h = (n : ℕ) → holders n h.controls ≡ count n h.blocks + excess n

-- The run goes on, or it faults because a block has an owner too many.
abbrev pub Ends : (ℕ → ℕ) → Option Heap → Type 0
Ends excess r =
    ((n : ℕ) × (1 ≤ excess n) × (r ≡ none)) ⊎ ((h : Heap) × (r ≡ some h) × IsBalanced excess h)

-- Two living counts of the same block and deleter.
held_alike : (d : Deleter) (m n b k : ℕ) → held_by d (suc m) b k ≡ held_by d (suc n) b k
held_alike array_delete m n b k = refl
held_alike null_delete m n b k = refl

held_at : (k : Control) (m n : ℕ) → k.owners ≡ m → held n k ≡ held_by k.deleter m k.block n
held_at k m n e = ap (λ o. held_by k.deleter o k.block n) e

module _ (excess : ℕ → ℕ) where
  pub allocate-IsBalanced :
      (b : ℕ) (h : Heap) → IsBalanced excess h → IsBalanced excess (allocate b h)
  unfolding allocate
  allocate-IsBalanced b h w =
      λ n. omega (arith, w n, holders-append n h.controls (control b array_delete 1))

  refer-IsBalanced : (b : ℕ) (h : Heap) → IsBalanced excess h → IsBalanced excess (refer b h)
  unfolding refer
  refer-IsBalanced b h w =
      λ n. omega (arith, w n, holders-append n h.controls (control b null_delete 1))

  -- The count has an owner before and after.
  recounted :
      (c m n : ℕ) (k : Control) (h : Heap)
      → get_elem? h.controls c ≡ some k
      → k.owners ≡ suc m
      → IsBalanced excess h
      → IsBalanced excess
          (record h { controls = set_control c (record k { owners = suc n }) h.controls })
  recounted c m n k h e o w = λ i. omega (
    arith,
    w i,
    holders-set_control i c k (record k { owners = suc n }) h.controls e,
    held_at k (suc m) i o,
    held_alike k.deleter m n k.block i,
  )

  shared-IsBalanced :
      (c n : ℕ) (k : Control) (h : Heap)
      → get_elem? h.controls c ≡ some k
      → k.owners ≡ n
      → IsBalanced excess h
      → IsBalanced excess (shared c k n h)
  shared-IsBalanced c zero k h e o w = w
  shared-IsBalanced c (suc n) k h e o w = recounted c n (suc n) k h e o w

  share-IsBalanced : (c : ℕ) (h : Heap) → IsBalanced excess h → IsBalanced excess (share c h)
  unfolding share
  share-IsBalanced c h w = elim (Option-cases (get_elem? h.controls c)) [
    | inl none_ ↦ rw none_ w
    | inr (k, e) ↦ rw e (shared-IsBalanced c k.owners k h e refl w)
  ]

  -- The last owner leaves.
  last_left :
      (c : ℕ) (d : Deleter) (b : ℕ) (h : Heap)
      → get_elem? h.controls c ≡ some (control b d 1)
      → IsBalanced excess h
      → Ends excess (left c (control b d 1) 1 h)
  unfolding delete
  last_left c null_delete b h e w =
      let k : Control = control b null_delete 1 in
      let k' : Control = control b null_delete 0 in
      inr (_, refl, λ n. omega (arith, w n, holders-set_control n c k k' h.controls e))
  last_left c array_delete b h e w =
      let k : Control = control b array_delete 1 in
      let k' : Control = control b array_delete 0 in
      let change = λ (n : ℕ). holders-set_control n c k k' h.controls e in
      elim (Bool-cases (count b h.blocks == 0)) [
        | inl gone ↦
            let nothing : count b h.blocks ≡ 0 = ground (arith, gone) in
            inl (b, omega (arith, nothing, w b, change b, one_if_self b), rw gone refl)
        | inr there ↦
            let some_ : 1 ≤ count b h.blocks = ground (arith, there) in
            rw there
              (inr (_, refl, λ n. omega (arith, w n, change n, count-close_fd b n h.blocks some_)))
      ]

  left-Ends :
      (c : ℕ) (d : Deleter) (b o : ℕ) (h : Heap)
      → get_elem? h.controls c ≡ some (control b d o)
      → IsBalanced excess h
      → Ends excess (left c (control b d o) o h)
  left-Ends c d b zero h e w = inr (h, refl, w)
  left-Ends c d b (suc zero) h e w = last_left c d b h e w
  left-Ends c d b (suc (suc n)) h e w = inr (_, refl, recounted c (suc n) n _ h e refl w)

  leave-Ends : (c : ℕ) (h : Heap) → IsBalanced excess h → Ends excess (leave c h)
  unfolding leave
  leave-Ends c h w = elim (Option-cases (get_elem? h.controls c)) [
    | inl none_ ↦ rw none_ (inr (h, refl, w))
    | inr (k, e) ↦ rw e (left-Ends c k.deleter k.block k.owners h e w)
  ]

  perform-Ends : (e : Event) (h : Heap) → IsBalanced excess h → Ends excess (perform e h)
  unfolding perform
  perform-Ends (allocates b) h w = inr (allocate b h, refl, allocate-IsBalanced b h w)
  perform-Ends (refers b) h w = inr (refer b h, refl, refer-IsBalanced b h w)
  perform-Ends (shares c) h w = inr (share c h, refl, share-IsBalanced c h w)
  perform-Ends (leaves c) h w = leave-Ends c h w

  pub run-Ends : (es : List Event) (h : Heap) → IsBalanced excess h → Ends excess (run es h)
  unfolding run
  run-Ends [] h w = inr (h, refl, w)
  run-Ends (e ∷ es) h w = elim (perform-Ends e h w) [
    | inl (n, over, faults) ↦ inl (n, over, rw faults refl)
    | inr (h', goes, w') ↦ rw goes (run-Ends es h' w')
  ]
