-- ===== src/Packet/Owners/Sites.antt =====
-- Where the program makes packets: Stream::write of include/network.hpp, net/TunDevice.cpp and
-- net/UdpSocket.cpp hand a new block to a packet; net/CryptoSession.cpp also makes packets on blocks that
-- have another owner.
use mathlib.Core.List.{append-nil, append_assoc}
use mathlib.Core.Option.{some-injective}
use wetnork.Base.{
  false, ℕ, ◌⊎◌, Option-cases, map, get_elem?-append_middle, zero, suc, ◌≤◌, ◌<◌, ◌≡◌, refl, ap,
  sym, ◌∙◌, List, [], ◌∷◌, ◌++◌, Option, none, some, ◌>>=◌, get_elem?, length, arith, inl, inr,
  ◌==◌,
}
use wetnork.Host.Kernel.{count, close_last, one_if, one_if_self}
use wetnork.Packet.{array_delete}
use wetnork.Packet.Owners.{
  Control, control, Heap, set_control, allocate, take_over, delete, leave, Event, leaves, perform,
  run,
}
use wetnork.Packet.Owners.Counts.{
  holders, holders-append, held_by, IsBalanced, allocate-IsBalanced, run-Ends,
}

-- Each allocated block is deleted by one living count for each time it was allocated.
abbrev pub IsOwned : Heap → Type 0
IsOwned h = IsBalanced (λ n. 0) h

living :
    (c : ℕ) (k : Control) (ks : List Control)
    → get_elem? ks c ≡ some k
    → held_by k.deleter k.owners k.block k.block ≤ holders k.block ks
living c k [] e = cc
living zero k (j ∷ ks) e = ground (arith, e)
living (suc c) k (j ∷ ks) e = omega (arith, living c k ks e)

-- Packets are made on new blocks and on blocks that are only referred to, copied, cut and destroyed, in
-- any order, where every block is owned. Then no deletion goes wrong, the block of a packet that is there
-- is allocated, unless it is only referred to, and every block is owned again: a block that no packet
-- owns any more has been deleted.
pub run-IsOwned :
    (es : List Event) (h : Heap)
    → IsOwned h
    → (h' : Heap) × (run es h ≡ some h')
      × IsOwned h'
      × ((c b n : ℕ)
          → get_elem? h'.controls c ≡ some (control b array_delete (suc n))
          → 1 ≤ count b h'.blocks)
run-IsOwned es h w = elim (run-Ends (λ n. 0) es h w) [
  | inl (n, over, faults) ↦ absurd (omega arith)
  | inr (h', goes, w') ↦ (
    h',
    goes,
    w',
    λ c b n e.
        omega (arith, w' b, living c (control b array_delete (suc n)) h'.controls e, one_if_self b),
  )
]

-- A packet is made on a block that it is not handed over, where every block is owned. Whatever packets
-- are made, copied, cut and destroyed afterwards: as long as there was no fault, the block has more
-- owners than allocations, so the owners cannot all have gone.
pub run-take_over :
    (b : ℕ) (es : List Event) (h h' : Heap)
    → IsOwned h
    → run es (take_over b h) ≡ some h'
    → count b h'.blocks < holders b h'.controls
unfolding take_over
run-take_over b es h h' w e =
    let taken : IsBalanced (one_if b) (take_over b h) =
      λ n. omega (arith, w n, holders-append n h.controls (control b array_delete 1)) in
    elim (run-Ends (one_if b) es (take_over b h) taken) [
      | inl (n, over, faults) ↦ cc
      | inr (h'', goes, w') ↦
          let same : h'' ≡ h' = some-injective _ _ (sym goes ∙ e) in
          rw (← same) (omega (arith, w' b, one_if_self b))
    ]

-- The end of `handleData`, with what the slots of `read` do with packets: then the packet goes, and
-- then the `unique_ptr`.
unfoldable pub propagate_received : ℕ → List Event → Heap → Option Heap
propagate_received b slots h = do
  h' ← run slots (take_over b (allocate b h))
  h'' ← leave (suc (length h.controls)) h'
  leave (length h.controls) h''

at_packet :
    (u p : Control) (ks : List Control)
    → get_elem? ((ks ++ u ∷ []) ++ p ∷ []) (suc (length ks)) ≡ some p
at_packet u p [] = refl
at_packet u p (k ∷ ks) = at_packet u p ks

at_unique :
    (u p p' : Control) (ks : List Control)
    → get_elem? (set_control (suc (length ks)) p' ((ks ++ u ∷ []) ++ p ∷ [])) (length ks) ≡ some u
at_unique u p p' [] = refl
at_unique u p p' (k ∷ ks) = at_unique u p p' ks

-- When `handleData` has passed on data and no slot copied the packet, the new block is deleted by the
-- packet and again by the `unique_ptr`, which is a fault.
propagate_received_faults :
    (b : ℕ) (h : Heap) → count b h.blocks ≡ 0 → propagate_received b [] h ≡ none
unfolding propagate_received run take_over allocate leave delete
propagate_received_faults b h fresh =
    let here : (count b (b ∷ h.blocks) == 0) ≡ false = ground (arith, one_if_self b) in
    let u : Control = control b array_delete 1 in
    rw
      (
        at_packet u u h.controls,
        here,
        close_last b h.blocks,
        at_unique u u (control b array_delete 0) h.controls,
        fresh,
      )
      refl

run-append : (es fs : List Event) (h : Heap) → run (es ++ fs) h ≡ (run es h >>= run fs)
unfolding run
run-append [] fs h = refl
run-append (e ∷ es) fs h = elim (Option-cases (perform e h)) [
  | inl none_ ↦ rw none_ refl
  | inr (h', e') ↦ rw e' (run-append es fs h')
]

leaves_twice :
    (c d : ℕ) (h : Heap) → run (leaves c ∷ leaves d ∷ []) h ≡ (do h' ← leave c h; leave d h')
unfolding run perform
leaves_twice c d h = elim (Option-cases (leave c h)) [
  | inl none_ ↦ rw none_ refl
  | inr (h', e) ↦
      rw e (elim (Option-cases (leave d h')) [
        | inl none_ ↦ rw none_ refl
        | inr (h'', e') ↦ rw e' refl
      ])
]

propagate_received-run :
    (b : ℕ) (slots : List Event) (h : Heap)
    → propagate_received b slots h
      ≡ run
          (slots ++ leaves (suc (length h.controls)) ∷ leaves (length h.controls) ∷ [])
          (take_over b (allocate b h))
unfolding propagate_received
propagate_received-run b slots h =
    let c = length h.controls in
    elim (Option-cases (run slots (take_over b (allocate b h)))) [
      | inl none_ ↦
          rw (run-append slots (leaves (suc c) ∷ leaves c ∷ []) (take_over b (allocate b h)), none_)
            refl
      | inr (h', e) ↦
          rw (run-append slots (leaves (suc c) ∷ leaves c ∷ []) (take_over b (allocate b h)), e)
            (sym (leaves_twice (suc c) c h'))
    ]

-- `handleData` passes on data in a new block, where every block is owned. If no slot makes a packet,
-- the block is deleted twice, which is a fault. Whatever packets the slots make, copy and destroy, it
-- ends in a fault, or the block is left with more owners than allocations.
pub propagate_received_lem :
    (b : ℕ) (slots : List Event) (h : Heap)
    → IsOwned h
    → count b h.blocks ≡ 0
    → (propagate_received b [] h ≡ none)
      × ((propagate_received b slots h ≡ none)
          ⊎ ((h' : Heap) × (propagate_received b slots h ≡ some h')
              × (count b h'.blocks < holders b h'.controls)))
propagate_received_lem b slots h w fresh = (
  propagate_received_faults b h fresh,
  elim (Option-cases (propagate_received b slots h)) [
    | inl faults ↦ inl faults
    | inr (h', e) ↦ inr (
      h',
      e,
      run-take_over b _ (allocate b h) h' (allocate-IsBalanced (λ n. 0) b h w)
          (sym (propagate_received-run b slots h) ∙ e),
    )
  ],
)

-- The packets of `vec_push`, and their end, in order.
unfoldable pub take_over_all : List ℕ → Heap → Heap
take_over_all [] h = h
take_over_all (b ∷ bs) h = take_over_all bs (take_over b h)

unfoldable pub leave_all : ℕ → ℕ → Heap → Option Heap
leave_all c zero h = some h
leave_all c (suc n) h = do h' ← leave c h; leave_all (suc c) n h'

unfoldable pub vec_push_blocks : List ℕ → Heap → Option Heap
unfolding take_over_all leave_all
vec_push_blocks bs h = leave_all (length h.controls) (length bs) (take_over_all bs h)

taken :
    (bs : List ℕ) (h : Heap)
    → ((take_over_all bs h).controls ≡ h.controls ++ map (λ b. control b array_delete 1) bs)
      × ((take_over_all bs h).blocks ≡ h.blocks)
unfolding take_over_all take_over
taken [] h = (sym (append-nil h.controls), refl)
taken (b ∷ bs) h =
    let rest = taken bs (take_over b h) in
    (rest.0 ∙ append_assoc h.controls (control b array_delete 1 ∷ []) _, rest.1)

-- The memory that GnuTLS gives to `vec_push` is not allocated by `new[]`, at least not its first part:
-- then the end of the packets is a fault.
pub vec_push_blocks_faults :
    (b : ℕ) (bs : List ℕ) (h : Heap) → count b h.blocks ≡ 0 → vec_push_blocks (b ∷ bs) h ≡ none
unfolding vec_push_blocks leave delete
vec_push_blocks_faults b bs h foreign =
    let all = taken (b ∷ bs) h in
    let first : get_elem? (take_over_all (b ∷ bs) h).controls (length h.controls)
        ≡ some (control b array_delete 1) =
      ap (λ ks. get_elem? ks (length h.controls)) all.0 ∙ get_elem?-append_middle h.controls _ _ in
    rw (first, all.1, foreign) refl
