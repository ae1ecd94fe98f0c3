-- ===== src/Packet/Owners/Examples.antt =====
-- Owners of blocks of include/Packet.hpp, at a heap with one packet.
use wetnork.Base.{ℕ, suc, ◌⊎◌, ◌≤◌, ◌<◌, ◌≡◌, refl, [], ◌∷◌, some, none, get_elem?, arith}
use wetnork.Host.Kernel.{count}
use wetnork.Packet.{array_delete}
use wetnork.Packet.Owners.{Heap, control, allocates, refers, shares, leaves, run}
use wetnork.Packet.Owners.Counts.{holders}
use wetnork.Packet.Owners.Sites.{IsOwned, run-IsOwned, propagate_received, propagate_received_lem}

-- One packet, on block 5.
abbrev one_packet : Heap
one_packet = record { blocks = 5 ∷ []; controls = control 5 array_delete 1 ∷ [] }

one_packet-IsOwned : IsOwned one_packet
one_packet-IsOwned n = omega arith

run-IsOwned_example :
    (h' : Heap) × (run (allocates 6 ∷ refers 5 ∷ shares 1 ∷ leaves 1 ∷ leaves 0 ∷ []) one_packet
      ≡ some h')
    × IsOwned h'
    × ((c b n : ℕ)
        → get_elem? h'.controls c ≡ some (control b array_delete (suc n))
        → 1 ≤ count b h'.blocks)
run-IsOwned_example =
    run-IsOwned (allocates 6 ∷ refers 5 ∷ shares 1 ∷ leaves 1 ∷ leaves 0 ∷ []) one_packet
      one_packet-IsOwned

-- A slot copies the packet that is passed on.
propagate_received_lem_example :
    (propagate_received 6 [] one_packet ≡ none)
    × ((propagate_received 6 (shares 2 ∷ []) one_packet ≡ none)
        ⊎ ((h' : Heap) × (propagate_received 6 (shares 2 ∷ []) one_packet ≡ some h')
            × (count 6 h'.blocks < holders 6 h'.controls)))
propagate_received_lem_example =
    propagate_received_lem 6 (shares 2 ∷ []) one_packet one_packet-IsOwned refl
