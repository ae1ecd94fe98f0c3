-- ===== src/Host/Admin/Handles.antt =====
-- The objects of `RtnlLink` in host/TunAdminContext.cpp, which release a link of libnl each, as they are
-- made, moved, assigned and destroyed. An object is known by its position among those that live; an
-- operation on a position without an object does nothing.
pub mod Owned
use wetnork.Base.{
  ℕ, zero, suc, ◌+◌, List, [], ◌∷◌, ◌++◌, Option, none, some, ◌&&◌, ltb, ◌==◌, if◌then◌else◌,
  length,
}
use wetnork.Exceptions.{Outcome, ok, throw, fault, unfinished}
use wetnork.Host.Kernel.{count, close_fd}

-- The pointer of each object, which may be null, and the links that are allocated.
pub record Handles : Type 0 where
  pub objects : List (Option ℕ)
  pub links : List ℕ

abbrev pub handle_at : ℕ → List (Option ℕ) → Option ℕ
handle_at i [] = none
handle_at zero (h ∷ hs) = h
handle_at (suc i) (h ∷ hs) = handle_at i hs

abbrev pub set_handle : ℕ → Option ℕ → List (Option ℕ) → List (Option ℕ)
set_handle i h' [] = []
set_handle zero h' (h ∷ hs) = h' ∷ hs
set_handle (suc i) h' (h ∷ hs) = h ∷ set_handle i h' hs

abbrev pub without_object : ℕ → List (Option ℕ) → List (Option ℕ)
without_object i [] = []
without_object zero (h ∷ hs) = hs
without_object (suc i) (h ∷ hs) = h ∷ without_object i hs

-- `rtnl_link_put` of a link that is not allocated is a fault.
abbrev link_put : ℕ → List ℕ → Outcome (List ℕ)
link_put l links = if count l links == 0 then fault else ok (close_fd l links)

unfoldable pub close_link : Option ℕ → List ℕ → Outcome (List ℕ)
close_link none links = ok links
close_link (some l) links = link_put l links

abbrev pub with_links : List (Option ℕ) → Outcome (List ℕ) → Outcome Handles
with_links objects (ok links) = ok (record { objects = objects; links = links })
with_links objects (throw e) = throw e
with_links objects fault = fault
with_links objects unfinished = unfinished

-- The constructor that takes over a link which libnl gave.
unfoldable pub construct : ℕ → Handles → Outcome Handles
construct l s = ok (record { objects = s.objects ++ some l ∷ []; links = l ∷ s.links })

-- The move constructor, from the object at `i`.
unfoldable pub move_construct : ℕ → Handles → Outcome Handles
move_construct i s = ok (
    if ltb i (length s.objects)
    then record s { objects = set_handle i none s.objects ++ handle_at i s.objects ∷ [] }
    else s)

-- The move assignment, from the object at `j` to the one at `i`, which may be the same.
unfoldable pub move_assign : ℕ → ℕ → Handles → Outcome Handles
move_assign i j s =
    if ltb i (length s.objects) && ltb j (length s.objects)
    then with_links (set_handle j none (set_handle i (handle_at j s.objects) s.objects))
        (close_link (handle_at i s.objects) s.links)
    else ok s

-- The destructor.
unfoldable pub destroy_link : ℕ → Handles → Outcome Handles
destroy_link i s =
    if ltb i (length s.objects)
    then with_links (without_object i s.objects) (close_link (handle_at i s.objects) s.links)
    else ok s

pub data Event : Type 0 where
  makes moves destroys : ℕ → Event
  assigns : ℕ → ℕ → Event

unfoldable pub perform : Event → Handles → Outcome Handles
perform (makes l) s = construct l s
perform (moves i) s = move_construct i s
perform (assigns i j) s = move_assign i j s
perform (destroys i) s = destroy_link i s

abbrev then_run : (Handles → Outcome Handles) → Outcome Handles → Outcome Handles
then_run k (ok s) = k s
then_run k (throw e) = throw e
then_run k fault = fault
then_run k unfinished = unfinished

unfoldable pub run : List Event → Handles → Outcome Handles
run [] s = ok s
run (e ∷ es) s = then_run (run es) (perform e s)
