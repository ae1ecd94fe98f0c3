-- ===== src/Host/Admin/Handles/Owned.antt =====
-- Who releases the links that the objects of `RtnlLink` in host/TunAdminContext.cpp hold.
use wetnork.Base.{
  ℕ, zero, suc, ◌+◌, ◌<◌, ◌≡◌, refl, ap, List, [], ◌∷◌, ◌++◌, Option, none, some, false, ◌&&◌, ltb,
  ◌==◌, length, arith, Bool-cases, inl, inr,
}
use wetnork.Exceptions.{Outcome, ok}
use wetnork.Host.Kernel.{count, one_if_self, close_fd, count-close_fd}
use wetnork.Host.Admin.Handles.{
  Handles, handle_at, set_handle, without_object, close_link, with_links, construct, move_construct,
  move_assign, destroy_link, Event, makes, moves, assigns, destroys, perform, run,
}

-- How many objects will release the link.
abbrev owners : ℕ → Option ℕ → ℕ
owners n none = 0
owners n (some l) = count n (l ∷ [])

abbrev pub all_owners : ℕ → List (Option ℕ) → ℕ
all_owners n [] = 0
all_owners n (h ∷ hs) = owners n h + all_owners n hs

all_owners-append :
    (n : ℕ) (hs : List (Option ℕ)) (h : Option ℕ)
    → all_owners n (hs ++ h ∷ []) ≡ all_owners n hs + owners n h
all_owners-append n [] h = omega arith
all_owners-append n (g ∷ hs) h = omega (arith, all_owners-append n hs h)

all_owners-set_handle :
    (n i : ℕ) (h : Option ℕ) (hs : List (Option ℕ))
    → i < length hs
    → all_owners n (set_handle i h hs) + owners n (handle_at i hs) ≡ all_owners n hs + owners n h
all_owners-set_handle n i h [] w = absurd (omega arith)
all_owners-set_handle n zero h (g ∷ hs) w = omega arith
all_owners-set_handle n (suc i) h (g ∷ hs) w =
    omega (arith, all_owners-set_handle n i h hs (omega arith))

all_owners-without_object :
    (n i : ℕ) (hs : List (Option ℕ))
    → i < length hs
    → all_owners n (without_object i hs) + owners n (handle_at i hs) ≡ all_owners n hs
all_owners-without_object n i [] w = absurd (omega arith)
all_owners-without_object n zero (g ∷ hs) w = omega arith
all_owners-without_object n (suc i) (g ∷ hs) w =
    omega (arith, all_owners-without_object n i hs (omega arith))

length-set_handle :
    (i : ℕ) (h : Option ℕ) (hs : List (Option ℕ)) → length (set_handle i h hs) ≡ length hs
length-set_handle i h [] = refl
length-set_handle zero h (g ∷ hs) = refl
length-set_handle (suc i) h (g ∷ hs) = ap suc (length-set_handle i h hs)

handle_at-set_handle :
    (i j : ℕ) (hs : List (Option ℕ))
    → handle_at j (set_handle i (handle_at j hs) hs) ≡ handle_at j hs
handle_at-set_handle i j [] = refl
handle_at-set_handle zero zero (h ∷ hs) = refl
handle_at-set_handle zero (suc j) (h ∷ hs) = refl
handle_at-set_handle (suc i) zero (h ∷ hs) = refl
handle_at-set_handle (suc i) (suc j) (h ∷ hs) = handle_at-set_handle i j hs

-- Each allocated link is that of one object.
abbrev pub IsOwned : Handles → Type 0
IsOwned s = (n : ℕ) → all_owners n s.objects ≡ count n s.links

-- The operations return, and then each link is owned.
pub record IsSafe (r : Outcome Handles) : Type 0 where
  pub after : Handles
  pub returns : r ≡ ok after
  pub owned : IsOwned after

close_link-IsSafe :
    (h : Option ℕ) (hs : List (Option ℕ)) (links : List ℕ)
    → ((n : ℕ) → all_owners n hs + owners n h ≡ count n links)
    → IsSafe (with_links hs (close_link h links))
unfolding close_link
close_link-IsSafe none hs links e = record {
  after = record { objects = hs; links = links };
  returns = refl;
  owned = λ n. omega (arith, e n);
}
close_link-IsSafe (some l) hs links e =
    let there : (count l links == 0) ≡ false = ground (arith, e l, one_if_self l) in
    rw there (record {
      after = record { objects = hs; links = close_fd l links };
      returns = refl;
      owned = λ n. omega (arith, e n, count-close_fd l n links (omega (arith, e l, one_if_self l)));
    })

same-IsSafe : (s : Handles) → IsOwned s → IsSafe (ok s)
same-IsSafe s o = record { after = s; returns = refl; owned = o }

move_construct-IsSafe : (i : ℕ) (s : Handles) → IsOwned s → IsSafe (move_construct i s)
unfolding move_construct
move_construct-IsSafe i s o = elim (Bool-cases (ltb i (length s.objects))) [
  | inl there ↦ rw there (
      same-IsSafe _ (λ n. omega (
        arith,
        o n,
        all_owners-append n (set_handle i none s.objects) (handle_at i s.objects),
        all_owners-set_handle n i none s.objects (ground (arith, there)),
      )))
  | inr missing ↦ rw missing (same-IsSafe s o)
]

move_assign-IsSafe : (i j : ℕ) (s : Handles) → IsOwned s → IsSafe (move_assign i j s)
unfolding move_assign
move_assign-IsSafe i j s o =
    let both = ltb i (length s.objects) && ltb j (length s.objects) in
    let taken = set_handle i (handle_at j s.objects) s.objects in
    elim (Bool-cases both) [
      | inl there ↦ rw there (
          close_link-IsSafe (handle_at i s.objects) _ s.links (λ n. omega (
            arith,
            o n,
            ap (owners n) (handle_at-set_handle i j s.objects),
            all_owners-set_handle n j none taken
                (ground (arith, there, length-set_handle i (handle_at j s.objects) s.objects)),
            all_owners-set_handle n i (handle_at j s.objects) s.objects (ground (arith, there)),
          )))
      | inr missing ↦ rw missing (same-IsSafe s o)
    ]

destroy_link-IsSafe : (i : ℕ) (s : Handles) → IsOwned s → IsSafe (destroy_link i s)
unfolding destroy_link
destroy_link-IsSafe i s o = elim (Bool-cases (ltb i (length s.objects))) [
  | inl there ↦ rw there (
      close_link-IsSafe (handle_at i s.objects) _ s.links
        (λ n. omega (arith, o n, all_owners-without_object n i s.objects (ground (arith, there)))))
  | inr missing ↦ rw missing (same-IsSafe s o)
]

perform-IsSafe : (e : Event) (s : Handles) → IsOwned s → IsSafe (perform e s)
unfolding perform construct
perform-IsSafe (makes l) s o =
    same-IsSafe _ (λ n. omega (arith, o n, all_owners-append n s.objects (some l)))
perform-IsSafe (moves i) s o = move_construct-IsSafe i s o
perform-IsSafe (assigns i j) s o = move_assign-IsSafe i j s o
perform-IsSafe (destroys i) s o = destroy_link-IsSafe i s o

-- However objects that each own their link are made, moved, assigned, to themselves too, and destroyed:
-- no link is released that is not allocated, and each that is allocated is still owned by an object, once
-- for each time that libnl gave it. So when no object is left, no link is.
pub run-IsSafe : (es : List Event) (s : Handles) → IsOwned s → IsSafe (run es s)
unfolding run
run-IsSafe [] s o = same-IsSafe s o
run-IsSafe (e ∷ es) s o =
    let first = perform-IsSafe e s o in rw first.returns (run-IsSafe es first.after first.owned)
