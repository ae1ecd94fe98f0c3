-- ===== src/Host/Admin/Links.antt =====
-- What the changes of host/TunAdminContext.cpp ask the kernel for, and what they release.
use wetnork.Base.{
  ℕ, ◌%◌, ◌^◌, ◌<◌, ◌≡◌, ◌≢◌, refl, ap, sym, ◌∙◌, ◌↔◌, List, [], ◌∷◌, Option, none, some, Bool,
  true, false, ◌&&◌, if◌then◌else◌, arith,
}
use wetnork.Exceptions.{Code, natural, Outcome, ok}
use wetnork.Host.Kernel.{Answer, granted, failed, close_fd, close_last}
use wetnork.Host.Device.{TunDevice, assign}
use wetnork.Host.Admin.{
  Setting, mtu, Netlink, Answers, change_link, flags_of, set_link_state, set_link_mtu,
}

abbrev pub is_granted : {A : Type 0} → Answer A → Bool
is_granted (granted a) = true
is_granted (failed e) = false

abbrev pub is_there : Option ℕ → Bool
is_there none = false
is_there (some l) = true

abbrev pub all_granted : Answers → Bool
all_granted a = is_granted a.get && (is_there a.alloc && is_granted a.change)

-- Whether the change comes to be asked for: the device's link and a new one are there.
abbrev pub is_asked : Answers → Bool
is_asked a = is_granted a.get && is_there a.alloc

abbrev pub succeeds : Outcome (Unit {0}) → Bool
succeeds (ok u) = true
succeeds _ = false

-- What a change of one interface has come to.
pub record Changed (index : Code) (setting : Setting) (a : Answers) (n : Netlink)
    (r : Netlink × Outcome (Unit {0})) : Type 0 where
  pub links_released : r.0.links ≡ n.links
  pub sockets_kept : r.0.sockets ≡ n.sockets
  pub asked_for : r.0.changes ≡ (if is_asked a then (index, setting) ∷ n.changes else n.changes)
  pub says_so : succeeds r.1 ≡ all_granted a

released_two : (c l : ℕ) (ls : List ℕ) → close_fd l (close_fd c (c ∷ l ∷ ls)) ≡ ls
released_two c l ls = ap (close_fd l) (close_last c (l ∷ ls)) ∙ close_last l ls

change_answers :
    (tun : TunDevice) (setting : Setting) (get : Answer ℕ) (alloc : Option ℕ)
    (change : Answer (Unit {0})) (n : Netlink)
    → let a : Answers = record { get = get; alloc = alloc; change = change } in
      Changed tun.if_index setting a n (change_link tun setting a n)
unfolding change_link
change_answers tun setting (failed e) alloc change n = record {
  links_released = refl;
  sockets_kept = refl;
  asked_for = refl;
  says_so = refl;
}
change_answers tun setting (granted l) none change n = record {
  links_released = close_last l n.links;
  sockets_kept = refl;
  asked_for = refl;
  says_so = refl;
}
change_answers tun setting (granted l) (some c) (granted u) n = record {
  links_released = released_two c l n.links;
  sockets_kept = refl;
  asked_for = refl;
  says_so = refl;
}
change_answers tun setting (granted l) (some c) (failed e) n = record {
  links_released = released_two c l n.links;
  sockets_kept = refl;
  asked_for = refl;
  says_so = refl;
}

pub set_link-Changed :
    (tun : TunDevice) (up : Bool) (size : ℕ) (a : Answers) (n : Netlink)
    → Changed tun.if_index (flags_of up) a n (set_link_state tun up a n)
      × Changed tun.if_index (mtu (size % 2 ^ 32)) a n (set_link_mtu tun size a n)
unfolding set_link_state set_link_mtu
set_link-Changed tun up size a n = (
  change_answers tun (flags_of up) a.get a.alloc a.change n,
  change_answers tun (mtu (size % 2 ^ 32)) a.get a.alloc a.change n,
)

mtu_of : List (Code × Setting) → ℕ
mtu_of ((index, mtu size) ∷ changes) = size
mtu_of _ = 0

-- Where a change is asked for, the size that the kernel is asked for is the one given exactly if
-- that is below 2^32.
pub set_link_mtu_bounds :
    (tun : TunDevice) (size : ℕ) (a : Answers) (n : Netlink)
    → is_asked a ≡ true
    → ((set_link_mtu tun size a n).0.changes ≡ (tun.if_index, mtu size) ∷ n.changes)
      ↔ (size < 2 ^ 32)
unfolding mtu_of
set_link_mtu_bounds tun size a n h =
    let asked = (set_link-Changed tun true size a n).1.asked_for in
    let done : (set_link_mtu tun size a n).0.changes
        ≡ (tun.if_index, mtu (size % 2 ^ 32)) ∷ n.changes =
      asked
      ∙ ap (λ b. if b then (tun.if_index, mtu (size % 2 ^ 32)) ∷ n.changes else n.changes) h in
    rw done (
      λ e. let same : size % 2 ^ 32 ≡ size = ap mtu_of e in omega arith,
      λ small. let same : size % 2 ^ 32 ≡ size = omega arith in rw same refl,
    )

index_of : List (Code × Setting) → Code
index_of ((index, setting) ∷ changes) = index
index_of [] = natural 0

-- After a move assignment between devices of different interfaces, a change by the target is asked
-- for the interface that the target had before, and not for the one whose descriptor it now has.
pub set_link_state-assign :
    (left : List ℕ) (this rhs : TunDevice) (fds : List ℕ) (up : Bool) (a : Answers) (n : Netlink)
    → is_asked a ≡ true
    → this.if_index ≢ rhs.if_index
    → let target = (assign left this rhs fds).target in
      let r = set_link_state target up a n in
      (target.fd ≡ rhs.fd)
      × (r.0.changes ≡ (this.if_index, flags_of up) ∷ n.changes)
      × (r.0.changes ≢ (rhs.if_index, flags_of up) ∷ n.changes)
unfolding assign index_of
set_link_state-assign left this rhs fds up a n h differ =
    let target = (assign left this rhs fds).target in
    let asked = (set_link-Changed target up 0 a n).0.asked_for in
    let done : (set_link_state target up a n).0.changes ≡ (this.if_index, flags_of up) ∷ n.changes =
      asked ∙ ap (λ b. if b then (this.if_index, flags_of up) ∷ n.changes else n.changes) h in
    (refl, done, λ e. differ (ap index_of (sym done ∙ e)))
