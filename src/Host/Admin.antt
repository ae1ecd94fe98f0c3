-- ===== src/Host/Admin.antt =====
-- host/TunAdminContext.hpp and host/TunAdminContext.cpp. Of libnl the model keeps which objects are
-- allocated and which changes it was asked for; its answers are arguments. An interface index is the
-- `int` that `TunDevice` keeps.
pub mod Links
pub mod Sockets
pub mod Handles
mod Examples
use wetnork.Base.{ℕ, ◌%◌, ◌^◌, List, ◌∷◌, Option, none, some, Bool, true, false}
use wetnork.Exceptions.{Code, Outcome, ok, throw, runtime_error}
use wetnork.Host.Kernel.{Answer, granted, failed, close_fd}
use wetnork.Host.Device.{TunDevice}

-- What `rtnl_link_set_flags`, `rtnl_link_unset_flags` and `rtnl_link_set_mtu` put into a change.
-- The last one takes an `unsigned int`.
pub data Setting : Type 0 where
  flags_up flags_down : Setting
  mtu : ℕ → Setting

-- `sockets` and `links` are the objects of libnl that are allocated, by number; `changes` are the
-- changes that the kernel was asked for, granted or not, newest first.
pub record Netlink : Type 0 where
  pub sockets : List ℕ
  pub links : List ℕ
  pub changes : List (Code × Setting)

pub record TunAdminContext : Type 0 where
  pub nl : Option ℕ

-- The constructor: the socket, or null, then the connection. Its destructor does not run where the
-- constructor throws.
abbrev connected : ℕ → Answer (Unit {0}) → Netlink → Netlink × Outcome TunAdminContext
connected s (granted u) n = (n, ok (record { nl = some s }))
connected s (failed err) n = (n, throw (runtime_error "nl_geterror"))

abbrev allocated : Option ℕ → Answer (Unit {0}) → Netlink → Netlink × Outcome TunAdminContext
allocated none connect n = (n, throw (runtime_error "Could not open netlink socket"))
allocated (some s) connect n = connected s connect (record n { sockets = s ∷ n.sockets })

unfoldable pub tun_admin_context :
    Option ℕ → Answer (Unit {0}) → Netlink → Netlink × Outcome TunAdminContext
tun_admin_context alloc connect n = allocated alloc connect n

abbrev close_nl : Option ℕ → Netlink → Netlink
close_nl none n = n
close_nl (some s) n = record n { sockets = close_fd s n.sockets }

unfoldable pub close : TunAdminContext → Netlink → Netlink
close c n = close_nl c.nl n

-- The destructor.
unfoldable pub destroy : TunAdminContext → Netlink → Netlink
unfolding close
destroy c n = close c n

-- The move constructor: the new context and what is left of the other.
unfoldable pub move : TunAdminContext → TunAdminContext × TunAdminContext
move other = (record { nl = other.nl }, record { nl = none })

pub record Assigned : Type 0 where
  pub target : TunAdminContext
  pub source : TunAdminContext
  pub netlink : Netlink

-- The move assignment, for two different objects.
unfoldable pub assign : TunAdminContext → TunAdminContext → Netlink → Assigned
unfolding close
assign this rhs n = record {
  target = record { nl = rhs.nl };
  source = record { nl = none };
  netlink = close this n;
}

-- What libnl answers to the calls of a change, in order: `rtnl_link_get_kernel` with the link,
-- `rtnl_link_alloc` with one or null, and `rtnl_link_change`.
pub record Answers : Type 0 where
  pub get : Answer ℕ
  pub alloc : Option ℕ
  pub change : Answer (Unit {0})

-- `RtnlLink::get`, the default constructor and the destructor.
abbrev pub hold : ℕ → Netlink → Netlink
hold l n = record n { links = l ∷ n.links }

abbrev pub put_link : ℕ → Netlink → Netlink
put_link l n = record n { links = close_fd l n.links }

abbrev changed : Code → Setting → ℕ → ℕ → Answer (Unit {0}) → Netlink → Netlink × Outcome (Unit {0})
changed index setting link change (granted u) n =
    (put_link link (put_link change (record n { changes = (index, setting) ∷ n.changes })), ok tt)
changed index setting link change (failed err) n = (
  put_link link (put_link change (record n { changes = (index, setting) ∷ n.changes })),
  throw (runtime_error "nl_geterror"),
)

abbrev with_change :
    Code → Setting → ℕ → Option ℕ → Answer (Unit {0}) → Netlink → Netlink × Outcome (Unit {0})
with_change index setting link none change n =
    (put_link link n, throw (runtime_error "Could not allocate rtnl_link"))
with_change index setting link (some c) change n = changed index setting link c change (hold c n)

abbrev with_link :
    Code
    → Setting
    → Answer ℕ
    → Option ℕ
    → Answer (Unit {0})
    → Netlink
    → Netlink × Outcome (Unit {0})
with_link index setting (failed err) alloc change n =
    (n, throw (runtime_error "Could not get rtnl_link"))
with_link index setting (granted link) alloc change n =
    with_change index setting link alloc change (hold link n)

-- What `setLinkState` and `setLinkMtu` have in common.
unfoldable pub change_link : TunDevice → Setting → Answers → Netlink → Netlink × Outcome (Unit {0})
change_link tun setting a n = with_link tun.if_index setting a.get a.alloc a.change n

abbrev flags_of : Bool → Setting
flags_of true = flags_up
flags_of false = flags_down

unfoldable pub set_link_state : TunDevice → Bool → Answers → Netlink → Netlink × Outcome (Unit {0})
unfolding change_link
set_link_state tun up a n = change_link tun (flags_of up) a n

-- `mtu` is a `size_t`.
unfoldable pub set_link_mtu : TunDevice → ℕ → Answers → Netlink → Netlink × Outcome (Unit {0})
unfolding change_link
set_link_mtu tun size a n = change_link tun (mtu (size % 2 ^ 32)) a n
