-- ===== src/Host/Admin/Sockets.antt =====
-- Who releases the netlink sockets of host/TunAdminContext.cpp.
use wetnork.Base.{ℕ, ◌+◌, ◌≤◌, ◌≡◌, refl, List, [], ◌∷◌, ◌++◌, Option, none, some, arith}
use wetnork.Exceptions.{Outcome, ok}
use wetnork.Host.Kernel.{Answer, granted, failed, count, one_if_self, count-close_fd, close_last}
use wetnork.Host.Admin.{Netlink, TunAdminContext, tun_admin_context, close, destroy, assign}

abbrev pub owned_nl : Option ℕ → List ℕ
owned_nl none = []
owned_nl (some s) = s ∷ []

abbrev pub owned : TunAdminContext → List ℕ
owned c = owned_nl c.nl

-- The socket of a context that could not be connected.
abbrev pub leaked : Option ℕ → Answer (Unit {0}) → List ℕ
leaked (some s) (failed err) = s ∷ []
leaked _ _ = []

-- What a scope makes of a context whose constructor returned: it destroys it.
abbrev pub leave : Netlink × Outcome TunAdminContext → Netlink
leave (n, ok c) = destroy c n
leave (n, _) = n

-- A context that is made and goes out of scope leaves the sockets as they were, except where the
-- socket could be allocated but not connected: then the constructor throws, and the socket stays.
pub leave-tun_admin_context :
    (alloc : Option ℕ) (connect : Answer (Unit {0})) (n : Netlink)
    → (leave (tun_admin_context alloc connect n)).sockets ≡ leaked alloc connect ++ n.sockets
unfolding tun_admin_context destroy
leave-tun_admin_context none connect n = refl
leave-tun_admin_context (some s) (granted u) n = close_last s n.sockets
leave-tun_admin_context (some s) (failed err) n = refl

closes :
    (o : Option ℕ) (m : ℕ) (n : Netlink)
    → ((k : ℕ) → count k (owned_nl o) ≤ count k n.sockets)
    → count m (close (record { nl = o }) n).sockets + count m (owned_nl o) ≡ count m n.sockets
unfolding close
closes none m n h = omega arith
closes (some s) m n h =
    omega (arith, count-close_fd s m n.sockets (omega (arith, h s, one_if_self s)))

-- A move assignment to a context whose socket is open releases that socket and no other; the target
-- then owns what the source owned, and the source nothing, so that destroying it releases nothing.
pub assign_releases :
    (this rhs : TunAdminContext) (n : Netlink) (m : ℕ)
    → ((k : ℕ) → count k (owned this) ≤ count k n.sockets)
    → let r = assign this rhs n in
      (count m r.netlink.sockets + count m (owned this) ≡ count m n.sockets)
      × (owned r.target ≡ owned rhs)
      × (owned r.source ≡ [])
      × (destroy r.source r.netlink ≡ r.netlink)
unfolding assign destroy
assign_releases this rhs n m h = (closes this.nl m n h, refl, refl, refl)
