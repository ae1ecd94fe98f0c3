-- ===== src/Udp/Sending.antt =====
-- What becomes of a packet that is written to a link that `connect` of net/UdpSocket.cpp made.
use wetnork.Base.{ℕ, ◌≡◌, refl, ap, List, ◌∷◌}
use wetnork.Exceptions.{ok, throw, socket_exception}
use wetnork.Address.Socket.{SocketAddress, sin_family}
use wetnork.Host.Kernel.{granted, count}
use wetnork.Link
use wetnork.Link.{UdpLink, write, udp_link}
use wetnork.Udp.{Links, UdpSocket, connect}
use wetnork.Udp.Connections.{first_connect}

-- The kernel's `sendto` on a descriptor, with those that are open.
abbrev pub Sendto : Type 0
Sendto = ℕ → List ℕ → Link.Answer

-- The error is `EBADF` of Linux.
abbrev pub RefusesClosed : Sendto → Type 0
RefusesClosed sendto = (fd : ℕ) (fds : List ℕ) → count fd fds ≡ 0 → sendto fd fds ≡ Link.failed 9

-- Where the kernel refuses to send on a closed descriptor, and gave `connect` a descriptor that was
-- not open before, the first link of a socket, to a peer of its family, cannot send: `connect` returns
-- it, but every write to it, before another descriptor is opened, throws.
pub connect-write :
    {D : Links} (sendto : Sendto) (fd : ℕ) (peer : SocketAddress) (s : UdpSocket D) (fds : List ℕ)
    (later : List Link.Answer)
    → RefusesClosed sendto
    → count fd fds ≡ 0
    → sin_family peer ≡ sin_family s.address
    → s.peers ≡ D.empty
    → let r = connect peer (granted fd) (granted tt) s fds in
      (link : UdpLink) × (r.2 ≡ ok link)
      × (write (sendto link.fd r.1 ∷ later) ≡ throw (socket_exception 9 ""))
unfolding write
connect-write sendto fd peer s fds later refuses fresh h e =
    rw (first_connect fd peer s fds h e)
      (udp_link fd peer, refl, ap (λ a. write (a ∷ later)) (refuses fd fds fresh))
