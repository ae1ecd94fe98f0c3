-- ===== src/Udp.antt =====
-- net/UdpSocket.cpp: a socket and the links to its peers. The map of peers is a `Dictionary`. An
-- operation takes the open descriptors to new ones; the answers of the kernel are arguments.
pub mod Arrivals
pub mod Connections
pub mod Sending
pub mod Samples
mod Examples
use wetnork.Base.{
  ℕ, List, ◌∷◌, Option, none, some, Bool, true, false, not, ◌==◌, if◌then◌else◌, length, take,
}
use wetnork.Exceptions.{
  Outcome, ok, throw, fault, unfinished, invalid_argument, socket_exception, out_of_range,
}
use wetnork.Packet.{Packet, packet}
use wetnork.Address.Socket.{SocketAddress, sin_family, of_sockaddr}
use wetnork.Dictionary.{Dictionary}
use wetnork.Host.Kernel.{Answer, granted, failed, close_fd}
use wetnork.Link.{UdpLink, udp_link, propagate}

abbrev pub Links : Type 1
Links = Dictionary SocketAddress UdpLink

-- `watching` says that libev watches the descriptor.
pub record UdpSocket (D : Links) : Type 0 where
  pub fd : ℕ
  pub watching : Bool
  pub peers : D.Map
  pub address : SocketAddress

-- `peers.at(peer)`.
abbrev pub found : Option UdpLink → Outcome UdpLink
found none = throw (out_of_range "map::at")
found (some link) = ok link

module _ (D : Links) where
  -- The entry's link is destroyed inside `erase`, and its destructor calls `removeLink` for the entry
  -- that is being erased: a call of `erase` within `erase`, of which the library says nothing.
  abbrev erased : Option UdpLink → D.Map → Outcome D.Map
  erased none peers = ok peers
  erased (some link) peers = fault

  -- Every link's destructor calls this.
  unfoldable pub remove_link : SocketAddress → D.Map → Outcome D.Map
  remove_link link peers = if D.is_empty peers then ok peers else erased (D.find link peers) peers

  -- `peers[peer] = ...`: the link that was there is destroyed when the new one is in its place.
  abbrev replaced : Option UdpLink → D.Map → Outcome D.Map
  replaced none peers = ok peers
  replaced (some old) peers = remove_link old.peer peers

  unfoldable pub assign_link : SocketAddress → UdpLink → D.Map → Outcome D.Map
  unfolding remove_link
  assign_link peer link peers = replaced (D.find peer peers) (D.put peer link peers)

module _ {D : Links} where
  abbrev pub udp_socket : ℕ → SocketAddress → UdpSocket D
  udp_socket fd address = record { fd = fd; watching = true; peers = D.empty; address = address }

  -- `create`: the descriptor, then its name.
  abbrev bound : SocketAddress → ℕ → Answer (Unit {0}) → List ℕ → Outcome (UdpSocket D) × List ℕ
  bound address fd (granted u) fds = (ok (udp_socket fd address), fd ∷ fds)
  bound address fd (failed errno) fds =
      (throw (socket_exception errno "Could not bind: "), close_fd fd (fd ∷ fds))

  abbrev created :
      SocketAddress → Answer ℕ → Answer (Unit {0}) → List ℕ → Outcome (UdpSocket D) × List ℕ
  created address (granted fd) named fds = bound address fd named fds
  created address (failed errno) named fds =
      (throw (socket_exception errno "Could not open socket: "), fds)

  unfoldable pub create :
      SocketAddress → Answer ℕ → Answer (Unit {0}) → List ℕ → Outcome (UdpSocket D) × List ℕ
  create address opened named fds = created address opened named fds

  -- The destructor: the links are destroyed after `peers` has been moved from. The descriptor stays.
  unfoldable pub destroy : UdpSocket D → UdpSocket D
  destroy s = record s { watching = false; peers = D.empty }

  abbrev pub placed :
      SocketAddress → UdpSocket D → List ℕ → Outcome D.Map → UdpSocket D × List ℕ × Outcome UdpLink
  placed peer s fds (ok peers') = (record s { peers = peers' }, fds, found (D.find peer peers'))
  placed peer s fds (throw e) = (s, fds, throw e)
  placed peer s fds fault = (s, fds, fault)
  placed peer s fds unfinished = (s, fds, unfinished)

  abbrev pub connected :
      SocketAddress
      → ℕ
      → Answer (Unit {0})
      → UdpSocket D
      → List ℕ
      → UdpSocket D × List ℕ × Outcome UdpLink
  connected peer fd (failed errno) s fds =
      (s, fd ∷ fds, throw (socket_exception errno "Could not connect: "))
  connected peer fd (granted u) s fds =
      placed peer s (close_fd fd (fd ∷ fds)) (assign_link D peer (udp_link fd peer) s.peers)

  abbrev opened_for :
      SocketAddress
      → Answer ℕ
      → Answer (Unit {0})
      → UdpSocket D
      → List ℕ
      → UdpSocket D × List ℕ × Outcome UdpLink
  opened_for peer (failed errno) reached s fds =
      (s, fds, throw (socket_exception errno "Could not open socket: "))
  opened_for peer (granted fd) reached s fds = connected peer fd reached s fds

  unfoldable pub connect :
      SocketAddress
      → Answer ℕ
      → Answer (Unit {0})
      → UdpSocket D
      → List ℕ
      → UdpSocket D × List ℕ × Outcome UdpLink
  connect peer opened reached s fds =
      if not (sin_family peer == sin_family s.address)
      then (s, fds, throw (invalid_argument "peer"))
      else opened_for peer opened reached s fds

-- What `recvfrom` says: an error, or the sender's name and the datagram, of which what does not fit
-- into the buffer is lost.
pub data Received : Type 0 where
  datagram : List ℕ → List ℕ → Received
  no_datagram : ℕ → Received

abbrev pub buffer_size : ℕ
buffer_size = 65536

abbrev pub in_buffer : List ℕ → Packet
in_buffer payload = packet (take buffer_size payload) 0 (length (take buffer_size payload))

module _ {D : Links} where
  abbrev to_link : SocketAddress → Packet → Option UdpLink → UdpSocket D → UdpSocket D
  to_link sender p none s = s
  to_link sender p (some link) s = record s { peers = D.put sender (propagate p link) s.peers }

  abbrev from : Outcome SocketAddress → Packet → UdpSocket D → UdpSocket D × Outcome (Unit {0})
  from (ok sender) p s = (to_link sender p (D.find sender s.peers) s, ok tt)
  from (throw e) p s = (s, throw e)
  from fault p s = (s, fault)
  from unfinished p s = (s, unfinished)

  unfoldable pub on_packet_arrived : Received → UdpSocket D → UdpSocket D × Outcome (Unit {0})
  on_packet_arrived (no_datagram errno) s = (s, ok tt)
  on_packet_arrived (datagram name payload) s = from (of_sockaddr name) (in_buffer payload) s
