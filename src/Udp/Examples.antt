-- ===== src/Udp/Examples.antt =====
-- A socket of net/UdpSocket.cpp with peers in an association list.
use wetnork.Base.{true, some, if◌then◌else◌, ◌==◌, arith, ◌≡◌, refl, List, [], ◌∷◌}
use wetnork.Exceptions.{ok, throw, fault, socket_exception}
use wetnork.Packet.{packet}
use wetnork.Host.Kernel.{granted, failed, count}
use wetnork.Link.{UdpLink, udp_link, write}
use wetnork.Udp.{UdpSocket, udp_socket, Received, datagram, no_datagram, connect}
use wetnork.Udp.Samples.{links, at_port, name_of}
use wetnork.Udp.Arrivals.{run}
use wetnork.Udp.Connections.{connect_twice}
use wetnork.Udp.Sending.{Sendto, RefusesClosed, connect-write}
use wetnork.Link
use wetnork.Link.Sending.{Event, arrives, closes, run-before_close}
use wetnork.Address.{ipv4}
use wetnork.Address.Socket.{less, family}
use wetnork.Address.Socket.Comparisons.{socket_less_both_ways}

abbrev new_socket : UdpSocket links
new_socket = udp_socket 5 (at_port 99)

abbrev arrivals : List Received
arrivals = datagram (name_of 80) (1 ∷ 2 ∷ []) ∷ no_datagram 11 ∷ datagram (name_of 80) (3 ∷ []) ∷ []

connect_twice_example :
    let first = connect (at_port 81) (granted 6) (granted tt) new_socket (5 ∷ []) in
    (first.2 ≡ ok (udp_link 6 (at_port 81)))
    × (first.0.peers ≡ links.put (at_port 81) (udp_link 6 (at_port 81)) [])
    × ((connect (at_port 81) (granted 8) (granted tt) first.0 first.1).2 ≡ fault)
connect_twice_example = connect_twice 6 8 (at_port 81) new_socket (5 ∷ []) refl refl

-- The kernel of a process that can send on every open descriptor.
abbrev sendto : Sendto
sendto fd fds = if count fd fds == 0 then Link.failed 9 else Link.sent 4

refuses : RefusesClosed sendto
refuses fd fds h = ground (arith, h)

connect-write_example :
    (link : UdpLink) × ((connect (at_port 81) (granted 6) (granted tt) new_socket (5 ∷ [])).2
      ≡ ok link)
    × (write (
          sendto link.fd (connect (at_port 81) (granted 6) (granted tt) new_socket (5 ∷ [])).1 ∷ [])
        ≡ throw (socket_exception 9 ""))
connect-write_example =
    connect-write sendto 6 (at_port 81) new_socket (5 ∷ []) [] refuses refl refl refl

-- One packet before the link is closed and one after.
abbrev events : List Event
events = arrives (packet (1 ∷ []) 0 1) ∷ closes ∷ arrives (packet (2 ∷ []) 0 1) ∷ []

run-before_close_example :
    (Link.Sending.run events (udp_link 7 (at_port 80))).passed_on ≡ packet (1 ∷ []) 0 1 ∷ []
run-before_close_example = run-before_close 7 (at_port 80) events

socket_less_both_ways_example :
    (less (at_port 1) (at_port 2) ≡ some true) × (less (at_port 2) (at_port 1) ≡ some true)
unfolding family
socket_less_both_ways_example =
    socket_less_both_ways ipv4 (at_port 1) (at_port 2) refl refl refl refl (λ e. cc)
