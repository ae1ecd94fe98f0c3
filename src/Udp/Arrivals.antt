-- ===== src/Udp/Arrivals.antt =====
-- What arrives at a socket of net/UdpSocket.cpp with one link, from the peer of that.
use wetnork.Base.{◌≡◌, List, [], ◌∷◌}
use wetnork.Exceptions.{ok}
use wetnork.Packet.{Packet}
use wetnork.Address.Socket.{SocketAddress, of_sockaddr}
use wetnork.Udp.{Links, UdpSocket, Received, datagram, no_datagram, in_buffer, on_packet_arrived}

unfoldable pub run : {D : Links} → List Received → UdpSocket D → UdpSocket D
run [] s = s
run (r ∷ rs) s = run rs (on_packet_arrived r s).0

-- A datagram of the peer, or none at all.
abbrev pub IsFrom : SocketAddress → Received → Type 0
IsFrom peer (datagram name payload) = of_sockaddr name ≡ ok peer
IsFrom peer (no_datagram errno) = Unit

-- The datagrams, cut to the buffer, on top of what came before, newest first.
abbrev pub on_top : List Received → List Packet → List Packet
on_top [] ps = ps
on_top (datagram name payload ∷ rs) ps = on_top rs (in_buffer payload ∷ ps)
on_top (no_datagram errno ∷ rs) ps = on_top rs ps
