-- ===== src/Udp/Connections.antt =====
-- What `create` and `connect` of net/UdpSocket.cpp do to the map of peers and to the descriptors.
use wetnork.Base.{ℕ, ◌≡◌, refl, ap, ◌∙◌, List, [], ◌∷◌, ◌++◌, ==_refl}
use wetnork.Exceptions.{Outcome, ok, fault}
use wetnork.Address.Socket.{SocketAddress, sin_family}
use wetnork.Host.Kernel.{Answer, granted, failed, close_last}
use wetnork.Link.{UdpLink, udp_link}
use wetnork.Udp.{Links, UdpSocket, create, remove_link, assign_link, connect}

-- The descriptors that an operation keeps open.
abbrev pub kept_by : {D : Links} → Outcome (UdpSocket D) → List ℕ
kept_by (ok s) = s.fd ∷ []
kept_by _ = []

-- Whatever the kernel answers, `create` leaves open what was open before, and besides that exactly
-- the descriptor of the socket that it returns, if it returns one.
pub create_keeps :
    (D : Links) (address : SocketAddress) (opened : Answer ℕ) (named : Answer (Unit {0}))
    (fds : List ℕ)
    → let r = create {D = D} address opened named fds in r.1 ≡ kept_by r.0 ++ fds
unfolding create
create_keeps D address (granted fd) (granted u) fds = refl
create_keeps D address (granted fd) (failed errno) fds = close_last fd fds
create_keeps D address (failed errno) named fds = refl

-- The descriptor of a link that could not be connected.
abbrev pub leaked : Answer ℕ → Answer (Unit {0}) → List ℕ
leaked (granted fd) (failed errno) = fd ∷ []
leaked _ _ = []

assign_first :
    (D : Links) (fd : ℕ) (peer : SocketAddress) (m : D.Map)
    → m ≡ D.empty
    → assign_link D peer (udp_link fd peer) m ≡ ok (D.put peer (udp_link fd peer) D.empty)
unfolding assign_link
assign_first D fd peer m e = rw (e, D.find-empty peer) refl

assign_again :
    (D : Links) (fd fd' : ℕ) (peer : SocketAddress)
    → assign_link D peer (udp_link fd' peer) (D.put peer (udp_link fd peer) D.empty) ≡ fault
unfolding assign_link remove_link
assign_again D fd fd' peer =
    rw
      (
        D.find-put_empty peer (udp_link fd peer),
        D.put-put_empty peer (udp_link fd peer) (udp_link fd' peer),
        D.is_empty-put_empty peer (udp_link fd' peer),
        D.find-put_empty peer (udp_link fd' peer),
      )
      refl

module _ {D : Links} where
  pub first_connect :
      (fd : ℕ) (peer : SocketAddress) (s : UdpSocket D) (fds : List ℕ)
      → sin_family peer ≡ sin_family s.address
      → s.peers ≡ D.empty
      → connect peer (granted fd) (granted tt) s fds
        ≡ (record s { peers = D.put peer (udp_link fd peer) D.empty }, fds, ok (udp_link fd peer))
  unfolding connect
  first_connect fd peer s fds h e =
      rw
        (
          h,
          ==_refl (sin_family s.address),
          close_last fd fds,
          assign_first D fd peer s.peers e,
          D.find-put_empty peer (udp_link fd peer),
        )
        refl

  again_faults :
      (fd fd' : ℕ) (peer : SocketAddress) (s : UdpSocket D) (fds : List ℕ)
      → sin_family peer ≡ sin_family s.address
      → s.peers ≡ D.put peer (udp_link fd peer) D.empty
      → connect peer (granted fd') (granted tt) s fds ≡ (s, fds, fault)
  unfolding connect
  again_faults fd fd' peer s fds h e =
      let over : assign_link D peer (udp_link fd' peer) s.peers ≡ fault =
        ap (assign_link D peer (udp_link fd' peer)) e ∙ assign_again D fd fd' peer in
      rw (h, ==_refl (sin_family s.address), close_last fd' fds, over) refl

  -- On a socket without links, a `connect` to a peer of the socket's family, which the kernel grants,
  -- makes a link for it, the only one. The same `connect` once more is undefined: the destructor of the
  -- link that is replaced erases the entry with the new link, whose destructor erases it again meanwhile.
  pub connect_twice :
      (fd fd' : ℕ) (peer : SocketAddress) (s : UdpSocket D) (fds : List ℕ)
      → sin_family peer ≡ sin_family s.address
      → s.peers ≡ D.empty
      → let first = connect peer (granted fd) (granted tt) s fds in
        (first.2 ≡ ok (udp_link fd peer))
        × (first.0.peers ≡ D.put peer (udp_link fd peer) D.empty)
        × ((connect peer (granted fd') (granted tt) first.0 first.1).2 ≡ fault)
  connect_twice fd fd' peer s fds h e = rw (first_connect fd peer s fds h e) (
    refl,
    refl,
    ap (λ (r : UdpSocket D × List ℕ × Outcome UdpLink). r.2)
        (again_faults fd fd' peer (record s { peers = D.put peer (udp_link fd peer) D.empty }) fds h
          refl),
  )
