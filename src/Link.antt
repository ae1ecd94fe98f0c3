-- ===== src/Link.antt =====
-- net/Link.cpp and net/UdpLink.cpp: a link to one peer. The kernel is no part of the sources: its
-- answers to `sendto`, one for each call, are an argument. `passed_on` are the packets that the
-- signal `read` was called with, `log` the announced changes of state, both newest first.
pub mod Sending
use wetnork.Base.{ℕ, List, [], ◌∷◌, Bool, true, false, ◌||◌, ◌==◌, if◌then◌else◌}
use wetnork.Exceptions.{Outcome, ok, throw, unfinished, socket_exception}
use wetnork.Packet.{Packet}
use wetnork.Address.Socket.{SocketAddress}

pub data State : Type 0 where
  invalid opening opened closed : State

pub record UdpLink : Type 0 where
  pub peer : SocketAddress
  pub fd : ℕ
  pub state : State
  pub log : List (State × State)
  pub passed_on : List Packet

abbrev pub udp_link : ℕ → SocketAddress → UdpLink
udp_link fd peer = record { peer = peer; fd = fd; state = opened; log = []; passed_on = [] }

unfoldable pub set_state : State → UdpLink → UdpLink
set_state st l = record l { state = st; log = (l.state, st) ∷ l.log }

unfoldable pub close : UdpLink → UdpLink
unfolding set_state
close l = set_state closed l

abbrev propagate_in : State → Packet → UdpLink → UdpLink
propagate_in closed p l = l
propagate_in _ p l = record l { passed_on = p ∷ l.passed_on }

unfoldable pub propagate : Packet → UdpLink → UdpLink
propagate p l = propagate_in l.state p l

pub data Answer : Type 0 where
  sent : ℕ → Answer
  failed : ℕ → Answer

-- The errors of errno.h on Linux that the source names.
abbrev pub is_again : ℕ → Bool
is_again errno = errno == 11

abbrev pub is_interrupted : ℕ → Bool
is_interrupted errno = errno == 4

abbrev pub is_unreachable : ℕ → Bool
is_unreachable errno = errno == 113 || errno == 101 || errno == 100

-- The branches on an error; `restarted` is what the `goto` comes to.
abbrev pub on_error : ℕ → Outcome Bool → Outcome Bool
on_error errno restarted =
    if is_again errno
    then ok false
    else if is_interrupted errno
    then restarted
    else if is_unreachable errno
    then ok false
    else throw (socket_exception errno "")

unfoldable pub write : List Answer → Outcome Bool
write [] = unfinished
write (sent n ∷ answers) = ok true
write (failed errno ∷ answers) = let rest = write answers in on_error errno rest
