-- ===== src/Link/Sending.antt =====
-- What a link of net/UdpLink.cpp sends, and what it passes on.
use wetnork.Base.{
  ℕ, zero, suc, ◌≡◌, refl, ap, ◌∙◌, List, [], ◌∷◌, ◌++◌, Bool, true, false, replicate,
  if◌then◌else◌, arith,
}
use wetnork.Exceptions.{Outcome, ok, throw, socket_exception}
use wetnork.Packet.{Packet}
use wetnork.Address.Socket.{SocketAddress}
use wetnork.Link.{
  opened, closed, UdpLink, udp_link, set_state, close, propagate, propagate_in, Answer, sent,
  failed, is_again, is_interrupted, is_unreachable, write,
}

-- What one answer that does not interrupt the call comes to.
abbrev pub result_of : Answer → Outcome Bool
result_of (sent n) = ok true
result_of (failed errno) =
    if is_again errno
    then ok false
    else if is_unreachable errno
    then ok false
    else throw (socket_exception errno "")

abbrev pub interrupts : Answer → Bool
interrupts (sent n) = false
interrupts (failed errno) = is_interrupted errno

-- However often the call is interrupted, the write tries again, and returns by the first answer
-- that is no interruption: true if the datagram was sent, false if it has to wait or the peer
-- cannot be reached, and an exception with the error's number for any other error.
pub write_retries :
    (n : ℕ) (a : Answer) (later : List Answer)
    → interrupts a ≡ false
    → write (replicate n (failed 4) ++ a ∷ later) ≡ result_of a
unfolding write
write_retries zero (sent k) later h = refl
write_retries zero (failed errno) later h = ground (arith, h)
write_retries (suc n) a later h = write_retries n a later h

pub data Event : Type 0 where
  arrives : Packet → Event
  closes : Event

unfoldable pub run : List Event → UdpLink → UdpLink
run [] l = l
run (arrives p ∷ es) l = run es (propagate p l)
run (closes ∷ es) l = run es (close l)

-- The packets that arrive before the first close, newest first, on top of those before.
abbrev pub before_close : List Packet → List Event → List Packet
before_close ps [] = ps
before_close ps (arrives p ∷ es) = before_close (p ∷ ps) es
before_close ps (closes ∷ es) = ps

pub open_propagate :
    (p : Packet) (l : UdpLink)
    → l.state ≡ opened
    → propagate p l ≡ record l { passed_on = p ∷ l.passed_on }
unfolding propagate
open_propagate p l h = ap (λ st. propagate_in st p l) h

closed_passes :
    (es : List Event) (l : UdpLink) → l.state ≡ closed → (run es l).passed_on ≡ l.passed_on
unfolding run propagate close set_state
closed_passes [] l h = refl
closed_passes (arrives p ∷ es) l h =
    ap (λ k. (run es k).passed_on) (ap (λ st. propagate_in st p l) h) ∙ closed_passes es l h
closed_passes (closes ∷ es) l h = closed_passes es (close l) refl

open_passes :
    (es : List Event) (l : UdpLink)
    → l.state ≡ opened
    → (run es l).passed_on ≡ before_close l.passed_on es
unfolding run propagate close set_state
open_passes [] l h = refl
open_passes (arrives p ∷ es) l h =
    ap (λ k. (run es k).passed_on) (open_propagate p l h)
    ∙ open_passes es (record l { passed_on = p ∷ l.passed_on }) h
open_passes (closes ∷ es) l h = closed_passes es (close l) refl

-- A new link passes on exactly the packets that arrive before it is first closed, in order, and
-- none after that.
pub run-before_close :
    (fd : ℕ) (peer : SocketAddress) (es : List Event)
    → (run es (udp_link fd peer)).passed_on ≡ before_close [] es
run-before_close fd peer es = open_passes es (udp_link fd peer) refl
