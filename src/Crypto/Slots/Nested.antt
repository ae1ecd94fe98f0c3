-- ===== src/Crypto/Slots/Nested.antt =====
-- Sessions of net/CryptoSession.cpp whose slots make calls of the session, in which the slots are called
-- again.
use wetnork.Base.{ℕ, zero, suc, List, [], ◌∷◌}
use wetnork.Exceptions.{ok, unfinished}
use wetnork.Packet.{Packet}
use wetnork.Crypto.Library.{Library}
use wetnork.Crypto.Session.{State, Session, M, after}
use wetnork.Crypto.Handlers.{write}
use wetnork.Crypto.Calls.{Call, opens, renegotiates, closes, reads, writes, without_result}
use wetnork.Crypto.Slots.{Slots, open_session_with, renegotiate_with, close_with, read_packet_with}

module _ {L : Library} where
  unfoldable pub perform_with : Slots L → ℕ → Call → M L (Unit {0})
  perform_with slots fuel opens = open_session_with slots fuel
  perform_with slots fuel renegotiates = renegotiate_with slots
  perform_with slots fuel closes = close_with slots
  perform_with slots fuel (reads p) = read_packet_with slots fuel p
  perform_with slots fuel (writes p) = without_result (write p)

  -- The calls that a slot makes, up to the first that throws.
  unfoldable pub make_calls : Slots L → ℕ → List Call → M L (Unit {0})
  make_calls slots fuel [] s = (s, ok tt)
  make_calls slots fuel (c ∷ cs) s =
      after (λ _. make_calls slots fuel cs) (perform_with slots fuel c s)

  -- Each call is made whatever became of the one before.
  unfoldable pub run_with : Slots L → ℕ → List Call → Session L → Session L
  run_with slots fuel [] s = s
  run_with slots fuel (c ∷ cs) s = run_with slots fuel cs (perform_with slots fuel c s).0

-- Which calls slots make: those of `stateChanged` by the old state, those of `read` by the packet, and
-- both by the session as they find it.
pub record Choices (L : Library) : Type 0 where
  pub on_change : State → Session L → List Call
  pub on_read : Packet → Session L → List Call

module _ {L : Library} (choices : Choices L) (fuel : ℕ) where
  -- The slots of both signals, which are called again in the calls that they make, to a depth.
  unfoldable pub nested : ℕ → Slots L
  nested zero = record {
    on_state_changed = λ old s. (s, unfinished);
    on_read = λ p s. (s, unfinished);
  }
  nested (suc depth) = record {
    on_state_changed = λ old s. make_calls (nested depth) fuel (choices.on_change old s) s;
    on_read = λ p s. make_calls (nested depth) fuel (choices.on_read p s) s;
  }
