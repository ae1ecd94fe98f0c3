-- ===== src/Crypto/Histories.antt =====
-- What holds of a session of net/CryptoSession.cpp after any calls and datagrams.
use wetnork.Base.{ℕ, ◌≡◌, refl, inl, List, [], ◌∷◌, Bool, true, false, arith}
use wetnork.Exceptions.{Outcome, throw, invalid_operation}
use wetnork.Crypto.Library.{Library}
use wetnork.Crypto.Session.{State, closed, aborted, Session}
use wetnork.Crypto.Handlers.{
  is_invalid, is_handshaking, is_open, is_over, open_session, renegotiate, close, read_packet,
  write,
}
use wetnork.Crypto.States.{can_follow_refl, Inv, Ended}
use wetnork.Crypto.Calls.{
  Call, opens, renegotiates, closes, reads, writes, fresh, perform, run, perform-Ended,
}
use wetnork.Crypto.Lifecycle.{Ended-trans}

module _ {L : Library} where
  -- Whatever GnuTLS and the stream below do, and however much fuel there is: any calls and datagrams
  -- lead a session only to a state that may follow the one before. They also keep the invariant, if
  -- it held before: each announced change names the state announced before it as the old one, and
  -- the session's state is the one announced last, unless it is `Aborted`.
  pub run-Ended : (fuel : ℕ) (cs : List Call) (s : Session L) → Inv s → Ended s (run fuel cs s)
  unfolding run
  run-Ended fuel [] s v = record { inv = v; follows = can_follow_refl s.state }
  run-Ended fuel (c ∷ cs) s v =
      let first = perform-Ended fuel c s v in
      Ended-trans first (run-Ended fuel cs (perform fuel c s).0 first.inv)

  -- The same of a new session: it has come from `Invalid`.
  pub run-fresh-Ended :
      (fuel : ℕ) (cs : List Call) (tls : L.Tls) (next : L.Lower)
      → Ended {L = L} (fresh tls next) (run fuel cs (fresh tls next))
  run-fresh-Ended fuel cs tls next =
      run-Ended fuel cs (fresh tls next) (record { chained = tt; known = inl refl })

abbrev pub is_final : State → Bool
is_final closed = true
is_final aborted = true
is_final _ = false

-- What a call refused.
pub record Refused {L : Library} (s : Session L) (r : Session L × Outcome (Unit {0})) : Type 0 where
  pub thrown : r.1 ≡ throw (invalid_operation "Session not ready")
  pub same_state : r.0.state ≡ s.state
  pub same_log : r.0.log ≡ s.log
  pub same_tls : r.0.tls ≡ s.tls
  pub same_next : r.0.next ≡ s.next

final_tests :
    (st : State)
    → is_final st ≡ true
    → (is_invalid st ≡ false)
      × (is_handshaking st ≡ false)
      × (is_open st ≡ false)
      × (is_over st ≡ true)
final_tests st h = ground arith

refuses :
    {L : Library} (s : Session L) → Refused s (s, throw (invalid_operation "Session not ready"))
refuses s = record {
  thrown = refl;
  same_state = refl;
  same_log = refl;
  same_tls = refl;
  same_next = refl;
}

-- A session that is closed or aborted refuses every call and every datagram with the exception
-- `InvalidOperation`, says nothing to its slots, and calls neither GnuTLS nor the stream below.
pub final-Refused :
    {L : Library} (fuel : ℕ) (c : Call) (s : Session L)
    → is_final s.state ≡ true
    → Refused s (perform fuel c s)
unfolding perform open_session renegotiate close read_packet write
final-Refused fuel opens s h = rw ((final_tests s.state h).0) (refuses s)
final-Refused fuel renegotiates s h = rw ((final_tests s.state h).2) (refuses s)
final-Refused fuel closes s h = rw ((final_tests s.state h).3) (refuses s)
final-Refused fuel (reads p) s h =
    let (_, shaking, running, _) = final_tests s.state h in
    rw (shaking, running)
      (record {
        thrown = refl;
        same_state = refl;
        same_log = refl;
        same_tls = refl;
        same_next = refl;
      })
final-Refused fuel (writes p) s h = rw ((final_tests s.state h).2) (refuses s)
