-- ===== src/Crypto/Opening.antt =====
-- How a handshake of net/CryptoSession.cpp comes to its end, one datagram after another.
use wetnork.Base.{
  ℕ, suc, ◌≡◌, refl, ap, ap₂, ◌∙◌, sym, subst, List, [], ◌∷◌, map, some, true, if◌then◌else◌,
}
use wetnork.Exceptions.{Code, natural, negative, Outcome, ok}
use wetnork.Packet.{Packet}
use wetnork.Crypto.Library.{Library}
use wetnork.Crypto.Session.{
  State, invalid, opening, opened, Event, state_changed, Session, set_state, ◌>>◌, gnutls_handshake,
}
use wetnork.Crypto.Session.Same.{IsSame, gnutls_handshake-IsSame}
use wetnork.Crypto.Handlers.{
  is_handshaking, is_invalid, is_open, not_ready, handle_handshake, handle_data, handle_packet,
  read_packet, open_session,
}
use wetnork.Crypto.Calls.{opens, reads, perform, run}

module _ {L : Library} where
  -- GnuTLS asks for more with each of the datagrams still to come, and is done with the last.
  abbrev pub Shakes : List Packet → Session L → Type 0
  Shakes [] s = (t : Session L) × (gnutls_handshake s ≡ (t, ok (natural 0)))
  Shakes (p ∷ ps) s =
      (t : Session L) × (gnutls_handshake s ≡ (t, ok (negative 27)))
      × Shakes ps (record t { current_packet = some p })

  -- The session is open, and it has announced that, and nothing else, since.
  pub record Opens (old : State) (es : List Event) (t : Session L) : Type 0 where
    pub is_opened : t.state ≡ opened
    pub has_announced : t.log ≡ state_changed old opened ∷ es

  after_handshake : (s t : Session L) (o : Outcome Code) → gnutls_handshake s ≡ (t, o) → IsSame s t
  after_handshake s t o e = subst (λ r. IsSame s r.0) e (gnutls_handshake-IsSame s)

  shaken :
      (fuel : ℕ) (s t : Session L)
      → gnutls_handshake s ≡ (t, ok (natural 0))
      → Opens s.state s.log (handle_handshake (suc fuel) s).0
  unfolding handle_handshake set_state
  shaken fuel s t e =
      let same = after_handshake s t (ok (natural 0)) e in
      rw e (record {
        is_opened = refl;
        has_announced = ap₂ (λ old es. state_changed old opened ∷ es) same.same_state same.same_log;
      })

  asks_more :
      (fuel : ℕ) (s t : Session L)
      → gnutls_handshake s ≡ (t, ok (negative 27))
      → handle_handshake (suc fuel) s ≡ (t, ok tt)
  unfolding handle_handshake
  asks_more fuel s t e = rw e refl

  read_handshaking :
      (fuel : ℕ) (p : Packet) (t : Session L)
      → is_handshaking t.state ≡ true
      → perform fuel (reads p) t ≡ handle_handshake fuel (record t { current_packet = some p })
  unfolding perform read_packet handle_packet
  read_handshaking fuel p t h =
      ap
        (λ b.
          (if b
              then handle_handshake fuel
              else if is_open t.state
              then handle_data fuel
              else not_ready)
            (record t { current_packet = some p }))
        h

  -- A handshake that is going on comes to its end with the last datagram that GnuTLS needs.
  pub run-Shakes :
      (fuel : ℕ) (ps : List Packet) (s : Session L)
      → is_handshaking s.state ≡ true
      → Shakes ps s
      → Opens s.state s.log (run (suc fuel) (map reads ps) (handle_handshake (suc fuel) s).0)
  unfolding run
  run-Shakes fuel [] s h (t, e) = shaken fuel s t e
  run-Shakes fuel (p ∷ ps) s h (t, e, more) =
      let same = after_handshake s t (ok (negative 27)) e in
      let going : is_handshaking t.state ≡ true = ap is_handshaking same.same_state ∙ h in
      let ends = run-Shakes fuel ps (record t { current_packet = some p }) going more in
      let from : Opens s.state s.log (
          run (suc fuel) (map reads ps)
            (handle_handshake (suc fuel) (record t { current_packet = some p })).0) =
        record {
          is_opened = ends.is_opened;
          has_announced =
              ends.has_announced
              ∙ ap₂ (λ old es. state_changed old opened ∷ es) same.same_state same.same_log;
        } in
      subst (λ r. Opens s.state s.log (run (suc fuel) (map reads (p ∷ ps)) r.0))
        (sym (asks_more fuel s t e))
        (subst (λ r. Opens s.state s.log (run (suc fuel) (map reads ps) r.0))
          (sym (read_handshaking (suc fuel) p t going)) from)

  -- `open` of a session that was not opened before, and then datagrams of which GnuTLS needs each to
  -- finish the handshake: then the session is open, and has announced that it shook hands and that it
  -- is open, and nothing else.
  pub opens-run :
      (fuel : ℕ) (ps : List Packet) (s : Session L)
      → s.state ≡ invalid
      → Shakes ps (set_state opening s).0
      → Opens opening
          (state_changed invalid opening ∷ s.log)
          (run (suc fuel) (opens ∷ map reads ps) s)
  unfolding run perform open_session set_state
  opens-run fuel ps s i shakes =
      let started : (if is_invalid s.state
              then (set_state opening >> handle_handshake (suc fuel))
              else not_ready)
            s
          ≡ handle_handshake (suc fuel) (set_state opening s).0 =
        ap
          (λ st.
            (if is_invalid st
                then (set_state opening >> handle_handshake (suc fuel))
                else not_ready)
              s)
          i in
      subst
        (λ r.
          Opens opening (state_changed invalid opening ∷ s.log) (run (suc fuel) (map reads ps) r.0))
        (sym started)
        (subst
          (λ old.
            Opens opening (state_changed old opening ∷ s.log) (
              run (suc fuel) (map reads ps)
                (handle_handshake (suc fuel) (set_state opening s).0).0))
          i (run-Shakes fuel ps (set_state opening s).0 refl shakes))
