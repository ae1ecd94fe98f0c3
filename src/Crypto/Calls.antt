-- ===== src/Crypto/Calls.antt =====
-- A session of net/CryptoSession.cpp under any sequence of calls and datagrams.
use wetnork.Base.{
  ℕ, ◌≡◌, refl, ◌⊎◌, inl, inr, List, [], ◌∷◌, Option, none, some, Bool, true, false, if◌then◌else◌,
  arith,
}
use wetnork.Exceptions.{Code, natural, negative, Outcome, ok, throw, invalid_argument}
use wetnork.Memory.{load}
use wetnork.Packet.{Packet, get_data}
use wetnork.Crypto.Library.{Library}
use wetnork.Crypto.Session.{
  State, invalid, opening, renegotiating, closed, aborted, Session, M, ◌>>=◌, ◌>>◌, set_state,
  gnutls_rehandshake, gnutls_record_send, gnutls_bye,
}
use wetnork.Crypto.Session.Same.{
  IsSame, IsSame-refl, IsSame-after, gnutls_rehandshake-IsSame, gnutls_record_send-IsSame,
}
use wetnork.Crypto.Handlers.{
  is_open, is_invalid, is_over, is_handshaking, handle_handshake, handle_data, handle_packet,
  open_session, renegotiate, close, read_packet, write, write_loaded, refuse_write, sent, not_ready,
}
use wetnork.Crypto.States.{can_follow, can_follow_refl, is_active, announced, Inv, IsLive, Ended}
use wetnork.Crypto.Lifecycle.{
  Ended-trans, Ended-IsSame, call_then, set_state-Ended, bye_then_closes, handle_handshake-Ended,
  handle_data-Ended, to_renegotiating,
}

abbrev pub fresh : {L : Library} → L.Tls → L.Lower → Session L
fresh tls next = record { state = invalid; tls = tls; next = next; current_packet = none; log = [] }

-- The constructor refuses a null session.
unfoldable pub crypto_session : {L : Library} → Option L.Tls → L.Lower → Outcome (Session L)
crypto_session none next = throw (invalid_argument "session")
crypto_session (some tls) next = ok (fresh tls next)

pub data Call : Type 0 where
  opens renegotiates closes : Call
  reads writes : Packet → Call

abbrev pub without_result : {L : Library} {A : Type 0} → M L A → M L (Unit {0})
without_result m = m >>= λ _ s. (s, ok tt)

unfoldable pub perform : {L : Library} → ℕ → Call → M L (Unit {0})
perform fuel opens = open_session fuel
perform fuel renegotiates = renegotiate
perform fuel closes = close
perform fuel (reads p) = read_packet fuel p
perform fuel (writes p) = without_result (write p)

-- Each call is made whatever became of the one before.
unfoldable pub run : {L : Library} → ℕ → List Call → Session L → Session L
run fuel [] s = s
run fuel (c ∷ cs) s = run fuel cs (perform fuel c s).0

module _ {L : Library} where
  -- The guard of a method.
  guarded :
      {A : Type 0} (b : Bool) (f g : M L A) (s : Session L)
      → (b ≡ true → Ended s (f s).0)
      → (b ≡ false → Ended s (g s).0)
      → Ended s ((if b then f else g) s).0
  guarded true f g s p q = p refl
  guarded false f g s p q = q refl

  unchanged : (s : Session L) → Inv s → Ended s s
  unchanged s v = record { inv = v; follows = can_follow_refl s.state }

  active_known :
      (s : Session L)
      → (s.state ≡ announced s.log) ⊎ (s.state ≡ aborted)
      → is_active s.state ≡ true
      → s.state ≡ announced s.log
  active_known s (inl e) h = e
  active_known s (inr e) h = ground arith

  invalid_known :
      (s : Session L)
      → (s.state ≡ announced s.log) ⊎ (s.state ≡ aborted)
      → is_invalid s.state ≡ true
      → s.state ≡ announced s.log
  invalid_known s (inl e) h = e
  invalid_known s (inr e) h = ground arith

  Inv-IsLive : (s : Session L) → Inv s → is_active s.state ≡ true → IsLive s
  Inv-IsLive s v h = record { chained = v.chained; known = active_known s v.known h; active = h }

open_active : (st : State) → is_open st ≡ true → is_active st ≡ true
open_active st h = ground arith

handshaking_active : (st : State) → is_handshaking st ≡ true → is_active st ≡ true
handshaking_active st h = ground arith

to_opening : (st : State) → is_invalid st ≡ true → can_follow st opening ≡ true
to_opening st h = ground arith

going_active : (st : State) → is_over st ≡ false → is_active st ≡ true
going_active st h = ground arith

module _ {L : Library} where
  handle_packet-Ended : (fuel : ℕ) (s : Session L) → Inv s → Ended s (handle_packet fuel s).0
  unfolding handle_packet
  handle_packet-Ended fuel s v =
      guarded (is_handshaking s.state) (handle_handshake fuel) _ s
        (λ h. handle_handshake-Ended fuel s (Inv-IsLive s v (handshaking_active s.state h)))
        (λ _.
          guarded (is_open s.state) (handle_data fuel) not_ready s
            (λ h. handle_data-Ended fuel s (Inv-IsLive s v (open_active s.state h)))
            (λ _. unchanged s v))

  starts : (s : Session L) → Inv s → is_invalid s.state ≡ true → Ended s (set_state opening s).0
  unfolding set_state
  starts s v h = record {
    inv = record { chained = (invalid_known s v.known h, v.chained); known = inl refl };
    follows = to_opening s.state h;
  }

  starts-IsLive :
      (s : Session L) → Inv s → is_invalid s.state ≡ true → IsLive (set_state opening s).0
  unfolding set_state
  starts-IsLive s v h = record {
    chained = (invalid_known s v.known h, v.chained);
    known = refl;
    active = refl;
  }

  open_session-Ended : (fuel : ℕ) (s : Session L) → Inv s → Ended s (open_session fuel s).0
  unfolding open_session set_state
  open_session-Ended fuel s v =
      guarded (is_invalid s.state) (set_state opening >> handle_handshake fuel) not_ready s
        (λ h. Ended-trans (starts s v h) (handle_handshake-Ended fuel _ (starts-IsLive s v h)))
        (λ _. unchanged s v)

  renegotiate-Ended : (s : Session L) → Inv s → Ended s (renegotiate s).0
  unfolding renegotiate
  renegotiate-Ended s v =
      guarded (is_open s.state) (gnutls_rehandshake >> set_state renegotiating) not_ready s
        (λ h.
          call_then s (λ _. set_state renegotiating) (gnutls_rehandshake s)
            (gnutls_rehandshake-IsSame s) (Inv-IsLive s v (open_active s.state h))
            (λ _ t w. set_state-Ended renegotiating t w (to_renegotiating t.state w.active)))
        (λ _. unchanged s v)

  close-Ended : (s : Session L) → Inv s → Ended s (close s).0
  unfolding close
  close-Ended s v =
      guarded (is_over s.state) not_ready (gnutls_bye >> set_state closed) s (λ _. unchanged s v)
        (λ h. bye_then_closes s (Inv-IsLive s v (going_active s.state h)))

  sent-same : (code : Code) (s : Session L) → (sent code s).0 ≡ s
  sent-same (natural n) s = refl
  sent-same (negative n) s = ground arith

  write_loaded-IsSame : (o : Option (List ℕ)) (s : Session L) → IsSame s (write_loaded o s).0
  write_loaded-IsSame none s = IsSame-refl s
  write_loaded-IsSame (some bs) s =
      IsSame-after s sent (gnutls_record_send bs s) (gnutls_record_send-IsSame bs s)
        (λ code t. rw (sent-same code t) (IsSame-refl t))

  IsSame-Ended : {s t : Session L} → Inv s → IsSame s t → Ended s t
  IsSame-Ended {s} {t} v p = Ended-IsSame p (
      unchanged t (record {
        chained = rw p.same_log v.chained;
        known = rw (p.same_state, p.same_log) v.known;
      }))

  either-IsSame :
      {A : Type 0} (b : Bool) (f g : M L A) (s : Session L)
      → IsSame s (f s).0
      → IsSame s (g s).0
      → IsSame s ((if b then f else g) s).0
  either-IsSame true f g s p q = p
  either-IsSame false f g s p q = q

  pub write-IsSame : (p : Packet) (s : Session L) → IsSame s (write p s).0
  unfolding write
  write-IsSame p s =
      either-IsSame (is_open s.state) (write_loaded (load p.length_ (get_data p))) refuse_write s
        (write_loaded-IsSame (load p.length_ (get_data p)) s) (IsSame-refl s)

  pub perform-Ended : (fuel : ℕ) (c : Call) (s : Session L) → Inv s → Ended s (perform fuel c s).0
  unfolding perform read_packet
  perform-Ended fuel opens s v = open_session-Ended fuel s v
  perform-Ended fuel renegotiates s v = renegotiate-Ended s v
  perform-Ended fuel closes s v = close-Ended s v
  perform-Ended fuel (reads p) s v =
      Ended-IsSame (record { same_state = refl; same_log = refl })
        (handle_packet-Ended fuel (record s { current_packet = some p })
          (record { chained = v.chained; known = v.known }))
  perform-Ended fuel (writes p) s v =
      IsSame-Ended v
        (IsSame-after s (λ _ t. (t, ok tt)) (write p s) (write-IsSame p s) (λ _ t. IsSame-refl t))
