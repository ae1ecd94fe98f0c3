-- ===== src/Crypto/Lifecycle.antt =====
-- Sessions before and after the handlers of net/CryptoSession.cpp.
use wetnork.Base.{
  ℕ, zero, suc, ◌≡◌, refl, ◌∙◌, sym, ap, inl, inr, List, Option, none, some, Bool, true, false,
  if◌then◌else◌, arith,
}
use wetnork.Exceptions.{Code, natural, negative, Outcome, ok, throw, fault, unfinished}
use wetnork.Memory.{load}
use wetnork.Crypto.Library.{Library, is_again, is_rehandshake, is_got_application_data, is_success}
use wetnork.Crypto.Session.{
  State, opened, renegotiating, closed, aborted, Session, M, after, ◌>>◌, set_state, fail,
  propagate, buffer_size, gnutls_handshake, gnutls_record_recv, gnutls_bye,
}
use wetnork.Crypto.Session.Same.{
  IsSame, gnutls_handshake-IsSame, gnutls_record_recv-IsSame, gnutls_bye-IsSame,
}
use wetnork.Crypto.Handlers.{
  handshake_switch, recv_switch, close_once, propagate_loaded, handle_handshake, handle_data,
}
use wetnork.Crypto.States.{
  can_follow, can_follow_refl, can_follow_trans, is_active, announced, IsLive, Ended,
}

to_open : (st : State) → is_active st ≡ true → can_follow st opened ≡ true
to_open st h = ground arith

pub to_renegotiating : (st : State) → is_active st ≡ true → can_follow st renegotiating ≡ true
to_renegotiating st h = ground arith

to_closed : (st : State) → is_active st ≡ true → can_follow st closed ≡ true
to_closed st h = ground arith

to_aborted : (st : State) → is_active st ≡ true → can_follow st aborted ≡ true
to_aborted st h = ground arith

module _ {L : Library} where
  IsLive-IsSame : {s t : Session L} → IsSame s t → IsLive s → IsLive t
  IsLive-IsSame p v = record {
    chained = rw p.same_log v.chained;
    known = p.same_state ∙ v.known ∙ ap announced (sym p.same_log);
    active = ap is_active p.same_state ∙ v.active;
  }

  live-Ended : (s : Session L) → IsLive s → Ended s s
  live-Ended s v = record {
    inv = record { chained = v.chained; known = inl v.known };
    follows = can_follow_refl s.state;
  }

  pub Ended-trans : {s t u : Session L} → Ended s t → Ended t u → Ended s u
  Ended-trans {s} {t} {u} p q = record {
    inv = q.inv;
    follows = can_follow_trans s.state t.state u.state p.follows q.follows;
  }

  pub Ended-IsSame : {s t u : Session L} → IsSame s t → Ended t u → Ended s u
  Ended-IsSame {s} {t} {u} p e = record {
    inv = e.inv;
    follows = ap (λ x. can_follow x u.state) (sym p.same_state) ∙ e.follows;
  }

  -- A call into the library, and then a continuation that ends well from a live session.
  pub call_then :
      {A B : Type 0} (s : Session L) (f : A → M L B) (r : Session L × Outcome A)
      → IsSame s r.0
      → IsLive s
      → ((a : A) (t : Session L) → IsLive t → Ended t (f a t).0)
      → Ended s (after f r).0
  call_then s f (t, ok a) p v k = Ended-IsSame p (k a t (IsLive-IsSame p v))
  call_then s f (t, throw e) p v k = Ended-IsSame p (live-Ended t (IsLive-IsSame p v))
  call_then s f (t, fault) p v k = Ended-IsSame p (live-Ended t (IsLive-IsSame p v))
  call_then s f (t, unfinished) p v k = Ended-IsSame p (live-Ended t (IsLive-IsSame p v))

  -- An announced change from a live session.
  pub set_state-IsLive :
      (st : State) (s : Session L) → IsLive s → is_active st ≡ true → IsLive (set_state st s).0
  unfolding set_state
  set_state-IsLive st s v h = record { chained = (v.known, v.chained); known = refl; active = h }

  pub set_state-Ended :
      (st : State) (s : Session L)
      → IsLive s
      → can_follow s.state st ≡ true
      → Ended s (set_state st s).0
  unfolding set_state
  set_state-Ended st s v h = record {
    inv = record { chained = (v.known, v.chained); known = inl refl };
    follows = h;
  }

  fail-Ended : (code : Code) (s : Session L) → IsLive s → Ended s (fail code s).0
  unfolding fail
  fail-Ended code s v = record {
    inv = record { chained = v.chained; known = inr refl };
    follows = to_aborted s.state v.active;
  }

  -- Whichever way a test goes.
  either :
      {A : Type 0} (b : Bool) (f g : M L A) (s : Session L)
      → Ended s (f s).0
      → Ended s (g s).0
      → Ended s ((if b then f else g) s).0
  either true f g s p q = p
  either false f g s p q = q

  abbrev pub Handles : M L (Unit {0}) → Type 0
  Handles m = (s : Session L) → IsLive s → Ended s (m s).0

  handshake_switch-Ended :
      (on_data : M L (Unit {0}))
      → Handles on_data
      → (ret : Code) → Handles (handshake_switch on_data ret)
  handshake_switch-Ended on_data h ret s v =
      either (is_got_application_data ret) on_data _ s (h s v) (
        either (is_again ret) _ _ s (live-Ended s v) (
          either (is_success ret) (set_state opened) (fail ret) s
            (set_state-Ended opened s v (to_open s.state v.active)) (fail-Ended ret s v)))

  closes : Handles (set_state closed)
  closes s v = set_state-Ended closed s v (to_closed s.state v.active)

  pub bye_then_closes : Handles (gnutls_bye >> set_state closed)
  bye_then_closes s v =
      call_then s (λ _. set_state closed) (gnutls_bye s) (gnutls_bye-IsSame s) v
        (λ _ t w. closes t w)

  close_once-Ended : (st : State) → Handles (close_once st)
  close_once-Ended closed s v = closes s v
  close_once-Ended _ s v = bye_then_closes s v

  propagate_loaded-Ended : (o : Option (List ℕ)) (n : ℕ) → Handles (propagate_loaded o n)
  unfolding propagate
  propagate_loaded-Ended none n s v = live-Ended s v
  propagate_loaded-Ended (some bs) n s v = record {
    inv = record { chained = v.chained; known = inl v.known };
    follows = can_follow_refl s.state;
  }

  renegotiates : (m : M L (Unit {0})) → Handles m → Handles (set_state renegotiating >> m)
  unfolding set_state
  renegotiates m h s v =
      let w = set_state-IsLive renegotiating s v refl in
      Ended-trans (set_state-Ended renegotiating s v (to_renegotiating s.state v.active)) (h _ w)

  recv_switch-Ended :
      (m : M L (Unit {0}))
      → Handles m
      → (code : Code) (buffer : List ℕ) → Handles (recv_switch m code buffer)
  recv_switch-Ended m h (negative n) buffer s v =
      either (is_rehandshake (negative n)) (set_state renegotiating >> m) (fail (negative n)) s
        (renegotiates m h s v) (fail-Ended (negative n) s v)
  recv_switch-Ended m h (natural zero) buffer s v = close_once-Ended s.state s v
  recv_switch-Ended m h (natural (suc n)) buffer s v =
      propagate_loaded-Ended (load (suc n) buffer) (suc n) s v

mutual
  unfolding handle_handshake handle_data

  pub handle_handshake-Ended : {L : Library} (fuel : ℕ) → Handles {L = L} (handle_handshake fuel)
  handle_handshake-Ended zero s v = live-Ended s v
  handle_handshake-Ended (suc fuel) s v =
      call_then s (handshake_switch (handle_data fuel)) (gnutls_handshake s)
        (gnutls_handshake-IsSame s) v
        (handshake_switch-Ended (handle_data fuel) (handle_data-Ended fuel))

  pub handle_data-Ended : {L : Library} (fuel : ℕ) → Handles {L = L} (handle_data fuel)
  handle_data-Ended zero s v = live-Ended s v
  handle_data-Ended (suc fuel) s v =
      call_then s (λ (r : Code × List ℕ). recv_switch (handle_handshake fuel) r.0 r.1)
        (gnutls_record_recv buffer_size s) (gnutls_record_recv-IsSame buffer_size s) v
        (λ r. recv_switch-Ended (handle_handshake fuel) (handle_handshake-Ended fuel) r.0 r.1)
