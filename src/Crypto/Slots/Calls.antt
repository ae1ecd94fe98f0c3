-- ===== src/Crypto/Slots/Calls.antt =====
-- What slots come to that call a session of net/CryptoSession.cpp back.
use wetnork.Base.{
  ℕ, zero, suc, ◌≤◌, ltb, length, ◌⊎◌, inl, inr, Bool-cases, arith, ◌≡◌, refl, sym, subst, List, [],
  ◌∷◌, Option, none, some, Bool, true, false, if◌then◌else◌,
}
use wetnork.Exceptions.{Code, natural, negative, Outcome, ok, throw, fault, unfinished}
use wetnork.Memory.{load}
use wetnork.Packet.{Packet}
use wetnork.Crypto.Library.{Library, is_again, is_rehandshake, is_got_application_data, is_success}
use wetnork.Crypto.Session.{
  State, opened, renegotiating, closed, Event, state_changed, read, Session, M, ◌>>◌, set_state,
  fail, propagate, buffer_size, gnutls_handshake, gnutls_record_recv, gnutls_bye, after,
}
use wetnork.Crypto.Session.Same.{
  IsSame, gnutls_handshake-IsSame, gnutls_record_recv-IsSame, gnutls_bye-IsSame,
}
use wetnork.Crypto.Handlers.{
  is_open, is_handshaking, return, handshake_switch, propagate_loaded, close_once, recv_switch,
  handle_handshake, handle_data, handle_packet, read_packet, not_ready,
}
use wetnork.Crypto.Slots.{
  Slots, set_state_with, propagate_with, handshake_switch_with, propagate_loaded_with,
  close_once_with, recv_switch_with, handle_handshake_with, handle_data_with, handle_packet_with,
  read_packet_with,
}

abbrev pub starts_with_read : List Event → Bool
starts_with_read (read p ∷ es) = true
starts_with_read _ = false

-- Of the announcements, those after the first `n` do not end in a packet that was passed on.
abbrev pub IsQuiet : ℕ → List Event → Type 0
IsQuiet n es = (n ≤ length es) × ((n ≡ length es) ⊎ (starts_with_read es ≡ false))

module _ {L : Library} where
  -- Slots of `read` only.
  abbrev pub on_read_only : (Packet → M L (Unit {0})) → Slots L
  on_read_only f = record { on_state_changed = λ _. return; on_read = f }

  abbrev pub if_read : (Packet → M L (Unit {0})) → List Event → M L (Unit {0})
  if_read f (read p ∷ es) s = f p s
  if_read f _ s = (s, ok tt)

  -- A call that returns, and after it what the slots do if it passed on a packet last: there were `n`
  -- announcements before it.
  abbrev pub then_read :
      (Packet → M L (Unit {0}))
      → ℕ
      → Session L × Outcome (Unit {0})
      → Session L × Outcome (Unit {0})
  then_read f n (s, ok _) = (if ltb n (length s.log) then if_read f s.log else return) s
  then_read f n (s, throw e) = (s, throw e)
  then_read f n (s, fault) = (s, fault)
  then_read f n (s, unfinished) = (s, unfinished)

module _ {L : Library} (f : Packet → M L (Unit {0})) (n : ℕ) where
  if_read_none :
      (es : List Event) (s : Session L) → starts_with_read es ≡ false → if_read f es s ≡ (s, ok tt)
  if_read_none [] s h = refl
  if_read_none (state_changed old new ∷ es) s h = refl
  if_read_none (read p ∷ es) s h = cc

  then_read_quiet : (s : Session L) → IsQuiet n s.log → then_read f n (s, ok tt) ≡ (s, ok tt)
  then_read_quiet s (below, inl same) =
      let none_new : ltb n (length s.log) ≡ false = ground (arith, same) in rw none_new refl
  then_read_quiet s (below, inr quiet) = elim (Bool-cases (ltb n (length s.log))) [
    | inl new ↦ rw new (if_read_none s.log s quiet)
    | inr old ↦ rw old refl
  ]

  -- The method with slots does as the one without, and then the slots do.
  abbrev pub DoesLast : M L (Unit {0}) → M L (Unit {0}) → Type 0
  DoesLast m_with m = (s : Session L) → IsQuiet n s.log → m_with s ≡ then_read f n (m s)

  pub choice-DoesLast :
      (b : Bool) (m_with n_with m m' : M L (Unit {0}))
      → DoesLast m_with m
      → DoesLast n_with m'
      → DoesLast (if b then m_with else n_with) (if b then m else m')
  choice-DoesLast true m_with n_with m m' p q = p
  choice-DoesLast false m_with n_with m m' p q = q

  pub after-DoesLast :
      {A : Type 0} (s : Session L) (r : Session L × Outcome A) (k_with k : A → M L (Unit {0}))
      → IsQuiet n s.log
      → IsSame s r.0
      → ((a : A) → DoesLast (k_with a) (k a))
      → after k_with r ≡ then_read f n (after k r)
  after-DoesLast s (t, ok a) k_with k h same does =
      does a t (subst (IsQuiet n) (sym same.same_log) h)
  after-DoesLast s (t, throw e) k_with k h same does = refl
  after-DoesLast s (t, fault) k_with k h same does = refl
  after-DoesLast s (t, unfinished) k_with k h same does = refl

  pub set_state-DoesLast :
      (st : State) → DoesLast (set_state_with (on_read_only f) st) (set_state st)
  unfolding set_state_with set_state
  set_state-DoesLast st s h =
      sym (then_read_quiet (set_state st s).0 (omega (arith, h.0), inr refl))

  handshake_switch-DoesLast :
      (m_with m : M L (Unit {0})) (ret : Code)
      → DoesLast m_with m
      → DoesLast (handshake_switch_with (on_read_only f) m_with ret) (handshake_switch m ret)
  unfolding handshake_switch_with fail
  handshake_switch-DoesLast m_with m ret p =
      choice-DoesLast (is_got_application_data ret) _ _ _ _ p (
        choice-DoesLast (is_again ret) _ _ _ _ (λ s h. sym (then_read_quiet s h))
          (choice-DoesLast (is_success ret) _ _ _ _ (set_state-DoesLast opened) (λ s h. refl)))

  pub bye-DoesLast :
      (s : Session L)
      → IsQuiet n s.log
      → (gnutls_bye >> set_state_with (on_read_only f) closed) s
        ≡ then_read f n ((gnutls_bye >> set_state closed) s)
  bye-DoesLast s h =
      after-DoesLast s (gnutls_bye s) (λ _. set_state_with (on_read_only f) closed)
        (λ _. set_state closed) h (gnutls_bye-IsSame s) (λ _. set_state-DoesLast closed)

  close_once-DoesLast :
      (st : State) → DoesLast (close_once_with (on_read_only f) st) (close_once st)
  close_once-DoesLast closed s h = set_state-DoesLast closed s h
  close_once-DoesLast _ s h = bye-DoesLast s h

  propagate_loaded-DoesLast :
      (o : Option (List ℕ)) (len : ℕ)
      → DoesLast (propagate_loaded_with (on_read_only f) o len) (propagate_loaded o len)
  unfolding propagate_with propagate
  propagate_loaded-DoesLast none len s h = refl
  propagate_loaded-DoesLast (some bs) len s h =
      let new : ltb n (suc (length s.log)) ≡ true = ground (arith, h.0) in rw new refl

  recv_switch-DoesLast :
      (m_with m : M L (Unit {0})) (ret : Code) (buffer : List ℕ)
      → DoesLast m_with m
      → DoesLast (recv_switch_with (on_read_only f) m_with ret buffer) (recv_switch m ret buffer)
  unfolding recv_switch_with set_state_with set_state fail
  recv_switch-DoesLast m_with m (negative code) buffer p s h =
      choice-DoesLast (is_rehandshake (negative code)) _ _ (set_state renegotiating >> m)
        (fail (negative code))
        (λ t k. p (set_state renegotiating t).0 (omega (arith, k.0), inr refl)) (λ t k. refl) s h
  recv_switch-DoesLast m_with m (natural zero) buffer p s h = close_once-DoesLast s.state s h
  recv_switch-DoesLast m_with m (natural (suc len)) buffer p s h =
      propagate_loaded-DoesLast (load (suc len) buffer) (suc len) s h

  pub handlers-DoesLast :
      (fuel : ℕ)
      → DoesLast (handle_handshake_with (on_read_only f) fuel) (handle_handshake fuel)
        × DoesLast (handle_data_with (on_read_only f) fuel) (handle_data fuel)
  unfolding handle_handshake_with handle_handshake
  handlers-DoesLast zero = (λ s h. refl, λ s h. refl)
  handlers-DoesLast (suc fuel) =
      let ih = handlers-DoesLast fuel in
      (
        λ s h.
            after-DoesLast s (gnutls_handshake s) _ (handshake_switch (handle_data fuel)) h
              (gnutls_handshake-IsSame s)
              (λ ret. handshake_switch-DoesLast _ (handle_data fuel) ret ih.1),
        λ s h.
            after-DoesLast s (gnutls_record_recv buffer_size s) _
              (λ (r : Code × List ℕ). recv_switch (handle_handshake fuel) r.0 r.1) h
              (gnutls_record_recv-IsSame buffer_size s)
              (λ (r : Code × List ℕ). recv_switch-DoesLast _ (handle_handshake fuel) r.0 r.1 ih.0),
      )

-- Slots of `read` may call the session back, or throw, in any way: a session that is handed a packet
-- does what it does without them, and if it returned and passed on a packet, which it then did last,
-- what the slots do on the session that it left comes after that.
pub read_packet-DoesLast :
    {L : Library} (f : Packet → M L (Unit {0})) (fuel : ℕ) (p : Packet) (s : Session L)
    → read_packet_with (on_read_only f) fuel p s ≡ then_read f (length s.log) (read_packet fuel p s)
unfolding read_packet_with handle_packet_with read_packet handle_packet
read_packet-DoesLast f fuel p s =
    let n = length s.log in
    let quiet : IsQuiet n s.log = (omega arith, inl refl) in
    choice-DoesLast f n (is_handshaking s.state) _ _ (handle_handshake fuel)
      (if is_open s.state then handle_data fuel else not_ready) (handlers-DoesLast f n fuel).0
      (choice-DoesLast f n (is_open s.state) _ _ (handle_data fuel) not_ready
        (handlers-DoesLast f n fuel).1 (λ t k. refl))
      (record s { current_packet = some p }) quiet
