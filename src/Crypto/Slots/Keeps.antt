-- ===== src/Crypto/Slots/Keeps.antt =====
-- What the methods of net/CryptoSession.cpp keep of the announcements, if the slots do.
use wetnork.Base.{
  ℕ, zero, suc, ◌≡◌, refl, ◌∙◌, sym, ap, inl, inr, List, Option, none, some, Bool, true, false,
  if◌then◌else◌,
}
use wetnork.Exceptions.{Code, natural, negative, Outcome, ok, throw, fault, unfinished}
use wetnork.Memory.{load}
use wetnork.Packet.{Packet}
use wetnork.Crypto.Library.{Library, is_again, is_rehandshake, is_got_application_data, is_success}
use wetnork.Crypto.Session.{
  State, opened, renegotiating, closed, Session, M, ◌>>◌, after, set_state, fail, propagate,
  buffer_size, gnutls_handshake, gnutls_record_recv, gnutls_bye,
}
use wetnork.Crypto.Session.Same.{
  IsSame, gnutls_handshake-IsSame, gnutls_record_recv-IsSame, gnutls_bye-IsSame,
}
use wetnork.Crypto.Handlers.{not_ready, return}
use wetnork.Crypto.States.{announced, IsChained, Inv}
use wetnork.Crypto.Slots.{
  Slots, set_state_with, propagate_with, handshake_switch_with, propagate_loaded_with,
  close_once_with, recv_switch_with, handle_handshake_with, handle_data_with,
}

module _ {L : Library} where
  -- What holds of a session while a slot runs.
  abbrev pub IsKnown : Session L → Type 0
  IsKnown s = IsChained s.log × (s.state ≡ announced s.log)

  -- What holds when a method ends: a method that returns does not leave the session aborted.
  abbrev pub IsKept : {A : Type 0} → Session L × Outcome A → Type 0
  IsKept (s, ok a) = IsKnown s
  IsKept (s, throw e) = Inv s
  IsKept (s, fault) = Inv s
  IsKept (s, unfinished) = Inv s

  pub IsKnown-Inv : (s : Session L) → IsKnown s → Inv s
  IsKnown-Inv s k = record { chained = k.0; known = inl k.1 }

  pub IsKept-Inv : {A : Type 0} (r : Session L × Outcome A) → IsKept r → Inv r.0
  IsKept-Inv (s, ok a) k = IsKnown-Inv s k
  IsKept-Inv (s, throw e) k = k
  IsKept-Inv (s, fault) k = k
  IsKept-Inv (s, unfinished) k = k

  abbrev pub Keeps : M L (Unit {0}) → Type 0
  Keeps m = (s : Session L) → IsKnown s → IsKept (m s)

  pub IsKept-after :
      {A : Type 0} (r : Session L × Outcome A) (k : A → M L (Unit {0}))
      → IsKept r
      → ((a : A) → Keeps (k a))
      → IsKept (after k r)
  IsKept-after (s, ok a) k h keeps = keeps a s h
  IsKept-after (s, throw e) k h keeps = h
  IsKept-after (s, fault) k h keeps = h
  IsKept-after (s, unfinished) k h keeps = h

  IsKnown-IsSame : (s t : Session L) → IsSame s t → IsKnown s → IsKnown t
  IsKnown-IsSame s t same k =
      (rw same.same_log k.0, same.same_state ∙ k.1 ∙ ap announced (sym same.same_log))

  pub called :
      {A : Type 0} (s : Session L) (r : Session L × Outcome A) → IsSame s r.0 → IsKnown s → IsKept r
  called s (t, ok a) same k = IsKnown-IsSame s t same k
  called s (t, throw e) same k = IsKnown-Inv t (IsKnown-IsSame s t same k)
  called s (t, fault) same k = IsKnown-Inv t (IsKnown-IsSame s t same k)
  called s (t, unfinished) same k = IsKnown-Inv t (IsKnown-IsSame s t same k)

  pub choice-Keeps :
      (b : Bool) (m m' : M L (Unit {0})) → Keeps m → Keeps m' → Keeps (if b then m else m')
  choice-Keeps true m m' p q = p
  choice-Keeps false m m' p q = q

  fail-Keeps : (code : Code) → Keeps (fail code)
  unfolding fail
  fail-Keeps code s k = record { chained = k.0; known = inr refl }

  pub not_ready-Keeps : Keeps not_ready
  not_ready-Keeps s k = IsKnown-Inv s k

-- Slots that keep what holds of the session.
pub record AreKeeping {L : Library} (slots : Slots L) : Type 0 where
  pub changed-Keeps : (old : State) → Keeps (slots.on_state_changed old)
  pub read-Keeps : (p : Packet) → Keeps (slots.on_read p)

module _ {L : Library} (slots : Slots L) (keep : AreKeeping slots) where
  pub set_state-Keeps : (st : State) → Keeps (set_state_with slots st)
  unfolding set_state_with set_state
  set_state-Keeps st s k = keep.changed-Keeps s.state (set_state st s).0 ((k.1, k.0), refl)

  propagate_loaded-Keeps : (o : Option (List ℕ)) (n : ℕ) → Keeps (propagate_loaded_with slots o n)
  unfolding propagate_with propagate
  propagate_loaded-Keeps none n s k = IsKnown-Inv s k
  propagate_loaded-Keeps (some bs) n s k = keep.read-Keeps _ _ k

  handshake_switch-Keeps :
      (m : M L (Unit {0})) (ret : Code) → Keeps m → Keeps (handshake_switch_with slots m ret)
  unfolding handshake_switch_with
  handshake_switch-Keeps m ret p = choice-Keeps (is_got_application_data ret) m _ p (
      choice-Keeps (is_again ret) return _ (λ s k. k)
        (choice-Keeps (is_success ret) _ (fail ret) (set_state-Keeps opened) (fail-Keeps ret)))

  pub bye-Keeps : Keeps (gnutls_bye >> set_state_with slots closed)
  bye-Keeps s k =
      IsKept-after (gnutls_bye s) (λ _. set_state_with slots closed)
        (called s (gnutls_bye s) (gnutls_bye-IsSame s) k) (λ _. set_state-Keeps closed)

  close_once-Keeps : (st : State) → Keeps (close_once_with slots st)
  close_once-Keeps closed s k = set_state-Keeps closed s k
  close_once-Keeps _ s k = bye-Keeps s k

  pub then_Keeps :
      (st : State) (m : M L (Unit {0})) → Keeps m → Keeps (set_state_with slots st >> m)
  then_Keeps st m p s k =
      IsKept-after (set_state_with slots st s) (λ _. m) (set_state-Keeps st s k) (λ _. p)

  recv_switch-Keeps :
      (m : M L (Unit {0})) (ret : Code) (buffer : List ℕ)
      → Keeps m
      → Keeps (recv_switch_with slots m ret buffer)
  unfolding recv_switch_with
  recv_switch-Keeps m (negative n) buffer p s k =
      choice-Keeps (is_rehandshake (negative n)) _ (fail (negative n))
        (then_Keeps renegotiating m p) (fail-Keeps (negative n)) s k
  recv_switch-Keeps m (natural zero) buffer p s k = close_once-Keeps s.state s k
  recv_switch-Keeps m (natural (suc n)) buffer p s k =
      propagate_loaded-Keeps (load (suc n) buffer) (suc n) s k

  pub handlers-Keeps :
      (fuel : ℕ) → Keeps (handle_handshake_with slots fuel) × Keeps (handle_data_with slots fuel)
  unfolding handle_handshake_with
  handlers-Keeps zero = (λ s k. IsKnown-Inv s k, λ s k. IsKnown-Inv s k)
  handlers-Keeps (suc fuel) =
      let ih = handlers-Keeps fuel in
      (
        λ s k.
            IsKept-after (gnutls_handshake s)
              (handshake_switch_with slots (handle_data_with slots fuel))
              (called s (gnutls_handshake s) (gnutls_handshake-IsSame s) k)
              (λ ret. handshake_switch-Keeps (handle_data_with slots fuel) ret ih.1),
        λ s k.
            IsKept-after (gnutls_record_recv buffer_size s)
              (λ (r : Code × List ℕ).
                recv_switch_with slots (handle_handshake_with slots fuel) r.0 r.1)
              (called s (gnutls_record_recv buffer_size s) (gnutls_record_recv-IsSame buffer_size s)
                k)
              (λ (r : Code × List ℕ).
                recv_switch-Keeps (handle_handshake_with slots fuel) r.0 r.1 ih.0),
      )
