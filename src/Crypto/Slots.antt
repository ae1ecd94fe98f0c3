-- ===== src/Crypto/Slots.antt =====
-- net/CryptoSession.cpp where the slots of `read` and `stateChanged` call the session back: the
-- handlers of Crypto/Handlers, with what the slots of a signal do as one more method.
pub mod Calls
pub mod Hangup
pub mod Reentry
pub mod Nested
pub mod Keeps
pub mod Announced
mod Examples
use wetnork.Base.{ℕ, zero, suc, List, Option, none, some, if◌then◌else◌}
use wetnork.Exceptions.{Code, natural, negative, fault}
use wetnork.Memory.{load}
use wetnork.Packet.{Packet, packet}
use wetnork.Crypto.Library.{Library, is_again, is_rehandshake, is_got_application_data, is_success}
use wetnork.Crypto.Session.{
  State, opening, opened, renegotiating, closed, M, ◌>>◌, set_state, fail, propagate, buffer_size,
  gnutls_handshake, gnutls_record_recv, gnutls_rehandshake, gnutls_bye, after,
}
use wetnork.Crypto.Handlers.{
  is_invalid, is_open, is_handshaking, is_over, not_ready, return, out_of_fuel,
}

-- The slots of `stateChanged` are called with the old state, those of `read` with the packet.
pub record Slots (L : Library) : Type 0 where
  pub on_state_changed : State → M L (Unit {0})
  pub on_read : Packet → M L (Unit {0})

module _ {L : Library} where
  unfoldable pub set_state_with : Slots L → State → M L (Unit {0})
  set_state_with slots st s = after (λ _. slots.on_state_changed s.state) (set_state st s)

  unfoldable pub propagate_with : Slots L → Packet → M L (Unit {0})
  propagate_with slots p s = after (λ _. slots.on_read p) (propagate p s)

  unfoldable pub handshake_switch_with : Slots L → M L (Unit {0}) → Code → M L (Unit {0})
  handshake_switch_with slots on_data ret =
      if is_got_application_data ret
      then on_data
      else if is_again ret
      then return
      else if is_success ret
      then set_state_with slots opened
      else fail ret

  -- The owners of the block, which is freed twice in the end, are in Packet/Owners/Sites.
  abbrev pub propagate_loaded_with : Slots L → Option (List ℕ) → ℕ → M L (Unit {0})
  propagate_loaded_with slots none n s = (s, fault)
  propagate_loaded_with slots (some bs) n s = propagate_with slots (packet bs 0 n) s

  abbrev pub close_once_with : Slots L → State → M L (Unit {0})
  close_once_with slots closed = set_state_with slots closed
  close_once_with slots _ = do gnutls_bye; set_state_with slots closed

  unfoldable pub recv_switch_with : Slots L → M L (Unit {0}) → Code → List ℕ → M L (Unit {0})
  recv_switch_with slots on_rehandshake (negative n) buffer s =
      (if is_rehandshake (negative n)
          then (set_state_with slots renegotiating >> on_rehandshake)
          else fail (negative n))
        s
  recv_switch_with slots on_rehandshake (natural zero) buffer s = close_once_with slots s.state s
  recv_switch_with slots on_rehandshake (natural (suc n)) buffer s =
      propagate_loaded_with slots (load (suc n) buffer) (suc n) s

  unfoldable mutual
    pub handle_handshake_with : Slots L → ℕ → M L (Unit {0})
    handle_handshake_with slots zero s = out_of_fuel s
    handle_handshake_with slots (suc fuel) s =
        after (handshake_switch_with slots (handle_data_with slots fuel)) (gnutls_handshake s)

    pub handle_data_with : Slots L → ℕ → M L (Unit {0})
    handle_data_with slots zero s = out_of_fuel s
    handle_data_with slots (suc fuel) s =
        after
          (λ (r : Code × List ℕ). recv_switch_with slots (handle_handshake_with slots fuel) r.0 r.1)
          (gnutls_record_recv buffer_size s)

  unfoldable pub handle_packet_with : Slots L → ℕ → M L (Unit {0})
  handle_packet_with slots fuel s =
      (if is_handshaking s.state
          then handle_handshake_with slots fuel
          else if is_open s.state
          then handle_data_with slots fuel
          else not_ready)
        s

  unfoldable pub read_packet_with : Slots L → ℕ → Packet → M L (Unit {0})
  read_packet_with slots fuel p s =
      handle_packet_with slots fuel (record s { current_packet = some p })

  unfoldable pub open_session_with : Slots L → ℕ → M L (Unit {0})
  open_session_with slots fuel s =
      (if is_invalid s.state
          then (set_state_with slots opening >> handle_handshake_with slots fuel)
          else not_ready)
        s

  unfoldable pub renegotiate_with : Slots L → M L (Unit {0})
  renegotiate_with slots s =
      (if is_open s.state
          then (gnutls_rehandshake >> set_state_with slots renegotiating)
          else not_ready)
        s

  unfoldable pub close_with : Slots L → M L (Unit {0})
  close_with slots s =
      (if is_over s.state then not_ready else (gnutls_bye >> set_state_with slots closed)) s
