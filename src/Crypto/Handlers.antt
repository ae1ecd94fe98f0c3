-- ===== src/Crypto/Handlers.antt =====
-- net/CryptoSession.cpp: the handlers and the public methods. `handle_handshake` and `handle_data`
-- call each other as long as the library alternates between application data and rehandshakes;
-- `fuel` bounds these calls, and `Crypto.Termination` is about how much is enough.
use wetnork.Base.{ℕ, zero, suc, List, Option, none, some, Bool, true, false, if◌then◌else◌}
use wetnork.Exceptions.{
  Code, natural, negative, ok, throw, fault, unfinished, invalid_operation, crypto_exception,
}
use wetnork.Memory.{load}
use wetnork.Packet.{Packet, packet, get_data}
use wetnork.Crypto.Library.{Library, is_again, is_rehandshake, is_got_application_data, is_success}
use wetnork.Crypto.Session.{
  State, invalid, opening, opened, renegotiating, closed, aborted, M, ◌>>◌, set_state, fail,
  propagate, buffer_size, gnutls_handshake, gnutls_record_recv, gnutls_record_send,
  gnutls_rehandshake, gnutls_bye, after,
}

abbrev pub is_invalid : State → Bool
is_invalid invalid = true
is_invalid _ = false

abbrev pub is_open : State → Bool
is_open opened = true
is_open _ = false

abbrev pub is_closed : State → Bool
is_closed closed = true
is_closed _ = false

abbrev pub is_handshaking : State → Bool
is_handshaking opening = true
is_handshaking renegotiating = true
is_handshaking _ = false

abbrev pub is_over : State → Bool
is_over invalid = true
is_over closed = true
is_over aborted = true
is_over _ = false

module _ {L : Library} where
  abbrev pub not_ready : M L (Unit {0})
  not_ready s = (s, throw (invalid_operation "Session not ready"))

  abbrev pub return : M L (Unit {0})
  return s = (s, ok tt)

  -- The switch on the result of `gnutls_handshake`.
  abbrev pub handshake_switch : M L (Unit {0}) → Code → M L (Unit {0})
  handshake_switch on_data ret =
      if is_got_application_data ret
      then on_data
      else if is_again ret
      then return
      else if is_success ret
      then set_state opened
      else fail ret

  -- The branch for received data: a block of its own for the packet, and the signal. That the block is
  -- freed twice when the branch ends is not kept here: Packet/Owners/Sites is about that.
  abbrev pub propagate_loaded : Option (List ℕ) → ℕ → M L (Unit {0})
  propagate_loaded none n s = (s, fault)
  propagate_loaded (some bs) n s = propagate (packet bs 0 n) s

  abbrev pub close_once : State → M L (Unit {0})
  close_once closed = set_state closed
  close_once _ = do gnutls_bye; set_state closed

  -- The branches on the result of `gnutls_record_recv`.
  abbrev pub recv_switch : M L (Unit {0}) → Code → List ℕ → M L (Unit {0})
  recv_switch on_rehandshake (negative n) buffer s =
      (if is_rehandshake (negative n)
          then (set_state renegotiating >> on_rehandshake)
          else fail (negative n))
        s
  recv_switch on_rehandshake (natural zero) buffer s = close_once s.state s
  recv_switch on_rehandshake (natural (suc n)) buffer s =
      propagate_loaded (load (suc n) buffer) (suc n) s

  abbrev pub out_of_fuel : M L (Unit {0})
  out_of_fuel s = (s, unfinished)

  unfoldable mutual
    pub handle_handshake : ℕ → M L (Unit {0})
    handle_handshake zero s = out_of_fuel s
    handle_handshake (suc fuel) s = after (handshake_switch (handle_data fuel)) (gnutls_handshake s)

    pub handle_data : ℕ → M L (Unit {0})
    handle_data zero s = out_of_fuel s
    handle_data (suc fuel) s =
        after (λ (r : Code × List ℕ). recv_switch (handle_handshake fuel) r.0 r.1)
          (gnutls_record_recv buffer_size s)

  unfoldable pub handle_packet : ℕ → M L (Unit {0})
  handle_packet fuel s =
      (if is_handshaking s.state
          then handle_handshake fuel
          else if is_open s.state
          then handle_data fuel
          else not_ready)
        s

  unfoldable pub open_session : ℕ → M L (Unit {0})
  open_session fuel s =
      (if is_invalid s.state then (set_state opening >> handle_handshake fuel) else not_ready) s

  unfoldable pub renegotiate : M L (Unit {0})
  renegotiate s =
      (if is_open s.state then (gnutls_rehandshake >> set_state renegotiating) else not_ready) s

  unfoldable pub close : M L (Unit {0})
  close s = (if is_over s.state then not_ready else (gnutls_bye >> set_state closed)) s

  -- The slot that is connected to the stream below.
  unfoldable pub read_packet : ℕ → Packet → M L (Unit {0})
  unfolding handle_packet
  read_packet fuel p s = handle_packet fuel (record s { current_packet = some p })

  abbrev pub sent : Code → M L Bool
  sent (natural n) s = (s, ok true)
  sent (negative n) s =
      if is_again (negative n)
      then (s, ok false)
      else (s, throw (crypto_exception (negative n) (natural 0)))

  -- `gnutls_record_send` reads `length()` bytes from `data()`.
  abbrev pub write_loaded : Option (List ℕ) → M L Bool
  write_loaded none s = (s, fault)
  write_loaded (some bs) s = after sent (gnutls_record_send bs s)

  abbrev pub refuse_write : M L Bool
  refuse_write s = (s, throw (invalid_operation "Session not ready"))

  unfoldable pub write : Packet → M L Bool
  write p s =
      (if is_open s.state then write_loaded (load p.length_ (get_data p)) else refuse_write) s
