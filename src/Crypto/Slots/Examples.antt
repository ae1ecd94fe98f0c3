-- ===== src/Crypto/Slots/Examples.antt =====
-- Slots that call sessions of net/CryptoSession.cpp back, at concrete sessions.
use wetnork.Base.{◌≡◌, refl, List, [], ◌∷◌, inl, if◌then◌else◌}
use wetnork.Exceptions.{natural}
use wetnork.Packet.{Packet, packet}
use wetnork.Crypto.Session.{
  Session, invalid, opened, closed, M, set_state, gnutls_bye, gnutls_handshake,
}
use wetnork.Crypto.Handlers.{is_handshaking, read_packet, close}
use wetnork.Crypto.States.{Inv, Ended}
use wetnork.Crypto.Calls.{Call, opens, closes, reads, writes}
use wetnork.Crypto.Samples.{clear, session_in}
use wetnork.Crypto.Slots.{read_packet_with, open_session_with}
use wetnork.Crypto.Slots.Calls.{on_read_only, then_read, read_packet-DoesLast}
use wetnork.Crypto.Slots.Nested.{run_with, Choices, nested}
use wetnork.Crypto.Slots.Reentry.{slots_of, run_with-Ended}
use wetnork.Crypto.Slots.Announced.{run_with-Inv}
use wetnork.Crypto.Slots.Hangup.{hangs_up, open_session-hangs_up}

abbrev datagram : Packet
datagram = packet (1 ∷ 2 ∷ 3 ∷ []) 0 3

-- The slot closes the session at the first packet.
abbrev closes_it : Packet → M clear (Unit {0})
closes_it p = close

read_packet-DoesLast_example :
    read_packet_with (on_read_only closes_it) 2 datagram (session_in opened)
    ≡ then_read closes_it 0 (read_packet 2 datagram (session_in opened))
read_packet-DoesLast_example = read_packet-DoesLast closes_it 2 datagram (session_in opened)

open_session-hangs_up_example :
    (closed ≡ closed)
    × ((open_session_with {L = clear} hangs_up 1 (session_in invalid)).0.state ≡ opened)
unfolding set_state gnutls_bye gnutls_handshake
open_session-hangs_up_example =
    open_session-hangs_up 0 (session_in invalid) _ _ (natural 0) (natural 0) refl refl refl refl
      refl

-- The slot answers a packet, and then closes the session.
abbrev answers : Packet → Session clear → List Call
answers p s = writes p ∷ closes ∷ []

run_with-Ended_example : Ended (session_in invalid) (
    run_with
      (on_read_only (slots_of answers 5 3))
      5
      (opens ∷ reads datagram ∷ [])
      (session_in invalid))
run_with-Ended_example =
    run_with-Ended answers 5 3 (opens ∷ reads datagram ∷ []) (session_in invalid)
      (record { chained = tt; known = inl refl })

-- It is closed as soon as it shakes hands, and opened again when it is closed, which throws.
abbrev restarts : Choices clear
restarts = record {
  on_change = λ old s. if is_handshaking s.state then closes ∷ [] else opens ∷ [];
  on_read = answers;
}

run_with-Inv_example :
    Inv (run_with (nested restarts 5 3) 5 (opens ∷ reads datagram ∷ []) (session_in invalid))
run_with-Inv_example =
    run_with-Inv restarts 5 3 (opens ∷ reads datagram ∷ []) (session_in invalid)
      (record { chained = tt; known = inl refl })
