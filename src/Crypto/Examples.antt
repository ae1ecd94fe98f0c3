-- ===== src/Crypto/Examples.antt =====
-- A session of net/CryptoSession.cpp over concrete libraries, and concrete keys.
use wetnork.Base.{
  ℕ, zero, suc, ◌≡◌, refl, ◌↔◌, List, [], ◌∷◌, some, true, false, not, ◌&&◌, length, arith,
}
use wetnork.Exceptions.{Code, natural, negative, unfinished}
use wetnork.Packet.{Packet, packet}
use wetnork.Crypto.Library.{Library, Io, done, call_pull, call_push, Pulled, pulled, again}
use wetnork.Crypto.Keys.{KeyFingerprint, less, equal, less-IsStrictOrder}
use wetnork.Crypto.Peers.{CryptoContext, PeerCertificate}
use wetnork.Crypto.Session.{
  closed, opened, opening, invalid, state_changed, set_state, Session, buffer_size, keep_tls,
  gnutls_handshake,
}
use wetnork.Crypto.Handlers.{handle_handshake, handle_data}
use wetnork.Crypto.Calls.{opens, reads, writes, fresh, perform, run}
use wetnork.Crypto.Histories.{Refused, final-Refused}
use wetnork.Crypto.Opening.{Opens, opens-run}
use wetnork.Crypto.Termination.{HandshakeAlternates, DataAlternates, handlers-unfinished_iff}

-- A library whose state counts the records that it has not worked off: as long as there are any,
-- a handshake meets application data, and a receive meets a request for a handshake.
abbrev shake : ℕ → Io (ℕ × Code)
shake zero = done (0, natural 0)
shake (suc n) = done (n, negative 37)

abbrev with_datagram : Pulled → Io (ℕ × (Code × List ℕ))
with_datagram (pulled bs) = done (0, (natural (length bs), bs))
with_datagram again = done (0, (negative 27, []))

abbrev receive : ℕ → Io (ℕ × (Code × List ℕ))
receive zero = call_pull buffer_size with_datagram
receive (suc n) = done (n, (negative 36, []))

abbrev counting : Library
counting = record {
  Tls = ℕ;
  Lower = List Packet;
  handshake = shake;
  record_recv = λ tls size. receive tls;
  record_send = λ tls block. call_push block (λ n. done (tls, natural n));
  rehandshake = λ tls. done (tls, natural 0);
  bye = λ tls. call_push (21 ∷ []) (λ n. done (tls, natural 0));
  alert_get = λ tls. natural 0;
  put = λ below p. (p ∷ below, true);
}

abbrev new_session : ℕ → Session counting
new_session n = fresh n []

abbrev datagram : Packet
datagram = packet (1 ∷ 2 ∷ 3 ∷ []) 0 3

-- An open session with a datagram at hand.
abbrev open_session : Session counting
open_session = record (new_session 0) { state = opened; current_packet = some datagram }

abbrev closed_session : Session counting
closed_session = record (new_session 0) { state = closed }

final-Refused_example : Refused closed_session (perform 4 (writes datagram) closed_session)
final-Refused_example = final-Refused 4 (writes datagram) closed_session refl

handlers-unfinished_iff_example :
    (((handle_handshake 3 (new_session 3)).1 ≡ unfinished) ↔ HandshakeAlternates 3 (new_session 3))
    × (((handle_data 3 (new_session 3)).1 ≡ unfinished) ↔ DataAlternates 3 (new_session 3))
handlers-unfinished_iff_example = handlers-unfinished_iff 3 (new_session 3)

-- Two fingerprints whose first bytes are -1 and 1.
abbrev negative_key : KeyFingerprint
negative_key = record { chars = 255 ∷ 7 ∷ [] }

abbrev positive_key : KeyFingerprint
positive_key = record { chars = 1 ∷ [] }

less-IsStrictOrder_example :
    (less negative_key negative_key ≡ false)
    × ((less negative_key positive_key
          && less positive_key negative_key
          && not (less negative_key negative_key))
        ≡ false)
    × ((not (less negative_key positive_key) && not (less positive_key negative_key))
        ≡ equal negative_key positive_key)
less-IsStrictOrder_example =
    less-IsStrictOrder negative_key positive_key negative_key (omega arith, (omega arith, tt))
      (omega arith, tt)

abbrev certificate : PeerCertificate
certificate = record {
  is_openpgp = true;
  is_sent = true;
  init_fails = false;
  import_fails = false;
  fingerprint = some (255 ∷ 7 ∷ 0 ∷ [], 2);
}

abbrev nobody : CryptoContext
nobody = record { peers = [] }

-- A handshake that needs as many datagrams as the state of the library says.
abbrev shake_slowly : ℕ → Io (ℕ × Code)
shake_slowly zero = done (0, natural 0)
shake_slowly (suc n) = done (n, negative 27)

abbrev slow : Library
slow = record counting { handshake = shake_slowly }

abbrev slow_session : Session slow
slow_session = fresh 2 []

opens-run_example :
    Opens opening
      (state_changed invalid opening ∷ [])
      (run 3 (opens ∷ reads datagram ∷ reads datagram ∷ []) slow_session)
unfolding gnutls_handshake set_state keep_tls
opens-run_example =
    opens-run 2 (datagram ∷ datagram ∷ []) slow_session refl (_, refl, (_, refl, (_, refl)))
