-- ===== src/Crypto/Samples.antt =====
-- A library that sends what it is given as it is, for the tests of net/CryptoSession.cpp and of what
-- is built on it.
use wetnork.Base.{ℕ, List, [], ◌∷◌, true, length}
use wetnork.Exceptions.{Code, natural, negative}
use wetnork.Packet.{Packet}
use wetnork.Crypto.Library.{Library, Io, done, call_pull, call_push, Pulled, pulled, again}
use wetnork.Crypto.Session.{Session, State}
use wetnork.Crypto.Calls.{fresh}

abbrev pub received : Pulled → Io (Unit {0} × (Code × List ℕ))
received (pulled bs) = done (tt, (natural (length bs), bs))
received again = done (tt, (negative 27, []))

abbrev pub clear : Library
clear = record {
  Tls = Unit {0};
  Lower = List Packet;
  handshake = λ tls. done (tls, natural 0);
  record_recv = λ tls size. call_pull size received;
  record_send = λ tls block. call_push block (λ n. done (tls, natural (length block)));
  rehandshake = λ tls. done (tls, natural 0);
  bye = λ tls. done (tls, natural 0);
  alert_get = λ tls. natural 0;
  put = λ below p. (p ∷ below, true);
}

abbrev pub session_in : State → Session clear
session_in st = record (fresh tt []) { state = st }
