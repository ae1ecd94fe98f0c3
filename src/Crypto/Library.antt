-- ===== src/Crypto/Library.antt =====
-- GnuTLS as net/CryptoSession.cpp uses it, and the stream below a session: neither is part of the
-- repository's sources, so both are parameters. A call into GnuTLS is a tree: it ends with a
-- result, or it calls one of the transport functions and goes on with what that returns.
use wetnork.Base.{ℕ, List, Bool, true, false, ◌==◌}
use wetnork.Exceptions.{Code, natural, negative}
use wetnork.Packet.{Packet}

-- What the pull function returns: the bytes of a datagram, or -1 with `errno` set to `EAGAIN`.
pub data Pulled : Type 0 where
  pulled : List ℕ → Pulled
  again : Pulled

pub data Io (A : Type 0) : Type 0 where
  done : A → Io A
  call_pull : ℕ → (Pulled → Io A) → Io A
  call_pull_timeout : ℕ → (ℕ → Io A) → Io A
  call_push : List ℕ → (ℕ → Io A) → Io A
  call_vec_push : List (List ℕ) → (ℕ → Io A) → Io A

-- `gnutls_record_recv` fills a block of the given size and returns a length, or an error.
pub record Library : Type 1 where
  pub Tls : Type 0
  pub Lower : Type 0
  pub handshake : Tls → Io (Tls × Code)
  pub record_recv : Tls → ℕ → Io (Tls × (Code × List ℕ))
  pub record_send : Tls → List ℕ → Io (Tls × Code)
  pub rehandshake : Tls → Io (Tls × Code)
  pub bye : Tls → Io (Tls × Code)
  pub alert_get : Tls → Code
  pub put : Lower → Packet → Lower × Bool

-- The codes of gnutls.h that the source names: -28, -37 and -38.
abbrev pub is_again : Code → Bool
is_again (natural n) = false
is_again (negative n) = n == 27

abbrev pub is_rehandshake : Code → Bool
is_rehandshake (natural n) = false
is_rehandshake (negative n) = n == 36

abbrev pub is_got_application_data : Code → Bool
is_got_application_data (natural n) = false
is_got_application_data (negative n) = n == 37

abbrev pub is_success : Code → Bool
is_success (natural n) = n == 0
is_success (negative n) = false

abbrev pub is_error : Code → Bool
is_error (natural n) = false
is_error (negative n) = true
