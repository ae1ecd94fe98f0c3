-- ===== src/Crypto/Session/Same.antt =====
-- A call into GnuTLS, with the transport functions of net/CryptoSession.cpp that it calls back,
-- and what it does to the state and the announcements of a session.
use wetnork.Base.{ℕ, ◌≡◌, refl, ◌∙◌, List, Option, none, some, map, if◌then◌else◌, ltb, length}
use wetnork.Exceptions.{Outcome, ok, throw, fault, unfinished}
use wetnork.Memory.{load, through_int}
use wetnork.Packet.{Packet, packet, get_data}
use wetnork.Stream.{gather}
use wetnork.Crypto.Library.{
  Library, Io, done, call_pull, call_pull_timeout, call_push, call_vec_push,
}
use wetnork.Crypto.Session.{
  Session, M, after, took, pull_from, pull, pull_timeout, put_below, push, put_gathered, vec_push,
  run_io, keep_tls, call, gnutls_handshake, gnutls_record_recv, gnutls_record_send,
  gnutls_rehandshake, gnutls_bye,
}

-- Same state, same announcements.
pub record IsSame {L : Library} (s t : Session L) : Type 0 where
  pub same_state : t.state ≡ s.state
  pub same_log : t.log ≡ s.log

module _ {L : Library} where
  pub IsSame-refl : (s : Session L) → IsSame s s
  IsSame-refl s = record { same_state = refl; same_log = refl }

  pub IsSame-trans : {s t u : Session L} → IsSame s t → IsSame t u → IsSame s u
  IsSame-trans p q = record {
    same_state = q.same_state ∙ p.same_state;
    same_log = q.same_log ∙ p.same_log;
  }

  pub IsSame-after :
      {A B : Type 0} (s : Session L) (f : A → M L B) (r : Session L × Outcome A)
      → IsSame s r.0
      → ((a : A) (t : Session L) → IsSame t (f a t).0)
      → IsSame s (after f r).0
  IsSame-after s f (t, ok a) p q = IsSame-trans p (q a t)
  IsSame-after s f (t, throw e) p q = p
  IsSame-after s f (t, fault) p q = p
  IsSame-after s f (t, unfinished) p q = p

  took-IsSame : (o : Option (List ℕ)) (s : Session L) → IsSame s (took o s).0
  took-IsSame none s = IsSame-refl s
  took-IsSame (some bs) s = record { same_state = refl; same_log = refl }

  pull_from-IsSame :
      (size : ℕ) (q : Option Packet) (s : Session L) → IsSame s (pull_from size q s).0
  pull_from-IsSame size none s = IsSame-refl s
  pull_from-IsSame size (some p) s =
      took-IsSame (load (through_int (if ltb size p.length_ then size else p.length_)) (get_data p))
        s

  put_below-IsSame : (p : Packet) (s : Session L) → IsSame s (put_below p s).0
  unfolding put_below
  put_below-IsSame p s = record { same_state = refl; same_log = refl }

  put_gathered-IsSame : (o : Option Packet) (s : Session L) → IsSame s (put_gathered o s).0
  unfolding put_gathered
  put_gathered-IsSame none s = IsSame-refl s
  put_gathered-IsSame (some p) s = put_below-IsSame p s

  run_io-IsSame : {A : Type 0} (io : Io A) (s : Session L) → IsSame s (run_io io s).0
  unfolding run_io
  run_io-IsSame (done a) s = IsSame-refl s
  run_io-IsSame (call_pull size k) s =
      IsSame-after s (λ r. run_io (k r)) (pull size s) (pull_from-IsSame size s.current_packet s)
        (λ r t. run_io-IsSame (k r) t)
  run_io-IsSame (call_pull_timeout ms k) s =
      IsSame-after s (λ r. run_io (k r)) (pull_timeout ms s) (IsSame-refl s)
        (λ r t. run_io-IsSame (k r) t)
  run_io-IsSame (call_push block k) s =
      IsSame-after s (λ r. run_io (k r)) (push block s)
        (put_below-IsSame (packet block 0 (length block)) s) (λ r t. run_io-IsSame (k r) t)
  run_io-IsSame (call_vec_push iov k) s =
      IsSame-after s (λ r. run_io (k r)) (vec_push iov s)
        (put_gathered-IsSame (gather (map (λ block. packet block 0 (length block)) iov)) s)
        (λ r t. run_io-IsSame (k r) t)

  call-IsSame : {A : Type 0} (f : L.Tls → Io (L.Tls × A)) (s : Session L) → IsSame s (call f s).0
  unfolding call
  call-IsSame f s =
      IsSame-after s keep_tls (run_io (f s.tls) s) (run_io-IsSame (f s.tls) s)
        (λ r t. record { same_state = refl; same_log = refl })

  pub gnutls_handshake-IsSame : (s : Session L) → IsSame s (gnutls_handshake s).0
  unfolding gnutls_handshake
  gnutls_handshake-IsSame s = call-IsSame L.handshake s

  pub gnutls_record_recv-IsSame :
      (size : ℕ) (s : Session L) → IsSame s (gnutls_record_recv size s).0
  unfolding gnutls_record_recv
  gnutls_record_recv-IsSame size s = call-IsSame (λ tls. L.record_recv tls size) s

  pub gnutls_record_send-IsSame :
      (block : List ℕ) (s : Session L) → IsSame s (gnutls_record_send block s).0
  unfolding gnutls_record_send
  gnutls_record_send-IsSame block s = call-IsSame (λ tls. L.record_send tls block) s

  pub gnutls_rehandshake-IsSame : (s : Session L) → IsSame s (gnutls_rehandshake s).0
  unfolding gnutls_rehandshake
  gnutls_rehandshake-IsSame s = call-IsSame L.rehandshake s

  pub gnutls_bye-IsSame : (s : Session L) → IsSame s (gnutls_bye s).0
  unfolding gnutls_bye
  gnutls_bye-IsSame s = call-IsSame L.bye s
