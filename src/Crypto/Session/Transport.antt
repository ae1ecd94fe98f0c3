-- ===== src/Crypto/Session/Transport.antt =====
-- The transport functions of net/CryptoSession.cpp that GnuTLS calls back.
use wetnork.Base.{
  ℕ, ◌≤◌, ◌<◌, ◌^◌, ◌≡◌, ◌≢◌, refl, ap, subst, ◌∙◌, sym, List, Option, none, some, Bool, true,
  false, map, if◌then◌else◌, ltb, length, min, take, arith, take-take, length-drop,
}
use wetnork.Exceptions.{Outcome, ok, throw, fault, unfinished}
use wetnork.Memory.{load, load_lem, through_int, through_int_small}
use wetnork.Packet.{Packet, packet, get_data, bytes, IsValid}
use wetnork.Stream.{gather}
use wetnork.Crypto.Library.{
  Library, Io, done, call_pull, call_pull_timeout, call_push, call_vec_push, pulled, again,
}
use wetnork.Crypto.Session.{
  Session, M, after, to_ssize, took, pull_from, pull, pull_timeout, push, put_gathered, vec_push,
  run_io, keep_tls, call, gnutls_handshake, gnutls_record_recv, gnutls_bye,
}

-- A call that came to an end within the fuel.
abbrev pub IsFinished : {A : Type 0} → Outcome A → Type 0
IsFinished unfinished = ⊥
IsFinished _ = Unit {0}

-- A call that came to an end with no exception.
abbrev pub IsPlain : {A : Type 0} → Outcome A → Type 0
IsPlain (ok a) = Unit {0}
IsPlain fault = Unit {0}
IsPlain (throw e) = ⊥
IsPlain unfinished = ⊥

plain-IsFinished : {A : Type 0} (o : Outcome A) → IsPlain o → IsFinished o
plain-IsFinished (ok a) h = tt
plain-IsFinished fault h = tt
plain-IsFinished (throw e) h = tt
plain-IsFinished unfinished h = h

load_smaller :
    (size : ℕ) (p : Packet)
    → IsValid p
    → p.length_ < 2 ^ 31
    → load (through_int (if ltb size p.length_ then size else p.length_)) (get_data p)
      ≡ some (take size (bytes p))
load_smaller size p v h =
    let smaller : (if ltb size p.length_ then size else p.length_) ≡ min size p.length_ =
      ground arith in
    rw (smaller, through_int_small (min size p.length_) (omega arith))
      (load_lem (min size p.length_) (get_data p) (omega (arith, length-drop p.offset p.buffer))
        ∙ ap some (sym (take-take size p.length_ (get_data p))))

to_ssize-le : (b : Bool) → to_ssize b ≤ 1
to_ssize-le true = omega arith
to_ssize-le false = omega arith

ok_value : Outcome ℕ → ℕ
ok_value (ok n) = n
ok_value _ = 0

module _ {L : Library} where
  pub IsFinished-after :
      {A B : Type 0} (f : A → M L B) (r : Session L × Outcome A)
      → IsFinished r.1
      → ((a : A) (t : Session L) → r ≡ (t, ok a) → IsFinished (f a t).1)
      → IsFinished (after f r).1
  IsFinished-after f (t, ok a) p q = q a t refl
  IsFinished-after f (t, throw e) p q = tt
  IsFinished-after f (t, fault) p q = tt
  IsFinished-after f (t, unfinished) p q = p

  pub IsPlain-after :
      {A B : Type 0} (f : A → M L B) (r : Session L × Outcome A)
      → IsPlain r.1
      → ((a : A) (t : Session L) → r ≡ (t, ok a) → IsPlain (f a t).1)
      → IsPlain (after f r).1
  IsPlain-after f (t, ok a) p q = q a t refl
  IsPlain-after f (t, throw e) p q = p
  IsPlain-after f (t, fault) p q = tt
  IsPlain-after f (t, unfinished) p q = p

  took-IsPlain : (o : Option (List ℕ)) (s : Session L) → IsPlain (took o s).1
  took-IsPlain none s = tt
  took-IsPlain (some bs) s = tt

  pull_from-IsPlain :
      (size : ℕ) (q : Option Packet) (s : Session L) → IsPlain (pull_from size q s).1
  pull_from-IsPlain size none s = tt
  pull_from-IsPlain size (some p) s =
      took-IsPlain
        (load (through_int (if ltb size p.length_ then size else p.length_)) (get_data p)) s

  put_gathered-IsPlain : (o : Option Packet) (s : Session L) → IsPlain (put_gathered o s).1
  unfolding put_gathered
  put_gathered-IsPlain none s = tt
  put_gathered-IsPlain (some p) s = tt

  run_io-IsPlain : {A : Type 0} (io : Io A) (s : Session L) → IsPlain (run_io io s).1
  unfolding run_io
  run_io-IsPlain (done a) s = tt
  run_io-IsPlain (call_pull size k) s =
      IsPlain-after (λ r. run_io (k r)) (pull size s) (pull_from-IsPlain size s.current_packet s)
        (λ r t _. run_io-IsPlain (k r) t)
  run_io-IsPlain (call_pull_timeout ms k) s =
      IsPlain-after (λ r. run_io (k r)) (pull_timeout ms s) tt (λ r t _. run_io-IsPlain (k r) t)
  run_io-IsPlain (call_push block k) s =
      IsPlain-after (λ r. run_io (k r)) (push block s) tt (λ r t _. run_io-IsPlain (k r) t)
  run_io-IsPlain (call_vec_push iov k) s =
      IsPlain-after (λ r. run_io (k r)) (vec_push iov s)
        (put_gathered-IsPlain (gather (map (λ block. packet block 0 (length block)) iov)) s)
        (λ r t _. run_io-IsPlain (k r) t)

  call-IsPlain : {A : Type 0} (f : L.Tls → Io (L.Tls × A)) (s : Session L) → IsPlain (call f s).1
  unfolding call
  call-IsPlain f s =
      IsPlain-after keep_tls (run_io (f s.tls) s) (run_io-IsPlain (f s.tls) s) (λ r t _. tt)

  pub gnutls_handshake-IsPlain : (s : Session L) → IsPlain (gnutls_handshake s).1
  unfolding gnutls_handshake
  gnutls_handshake-IsPlain s = call-IsPlain L.handshake s

  pub gnutls_record_recv-IsPlain :
      (size : ℕ) (s : Session L) → IsPlain (gnutls_record_recv size s).1
  unfolding gnutls_record_recv
  gnutls_record_recv-IsPlain size s = call-IsPlain (λ tls. L.record_recv tls size) s

  pub gnutls_bye-IsPlain : (s : Session L) → IsPlain (gnutls_bye s).1
  unfolding gnutls_bye
  gnutls_bye-IsPlain s = call-IsPlain L.bye s

  pub gnutls_handshake-IsFinished : (s : Session L) → IsFinished (gnutls_handshake s).1
  gnutls_handshake-IsFinished s =
      plain-IsFinished (gnutls_handshake s).1 (gnutls_handshake-IsPlain s)

  pub gnutls_record_recv-IsFinished :
      (size : ℕ) (s : Session L) → IsFinished (gnutls_record_recv size s).1
  gnutls_record_recv-IsFinished size s =
      plain-IsFinished (gnutls_record_recv size s).1 (gnutls_record_recv-IsPlain size s)

  pub gnutls_bye-IsFinished : (s : Session L) → IsFinished (gnutls_bye s).1
  gnutls_bye-IsFinished s = plain-IsFinished (gnutls_bye s).1 (gnutls_bye-IsPlain s)

  pull_first :
      (size : ℕ) (p : Packet) (s : Session L)
      → IsValid p
      → p.length_ < 2 ^ 31
      → s.current_packet ≡ some p
      → pull size s ≡ (record s { current_packet = none }, ok (pulled (take size (bytes p))))
  unfolding pull
  pull_first size p s v h e =
      ap (λ q. pull_from size q s) e ∙ ap (λ o. took o s) (load_smaller size p v h)

  -- A datagram of less than 2^31 bytes that lies in its block is handed to GnuTLS once, cut to the size that was asked for:
  -- the first pull returns it, and the next one reports `EAGAIN`.
  pub pull_once :
      (size again_size : ℕ) (p : Packet) (s : Session L)
      → IsValid p
      → p.length_ < 2 ^ 31
      → s.current_packet ≡ some p
      → (pull size s ≡ (record s { current_packet = none }, ok (pulled (take size (bytes p)))))
        × (pull again_size (pull size s).0 ≡ ((pull size s).0, ok again))
  unfolding pull
  pull_once size later p s v h e =
      let first = pull_first size p s v h e in
      (first, subst (λ r. pull later r.0 ≡ (r.0, ok again)) (sym first) refl)

  -- For a block of two bytes or more, the push function never tells GnuTLS that all of it was sent.
  pub push-ne-length :
      (block : List ℕ) (s : Session L) → 2 ≤ length block → (push block s).1 ≢ ok (length block)
  unfolding push ok_value
  push-ne-length block s h e =
      omega (arith, ap ok_value e, to_ssize-le (L.put s.next (packet block 0 (length block))).1)
