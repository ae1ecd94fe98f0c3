-- ===== src/Crypto/Session.antt =====
-- net/CryptoSession.cpp. A method takes the session to a new one and an outcome: what a method
-- changed before it threw stays changed. The slots of `stateChanged` and of the stream's `read`
-- are taken not to call the session back, as they do in Crypto/Slots; `log` lists what they were
-- called with, newest first.
pub mod Same
pub mod Transport
use wetnork.Base.{
  ℕ, List, ◌∷◌, Option, none, some, Bool, true, false, ltb, if◌then◌else◌, length, map,
}
use wetnork.Exceptions.{Code, Outcome, ok, throw, fault, unfinished, crypto_exception}
use wetnork.Memory.{load, through_int}
use wetnork.Packet.{Packet, packet, get_data}
use wetnork.Stream.{gather}
use wetnork.Crypto.Library.{
  Library, Io, done, call_pull, call_pull_timeout, call_push, call_vec_push, Pulled, pulled, again,
}

pub data State : Type 0 where
  invalid opening opened renegotiating closed aborted : State

pub data Event : Type 0 where
  state_changed : State → State → Event
  read : Packet → Event

pub record Session (L : Library) : Type 0 where
  pub state : State
  pub tls : L.Tls
  pub next : L.Lower
  pub current_packet : Option Packet
  pub log : List Event

abbrev pub buffer_size : ℕ
buffer_size = 65536

abbrev pub to_ssize : Bool → ℕ
to_ssize true = 1
to_ssize false = 0

-- The length of the packet at hand, which is returned as an `int`.
abbrev waiting : Option Packet → ℕ
waiting none = 0
waiting (some p) = through_int p.length_

-- A method of the session.
abbrev pub M : Library → Type 0 → Type 0
M L A = Session L → Session L × Outcome A

module _ {L : Library} where
  abbrev pub after : {A B : Type 0} → (A → M L B) → Session L × Outcome A → Session L × Outcome B
  after f (s, ok a) = f a s
  after f (s, throw e) = (s, throw e)
  after f (s, fault) = (s, fault)
  after f (s, unfinished) = (s, unfinished)

  infixl 5 ◌>>=◌ ◌>>◌
  abbrev pub ◌>>=◌ : {A B : Type 0} → M L A → (A → M L B) → M L B
  ◌>>=◌ m f s = after f (m s)

  abbrev pub ◌>>◌ : {A B : Type 0} → M L A → M L B → M L B
  ◌>>◌ m k s = after (λ _. k) (m s)

  unfoldable pub set_state : State → M L (Unit {0})
  set_state st s = (record s { state = st; log = state_changed s.state st ∷ s.log }, ok tt)

  unfoldable pub fail : Code → M L (Unit {0})
  fail code s = (record s { state = aborted }, throw (crypto_exception code (L.alert_get s.tls)))

  unfoldable pub propagate : Packet → M L (Unit {0})
  propagate p s = (record s { log = read p ∷ s.log }, ok tt)

  -- The four transport functions. `pull` copies at most `size` bytes, by
  -- a length in an `int`, and drops the datagram.
  abbrev took : Option (List ℕ) → M L Pulled
  took none s = (s, fault)
  took (some bs) s = (record s { current_packet = none }, ok (pulled bs))

  abbrev pull_from : ℕ → Option Packet → M L Pulled
  pull_from size none s = (s, ok again)
  pull_from size (some p) s =
      took (load (through_int (if ltb size p.length_ then size else p.length_)) (get_data p)) s

  unfoldable pub pull : ℕ → M L Pulled
  pull size s = pull_from size s.current_packet s

  unfoldable pub pull_timeout : ℕ → M L ℕ
  pull_timeout ms s = (s, ok (waiting s.current_packet))

  unfoldable pub put_below : Packet → M L ℕ
  put_below p s =
      let (next', taken) = L.put s.next p in (record s { next = next' }, ok (to_ssize taken))

  unfoldable pub push : List ℕ → M L ℕ
  unfolding put_below
  push block = put_below (packet block 0 (length block))

  abbrev put_gathered : Option Packet → M L ℕ
  unfolding put_below
  put_gathered none s = (s, fault)
  put_gathered (some p) s = put_below p s

  unfoldable pub vec_push : List (List ℕ) → M L ℕ
  unfolding put_gathered
  vec_push iov = put_gathered (gather (map (λ block. packet block 0 (length block)) iov))

  -- A call into the library, run with the session's transport functions.
  unfoldable pub run_io : {A : Type 0} → Io A → M L A
  unfolding pull pull_timeout push vec_push
  run_io (done a) s = (s, ok a)
  run_io (call_pull size k) s = after (λ r. run_io (k r)) (pull size s)
  run_io (call_pull_timeout ms k) s = after (λ r. run_io (k r)) (pull_timeout ms s)
  run_io (call_push block k) s = after (λ r. run_io (k r)) (push block s)
  run_io (call_vec_push iov k) s = after (λ r. run_io (k r)) (vec_push iov s)

  -- The library's own state after a call is kept in the session.
  unfoldable pub keep_tls : {A : Type 0} → L.Tls × A → M L A
  keep_tls (tls', a) s = (record s { tls = tls' }, ok a)

  unfoldable pub call : {A : Type 0} → (L.Tls → Io (L.Tls × A)) → M L A
  unfolding run_io keep_tls
  call f s = after keep_tls (run_io (f s.tls) s)

  -- The calls of the source.
  unfoldable pub gnutls_handshake : M L Code
  unfolding call
  gnutls_handshake = call L.handshake

  unfoldable pub gnutls_record_recv : ℕ → M L (Code × List ℕ)
  unfolding call
  gnutls_record_recv size = call (λ tls. L.record_recv tls size)

  unfoldable pub gnutls_record_send : List ℕ → M L Code
  unfolding call
  gnutls_record_send block = call (λ tls. L.record_send tls block)

  unfoldable pub gnutls_rehandshake : M L Code
  unfolding call
  gnutls_rehandshake = call L.rehandshake

  unfoldable pub gnutls_bye : M L Code
  unfolding call
  gnutls_bye = call L.bye
