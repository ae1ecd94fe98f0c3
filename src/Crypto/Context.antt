-- ===== src/Crypto/Context.antt =====
-- net/CryptoContext.cpp: the objects of GnuTLS that a context and its sessions hold. The results of
-- the library's calls are arguments. The texts of the keys count by their lengths alone.
pub mod Sessions
mod Examples
use wetnork.Base.{
  ℕ, suc, List, ◌∷◌, ◌==◌, ◌-◌, ◌^◌, ◌≡◌, refl, ap, Bool, true, false, not, Bool-cases, inl, inr,
  leb, if◌then◌else◌, arith,
}
use wetnork.Exceptions.{
  Code, natural, Outcome, ok, throw, fault, invalid_argument, crypto_exception,
}
use wetnork.Host.Kernel.{count, close_fd}
use wetnork.Crypto.Library.{is_success, is_error}

-- How many credentials are allocated, the sessions that are, by number, and for each session the
-- address of the object whose transport functions GnuTLS calls.
pub record Held : Type 0 where
  pub credentials : ℕ
  pub sessions : List ℕ
  pub transport : ℕ → ℕ

abbrev pub int_max : ℕ
int_max = 2 ^ 31 - 1

abbrev pub allocated : Held → Held
allocated h = record h { credentials = suc h.credentials }

abbrev pub freed : Held → Held
freed h = record h { credentials = h.credentials - 1 }

-- The constructor, by the lengths of the two keys and the results of the two calls.
unfoldable pub crypto_context : ℕ → ℕ → Code → Code → Held → Held × Outcome (Unit {0})
crypto_context pub_size priv_size allocate set_key h =
    if leb int_max pub_size
    then (h, throw (invalid_argument "pubKey"))
    else if leb int_max priv_size
    then (h, throw (invalid_argument "privKey"))
    else if not (is_success allocate)
    then (h, throw (crypto_exception allocate (natural 0)))
    else if not (is_success set_key)
    then (freed (allocated h), throw (crypto_exception set_key (natural 0)))
    else (allocated h, ok tt)

-- The destructor.
unfoldable pub destroy : Held → Held
destroy h = freed h

-- What a `CryptoSession` at the address `at` keeps of GnuTLS.
pub record SessionHandle : Type 0 where
  pub at : ℕ
  pub session : ℕ

-- Its constructor, as far as it concerns GnuTLS.
abbrev constructed : ℕ → ℕ → Held → Held × Outcome SessionHandle
constructed at session h = (
  record h { transport = λ s. if s == session then at else h.transport s },
  ok (record { at = at; session = session }),
)

-- `new` is the session that `gnutls_init` allocates, and `at` where the object is made.
unfoldable pub open_session : Code → ℕ → Code → ℕ → Held → Held × Outcome SessionHandle
open_session init new set at h =
    let h' = record h { sessions = new ∷ h.sessions } in
    if is_error init
    then (h, throw (crypto_exception init (natural 0)))
    else if is_error set
    then (h', throw (crypto_exception set (natural 0)))
    else constructed at new h'

-- The defaulted move constructor copies the pointer: the new object and what is left of the other.
unfoldable pub move_session : ℕ → SessionHandle → SessionHandle × SessionHandle
move_session to other = (record other { at = to }, other)

-- The destructor. To deinitialise a session that is not allocated is a fault.
unfoldable pub destroy_session : SessionHandle → Held → Outcome Held
destroy_session o h =
    if count o.session h.sessions == 0
    then fault
    else ok (record h { sessions = close_fd o.session h.sessions })

abbrev pub succeeds : {A : Type 0} → Outcome A → Bool
succeeds (ok a) = true
succeeds _ = false

release : (h : Held) → freed (allocated h) ≡ h
release h =
    let same : suc h.credentials - 1 ≡ h.credentials = omega arith in
    ap (λ n. record h { credentials = n }) same

-- The constructor holds new credentials exactly if it succeeds, which it does exactly for keys that
-- are not too long and calls that both succeed; the destructor then brings back what was held.
pub crypto_context_holds :
    (m n : ℕ) (allocate set_key : Code) (h : Held)
    → let r = crypto_context m n allocate set_key h in
      (r.0 ≡ (if succeeds r.1 then allocated h else h))
      × (succeeds r.1 ≡ (
          if leb int_max m
          then false
          else if leb int_max n
          then false
          else if is_success allocate
          then is_success set_key
          else false))
      × (destroy (allocated h) ≡ h)
unfolding crypto_context destroy
crypto_context_holds m n allocate set_key h = elim (Bool-cases (leb int_max m)) [
  | inl long ↦ rw long (refl, refl, release h)
  | inr short ↦ rw short (elim (Bool-cases (leb int_max n)) [
    | inl long ↦ rw long (refl, refl, release h)
    | inr short' ↦ rw short' (elim (Bool-cases (is_success allocate)) [
      | inr refused ↦ rw refused (refl, refl, release h)
      | inl made ↦ rw made (elim (Bool-cases (is_success set_key)) [
        | inl set ↦ rw set (refl, refl, release h)
        | inr unset ↦ rw unset (release h, refl, release h)
      ])
    ])
  ])
]
