-- ===== src/Crypto/Peers.antt =====
-- net/CryptoContext.cpp: which peers a context lets in. What GnuTLS says of the peer's certificate
-- is an argument, one field for each call of the source.
use wetnork.Base.{
  ℕ, ◌≡◌, ◌⊎◌, List, [], ◌∷◌, Option, none, some, Bool, false, not, ◌&&◌, ◌||◌, All, if◌then◌else◌,
}
use wetnork.Exceptions.{Outcome, ok, throw, fault, unfinished}
use wetnork.Crypto.Keys.{KeyFingerprint, key_fingerprint, IsBytes, less}

-- Of a context, the keys of the peers that it lets in.
pub record CryptoContext : Type 0 where
  pub peers : List KeyFingerprint

unfoldable pub permissible_peers : CryptoContext → List KeyFingerprint
permissible_peers context = context.peers

unfoldable pub set_permissible_peers : List KeyFingerprint → CryptoContext → CryptoContext
set_permissible_peers peers context = record context { peers = peers }

-- `fingerprint` is what the call filled the array of 128 bytes with, and the length it reported.
pub record PeerCertificate : Type 0 where
  pub is_openpgp : Bool
  pub is_sent : Bool
  pub init_fails : Bool
  pub import_fails : Bool
  pub fingerprint : Option (List ℕ × ℕ)

-- `std::set::count`: is there a key of which neither is less?
unfoldable pub counts : KeyFingerprint → List KeyFingerprint → Bool
counts key [] = false
counts key (k ∷ ks) = (not (less key k) && not (less k key)) || counts key ks

abbrev pub admitted : List KeyFingerprint → Outcome KeyFingerprint → Outcome ℕ
admitted peers (ok key) = ok (if counts key peers then 0 else 1)
admitted peers (throw e) = throw e
admitted peers fault = fault
admitted peers unfinished = unfinished

abbrev pub looked_up : List KeyFingerprint → Option (List ℕ × ℕ) → Outcome ℕ
looked_up peers none = ok 1
looked_up peers (some (block, len)) = admitted peers (key_fingerprint (some block) len)

abbrev pub judged : CryptoContext → PeerCertificate → Outcome ℕ
unfolding permissible_peers
judged context c =
    if not c.is_openpgp
    then ok 1
    else if not c.is_sent
    then ok 1
    else if c.init_fails
    then ok 1
    else if c.import_fails
    then ok 1
    else looked_up (permissible_peers context) c.fingerprint

-- The context is reached through the pointer to a session object that `gnutls_session_set_ptr` was
-- given, which is null if that was never called.
unfoldable pub gnutls_certificate_verify : Option CryptoContext → PeerCertificate → Outcome ℕ
gnutls_certificate_verify none c = fault
gnutls_certificate_verify (some context) c = judged context c

-- One of the permissible peers has the key.
abbrev pub IsPermissible : List ℕ → List KeyFingerprint → Type 0
IsPermissible cs [] = ⊥
IsPermissible cs (k ∷ ks) = (k.chars ≡ cs) ⊎ IsPermissible cs ks

abbrev pub AllBytes : List KeyFingerprint → Type 0
AllBytes ks = All (λ (k : KeyFingerprint). IsBytes k.chars) ks

abbrev key_of : List ℕ → KeyFingerprint
key_of cs = record { chars = cs }

abbrev verdict : Bool → Bool → Bool → Bool → Bool → Outcome ℕ
verdict b p q r s =
    if not p
    then ok 1
    else if not q
    then ok 1
    else if r
    then ok 1
    else if s
    then ok 1
    else ok (if b then 0 else 1)
