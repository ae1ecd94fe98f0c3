-- ===== src/Crypto/Context/Examples.antt =====
-- A session of net/CryptoContext.cpp that is made and moved.
use wetnork.Base.{◌≡◌, refl, [], ◌∷◌, false}
use wetnork.Exceptions.{natural, negative, ok, fault}
use wetnork.Crypto.Context.{
  Held, SessionHandle, open_session, move_session, destroy_session, succeeds,
}
use wetnork.Crypto.Context.Sessions.{both, leave, move_session_faults, open_session_holds}

abbrev one_held : Held
one_held = record { credentials = 1; sessions = 4 ∷ []; transport = λ s. 64 }

move_session_faults_example :
    let r = open_session (natural 0) 5 (natural 0) 128 one_held in
    (o : SessionHandle) × (r.1 ≡ ok o)
    × (r.0.transport (move_session 256 o).0.session ≡ 128)
    × (both (destroy_session (move_session 256 o).1 r.0) (move_session 256 o).0 ≡ fault)
    × (both (destroy_session (move_session 256 o).0 r.0) (move_session 256 o).1 ≡ fault)
move_session_faults_example =
    move_session_faults (natural 0) (natural 0) 5 128 256 one_held refl refl refl

open_session_holds_example :
    let r = open_session (natural 0) 5 (negative 24) 128 one_held in
    (succeeds r.1 ≡ false) × (leave r ≡ 5 ∷ 4 ∷ [])
open_session_holds_example = open_session_holds (natural 0) (negative 24) 5 128 one_held
