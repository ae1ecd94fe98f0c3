-- ===== src/Dictionary.antt =====
-- What the program asks of a `std::map`: an interface, which the users of a map take as a parameter.
-- Its laws are about maps of one key at most. Those of more keys ask for an order of the keys that is a
-- strict weak one, which `operator<` of include/SocketAddress.hpp is not.
pub mod Assoc
use wetnork.Base.{◌≡◌, Option, none, some, Bool, false}

pub record Dictionary (K V : Type 0) : Type 1 where
  pub Map : Type 0
  pub empty : Map
  pub is_empty : Map → Bool
  pub find : K → Map → Option V
  pub put : K → V → Map → Map
  pub find-empty : (k : K) → find k empty ≡ none
  pub find-put_empty : (k : K) (v : V) → find k (put k v empty) ≡ some v
  pub put-put_empty : (k : K) (v w : V) → put k w (put k v empty) ≡ put k w empty
  pub is_empty-put_empty : (k : K) (v : V) → is_empty (put k v empty) ≡ false
