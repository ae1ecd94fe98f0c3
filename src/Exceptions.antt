-- ===== src/Exceptions.antt =====
-- include/exception.hpp, net/CryptoException.cpp and net/SocketException.cpp, with the standard
-- exceptions that the program throws, and what a call comes to. Codes that the source keeps in an
-- `int` are `Code`s: `negative n` is -(n + 1).
use Prim.Native.String.{String, ◌++◌}
use wetnork.Base.{ℕ, Option, none, some}

pub data Code : Type 0 where
  natural : ℕ → Code
  negative : ℕ → Code

-- Of a `SocketException` the text stands before that of its number. The texts of a `CryptoException` are
-- those of its code.
pub data Exception : Type 0 where
  file_not_found invalid_operation invalid_argument runtime_error out_of_range : String → Exception
  crypto_exception : Code → Code → Exception
  socket_exception : ℕ → String → Exception
  system_error : ℕ → Exception

-- The texts of the error numbers of the system and of the codes of GnuTLS, and the text that the
-- library's `system_error` has, as `strerror`, `gnutls_strerror` and `std::system_error::what` give them.
pub record Texts : Type 0 where
  pub strerror : ℕ → String
  pub gnutls_strerror : Code → String
  pub system_what : ℕ → String

unfoldable pub what : Texts → Exception → String
what t (file_not_found text) = text
what t (invalid_operation text) = text
what t (invalid_argument text) = text
what t (runtime_error text) = text
what t (out_of_range text) = text
what t (crypto_exception code alert) = t.gnutls_strerror code
what t (socket_exception number begin) = begin ++ t.strerror number
what t (system_error number) = t.system_what number

-- The accessors of `CryptoException` and of `SocketException`.
unfoldable pub get_code : Exception → Option Code
get_code (crypto_exception code alert) = some code
get_code _ = none

unfoldable pub get_alert : Exception → Option Code
get_alert (crypto_exception code alert) = some alert
get_alert _ = none

unfoldable pub get_number : Exception → Option ℕ
get_number (socket_exception number begin) = some number
get_number _ = none

-- `fault` is undefined behaviour: an access out of bounds, or through a null or freed pointer.
-- `unfinished` says that the fuel of a model did not suffice.
pub data Outcome {ℓ} (A : Type ℓ) : Type ℓ where
  ok : A → Outcome A
  throw : Exception → Outcome A
  fault : Outcome A
  unfinished : Outcome A
