-- ===== src/Program.antt =====
-- wetnork.cpp: the statements of `main` up to its first `return`, the only ones that run.
use mathlib.Core.List.{append-nil}
use wetnork.Base.{
  ℕ, ◌≡◌, refl, List, [], ◌∷◌, Option, none, some, length, take, take_all, arith, Option-cases, inl,
  inr,
}
use wetnork.Exceptions.{Outcome, ok, throw, fault, unfinished, invalid_argument}
use wetnork.Ipc.{Archive, run}
use wetnork.Address.{IpAddress, parse, serialize, has_colon, of_in6_addr, native_family, int_bytes}
use wetnork.Address.Archives.{run-serialize}

-- "::1.2.3.4".
abbrev pub address_text : List ℕ
address_text = b':' ∷ b':' ∷ b'1' ∷ b'.' ∷ b'2' ∷ b'.' ∷ b'3' ∷ b'.' ∷ b'4' ∷ []

-- What is given to `write` for the standard output, whose result is ignored, and the exit status.
abbrev written : Option Archive → Outcome (List ℕ × ℕ)
written none = fault
written (some p) = ok (p.bytes_, 0)

abbrev serialized : Outcome IpAddress → Outcome (List ℕ × ℕ)
serialized (ok ip) = written (run (serialize ip))
serialized (throw e) = throw e
serialized fault = fault
serialized unfinished = unfinished

unfoldable pub main :
    (List ℕ → Option (List ℕ)) → (List ℕ → Option (List ℕ)) → List ℕ → Outcome (List ℕ × ℕ)
main pton4 pton6 rest = serialized (parse pton4 pton6 rest address_text)

abbrev pub printed : Option (List ℕ) → Outcome (List ℕ × ℕ)
printed none = throw (invalid_argument "Cannot parse address")
printed (some native) = ok (10 ∷ 0 ∷ 0 ∷ 0 ∷ native, 0)

-- If `inet_pton` makes 16 bytes of every IPv6 address, the program writes 10 as a little-endian `int`
-- and the bytes that `inet_pton` makes of "::1.2.3.4", and exits with 0; if it takes the text for no
-- address, the program ends with an uncaught `invalid_argument`. IPv4 addresses play no part.
pub main_lem :
    (pton4 pton6 : List ℕ → Option (List ℕ)) (rest : List ℕ)
    → ((text native : List ℕ) → pton6 text ≡ some native → length native ≡ 16)
    → main pton4 pton6 rest ≡ printed (pton6 address_text)
unfolding main parse has_colon of_in6_addr int_bytes native_family
main_lem pton4 pton6 rest h = elim (Option-cases (pton6 address_text)) [
  | inl e ↦ rw e refl
  | inr (native, e) ↦
      let size : length native ≡ 16 = h address_text native e in
      rw
        (
          e,
          run-serialize (of_in6_addr native),
          append-nil (take 16 native),
          take_all 16 native (omega arith),
        )
        refl
]
