-- ===== src/Address/Examples.antt =====
-- Addresses of include/IPAddress.hpp: 10.0.0.1.
use wetnork.Base.{
  map, ◌+◌, ◌-◌, ◌<◌, drop, All, ap₂, false, zero, suc, ℕ, ◌≡◌, refl, ap, ◌↔◌, List, [], ◌∷◌, some,
  true, length, replicate, arith,
}
use wetnork.Ipc
use wetnork.Ipc.{Archive, Deserializer, deserializer, run}
use wetnork.Address.{ipv4, ipv6, IpAddress, equal, serialize, deserialize, has_colon, parse}
use wetnork.Address.Classes.{equal-run-serialize}
use wetnork.Address.Archives.{deserialize-serialize}
use wetnork.Address.Text.{Conversion, Converts, str, parse-str}
use wetnork.Exceptions.{ok}

abbrev unset : List ℕ
unset = replicate 12 0

abbrev first_host : IpAddress
first_host = record { addr = 10 ∷ 0 ∷ 0 ∷ 1 ∷ unset; family = ipv4 }

deserialize-serialize_example :
    (a : Archive) × (copy : IpAddress) × (d : Deserializer) × (Ipc.serialize serialize first_host
      ≡ some a)
    × (deserialize unset (deserializer a 0 0) ≡ some (copy, d))
    × (equal first_host copy ≡ true)
    × (d.byte_offset ≡ length a.bytes_)
deserialize-serialize_example = deserialize-serialize first_host unset 0 refl refl

-- The first host as a union with other bytes behind it.
abbrev first_again : IpAddress
first_again = record { addr = 10 ∷ 0 ∷ 0 ∷ 1 ∷ replicate 12 7; family = ipv4 }

equal-run-serialize_example :
    (equal first_host first_again ≡ true)
    ↔ (run (serialize first_host) ≡ run (serialize first_again))
equal-run-serialize_example = equal-run-serialize first_host first_again refl refl

-- Functions that print and read an address, as other texts than those of the C library.
abbrev print4 : Conversion
print4 bs = some (map (λ b. b + 59) bs)

abbrev read4 : Conversion
read4 text = some (map (λ c. c - 59) text)

abbrev print6 : Conversion
print6 bs = some (b':' ∷ bs)

abbrev read6 : Conversion
read6 text = some (drop 1 text)

no_colon : (bs : List ℕ) → has_colon (map (λ b. b + 59) bs) ≡ false
unfolding has_colon
no_colon [] = refl
no_colon (b ∷ bs) = ground (arith, no_colon bs)

read_back : (bs : List ℕ) → map (λ c. c - 59) (map (λ b. b + 59) bs) ≡ bs
read_back [] = refl
read_back (b ∷ bs) = ap₂ (λ x xs. x ∷ xs) (omega arith) (read_back bs)

converts4 : Converts print4 read4 ipv4
converts4 bs h v = record {
  text = map (λ b. b + 59) bs;
  prints = refl;
  colon = no_colon bs;
  reads = ap some (read_back bs);
}

converts6 : Converts print6 read6 ipv6
unfolding has_colon
converts6 bs h v = record { text = b':' ∷ bs; prints = refl; colon = refl; reads = refl }

zeros-AllBytes : (n : ℕ) → All (λ b. b < 256) (replicate n 0)
zeros-AllBytes zero = tt
zeros-AllBytes (suc n) = (omega arith, zeros-AllBytes n)

first_host-AllBytes : All (λ b. b < 256) first_host.addr
first_host-AllBytes = (omega arith, (omega arith, (omega arith, (omega arith, zeros-AllBytes 12))))

parse-str_example :
    (text : List ℕ) × (copy : IpAddress) × (str print4 print6 first_host ≡ ok text)
    × (parse read4 read6 unset text ≡ ok copy)
    × (equal first_host copy ≡ true)
parse-str_example =
    parse-str print4 read4 print6 read6 unset first_host converts4 converts6 refl refl
      first_host-AllBytes
