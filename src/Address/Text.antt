-- ===== src/Address/Text.antt =====
-- Addresses of include/IPAddress.hpp as texts: `str` and `parse` of common/IPAddress.cpp, over the
-- two functions of the C library.
use wetnork.Base.{
  ℕ, ◌≡◌, refl, ap, List, Option, none, some, Bool, true, false, length, take, All, All-take, ◌<◌,
}
use wetnork.Exceptions.{Outcome, ok, fault}
use wetnork.Address.{AddressFamily, ipv4, ipv6, IpAddress, size_of, equal, has_colon, parse}
use wetnork.Address.Order.{IsWellFormed, address_bytes}
use wetnork.Address.Archives.{length-address_bytes, restored, restored-equal}

-- `inet_pton` or `inet_ntop` for one family.
abbrev pub Conversion : Type 0
Conversion = List ℕ → Option (List ℕ)

-- A string that is made of null is a fault.
abbrev text_of : Option (List ℕ) → Outcome (List ℕ)
text_of none = fault
text_of (some text) = ok text

abbrev printer : Conversion → Conversion → AddressFamily → Conversion
printer ntop4 ntop6 ipv4 = ntop4
printer ntop4 ntop6 ipv6 = ntop6

unfoldable pub str : Conversion → Conversion → IpAddress → Outcome (List ℕ)
str ntop4 ntop6 ip = text_of (printer ntop4 ntop6 ip.family (address_bytes ip))

abbrev pub family_has_colon : AddressFamily → Bool
family_has_colon ipv4 = false
family_has_colon ipv6 = true

-- For an address of one family, `inet_ntop` makes a text, with a colon if the family is IPv6 and
-- without one if it is IPv4, of which `inet_pton` makes the address again.
pub record Printed (ntop pton : Conversion) (family : AddressFamily) (bs : List ℕ) : Type 0 where
  pub text : List ℕ
  pub prints : ntop bs ≡ some text
  pub colon : has_colon text ≡ family_has_colon family
  pub reads : pton text ≡ some bs

-- Documented behaviour of the two functions of the C library, for both families.
abbrev pub Converts : Conversion → Conversion → AddressFamily → Type 0
Converts ntop pton family =
    (bs : List ℕ) → length bs ≡ size_of family → All (λ b. b < 256) bs → Printed ntop pton family bs

parse-printed :
    (ntop4 pton4 ntop6 pton6 : Conversion) (rest : List ℕ) (family : AddressFamily) (xs : List ℕ)
    → Converts ntop4 pton4 ipv4
    → Converts ntop6 pton6 ipv6
    → length (take (size_of family) xs) ≡ size_of family
    → All (λ b. b < 256) xs
    → (text : List ℕ) × (text_of (printer ntop4 ntop6 family (take (size_of family) xs)) ≡ ok text)
      × (parse pton4 pton6 rest text ≡ ok (restored family xs rest))
unfolding parse
parse-printed ntop4 pton4 ntop6 pton6 rest ipv4 xs four six h v =
    let p = four (take 4 xs) h (All-take (λ b. b < 256) 4 xs v) in
    (p.text, ap text_of p.prints, rw (p.colon, p.reads) refl)
parse-printed ntop4 pton4 ntop6 pton6 rest ipv6 xs four six h v =
    let p = six (take 16 xs) h (All-take (λ b. b < 256) 16 xs v) in
    (p.text, ap text_of p.prints, rw (p.colon, p.reads) refl)

-- If `inet_ntop` and `inet_pton` do as documented, `parse` takes the text that `str` makes of an
-- address whose union has its 16 bytes for an address that is `==` to it. Of the union that `parse`
-- makes, `rest` is what stands behind an IPv4 address.
pub parse-str :
    (ntop4 pton4 ntop6 pton6 : Conversion) (rest : List ℕ) (ip : IpAddress)
    → Converts ntop4 pton4 ipv4
    → Converts ntop6 pton6 ipv6
    → length rest ≡ 12
    → IsWellFormed ip
    → All (λ b. b < 256) ip.addr
    → (text : List ℕ) × (copy : IpAddress) × (str ntop4 ntop6 ip ≡ ok text)
      × (parse pton4 pton6 rest text ≡ ok copy)
      × (equal ip copy ≡ true)
unfolding str
parse-str ntop4 pton4 ntop6 pton6 rest ip four six twelve h v =
    let (text, prints, reads) =
      parse-printed ntop4 pton4 ntop6 pton6 rest ip.family ip.addr four six
        (length-address_bytes ip h) v in
    (
      text,
      restored ip.family ip.addr rest,
      prints,
      reads,
      restored-equal ip.family ip.addr rest h twelve,
    )
