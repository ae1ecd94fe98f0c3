-- ===== src/Address/Native.antt =====
-- The types of C++ that `serialize` and `deserialize` of common/IPAddress.cpp write and read, as
-- include/ipc/is_serializable.hpp sees them.
use wetnork.Base.{◌≡◌, refl, true, false}
use wetnork.Ipc.Types.{Class, CppType, class_, enumeration, is_serializable}
use wetnork.Address.{AddressFamily, ipv4, ipv6, size_of}

-- The specialisations of `is_serializable` for the native addresses, which are plain old data.
abbrev pub in_addr : Class
in_addr = record { size = 4; pod = true; marked = true; functions = false }

abbrev pub in6_addr : Class
in6_addr = record { size = 16; pod = true; marked = true; functions = false }

-- `IPAddress`: the union and the family, with constructors and the two functions.
abbrev pub ip_address : Class
ip_address = record { size = 20; pod = false; marked = false; functions = true }

abbrev pub address_family : CppType
address_family = enumeration 4

abbrev pub native_class : AddressFamily → Class
native_class ipv4 = in_addr
native_class ipv6 = in6_addr

abbrev pub native_type : AddressFamily → CppType
native_type f = class_ (native_class f)

-- All that the address's functions write and read is serializable, and so is the address itself; the
-- native address has the size that the model copies.
pub is_serializable-native_type :
    (f : AddressFamily)
    → (is_serializable (class_ ip_address) ≡ true)
      × (is_serializable address_family ≡ true)
      × (is_serializable (native_type f) ≡ true)
      × ((native_class f).size ≡ size_of f)
unfolding is_serializable
is_serializable-native_type ipv4 = (refl, refl, refl, refl)
is_serializable-native_type ipv6 = (refl, refl, refl, refl)
