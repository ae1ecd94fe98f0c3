-- ===== src/Ipc/Types.antt =====
-- include/ipc/is_serializable.hpp: the types that an archive takes. Of a type the model keeps what the
-- traits ask the compiler about it.
use wetnork.Base.{ℕ, ◌≡◌, refl, ◌↔◌, Bool, true, false, ◌||◌, arith, Bool-cases, inl, inr}

-- Of a class: whether it is plain old data, whether `is_serializable` is specialised for it, and
-- whether `serialize` and `deserialize` for it can be found by its namespaces.
pub record Class : Type 0 where
  pub size : ℕ
  pub pod : Bool
  pub marked : Bool
  pub functions : Bool

-- A number is a size in bytes, or the length of an array.
pub data CppType : Type 0 where
  arithmetic enumeration : ℕ → CppType
  class_ : Class → CppType
  array : CppType → ℕ → CppType

abbrev is_arithmetic : CppType → Bool
is_arithmetic (arithmetic n) = true
is_arithmetic _ = false

abbrev is_enum : CppType → Bool
is_enum (enumeration n) = true
is_enum _ = false

abbrev is_complex_serializable : CppType → Bool
is_complex_serializable (class_ c) = c.functions
is_complex_serializable _ = false

abbrev is_marked : CppType → Bool
is_marked (class_ c) = c.marked
is_marked _ = false

-- The primary template, unless there is a specialisation.
abbrev primary : CppType → Bool
primary t = is_arithmetic t || (is_enum t || is_complex_serializable t)

unfoldable pub is_serializable : CppType → Bool
is_serializable (array t n) = is_serializable t
is_serializable (arithmetic n) = primary (arithmetic n)
is_serializable (enumeration n) = primary (enumeration n)
is_serializable (class_ c) = c.marked || primary (class_ c)

-- The concept, in the words of its documentation.
pub data IsSerializable : CppType → Type 0 where
  of_arithmetic : (n : ℕ) → IsSerializable (arithmetic n)
  of_enumeration : (n : ℕ) → IsSerializable (enumeration n)
  of_functions : (c : Class) → c.functions ≡ true → IsSerializable (class_ c)
  of_mark : (c : Class) → c.marked ≡ true → IsSerializable (class_ c)
  of_array : (t : CppType) (n : ℕ) → IsSerializable t → IsSerializable (array t n)

of_class : (c : Class) → (c.marked || c.functions) ≡ true → IsSerializable (class_ c)
of_class c h = elim (Bool-cases c.marked) [
  | inl m ↦ of_mark c m
  | inr n ↦ of_functions c (rw n at h)
]

to_concept : (t : CppType) → is_serializable t ≡ true → IsSerializable t
unfolding is_serializable
to_concept (arithmetic n) h = of_arithmetic n
to_concept (enumeration n) h = of_enumeration n
to_concept (class_ c) h = of_class c h
to_concept (array t n) h = of_array t n (to_concept t h)

of_concept : (t : CppType) → IsSerializable t → is_serializable t ≡ true
unfolding is_serializable
of_concept _ (of_arithmetic n) = refl
of_concept _ (of_enumeration n) = refl
of_concept _ (of_functions c h) = ground (arith, h)
of_concept _ (of_mark c h) = ground (arith, h)
of_concept _ (of_array t n h) = of_concept t h

-- The trait says true of exactly the types that its documentation calls serializable.
pub is_serializable_iff : (t : CppType) → (is_serializable t ≡ true) ↔ IsSerializable t
is_serializable_iff t = (to_concept t, of_concept t)
