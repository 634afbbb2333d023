-- ===== src/Script/Value.antt =====
-- src/script/c64-script.h and runtime/c64-script-runtime.c: the values of the scripts, the
-- operations on arrays and maps. A copy of a value is the value; memory is not modelled, and
-- neither is its lack. Pointers are not null.
pub mod Maps
pub mod Arrays
mod Tests
use Prim.Native.Nat.{bit_xor}
use c64stream.Base.{
  ℕ, zero, suc, ◌+◌, ◌*◌, ◌%◌, ◌^◌, Bool, true, false, ◌&&◌, Option, none, some, List, [], ◌∷◌,
}
use c64stream.Base.Bools.{◌==◌, ltb, if◌then◌else◌}
use c64stream.Base.Bytes.{same_text}
use c64stream.Script.Floats.{Floats}

-- c64script_value_type_t
pub data ValueType : Type 0 where
  number_type string_type array_type map_type : ValueType

-- The entries of a map keep the hash of their key.
mutual
  pub data Value (F : Type 0) : Type 0 where
    number : F → Value F
    string : List ℕ → Value F
    array : ValueType → Values F → Value F
    map : ValueType → Entries F → Value F

  pub data Values (F : Type 0) : Type 0 where
    no_values : Values F
    value : Value F → Values F → Values F

  pub data Entries (F : Type 0) : Type 0 where
    no_entries : Entries F
    entry : List ℕ → ℕ → Value F → Entries F → Entries F

module _ {F : Type 0} where
  abbrev pub type_of : Value F → ValueType
  type_of (number x) = number_type
  type_of (string s) = string_type
  type_of (array t es) = array_type
  type_of (map t es) = map_type

  abbrev pub size : Values F → ℕ
  size no_values = 0
  size (value v vs) = suc (size vs)

  -- `none` is out of bounds.
  unfoldable pub array_get : Values F → ℕ → Option (Value F)
  array_get no_values i = none
  array_get (value v vs) zero = some v
  array_get (value v vs) (suc i) = array_get vs i

  abbrev pub value_before : Value F → Option (Values F) → Option (Values F)
  value_before v none = none
  value_before v (some vs) = some (value v vs)

  unfoldable pub array_set : Values F → ℕ → Value F → Option (Values F)
  array_set no_values i x = none
  array_set (value v vs) zero x = some (value x vs)
  array_set (value v vs) (suc i) x = value_before v (array_set vs i x)

  -- calloc and the loop that writes the initial elements.
  unfoldable pub fill : ℕ → Value F → Values F
  fill zero x = no_values
  fill (suc n) x = value x (fill n x)

-- FNV-1a over bytes, in 32 bits, from a given hash on.
unfoldable pub hash_from : ℕ → List ℕ → ℕ
hash_from hash [] = hash
hash_from hash (c ∷ cs) = hash_from (bit_xor hash c * 16777619 % 2 ^ 32) cs

unfoldable pub hash_string : List ℕ → ℕ
unfolding hash_from
hash_string str = hash_from 2166136261 str

module _ {F : Type 0} (N : Floats F) where
  -- The initial element of an array and the default of a map, by its value type.
  abbrev pub default_value : ValueType → Value F
  default_value string_type = string []
  default_value _ = number N.zero

  unfoldable pub value_array : ℕ → ValueType → Value F
  unfolding fill
  value_array n t = array t (fill n (default_value t))

  unfoldable pub map_get : ValueType → Entries F → List ℕ → Value F
  map_get t no_entries key = default_value t
  map_get t (entry k h v es) key =
      if h == hash_string key && same_text k key then v else map_get t es key

module _ {F : Type 0} where
  abbrev pub value_map : ValueType → Value F
  value_map t = map t no_entries

  unfoldable pub map_set : Entries F → List ℕ → Value F → Entries F
  map_set no_entries key x = entry key (hash_string key) x no_entries
  map_set (entry k h v es) key x =
      if h == hash_string key && same_text k key
      then entry k h x es
      else entry k h v (map_set es key x)
