-- ===== src/Script/Containers.antt =====
-- src/script/vm/c64-script-vm-dispatch-core.c: the instructions on arrays and maps. A constant that
-- is no string is never used as a name by the compiler; here that fails as a missing one does.
use c64stream.Base.{ℕ, zero, suc, Option, none, some, List, [], ◌∷◌}
use c64stream.Base.Bools.{ltb, if◌then◌else◌}
use c64stream.Base.Int.{ℤ, pos, negsuc}
use c64stream.Script.Floats.{Floats}
use c64stream.Script.Value.{
  Value, Values, Entries, number, string, array, map, ValueType, number_type, string_type,
  array_type, map_type, array_get, array_set, value_array, map_get, map_set, value_map,
}
use c64stream.Script.State.{
  M, pure, fail, ◌>>=◌, push, pop, invalid_constant, array_size_not_number, array_size_too_small,
  array_size_too_large, array_index_not_number, out_of_bounds, not_an_array, map_key_not_string,
  not_a_map, type_mismatch,
}
use c64stream.Script.Runtime.{set_var, get_var, var_exists, name_has_suffix}

-- C64SCRIPT_MAX_ARRAY_SIZE.
abbrev pub max_array_size : ℕ
max_array_size = 65536

abbrev pub element_type : List ℕ → ValueType
element_type name = if name_has_suffix name 36 then string_type else number_type

module _ {F : Type 0} where
  -- The constant with an index; `none` is beyond the pool.
  unfoldable pub constant_at : List (Value F) → ℕ → Option (Value F)
  constant_at [] i = none
  constant_at (v ∷ vs) zero = some v
  constant_at (v ∷ vs) (suc i) = constant_at vs i

  abbrev pub name_of : Option (Value F) → M F (List ℕ)
  name_of (some (string s)) = pure s
  name_of _ = fail invalid_constant

  unfoldable pub constant_name : ℕ → M F (List ℕ)
  unfolding constant_at
  constant_name i r = name_of (constant_at r.constants i) r

module _ {F : Type 0} (N : Floats F) where
  abbrev pub index_in_range : Option ℤ → Option ℕ
  index_in_range none = none
  index_in_range (some (pos n)) = if ltb n max_array_size then some n else none
  index_in_range (some (negsuc n)) = none

  unfoldable pub array_index_from_number : F → Option ℕ
  array_index_from_number x = index_in_range (N.trunc x)

  abbrev pub checked_size : Option ℤ → M F ℕ
  checked_size (some (pos (suc n))) =
      if ltb max_array_size (suc n) then fail array_size_too_large else pure (suc n)
  checked_size _ = fail array_size_too_small

  abbrev pub array_size : Value F → M F ℕ
  array_size (number x) = checked_size (N.trunc x)
  array_size _ = fail array_size_not_number

  unfoldable pub dim_array : ℕ → M F (Unit {0})
  unfolding constant_name
  dim_array operand = do
    name ← constant_name operand
    v ← pop
    n ← array_size v
    set_var N name (value_array N n (element_type name))

  abbrev pub checked_index : Option ℕ → M F ℕ
  checked_index none = fail out_of_bounds
  checked_index (some i) = pure i

  abbrev pub array_index : Value F → M F ℕ
  array_index (number x) = checked_index (array_index_from_number x)
  array_index _ = fail array_index_not_number

  abbrev pub elements_of : Value F → M F (ValueType × Values F)
  elements_of (array t vs) = pure (t, vs)
  elements_of _ = fail not_an_array

  abbrev pub in_bounds : {A : Type 0} → Option A → M F A
  in_bounds none = fail out_of_bounds
  in_bounds (some a) = pure a

  unfoldable pub array_get_op : ℕ → M F (Unit {0})
  unfolding constant_name
  array_get_op operand = do
    name ← constant_name operand
    v ← pop
    i ← array_index v
    (t, vs) ← λ r. elements_of (get_var N name r) r
    x ← in_bounds (array_get vs i)
    push x

  -- The value as the container stores it.
  unfoldable pub element_value : ValueType → Value F → M F (Value F)
  element_value string_type (number x) = pure (string (N.text x))
  element_value string_type (string s) = pure (string s)
  element_value string_type _ = fail type_mismatch
  element_value number_type (number x) = pure (number x)
  element_value number_type _ = fail type_mismatch
  element_value array_type v = pure v
  element_value map_type v = pure v

  unfoldable pub array_set_op : ℕ → M F (Unit {0})
  unfolding constant_name element_value
  array_set_op operand = do
    name ← constant_name operand
    iv ← pop
    v ← pop
    i ← array_index iv
    (t, vs) ← λ r. elements_of (get_var N name r) r
    x ← element_value t v
    after ← in_bounds (array_set vs i x)
    set_var N name (array t after)

  abbrev pub key_of : Value F → M F (List ℕ)
  key_of (string s) = pure s
  key_of _ = fail map_key_not_string

  abbrev pub entries_of : Value F → M F (ValueType × Entries F)
  entries_of (map t es) = pure (t, es)
  entries_of _ = fail not_a_map

  -- A variable can always be read, so that the part for one that cannot is never reached.
  unfoldable pub map_get_op : ℕ → M F (Unit {0})
  unfolding constant_name
  map_get_op operand = do
    name ← constant_name operand
    k ← pop
    key ← key_of k
    (t, es) ← λ r. entries_of (get_var N name r) r
    push (map_get N t es key)

  unfoldable pub map_set_op : ℕ → M F (Unit {0})
  unfolding constant_name element_value
  map_set_op operand = do
    name ← constant_name operand
    k ← pop
    v ← pop
    key ← key_of k
    (t, es) ← λ r.
        entries_of (if var_exists r name then get_var N name r else value_map (element_type name)) r
    x ← element_value t v
    set_var N name (map t (map_set es key x))
