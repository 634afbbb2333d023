-- ===== src/Script/Vm/Tables.antt =====
-- The instructions on arrays and maps keep the bounds.
use c64stream.Base.{ℕ, zero, suc, Option, none, some, List}
use c64stream.Base.Bools.{if◌then◌else◌}
use c64stream.Base.Int.{ℤ, pos, negsuc}
use c64stream.Script.Floats.{Floats}
use c64stream.Script.Value.{
  Value, number, string, array, map, ValueType, number_type, string_type, array_type, map_type,
  array_get, array_set, map_get, map_set, value_map,
}
use c64stream.Script.Runtime.{get_var, var_exists}
use c64stream.Script.Containers.{
  checked_size, array_size, dim_array, checked_index, array_index_from_number, array_index,
  elements_of, in_bounds, array_get_op, element_value, array_set_op, key_of, entries_of, map_get_op,
  map_set_op, element_type,
}
use c64stream.Script.Vm.Store.{set_var-IsSound}
use c64stream.Script.Vm.Frame.{
  Plan, IsSound, sound, pure-IsSound, fail-IsSound, bind-IsSound, if-IsSound, push-IsSound,
  pop-IsSound,
}
use c64stream.Script.Vm.Values.{constant_name-IsSound}

module _ {F : Type 0} {p : Plan} (N : Floats F) where
  in_bounds-IsSound : {A : Type 0} (x : Option A) → IsSound {F = F} p (in_bounds N x)
  in_bounds-IsSound none = fail-IsSound _
  in_bounds-IsSound (some a) = pure-IsSound a

  key_of-IsSound : (v : Value F) → IsSound p (key_of N v)
  key_of-IsSound (number x) = fail-IsSound _
  key_of-IsSound (string s) = pure-IsSound s
  key_of-IsSound (array t vs) = fail-IsSound _
  key_of-IsSound (map t es) = fail-IsSound _

  checked_size-IsSound : (z : Option ℤ) → IsSound p (checked_size N z)
  checked_size-IsSound none = fail-IsSound _
  checked_size-IsSound (some (pos zero)) = fail-IsSound _
  checked_size-IsSound (some (pos (suc n))) = if-IsSound _ (fail-IsSound _) (pure-IsSound _)
  checked_size-IsSound (some (negsuc n)) = fail-IsSound _

  array_size-IsSound : (v : Value F) → IsSound p (array_size N v)
  array_size-IsSound (number x) = checked_size-IsSound (N.trunc x)
  array_size-IsSound (string s) = fail-IsSound _
  array_size-IsSound (array t vs) = fail-IsSound _
  array_size-IsSound (map t es) = fail-IsSound _

  pub dim_array-IsSound : (i : ℕ) → IsSound p (dim_array N i)
  unfolding dim_array
  dim_array-IsSound i = bind-IsSound (constant_name-IsSound i) λ name.
      bind-IsSound pop-IsSound
        λ v. bind-IsSound (array_size-IsSound v) λ n. set_var-IsSound N name _

  checked_index-IsSound : (i : Option ℕ) → IsSound p (checked_index N i)
  checked_index-IsSound none = fail-IsSound _
  checked_index-IsSound (some i) = pure-IsSound i

  array_index-IsSound : (v : Value F) → IsSound p (array_index N v)
  array_index-IsSound (number x) = checked_index-IsSound (array_index_from_number N x)
  array_index-IsSound (string s) = fail-IsSound _
  array_index-IsSound (array t vs) = fail-IsSound _
  array_index-IsSound (map t es) = fail-IsSound _

  elements_of-IsSound : (v : Value F) → IsSound p (elements_of N v)
  elements_of-IsSound (number x) = fail-IsSound _
  elements_of-IsSound (string s) = fail-IsSound _
  elements_of-IsSound (array t vs) = pure-IsSound (t, vs)
  elements_of-IsSound (map t es) = fail-IsSound _

  entries_of-IsSound : (v : Value F) → IsSound p (entries_of N v)
  entries_of-IsSound (number x) = fail-IsSound _
  entries_of-IsSound (string s) = fail-IsSound _
  entries_of-IsSound (array t vs) = fail-IsSound _
  entries_of-IsSound (map t es) = pure-IsSound (t, es)

  read_elements-IsSound : (name : List ℕ) → IsSound p (λ r. elements_of N (get_var N name r) r)
  read_elements-IsSound name = sound λ r o. (elements_of-IsSound (get_var N name r)).keeps r o

  pub array_get_op-IsSound : (i : ℕ) → IsSound p (array_get_op N i)
  unfolding array_get_op
  array_get_op-IsSound i = bind-IsSound (constant_name-IsSound i) λ name.
      bind-IsSound pop-IsSound λ v. bind-IsSound (array_index-IsSound v) λ k.
        bind-IsSound (read_elements-IsSound name)
          λ (t, vs). bind-IsSound (in_bounds-IsSound (array_get vs k)) λ x. push-IsSound x

  element_value-IsSound : (t : ValueType) (v : Value F) → IsSound p (element_value N t v)
  unfolding element_value
  element_value-IsSound number_type (number x) = pure-IsSound _
  element_value-IsSound number_type (string s) = fail-IsSound _
  element_value-IsSound number_type (array t vs) = fail-IsSound _
  element_value-IsSound number_type (map t es) = fail-IsSound _
  element_value-IsSound string_type (number x) = pure-IsSound _
  element_value-IsSound string_type (string s) = pure-IsSound _
  element_value-IsSound string_type (array t vs) = fail-IsSound _
  element_value-IsSound string_type (map t es) = fail-IsSound _
  element_value-IsSound array_type v = pure-IsSound v
  element_value-IsSound map_type v = pure-IsSound v

  pub array_set_op-IsSound : (i : ℕ) → IsSound p (array_set_op N i)
  unfolding array_set_op
  array_set_op-IsSound i = bind-IsSound (constant_name-IsSound i) λ name.
      bind-IsSound pop-IsSound λ iv. bind-IsSound pop-IsSound λ v.
        bind-IsSound (array_index-IsSound iv) λ k.
          bind-IsSound (read_elements-IsSound name) λ (t, vs).
            bind-IsSound (element_value-IsSound t v) λ x.
              bind-IsSound (in_bounds-IsSound (array_set vs k x))
                λ after. set_var-IsSound N name (array t after)

  pub map_get_op-IsSound : (i : ℕ) → IsSound p (map_get_op N i)
  unfolding map_get_op
  map_get_op-IsSound i = bind-IsSound (constant_name-IsSound i) λ name.
      bind-IsSound pop-IsSound λ k. bind-IsSound (key_of-IsSound k) λ key.
        bind-IsSound (sound λ r o. (entries_of-IsSound (get_var N name r)).keeps r o)
          λ (t, es). push-IsSound (map_get N t es key)

  pub map_set_op-IsSound : (i : ℕ) → IsSound p (map_set_op N i)
  unfolding map_set_op
  map_set_op-IsSound i = bind-IsSound (constant_name-IsSound i) λ name.
      bind-IsSound pop-IsSound λ k. bind-IsSound pop-IsSound λ v.
        bind-IsSound (key_of-IsSound k) λ key.
          bind-IsSound
            (sound λ r o.
              (entries_of-IsSound (
                  if var_exists r name
                  then get_var N name r
                  else value_map (element_type name))).keeps
                r o)
            λ (t, es).
              bind-IsSound (element_value-IsSound t v)
                λ x. set_var-IsSound N name (map t (map_set es key x))
