-- ===== src/Script/Runtime.antt =====
-- src/script/runtime/c64-script-runtime.c: the variables of a running script.
pub mod Variables
pub mod Limits
mod Tests
use c64stream.Base.{
  ℕ, zero, suc, ◌+◌, ◌-◌, ◌*◌, ◌%◌, ◌^◌, Bool, true, false, Option, none, some, List, [], ◌∷◌, ◌++◌,
  map,
}
use c64stream.Base.Int.{ℤ, pos, negsuc}
use c64stream.Base.Bools.{◌==◌, ltb, leb, if◌then◌else◌}
use c64stream.Base.Bytes.{same_text, to_upper}
use c64stream.Base.Lists.{length, take}
use c64stream.Base.Words.{signed32}
use c64stream.Script.Floats.{Floats}
use c64stream.Script.State.{
  Variable, Scope, Runtime, M, done, fail, pure, ◌>>=◌, type_mismatch, illegal_quantity,
  too_many_variables,
}
use c64stream.Script.Value.{Value, number, string, array, map as map_value}

-- C64SCRIPT_MAX_VARIABLES.
abbrev pub max_variables : ℕ
max_variables = 512

unfoldable pub normalize_identifier : List ℕ → List ℕ
normalize_identifier name = take 63 (map to_upper name)

-- Whether the last byte is `suffix`.
unfoldable pub name_has_suffix : List ℕ → ℕ → Bool
name_has_suffix [] suffix = false
name_has_suffix (c ∷ []) suffix = c == suffix
name_has_suffix (c ∷ d ∷ cs) suffix = name_has_suffix (d ∷ cs) suffix

-- The remainder modulo 2 ^ 32, as `fmod` and the correction below zero give it.
abbrev pub wrap32 : ℤ → ℕ
wrap32 (pos n) = n % 2 ^ 32
wrap32 (negsuc n) = (2 ^ 32 - (n + 1) % 2 ^ 32) % 2 ^ 32

module _ {F : Type 0} (N : Floats F) where
  abbrev pub integer_of : Option ℤ → M F (Value F)
  integer_of none = fail illegal_quantity
  integer_of (some z) = pure (number (N.from_int (signed32 (wrap32 z))))

  unfoldable pub coerce_integer_value : Value F → M F (Value F)
  coerce_integer_value (number x) = integer_of (N.trunc x)
  coerce_integer_value _ = fail type_mismatch

  unfoldable pub coerce_string_value : Value F → M F (Value F)
  coerce_string_value (string s) = pure (string s)
  coerce_string_value (number x) = pure (string (N.text x))
  coerce_string_value _ = fail type_mismatch

  -- By the suffix `$` or `%` of the name; arrays and maps are stored as they are.
  unfoldable pub stored_value : List ℕ → Value F → M F (Value F)
  unfolding coerce_string_value coerce_integer_value
  stored_value key (array t vs) = pure (array t vs)
  stored_value key (map_value t es) = pure (map_value t es)
  stored_value key v =
      if name_has_suffix key 36
      then coerce_string_value v
      else if name_has_suffix key 37
      then coerce_integer_value v
      else pure v

module _ {F : Type 0} where
  -- The loop that looks for a variable.
  unfoldable pub find_var : List (Variable F) → List ℕ → Option (Value F)
  find_var [] key = none
  find_var (x ∷ xs) key = if same_text x.name key then some x.value else find_var xs key

  -- The loop that overwrites one.
  unfoldable pub overwrite : List (Variable F) → List ℕ → Value F → List (Variable F)
  overwrite [] key v = []
  overwrite (x ∷ xs) key v =
      if same_text x.name key then record x { value = v } ∷ xs else x ∷ overwrite xs key v

  abbrev pub is_found : Option (Value F) → Bool
  is_found none = false
  is_found (some v) = true

  abbrev pub new_var : List ℕ → Value F → Variable F
  new_var key v = record { name = key; value = v }

  -- Overwrites a variable, or adds one at the end.
  unfoldable pub assign : List (Variable F) → List ℕ → Value F → List (Variable F)
  assign xs key v =
      if is_found (find_var xs key) then overwrite xs key v else xs ++ new_var key v ∷ []

  -- The global variables, whose room doubles up to the limit.
  unfoldable pub set_global : List ℕ → Value F → M F (Unit {0})
  unfolding assign
  set_global key v r =
      let doubled = if r.variable_capacity == 0 then 64 else r.variable_capacity * 2 in
      if is_found (find_var r.variables key)
      then done tt (record r { variables = assign r.variables key v })
      else if ltb (length r.variables) r.variable_capacity
      then done tt (record r { variables = assign r.variables key v })
      else if ltb max_variables doubled
      then fail too_many_variables r
      else done tt (record r { variables = assign r.variables key v; variable_capacity = doubled })

  -- The variables of the innermost function, if any; else the global ones.
  abbrev pub set_in : List (Scope F) → List ℕ → Value F → M F (Unit {0})
  set_in [] key v = set_global key v
  set_in (s ∷ ss) key v = λ r.
      done tt (record r { scope_stack = record s { local_vars = assign s.local_vars key v } ∷ ss })

  abbrev pub find_in : List (Scope F) → List (Variable F) → List ℕ → Option (Value F)
  find_in [] globals key = find_var globals key
  find_in (s ∷ ss) globals key =
      if is_found (find_var s.local_vars key)
      then find_var s.local_vars key
      else find_var globals key

  unfoldable pub var_exists : Runtime F → List ℕ → Bool
  var_exists r name = is_found (find_in r.scope_stack r.variables (normalize_identifier name))

module _ {F : Type 0} (N : Floats F) where
  unfoldable pub set_var : List ℕ → Value F → M F (Unit {0})
  unfolding stored_value
  set_var name v = do
    w ← stored_value N (normalize_identifier name) v
    λ r. set_in r.scope_stack (normalize_identifier name) w r

  abbrev pub or_zero : Option (Value F) → Value F
  or_zero none = number N.zero
  or_zero (some v) = v

  -- A variable that is not set reads as zero.
  unfoldable pub get_var : List ℕ → Runtime F → Value F
  get_var name r = or_zero (find_in r.scope_stack r.variables (normalize_identifier name))
