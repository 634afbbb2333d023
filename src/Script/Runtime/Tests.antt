-- ===== src/Script/Runtime/Tests.antt =====
-- Runs of the variables.
use c64stream.Base.{ℕ, ◌≡◌, List, [], ◌∷◌, refl, inl, arith}
use c64stream.Base.Bools.{if◌then◌else◌}
use c64stream.Script.Value.{number}
use c64stream.Script.State.{Runtime, done}
use c64stream.Script.Runtime.{
  find_var, name_has_suffix, normalize_identifier, stored_value, set_var, get_var, set_global,
  new_var,
}
use c64stream.Script.Runtime.Variables.{same_name, set_var-get_var}
use c64stream.Script.Runtime.Limits.{HasRoom, Stores, set_global-Stores}
use c64stream.Script.Samples.{whole_numbers, blank}

-- "x%", "X%".
abbrev small_x : List ℕ
small_x = 120 ∷ 37 ∷ []

abbrev big_x : List ℕ
big_x = 88 ∷ 37 ∷ []

abbrev with_x : Runtime ℕ
with_x = record blank { variables = new_var big_x (number 5) ∷ []; variable_capacity = 64 }

stored :
    stored_value whole_numbers (normalize_identifier small_x) (number 5) blank
    ≡ done (number 5) blank
unfolding stored_value normalize_identifier name_has_suffix
stored = refl

has_set : set_var whole_numbers small_x (number 5) blank ≡ done tt with_x
unfolding set_var normalize_identifier set_global name_has_suffix find_var
has_set = refl

set_var-get_var_example :
    get_var whole_numbers big_x with_x
    ≡ (if same_name 63 small_x big_x then number 5 else get_var whole_numbers big_x blank)
set_var-get_var_example =
    set_var-get_var whole_numbers small_x big_x (number 5) (number 5) blank with_x stored has_set

blank-HasRoom : HasRoom blank
blank-HasRoom = (inl refl, omega arith)

set_global-Stores_example : Stores big_x blank (set_global big_x (number 5) blank)
set_global-Stores_example = set_global-Stores big_x (number 5) blank blank-HasRoom
