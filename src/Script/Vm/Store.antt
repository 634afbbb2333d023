-- ===== src/Script/Vm/Store.antt =====
-- Setting a variable keeps the bounds.
use c64stream.Base.{ℕ, ◌≤◌, sym, subst, Option, none, some, List, [], ◌∷◌, arith}
use c64stream.Base.Int.{ℤ}
use c64stream.Base.Bools.{if-split, ltb, ltb→lt}
use c64stream.Base.Lists.{length}
use c64stream.Script.Floats.{Floats}
use c64stream.Script.Value.{Value, number, string, array, map}
use c64stream.Script.State.{Runtime, Scope, illegal_quantity}
use c64stream.Script.Runtime.{
  set_var, set_in, set_global, find_var, is_found, stored_value, max_variables,
  coerce_integer_value, integer_of, coerce_string_value, normalize_identifier,
}
use c64stream.Script.Control.{max_scopes}
use c64stream.Script.Runtime.Limits.{
  length-assign-old, length-assign, doubled, doubled_more, not_ltb→le,
}
use c64stream.Script.Vm.Frame.{
  Plan, Fits, After, IsSound, sound, pure-IsSound, fail-IsSound, bind-IsSound, if-IsSound,
}

module _ {F : Type 0} {p : Plan} where
  pub set_global-IsSound : (key : List ℕ) (v : Value F) → IsSound p (set_global key v)
  unfolding set_global
  set_global-IsSound key v = sound λ r o.
      if-split (After {F = F} {A = Unit {0}} p) (is_found (find_var r.variables key))
        (λ e. (
          o.0,
          o.1,
          o.2,
          o.3,
          o.4,
          o.5,
          o.6,
          subst (λ n. n ≤ r.variable_capacity) (sym (length-assign-old r.variables key v e)) o.7,
          o.8,
        ))
        (λ _.
          if-split (After {F = F} {A = Unit {0}} p) (ltb (length r.variables) r.variable_capacity)
            (λ e. (
              o.0,
              o.1,
              o.2,
              o.3,
              o.4,
              o.5,
              o.6,
              omega (arith, length-assign r.variables key v, ltb→lt _ _ e),
              o.8,
            ))
            (λ _.
              if-split (After {F = F} {A = Unit {0}} p)
                (ltb max_variables (doubled r.variable_capacity)) (λ _. o)
                (λ e. (
                  o.0,
                  o.1,
                  o.2,
                  o.3,
                  o.4,
                  o.5,
                  o.6,
                  omega (
                    arith,
                    length-assign r.variables key v,
                    doubled_more r.variable_capacity,
                    o.7,
                  ),
                  not_ltb→le _ _ e,
                ))))

  set_in-After :
      (ss : List (Scope F)) (key : List ℕ) (v : Value F) (r : Runtime F)
      → length ss ≤ max_scopes
      → Fits p r
      → After p (set_in ss key v r)
  set_in-After [] key v r h o = (set_global-IsSound key v).keeps r o
  set_in-After (s ∷ ss) key v r h o = (o.0, o.1, o.2, o.3, o.4, o.5, h, o.7, o.8)

  pub set_in-IsSound : (key : List ℕ) (v : Value F) → IsSound p (λ r. set_in r.scope_stack key v r)
  set_in-IsSound key v = sound λ r o. set_in-After r.scope_stack key v r o.6 o

module _ {F : Type 0} {p : Plan} (N : Floats F) where
  integer_of-IsSound : (z : Option ℤ) → IsSound p (integer_of N z)
  integer_of-IsSound none = fail-IsSound illegal_quantity
  integer_of-IsSound (some z) = pure-IsSound _

  stored_value-IsSound : (key : List ℕ) (v : Value F) → IsSound p (stored_value N key v)
  unfolding stored_value coerce_string_value coerce_integer_value
  stored_value-IsSound key (array t vs) = pure-IsSound _
  stored_value-IsSound key (map t es) = pure-IsSound _
  stored_value-IsSound key (number x) =
      if-IsSound _ (pure-IsSound _) (if-IsSound _ (integer_of-IsSound (N.trunc x)) (pure-IsSound _))
  stored_value-IsSound key (string t) =
      if-IsSound _ (pure-IsSound _) (if-IsSound _ (fail-IsSound _) (pure-IsSound _))

  pub set_var-IsSound : (name : List ℕ) (v : Value F) → IsSound p (set_var N name v)
  unfolding set_var
  set_var-IsSound name v =
      bind-IsSound (stored_value-IsSound (normalize_identifier name) v)
        (λ w. set_in-IsSound (normalize_identifier name) w)
