-- ===== src/Script/Runtime/Limits.antt =====
-- How many variables there are, and when there is no room for another.
use c64stream.Base.{
  ◌⊎◌, inl, inr, ℕ, suc, ◌+◌, ◌*◌, ◌≤◌, ◌≡◌, ◌∙◌, sym, ap, subst, true, false, some, List, [], ◌∷◌,
  refl, arith,
}
use c64stream.Base.Bytes.{same_text}
use c64stream.Base.Bools.{if-split, if-either, ltb, ◌==◌, if◌then◌else◌, if-eq_of_true, ltb→lt}
use c64stream.Base.Lists.{length, length-append}
use c64stream.Script.Value.{Value}
use c64stream.Script.State.{too_many_variables, Outcome, done, failed, Runtime, Variable}
use c64stream.Script.Runtime.{
  new_var, set_global, assign, overwrite, find_var, is_found, max_variables,
}

module _ {F : Type 0} where
  pub length-overwrite :
      (xs : List (Variable F)) (key : List ℕ) (v : Value F)
      → length (overwrite xs key v) ≡ length xs
  unfolding overwrite
  length-overwrite [] key v = refl
  length-overwrite (x ∷ xs) key v =
      if-either (λ ys. length {A = Variable F} ys ≡ suc (length xs)) (same_text x.name key) refl
        (ap suc (length-overwrite xs key v))

  pub length-assign-old :
      (xs : List (Variable F)) (key : List ℕ) (v : Value F)
      → is_found (find_var xs key) ≡ true
      → length (assign xs key v) ≡ length xs
  unfolding assign
  length-assign-old xs key v h = ap length (if-eq_of_true _ _ h) ∙ length-overwrite xs key v

  pub length-assign :
      (xs : List (Variable F)) (key : List ℕ) (v : Value F)
      → length (assign xs key v) ≤ length xs + 1
  unfolding assign
  length-assign xs key v =
      if-either (λ ys. length {A = Variable F} ys ≤ length xs + 1) (is_found (find_var xs key))
        (subst (λ n. n ≤ length xs + 1) (sym (length-overwrite xs key v)) (omega arith))
        (omega (arith, length-append xs (new_var key v ∷ [])))

abbrev pub doubled : ℕ → ℕ
doubled c = if c == 0 then 64 else c * 2

pub doubled_more : (c : ℕ) → c + 1 ≤ doubled c
doubled_more c = ground arith

pub not_ltb→le : (a b : ℕ) → ltb a b ≡ false → b ≤ a
not_ltb→le a b e = ground arith

-- The capacities that doubling gives.
abbrev pub IsCapacity : ℕ → Type 0
IsCapacity c = (c ≡ 0) ⊎ ((c ≡ 64) ⊎ ((c ≡ 128) ⊎ ((c ≡ 256) ⊎ (c ≡ 512))))

-- The global variables are within a capacity that doubling gives.
abbrev pub HasRoom : {F : Type 0} → Runtime F → Type 0
HasRoom r = IsCapacity r.variable_capacity × (length r.variables ≤ r.variable_capacity)

-- Success keeps the room; failure means a new name where there are as many as can be.
abbrev pub Stores : {F : Type 0} → List ℕ → Runtime F → Outcome F (Unit {0}) → Type 0
Stores key r (done a s) = HasRoom s
Stores key r (failed s) =
    (length r.variables ≡ max_variables)
    × (is_found (find_var r.variables key) ≡ false)
    × (s ≡ record r { error = some too_many_variables })

doubled-IsCapacity :
    (c : ℕ) → IsCapacity c → ltb max_variables (doubled c) ≡ false → IsCapacity (doubled c)
doubled-IsCapacity c (inl e) h = ground (arith, e, h)
doubled-IsCapacity c (inr (inl e)) h = ground (arith, e, h)
doubled-IsCapacity c (inr (inr (inl e))) h = ground (arith, e, h)
doubled-IsCapacity c (inr (inr (inr (inl e)))) h = ground (arith, e, h)
doubled-IsCapacity c (inr (inr (inr (inr e)))) h = ground (arith, e, h)

at_most : (c : ℕ) → IsCapacity c → ltb max_variables (doubled c) ≡ true → c ≡ max_variables
at_most c (inl e) h = ground (arith, e, h)
at_most c (inr (inl e)) h = ground (arith, e, h)
at_most c (inr (inr (inl e))) h = ground (arith, e, h)
at_most c (inr (inr (inr (inl e)))) h = ground (arith, e, h)
at_most c (inr (inr (inr (inr e)))) h = e

module _ {F : Type 0} where
  -- Setting a global variable is refused only for a new name where there are 512 already, and then
  -- only the error is set; otherwise the variables stay within a capacity of 0, 64, 128, 256 or 512.
  pub set_global-Stores :
      (key : List ℕ) (v : Value F) (r : Runtime F) → HasRoom r → Stores key r (set_global key v r)
  unfolding set_global
  set_global-Stores key v r (c, le) =
      if-split (Stores key r) (is_found (find_var r.variables key))
        (λ e. (
          c,
          subst (λ n. n ≤ r.variable_capacity) (sym (length-assign-old r.variables key v e)) le,
        ))
        (λ new.
          if-split (Stores key r) (ltb (length r.variables) r.variable_capacity)
            (λ e. (c, omega (arith, length-assign r.variables key v, ltb→lt _ _ e)))
            (λ full.
              if-split (Stores key r) (ltb max_variables (doubled r.variable_capacity))
                (λ e. (
                  omega (arith, le, not_ltb→le _ _ full, at_most r.variable_capacity c e),
                  new,
                  refl,
                ))
                (λ e. (
                  doubled-IsCapacity r.variable_capacity c e,
                  omega (
                    arith,
                    le,
                    length-assign r.variables key v,
                    doubled_more r.variable_capacity,
                  ),
                ))))
