-- ===== src/Script/Value/Arrays.antt =====
-- Arrays: reading after writing, and the bounds.
use c64stream.Base.{ℕ, zero, suc, ◌≤◌, ◌<◌, ◌≡◌, ap, Option, none, some, refl, arith}
use c64stream.Base.Bools.{◌==◌, if◌then◌else◌}
use c64stream.Script.Value.{
  Value, Values, no_values, value, size, array_get, array_set, value_before,
}

-- What a write to index `i` gives.
pub data Written {F : Type 0} (vs : Values F) (i : ℕ) (x : Value F) (r : Option (Values F))
    : Type 0 where
  out_of_bounds : size vs ≤ i → array_get vs i ≡ none → r ≡ none → Written vs i x r
  within :
      (after : Values F)
      → i < size vs
      → r ≡ some after
      → size after ≡ size vs
      → ((j : ℕ) → array_get after j ≡ (if i == j then some x else array_get vs j))
      → Written vs i x r

module _ {F : Type 0} where
  read_first :
      (v x : Value F) (vs : Values F) (j : ℕ)
      → array_get (value x vs) j ≡ (if 0 == j then some x else array_get (value v vs) j)
  unfolding array_get
  read_first v x vs zero = refl
  read_first v x vs (suc j) = ground arith

  read_later :
      (v x : Value F) (vs after : Values F) (i : ℕ)
      → ((j : ℕ) → array_get after j ≡ (if i == j then some x else array_get vs j))
      → (j : ℕ)
      → array_get (value v after) j ≡ (if suc i == j then some x else array_get (value v vs) j)
  unfolding array_get
  read_later v x vs after i h zero = ground arith
  read_later v x vs after i h (suc j) =
      let same : (suc i == suc j) ≡ (i == j) = ground arith in rw same (h j)

  -- A write beyond the end fails, as a read does; any other changes the one element and not the
  -- size.
  pub array_set-Written : (vs : Values F) (i : ℕ) (x : Value F) → Written vs i x (array_set vs i x)
  unfolding array_set array_get
  array_set-Written no_values i x = out_of_bounds (omega arith) refl refl
  array_set-Written (value v vs) zero x =
      within (value x vs) (omega arith) refl refl (read_first v x vs)
  array_set-Written (value v vs) (suc i) x = elim (array_set-Written vs i x) [
    | out_of_bounds l g e ↦ out_of_bounds (omega arith) g (ap (value_before v) e)
    | within after l e s g ↦
        within (value v after) (omega arith) (ap (value_before v) e) (ap suc s)
          (read_later v x vs after i g)
  ]
