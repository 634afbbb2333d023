-- ===== src/Script/Runtime/Variables.antt =====
-- The variables of a running script as a function of their name.
use c64stream.Base.{
  ℕ, zero, suc, ◌+◌, ◌&&◌, ◌||◌, map, arith, ap₂, ◌≡◌, inl, inr, ◌∙◌, sym, ap, subst, Bool, true,
  false, false≢true, Option, some, List, [], ◌∷◌, ◌++◌, ◌*◌, refl,
}
use c64stream.Base.Bools.{
  if-either, if_again, if_swap, if◌then◌else◌, Bool-cases, if-eq_of_true, if-eq_of_false, ltb, leb,
  ◌==◌,
}
use c64stream.Base.Lists.{length, take}
use c64stream.Base.Bytes.{to_upper, same_text, same_text-eq}
use c64stream.Script.Floats.{Floats}
use c64stream.Script.Value.{Value}
use c64stream.Script.State.{Variable, Scope, Runtime, Outcome, done, failed}
use c64stream.Script.Runtime.{
  normalize_identifier, stored_value, find_var, overwrite, is_found, new_var, assign, set_global,
  set_in, find_in, set_var, or_zero, get_var, max_variables,
}

-- The same byte, or a letter from `A` to `Z` and its small one, 32 above it.
abbrev pub same_letter : ℕ → ℕ → Bool
same_letter x y =
    x == y || leb b'A' x && leb x b'Z' && y == x + 32 || leb b'A' y && leb y b'Z' && x == y + 32

same_letter-eq : (x y : ℕ) → (to_upper x == to_upper y) ≡ same_letter x y
same_letter-eq x y = ground arith

-- Whether two names agree in their first `n` letters, upper or lower case.
abbrev pub same_name : ℕ → List ℕ → List ℕ → Bool
same_name zero xs ys = true
same_name (suc n) [] [] = true
same_name (suc n) [] (y ∷ ys) = false
same_name (suc n) (x ∷ xs) [] = false
same_name (suc n) (x ∷ xs) (y ∷ ys) = same_letter x y && same_name n xs ys

same_text-upper :
    (n : ℕ) (xs ys : List ℕ)
    → same_text (take n (map to_upper xs)) (take n (map to_upper ys)) ≡ same_name n xs ys
unfolding same_text
same_text-upper zero xs ys = refl
same_text-upper (suc n) [] [] = refl
same_text-upper (suc n) [] (y ∷ ys) = refl
same_text-upper (suc n) (x ∷ xs) [] = refl
same_text-upper (suc n) (x ∷ xs) (y ∷ ys) = ap₂ ◌&&◌ (same_letter-eq x y) (same_text-upper n xs ys)

same_text-normalize :
    (name other : List ℕ)
    → same_text (normalize_identifier name) (normalize_identifier other) ≡ same_name 63 name other
unfolding normalize_identifier
same_text-normalize name other = same_text-upper 63 name other

module _ {F : Type 0} where
  find_var-overwrite :
      (xs : List (Variable F)) (key other : List ℕ) (v : Value F)
      → is_found (find_var xs key) ≡ true
      → find_var (overwrite xs key v) other
        ≡ (if same_text key other then some v else find_var xs other)
  unfolding find_var overwrite
  find_var-overwrite [] key other v h = absurd (false≢true h)
  find_var-overwrite (x ∷ xs) key other v h = elim (Bool-cases (same_text x.name key)) [
    | inl t ↦
        let same : same_text x.name other ≡ same_text key other =
          ap (λ k. same_text k other) (same_text-eq x.name key t) in
        rw (t, same) (if_again (same_text key other) (some v) (some x.value) (find_var xs other))
    | inr f ↦
        rw (f, find_var-overwrite xs key other v (sym (ap is_found (if-eq_of_false _ _ f)) ∙ h))
          (if_swap (same_text key other) (same_text x.name other) (some v) (some x.value)
            (find_var xs other)
            λ e. subst (λ o. same_text x.name o ≡ false) (same_text-eq key other e) f)
  ]

  find_var-append :
      (xs : List (Variable F)) (key other : List ℕ) (v : Value F)
      → is_found (find_var xs key) ≡ false
      → find_var (xs ++ new_var key v ∷ []) other
        ≡ (if same_text key other then some v else find_var xs other)
  unfolding find_var
  find_var-append [] key other v h = refl
  find_var-append (x ∷ xs) key other v h = elim (Bool-cases (same_text x.name key)) [
    | inl t ↦ absurd (false≢true (sym h ∙ ap is_found (if-eq_of_true _ _ t)))
    | inr f ↦ rw (find_var-append xs key other v (sym (ap is_found (if-eq_of_false _ _ f)) ∙ h)) (
        if_swap (same_text key other) (same_text x.name other) (some v) (some x.value)
          (find_var xs other)
          λ e. subst (λ o. same_text x.name o ≡ false) (same_text-eq key other e) f)
  ]

  pub find_var-assign :
      (xs : List (Variable F)) (key other : List ℕ) (v : Value F)
      → find_var (assign xs key v) other
        ≡ (if same_text key other then some v else find_var xs other)
  unfolding assign
  find_var-assign xs key other v = elim (Bool-cases (is_found (find_var xs key))) [
    | inl t ↦ rw t (find_var-overwrite xs key other v t)
    | inr f ↦ rw f (find_var-append xs key other v f)
  ]

  -- What a lookup finds after a call that set `key` to `v`.
  abbrev pub Finds : List ℕ → Value F → List ℕ → Option (Value F) → Outcome F (Unit {0}) → Type 0
  Finds key v other before (failed s) = Unit
  Finds key v other before (done a s) =
      find_in s.scope_stack s.variables other ≡ (if same_text key other then some v else before)

  set_global-Finds :
      (key other : List ℕ) (v : Value F) (r : Runtime F)
      → r.scope_stack ≡ []
      → Finds key v other (find_var r.variables other) (set_global key v r)
  unfolding set_global
  set_global-Finds key other v r e =
      let found : find_in r.scope_stack (assign r.variables key v) other
          ≡ (if same_text key other then some v else find_var r.variables other) =
        ap (λ ss. find_in ss (assign r.variables key v) other) e
        ∙ find_var-assign r.variables key other v in
      if-either (Finds key v other before) (is_found (find_var r.variables key)) found (
        if-either (Finds key v other before) (ltb (length r.variables) r.variable_capacity) found (
          if-either (Finds key v other before)
            (ltb max_variables (if r.variable_capacity == 0 then 64 else r.variable_capacity * 2))
            tt found))
    where
      before : Option (Value F)
      before = find_var r.variables other

  found_first :
      (b : Bool) (v : Value F) (x g : Option (Value F))
      → (if is_found (if b then some v else x) then (if b then some v else x) else g)
        ≡ (if b then some v else if is_found x then x else g)
  found_first true v x g = refl
  found_first false v x g = refl

  set_in-Finds :
      (ss : List (Scope F)) (key other : List ℕ) (v : Value F) (r : Runtime F)
      → r.scope_stack ≡ ss
      → Finds key v other (find_in ss r.variables other) (set_in ss key v r)
  set_in-Finds [] key other v r e = set_global-Finds key other v r e
  set_in-Finds (s ∷ ss) key other v r e = rw (find_var-assign s.local_vars key other v) (
      found_first (same_text key other) v (find_var s.local_vars other)
        (find_var r.variables other))

module _ {F : Type 0} (N : Floats F) where
  or_zero_if :
      (b : Bool) (w : Value F) (x : Option (Value F))
      → or_zero N (if b then some w else x) ≡ (if b then w else or_zero N x)
  or_zero_if true w x = refl
  or_zero_if false w x = refl

  -- After a variable has been set, to the value `w` that its suffix makes of the given one, its
  -- name, of which 63 letters count and their case does not, reads as `w`, and every other name
  -- reads as before. The two calls are taken to succeed.
  pub set_var-get_var :
      (name other : List ℕ) (v w : Value F) (r s : Runtime F)
      → stored_value N (normalize_identifier name) v r ≡ done w r
      → set_var N name v r ≡ done tt s
      → get_var N other s ≡ (if same_name 63 name other then w else get_var N other r)
  unfolding set_var get_var
  set_var-get_var name other v w r s e h =
      ap (or_zero N) (
        subst (Finds key w at (find_in r.scope_stack r.variables at)) made
          (set_in-Finds r.scope_stack key at w r refl))
      ∙ or_zero_if (same_text key at) w (find_in r.scope_stack r.variables at)
      ∙ ap (λ b. if b then w else or_zero N (find_in r.scope_stack r.variables at))
          (same_text-normalize name other)
    where
      key : List ℕ
      key = normalize_identifier name

      at : List ℕ
      at = normalize_identifier other

      made : set_in r.scope_stack key w r ≡ done tt s
      made =
          sym (
            ap
              (λ (o : Outcome F (Value F)). elim o [
                | done a q ↦ set_in q.scope_stack key a q
                | failed q ↦ failed q
              ])
              e)
          ∙ h
