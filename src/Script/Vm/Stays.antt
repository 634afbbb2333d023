-- ===== src/Script/Vm/Stays.antt =====
-- What leaves the control of the script alone.
use c64stream.Base.{
  ℕ, zero, suc, ◌*◌, ◌≡◌, ◌∙◌, Bool, true, false, Option, none, some, List, [], ◌∷◌, refl,
}
use c64stream.Base.Int.{ℤ, pos, negsuc}
use c64stream.Base.Bools.{if-either, ltb, ◌==◌, if◌then◌else◌}
use c64stream.Base.Lists.{length}
use c64stream.Script.Floats.{Floats}
use c64stream.Script.Value.{Value, number, string, array, map}
use c64stream.Script.State.{
  Runtime, ForState, GosubState, Scope, Outcome, M, done, failed, attempt, pop, pop_from, ◌>>=◌,
}
use c64stream.Script.Runtime.{
  normalize_identifier, stored_value, find_var, is_found, set_global, set_in, set_var,
  max_variables, name_has_suffix, integer_of,
}
use c64stream.Script.Control.{
  param_name, result_name, count_of, param_count_of, take_params, clear_params, store_result,
}

-- Where the script stands, and where it returns to.
abbrev pub control : {F : Type 0} → Runtime F → ℕ × List GosubState × List (ForState F)
control r = (r.ip, r.gosub_stack, r.for_stack)

-- The state that a call leaves, whether it succeeds or not.
abbrev pub state_of : {F A : Type 0} → Outcome F A → Runtime F
state_of (done a s) = s
state_of (failed s) = s

-- A call leaves the control alone.
abbrev pub Stays : {F A : Type 0} → M F A → Type 0
Stays {F} m = (r : Runtime F) → control (state_of (m r)) ≡ control r

module _ {F : Type 0} where
  after_bind-Stays :
      {A B : Type 0} (f : A → M F B) (x : Outcome F A)
      → ((a : A) → Stays (f a))
      → control (state_of (elim x [ done a s ↦ f a s | failed s ↦ failed s ]))
        ≡ control (state_of x)
  after_bind-Stays f (done a s) k = k a s
  after_bind-Stays f (failed s) k = refl

  bind-Stays :
      {A B : Type 0} (m : M F A) (f : A → M F B)
      → Stays m
      → ((a : A) → Stays (f a))
      → Stays (m >>= f)
  bind-Stays m f h k r = after_bind-Stays f (m r) k ∙ h r

  after_attempt-Stays :
      (x : Outcome F (Unit {0}))
      → control (state_of {A = Unit {0}} (elim x [ done a s ↦ done tt s | failed s ↦ done tt s ]))
        ≡ control (state_of x)
  after_attempt-Stays (done a s) = refl
  after_attempt-Stays (failed s) = refl

  attempt-Stays : (m : M F (Unit {0})) → Stays m → Stays (attempt m)
  attempt-Stays m h r = after_attempt-Stays (m r) ∙ h r

  pop_from-Stays :
      (vs : List (Value F)) (r : Runtime F) → control (state_of (pop_from vs r)) ≡ control r
  pop_from-Stays [] r = refl
  pop_from-Stays (v ∷ vs) r = refl

  pub pop-Stays : Stays {F = F} pop
  unfolding pop
  pop-Stays r = pop_from-Stays r.stack r

  set_global-Stays : (key : List ℕ) (v : Value F) → Stays (set_global key v)
  unfolding set_global
  set_global-Stays key v r =
      if-either (λ (x : Outcome F (Unit {0})). control (state_of x) ≡ control r)
        (is_found (find_var r.variables key)) refl
        (if-either (λ (x : Outcome F (Unit {0})). control (state_of x) ≡ control r)
          (ltb (length r.variables) r.variable_capacity) refl
          (if-either (λ (x : Outcome F (Unit {0})). control (state_of x) ≡ control r)
            (ltb max_variables (if r.variable_capacity == 0 then 64 else r.variable_capacity * 2))
            refl refl))

  set_in-Stays : (ss : List (Scope F)) (key : List ℕ) (v : Value F) → Stays (set_in ss key v)
  set_in-Stays [] key v = set_global-Stays key v
  set_in-Stays (s ∷ ss) key v = λ r. refl

  if-Stays : {A : Type 0} (b : Bool) (m n : M F A) → Stays m → Stays n → Stays (if b then m else n)
  if-Stays true m n h k = h
  if-Stays false m n h k = k

module _ {F : Type 0} (N : Floats F) where
  integer_of-Stays : (z : Option ℤ) → Stays (integer_of N z)
  integer_of-Stays none r = refl
  integer_of-Stays (some z) r = refl

  stored_value-Stays : (key : List ℕ) (v : Value F) → Stays (stored_value N key v)
  unfolding stored_value
  stored_value-Stays key (array t vs) = λ r. refl
  stored_value-Stays key (map t es) = λ r. refl
  stored_value-Stays key (number x) =
      if-Stays (name_has_suffix key 36) _ _ (λ r. refl)
        (if-Stays (name_has_suffix key 37) _ _ (integer_of-Stays (N.trunc x)) λ r. refl)
  stored_value-Stays key (string t) =
      if-Stays (name_has_suffix key 36) _ _ (λ r. refl)
        (if-Stays (name_has_suffix key 37) _ _ (λ r. refl) λ r. refl)

  set_var-Stays : (name : List ℕ) (v : Value F) → Stays (set_var N name v)
  unfolding set_var
  set_var-Stays name v =
      bind-Stays (stored_value N (normalize_identifier name) v)
        (λ w r. set_in r.scope_stack (normalize_identifier name) w r)
        (stored_value-Stays (normalize_identifier name) v)
        λ w r. set_in-Stays r.scope_stack (normalize_identifier name) w r

  pub take_params-Stays : (n : ℕ) → Stays (take_params N n)
  unfolding take_params
  take_params-Stays zero = λ r. refl
  take_params-Stays (suc n) =
      bind-Stays pop (λ v. attempt (set_var N (param_name (suc n)) v) >>= λ _. take_params N n)
        pop-Stays
        λ v.
          bind-Stays (attempt (set_var N (param_name (suc n)) v)) (λ _. take_params N n)
            (attempt-Stays (set_var N (param_name (suc n)) v)
              (set_var-Stays (param_name (suc n)) v))
            λ _. take_params-Stays n

  pub clear_params-Stays : (i n : ℕ) → Stays (clear_params N i n)
  unfolding clear_params
  clear_params-Stays i zero = λ r. refl
  clear_params-Stays i (suc n) =
      bind-Stays (attempt (set_var N (param_name i) (number N.zero)))
        (λ _. clear_params N (suc i) n)
        (attempt-Stays (set_var N (param_name i) (number N.zero))
          (set_var-Stays (param_name i) (number N.zero)))
        λ _. clear_params-Stays (suc i) n

  count_of-Stays : (z : Option ℤ) → Stays (count_of N z)
  count_of-Stays none = λ r. refl
  count_of-Stays (some (pos n)) = λ r. refl
  count_of-Stays (some (negsuc n)) = λ r. refl

  pub param_count_of-Stays : (v : Value F) → Stays (param_count_of N v)
  param_count_of-Stays (number x) = count_of-Stays (N.trunc x)
  param_count_of-Stays (string t) = λ r. refl
  param_count_of-Stays (array t vs) = λ r. refl
  param_count_of-Stays (map t es) = λ r. refl

  pub store_result-Stays : (has_value : Bool) → Stays (store_result N has_value)
  store_result-Stays true =
      bind-Stays pop (λ v. attempt (set_var N result_name v)) pop-Stays
        λ v. attempt-Stays (set_var N result_name v) (set_var-Stays result_name v)
  store_result-Stays false = λ r. refl
