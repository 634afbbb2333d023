-- ===== src/Script/Vm/Flow.antt =====
-- Jumps, calls, returns and loops keep the bounds.
use mathlib.Core.List.{reverse}
use c64stream.Base.{
  ℕ, zero, suc, ◌≤◌, ◌<◌, Bool, true, false, not, Option, none, some, List, [], ◌∷◌, arith, ◌/◌,
  ◌%◌, ◌^◌,
}
use c64stream.Base.Bools.{if-split, leb, ◌==◌}
use c64stream.Base.Int.{ℤ, pos, negsuc}
use c64stream.Base.Lists.{length}
use c64stream.Script.Floats.{Floats}
use c64stream.Script.Value.{Value, number, string, array, map}
use c64stream.Script.State.{Runtime, Variable, ForState, GosubState, Scope, Function, M, ◌>>=◌}
use c64stream.Script.Runtime.{new_var, get_var}
use c64stream.Script.Containers.{constant_at, name_of, constant_name}
use c64stream.Script.Control.{
  max_for_nesting, max_gosub_depth, max_scopes, param_name, result_name, jump, function_at,
  bind_args, enter, call, call_function, jump_if_false, count_of, param_count_of, take_params,
  gosub, clear_params, returned, store_result, return_from, return_op, for_init, is_past, check,
  for_check, increment, for_incr,
}
use c64stream.Script.Vm.Store.{set_var-IsSound}
use c64stream.Script.Vm.Frame.{
  Plan, Fits, After, IsSound, sound, pure-IsSound, fail-IsSound, bind-IsSound, attempt-IsSound,
  if-IsSound, push-IsSound, pop-IsSound,
}
use c64stream.Script.Vm.Values.{require_number-IsSound}

-- The stack that is left has at most `n` values.
abbrev RestWithin : {F : Type 0} → ℕ → Option (List (Variable F) × List (Value F)) → Type 0
RestWithin n none = Unit {0}
RestWithin n (some (locals, rest)) = length rest ≤ n

module _ {F : Type 0} where
  bind_one-RestWithin :
      (q : List ℕ) (v : Value F) (n : ℕ) (found : Option (List (Variable F) × List (Value F)))
      → RestWithin n found
      → RestWithin
          (suc n)
          (elim found [ none ↦ none | some (locals, rest) ↦ some (new_var q v ∷ locals, rest) ])
  bind_one-RestWithin q v n none h = tt
  bind_one-RestWithin q v n (some (locals, rest)) h = omega (arith, h)

  bind_args-RestWithin :
      (qs : List (List ℕ)) (stack : List (Value F)) → RestWithin (length stack) (bind_args qs stack)
  unfolding bind_args
  bind_args-RestWithin [] stack = omega arith
  bind_args-RestWithin (q ∷ qs) [] = tt
  bind_args-RestWithin (q ∷ qs) (v ∷ vs) =
      bind_one-RestWithin q v (length vs) (bind_args qs vs) (bind_args-RestWithin qs vs)

module _ {F : Type 0} {p : Plan} where
  pub jump-IsSound : (i : ℕ) → IsSound {F = F} p (jump i)
  unfolding jump
  jump-IsSound i = sound λ r o. o

  enter-After :
      (f : Function) (found : Option (List (Variable F) × List (Value F))) (r : Runtime F)
      → RestWithin (length r.stack) found
      → length r.scope_stack < max_scopes
      → Fits p r
      → After p (enter f found r)
  enter-After f none r h lt o = (o.0, o.1, o.2, omega arith, o.4, o.5, o.6, o.7, o.8)
  enter-After f (some (locals, rest)) r h lt o =
      (o.0, o.1, o.2, omega (arith, h, o.3), o.4, o.5, omega (arith, lt), o.7, o.8)

  call-IsSound : (f : Option Function) (n : ℕ) → IsSound {F = F} p (call f n)
  call-IsSound none n = fail-IsSound _
  call-IsSound (some f) n = sound λ r o.
      if-split (After {F = F} {A = Bool} p) (not (n == length f.param_names)) (λ _. o)
        (λ _.
          if-split (After {F = F} {A = Bool} p) (leb max_scopes (length r.scope_stack)) (λ _. o)
            (λ e.
              enter-After f (bind_args (reverse f.param_names) r.stack) r
                (bind_args-RestWithin (reverse f.param_names) r.stack) (ground (arith, e)) o))

  pub call_function-IsSound : (i : ℕ) → IsSound {F = F} p (call_function i)
  unfolding call_function
  call_function-IsSound i =
      sound λ r o. (call-IsSound (function_at r.functions (i / 2 ^ 16)) (i % 2 ^ 16)).keeps r o

module _ {F : Type 0} {p : Plan} (N : Floats F) where
  pub jump_if_false-IsSound : (i : ℕ) → IsSound p (jump_if_false N i)
  unfolding jump_if_false
  jump_if_false-IsSound i = bind-IsSound pop-IsSound λ a.
      bind-IsSound (require_number-IsSound a)
        λ x. if-IsSound (N.is_zero x) (jump-IsSound i) (pure-IsSound tt)

  count_of-IsSound : (z : Option ℤ) → IsSound p (count_of N z)
  count_of-IsSound none = fail-IsSound _
  count_of-IsSound (some (pos n)) = pure-IsSound n
  count_of-IsSound (some (negsuc n)) = fail-IsSound _

  param_count_of-IsSound : (v : Value F) → IsSound p (param_count_of N v)
  param_count_of-IsSound (number x) = count_of-IsSound (N.trunc x)
  param_count_of-IsSound (string s) = fail-IsSound _
  param_count_of-IsSound (array t vs) = fail-IsSound _
  param_count_of-IsSound (map t es) = fail-IsSound _

  take_params-IsSound : (n : ℕ) → IsSound p (take_params N n)
  unfolding take_params
  take_params-IsSound zero = pure-IsSound tt
  take_params-IsSound (suc n) = bind-IsSound pop-IsSound λ v.
      bind-IsSound (attempt-IsSound (set_var-IsSound N (param_name (suc n)) v))
        λ _. take_params-IsSound n

  pub gosub-IsSound : (i : ℕ) → IsSound p (gosub N i)
  unfolding gosub
  gosub-IsSound i = bind-IsSound pop-IsSound λ v. bind-IsSound (param_count_of-IsSound v) λ n.
      bind-IsSound (take_params-IsSound n) λ _. sound λ r o.
        if-split (After {F = F} {A = Unit {0}} p) (leb max_gosub_depth (length r.gosub_stack))
          (λ _. o) (λ e. (o.0, o.1, o.2, o.3, o.4, ground (arith, e), o.6, o.7, o.8))

  clear_params-IsSound : (i n : ℕ) → IsSound p (clear_params N i n)
  unfolding clear_params
  clear_params-IsSound i zero = pure-IsSound tt
  clear_params-IsSound i (suc n) =
      bind-IsSound (attempt-IsSound (set_var-IsSound N (param_name i) _))
        λ _. clear_params-IsSound (suc i) n

  returned-IsSound : (has_value : Bool) → IsSound p (returned N has_value)
  returned-IsSound true = pop-IsSound
  returned-IsSound false = pure-IsSound _

  store_result-IsSound : (has_value : Bool) → IsSound p (store_result N has_value)
  store_result-IsSound true =
      bind-IsSound pop-IsSound λ v. attempt-IsSound (set_var-IsSound N result_name v)
  store_result-IsSound false = pure-IsSound tt

  -- The stacks that `return_op` found are within their bounds.
  return_from-After :
      (ss : List (Scope F)) (gs : List GosubState) (has_value : Bool) (r : Runtime F)
      → length ss ≤ max_scopes
      → length gs ≤ max_gosub_depth
      → Fits p r
      → After p (return_from N ss gs has_value r)
  return_from-After (s ∷ ss) gs has_value r hs hg o =
      (bind-IsSound (returned-IsSound has_value) λ v. sound λ q k.
          (bind-IsSound (push-IsSound v) λ _. sound λ q k. k).keeps (record q { scope_stack = ss })
            (k.0, k.1, k.2, k.3, k.4, k.5, omega (arith, hs), k.7, k.8)).keeps
        r o
  return_from-After [] (g ∷ gs) has_value r hs hg o =
      (bind-IsSound (store_result-IsSound has_value) λ _.
          bind-IsSound (clear_params-IsSound 1 g.param_count)
            λ _. sound λ q k. (k.0, k.1, k.2, k.3, k.4, omega (arith, hg), k.6, k.7, k.8)).keeps
        r o
  return_from-After [] [] has_value r hs hg o = o

  pub return_op-IsSound : (has_value : Bool) → IsSound p (return_op N has_value)
  unfolding return_op
  return_op-IsSound has_value =
      sound λ r o. return_from-After r.scope_stack r.gosub_stack has_value r o.6 o.5 o

  name_of-After :
      {A : Type 0} (v : Option (Value F)) (f : List ℕ → M F A) (r : Runtime F)
      → Fits p r
      → ((name : List ℕ) → After p (f name r))
      → After p ((name_of v >>= f) r)
  name_of-After none f r o h = o
  name_of-After (some (number x)) f r o h = o
  name_of-After (some (string s)) f r o h = h s
  name_of-After (some (array t vs)) f r o h = o
  name_of-After (some (map t es)) f r o h = o

  pub for_init-IsSound : (i : ℕ) → IsSound p (for_init N i)
  unfolding for_init constant_name
  for_init-IsSound i = bind-IsSound pop-IsSound λ step. bind-IsSound pop-IsSound λ end.
      bind-IsSound pop-IsSound λ current. bind-IsSound (require_number-IsSound step) λ s.
        bind-IsSound (require_number-IsSound end) λ e.
          bind-IsSound (require_number-IsSound current) λ c. sound λ r o.
            if-split (After {F = F} {A = Unit {0}} p) (leb max_for_nesting (length r.for_stack))
              (λ _. o)
              (λ lt.
                name_of-After (constant_at r.constants i) _ r o
                  λ name. (o.0, o.1, o.2, o.3, ground (arith, lt), o.5, o.6, o.7, o.8))

  check-After :
      (fs : List (ForState F)) (i : ℕ) (r : Runtime F)
      → length fs ≤ max_for_nesting
      → Fits p r
      → After p (check N fs i r)
  check-After [] i r h o = o
  check-After (f ∷ fs) i r h o =
      (bind-IsSound (sound λ q k. (require_number-IsSound (get_var N f.variable q)).keeps q k) λ x.
          sound λ q k.
            if-split (After {F = F} {A = Unit {0}} p) (is_past N x f)
              (λ _. (k.0, k.1, k.2, k.3, omega (arith, h), k.5, k.6, k.7, k.8)) (λ _. k)).keeps
        r o

  pub for_check-IsSound : (i : ℕ) → IsSound p (for_check N i)
  unfolding for_check
  for_check-IsSound i = sound λ r o. check-After r.for_stack i r o.4 o

  increment-IsSound : (fs : List (ForState F)) → IsSound p (increment N fs)
  increment-IsSound [] = fail-IsSound _
  increment-IsSound (f ∷ fs) =
      bind-IsSound (sound λ q k. (require_number-IsSound (get_var N f.variable q)).keeps q k)
        λ x. set_var-IsSound N f.variable _

  pub for_incr-IsSound : IsSound p (for_incr N)
  unfolding for_incr
  for_incr-IsSound = sound λ r o. (increment-IsSound r.for_stack).keeps r o
