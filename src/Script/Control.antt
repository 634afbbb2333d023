-- ===== src/Script/Control.antt =====
-- src/script/vm/c64-script-vm-dispatch-core.c: jumps, GOSUB, functions and loops. A count of
-- parameters that is no natural number is never compiled; here it fails as a mismatch.
use c64stream.Base.{
  ℕ, zero, suc, ◌/◌, ◌%◌, ◌^◌, Bool, true, false, not, Option, none, some, List, [], ◌∷◌,
}
use mathlib.Core.List.{reverse}
use c64stream.Base.Bools.{◌==◌, leb, if◌then◌else◌}
use c64stream.Base.Int.{ℤ, pos}
use c64stream.Base.Lists.{length}
use c64stream.Network.Protocol.{decimal}
use c64stream.Script.Floats.{Floats}
use c64stream.Script.Value.{Value, number}
use c64stream.Script.State.{
  Variable, ForState, GosubState, Scope, Function, M, done, pure, fail, ◌>>=◌, ◌>>◌, attempt, push,
  pop, type_mismatch, stack_underflow, gosub_overflow, for_too_deep, for_without_init,
  return_without_call, invalid_function, wrong_argument_count, recursion_too_deep,
}
use c64stream.Script.Runtime.{set_var, get_var, new_var}
use c64stream.Script.Compute.{require_number}
use c64stream.Script.Containers.{constant_name}

-- C64SCRIPT_MAX_FOR_NESTING, C64SCRIPT_MAX_GOSUB_DEPTH and the bound on recursion.
abbrev pub max_for_nesting : ℕ
max_for_nesting = 16

abbrev pub max_gosub_depth : ℕ
max_gosub_depth = 32

abbrev pub max_scopes : ℕ
max_scopes = 1024

-- "PARAM" and a number.
abbrev pub param_name : ℕ → List ℕ
param_name i = 80 ∷ 65 ∷ 82 ∷ 65 ∷ 77 ∷ decimal 20 i

-- "RESULT".
abbrev pub result_name : List ℕ
result_name = 82 ∷ 69 ∷ 83 ∷ 85 ∷ 76 ∷ 84 ∷ []

-- The function with an index; `none` is beyond the table.
unfoldable pub function_at : List Function → ℕ → Option Function
function_at [] i = none
function_at (f ∷ fs) zero = some f
function_at (f ∷ fs) (suc i) = function_at fs i

module _ {F : Type 0} where
  unfoldable pub jump : ℕ → M F (Unit {0})
  jump address r = done tt (record r { ip = address })

  -- The arguments become local variables, the last one first.
  unfoldable pub bind_args :
      List (List ℕ) → List (Value F) → Option (List (Variable F) × List (Value F))
  bind_args [] stack = some ([], stack)
  bind_args (p ∷ ps) [] = none
  bind_args (p ∷ ps) (v ∷ vs) = elim (bind_args ps vs) [
    | none ↦ none
    | some (locals, rest) ↦ some (new_var p v ∷ locals, rest)
  ]

  abbrev pub enter : Function → Option (List (Variable F) × List (Value F)) → M F Bool
  enter f none r = fail stack_underflow (record r { stack = [] })
  enter f (some (locals, rest)) r = done true (record r {
    stack = rest;
    scope_stack =
        record { local_vars = locals; saved_var_count = length r.variables; return_ip = r.ip }
        ∷ r.scope_stack;
    ip = f.bytecode_address;
  })

  abbrev pub call : Option Function → ℕ → M F Bool
  call none arg_count = fail invalid_function
  call (some f) arg_count = λ r.
      if not (arg_count == length f.param_names)
      then fail wrong_argument_count r
      else if leb max_scopes (length r.scope_stack)
      then fail recursion_too_deep r
      else enter f (bind_args (reverse f.param_names) r.stack) r

  -- The operand holds the index of the function above 16 bits of the number of arguments.
  unfoldable pub call_function : ℕ → M F Bool
  unfolding function_at bind_args
  call_function operand r = call (function_at r.functions (operand / 2 ^ 16)) (operand % 2 ^ 16) r

module _ {F : Type 0} (N : Floats F) where
  -- OP_JUMP_IF_FALSE and OP_WHILE_CHECK.
  unfoldable pub jump_if_false : ℕ → M F (Unit {0})
  unfolding require_number jump
  jump_if_false address = do
    a ← pop
    x ← require_number a
    if N.is_zero x then jump address else pure tt

  abbrev pub count_of : Option ℤ → M F ℕ
  count_of (some (pos n)) = pure n
  count_of _ = fail type_mismatch

  abbrev pub param_count_of : Value F → M F ℕ
  param_count_of (number x) = count_of (N.trunc x)
  param_count_of _ = fail type_mismatch

  -- The loop that stores the parameters, the last one first.
  unfoldable pub take_params : ℕ → M F (Unit {0})
  take_params zero = pure tt
  take_params (suc n) = do v ← pop; attempt (set_var N (param_name (suc n)) v); take_params n

  -- OP_CALL, which is GOSUB.
  unfoldable pub gosub : ℕ → M F (Unit {0})
  unfolding take_params
  gosub address = do
    v ← pop
    n ← param_count_of v
    take_params n
    λ r.
        if leb max_gosub_depth (length r.gosub_stack)
        then fail gosub_overflow r
        else done tt (record r {
          gosub_stack = record { return_ip = r.ip; param_count = n } ∷ r.gosub_stack;
          ip = address;
        })

  -- The loop that sets PARAM1 and on to zero, from `i`.
  unfoldable pub clear_params : ℕ → ℕ → M F (Unit {0})
  clear_params i zero = pure tt
  clear_params i (suc n) = do
    attempt (set_var N (param_name i) (number N.zero))
    clear_params (suc i) n

  -- The value that a RETURN takes from the stack, if any.
  abbrev pub returned : Bool → M F (Value F)
  returned true = pop
  returned false = pure (number N.zero)

  abbrev pub store_result : Bool → M F (Unit {0})
  store_result true = do v ← pop; attempt (set_var N result_name v)
  store_result false = pure tt

  abbrev pub leave_scope : Scope F → List (Scope F) → Bool → M F Bool
  leave_scope s ss has_value = do
    v ← returned has_value
    λ r.
        (push v >>= λ _. λ q. done true (record q { ip = s.return_ip }))
          (record r { scope_stack = ss })

  abbrev pub leave_gosub : GosubState → List GosubState → Bool → M F Bool
  leave_gosub g gs has_value = do
    store_result has_value
    clear_params 1 g.param_count
    λ r. done false (record r { gosub_stack = gs; ip = g.return_ip })

  abbrev pub return_from : List (Scope F) → List GosubState → Bool → M F Bool
  return_from (s ∷ ss) gs has_value = leave_scope s ss has_value
  return_from [] (g ∷ gs) has_value = leave_gosub g gs has_value
  return_from [] [] has_value = fail return_without_call

  -- The answer is `*skip_line_update`.
  unfoldable pub return_op : Bool → M F Bool
  unfolding clear_params
  return_op has_value r = return_from r.scope_stack r.gosub_stack has_value r

  unfoldable pub for_init : ℕ → M F (Unit {0})
  unfolding require_number constant_name
  for_init operand = do
    step ← pop
    end ← pop
    current ← pop
    s ← require_number step
    e ← require_number end
    c ← require_number current
    λ r.
        if leb max_for_nesting (length r.for_stack)
        then fail for_too_deep r
        else (constant_name operand >>= λ name. λ q. done tt (record q {
          for_stack =
              record { variable = name; end_value = e; step_value = s; loop_start_ip = q.ip }
              ∷ q.for_stack;
        }))
            r

  -- Whether the variable has passed the end.
  abbrev pub is_past : F → ForState F → Bool
  is_past x s = if N.less N.zero s.step_value then N.less s.end_value x else N.less x s.end_value

  abbrev pub check : List (ForState F) → ℕ → M F (Unit {0})
  check [] address = fail for_without_init
  check (s ∷ ss) address = do
    x ← λ r. require_number (get_var N s.variable r) r
    λ r. if is_past x s then done tt (record r { for_stack = ss; ip = address }) else done tt r

  unfoldable pub for_check : ℕ → M F (Unit {0})
  unfolding require_number
  for_check address r = check r.for_stack address r

  abbrev pub increment : List (ForState F) → M F (Unit {0})
  increment [] = fail for_without_init
  increment (s ∷ ss) = do
    x ← λ r. require_number (get_var N s.variable r) r
    set_var N s.variable (number (N.sum x s.step_value))

  unfoldable pub for_incr : M F (Unit {0})
  unfolding require_number
  for_incr r = increment r.for_stack r
