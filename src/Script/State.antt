-- ===== src/Script/State.antt =====
-- src/script/c64-script.h: the state of a running script; runtime/c64-script-runtime.c: its stack.
-- A stack is a list with its top first. The arrays that grow by `realloc` are lists; of their
-- capacities only that of the global variables bounds anything.
use c64stream.Base.{ℕ, Bool, Option, some, List, [], ◌∷◌}
use c64stream.Base.Bools.{leb, if◌then◌else◌}
use c64stream.Base.Lists.{length}
use c64stream.Script.Opcode.{Instruction}
use c64stream.Script.Value.{Value}

-- C64SCRIPT_MAX_STACK_DEPTH.
abbrev pub max_stack_depth : ℕ
max_stack_depth = 64

-- What `error_msg` says; its text is not modelled.
pub data Error : Type 0 where
  stack_overflow stack_underflow type_mismatch illegal_quantity : Error
  too_many_variables invalid_constant division_by_zero gosub_overflow : Error
  for_too_deep for_without_init return_without_call invalid_function : Error
  wrong_argument_count recursion_too_deep array_size_not_number array_size_too_small : Error
  array_size_too_large array_index_not_number out_of_bounds not_an_array : Error
  map_key_not_string not_a_map iteration_limit unknown_opcode : Error
  device_error : ℕ → Error

pub record Variable (F : Type 0) : Type 0 where
  pub name : List ℕ
  pub value : Value F

pub record ForState (F : Type 0) : Type 0 where
  pub variable : List ℕ
  pub end_value : F
  pub step_value : F
  pub loop_start_ip : ℕ

pub record GosubState : Type 0 where
  pub return_ip : ℕ
  pub param_count : ℕ

-- There are as many parameters as names.
pub record Function : Type 0 where
  pub name : List ℕ
  pub bytecode_address : ℕ
  pub param_names : List (List ℕ)

pub record Scope (F : Type 0) : Type 0 where
  pub local_vars : List (Variable F)
  pub saved_var_count : ℕ
  pub return_ip : ℕ

pub record Runtime (F : Type 0) : Type 0 where
  pub bytecode : List Instruction
  pub ip : ℕ
  pub constants : List (Value F)
  pub variables : List (Variable F)
  pub variable_capacity : ℕ
  pub stack : List (Value F)
  pub for_stack : List (ForState F)
  pub gosub_stack : List GosubState
  pub functions : List Function
  pub scope_stack : List (Scope F)
  pub should_stop : Bool
  pub should_pause : Bool
  pub is_paused : Bool
  pub step_mode : Bool
  pub step_skip_waits : Bool
  pub trace_enabled : Bool
  pub max_iterations : ℕ
  pub iteration_count : ℕ
  pub last_executed_line : ℕ
  pub next_line_to_execute : ℕ
  pub error : Option Error
  pub error_line : ℕ

-- A call that returns true, or that sets the error and returns false.
pub data Outcome (F : Type 0) (A : Type 0) : Type 0 where
  done : A → Runtime F → Outcome F A
  failed : Runtime F → Outcome F A

abbrev pub M : Type 0 → Type 0 → Type 0
M F A = Runtime F → Outcome F A

module _ {F : Type 0} where
  abbrev pub pure : {A : Type 0} → A → M F A
  pure a r = done a r

  abbrev pub fail : {A : Type 0} → Error → M F A
  fail e r = failed (record r { error = some e })

  infixl 5 ◌>>=◌ ◌>>◌
  abbrev pub ◌>>=◌ : {A B : Type 0} → M F A → (A → M F B) → M F B
  ◌>>=◌ m f r = elim (m r) [ done a s ↦ f a s | failed s ↦ failed s ]

  abbrev pub ◌>>◌ : {B : Type 0} → M F (Unit {0}) → M F B → M F B
  m >> k = m >>= λ _. k

  abbrev pub get : M F (Runtime F)
  get r = done r r

  abbrev pub put : Runtime F → M F (Unit {0})
  put s r = done tt s

  -- A call whose answer is not looked at.
  abbrev pub attempt : M F (Unit {0}) → M F (Unit {0})
  attempt m r = elim (m r) [ done a s ↦ done tt s | failed s ↦ done tt s ]

  -- The value is freed on failure.
  unfoldable pub push : Value F → M F (Unit {0})
  push v r =
      if leb max_stack_depth (length r.stack)
      then fail stack_overflow r
      else done tt (record r { stack = v ∷ r.stack })

  abbrev pub pop_from : List (Value F) → M F (Value F)
  pop_from [] r = fail stack_underflow r
  pop_from (v ∷ vs) r = done v (record r { stack = vs })

  unfoldable pub pop : M F (Value F)
  pop r = pop_from r.stack r
