-- ===== src/Script/Vm/Tests.antt =====
-- Runs of the machine.
use c64stream.Script.Execute.{execute_instruction}
use c64stream.Base.{
  ◌≢◌, false≢true, ap, ℕ, ◌≡◌, ◌/◌, ◌%◌, ◌^◌, [], ◌∷◌, Bool, true, false, Option, some, none, refl,
  arith,
}
use c64stream.Base.Lists.{length}
use c64stream.Script.Opcode.{Opcode}
use c64stream.Script.Value.{number}
use c64stream.Script.State.{pop, push, Runtime, Function, done, iteration_limit}
use c64stream.Script.Runtime.{new_var}
use c64stream.Script.Control.{jump, gosub, return_op, call_function, function_at}
use c64stream.Script.Vm.{resumed, never, PauseEnd, instruction_at, vm_execute}
use c64stream.Script.Vm.Frame.{Plan, pure-IsSound}
use c64stream.Script.Vm.Bounds.{IsSafe}
use c64stream.Script.Vm.Ends.{InBounds, vm_execute-InBounds, vm_execute-ends}
use c64stream.Script.Vm.Stays.{state_of}
use c64stream.Script.Vm.Calls.{gosub-return_op}
use c64stream.Script.Vm.Functions.{Opens, with_locals, call_function-return_op}
use c64stream.Script.Samples.{whole_numbers, no_devices, left_alone, blank}

-- 10 PUSH 1: GOTO 10, at most three rounds.
abbrev endless : Runtime ℕ
endless = record blank {
  bytecode =
      record { opcode = Opcode.op_push_num; operand = 1; source_line = 10 }
      ∷ record { opcode = Opcode.op_jump; operand = 0; source_line = 10 }
      ∷ [];
  max_iterations = 3;
}

no_devices-IsSafe : (p : Plan) → IsSafe p no_devices
no_devices-IsSafe p = record { device-IsSound = λ op i. pure-IsSound tt }

endless-InBounds : InBounds endless
endless-InBounds = (omega arith, omega arith, omega arith, omega arith, omega arith, omega arith)

abbrev is_never : PauseEnd → Bool
is_never never = true
is_never how = false

going_on : (k : ℕ) → resumed ≢ never
going_on k e = false≢true (ap is_never e)

vm_execute-ends_example :
    (x : Bool × Runtime ℕ) × (vm_execute whole_numbers no_devices left_alone 3 endless ≡ some x)
vm_execute-ends_example =
    vm_execute-ends whole_numbers no_devices no_devices-IsSafe left_alone 3 endless (omega arith)
      (omega arith) (omega arith) endless-InBounds going_on

abbrev end_of : Option (Bool × Runtime ℕ) → Runtime ℕ
end_of none = blank
end_of (some (b, s)) = s

abbrev stopped_state : Runtime ℕ
stopped_state = end_of (vm_execute whole_numbers no_devices left_alone 3 endless)

endless_run : vm_execute whole_numbers no_devices left_alone 3 endless ≡ some (false, stopped_state)
unfolding vm_execute instruction_at execute_instruction push jump
endless_run = refl

endless_test : stopped_state.error ≡ some iteration_limit
unfolding vm_execute instruction_at execute_instruction push jump
endless_test = refl

vm_execute-InBounds_example :
    InBounds stopped_state
    × (stopped_state.bytecode ≡ endless.bytecode)
    × (stopped_state.max_iterations ≡ 3)
vm_execute-InBounds_example =
    vm_execute-InBounds whole_numbers no_devices no_devices-IsSafe left_alone 3 endless
      stopped_state false endless-InBounds endless_run

-- Before a GOSUB without parameters at address 4.
abbrev before_gosub : Runtime ℕ
before_gosub = record blank { ip = 5; stack = number 0 ∷ [] }

abbrev after_gosub : Runtime ℕ
after_gosub = state_of (gosub whole_numbers 9 before_gosub)

abbrev after_return : Runtime ℕ
after_return = state_of (return_op whole_numbers false after_gosub)

went : gosub whole_numbers 9 before_gosub ≡ done tt after_gosub
unfolding gosub pop
went = refl

came_back : return_op whole_numbers false after_gosub ≡ done false after_return
unfolding gosub return_op pop
came_back = refl

no_scope : after_gosub.scope_stack ≡ []
unfolding gosub pop
no_scope = refl

gosub-return_op_example :
    (after_gosub.ip ≡ 9) × (after_return.ip ≡ 5) × (after_return.gosub_stack ≡ [])
gosub-return_op_example =
    gosub-return_op whole_numbers 9 false false before_gosub after_gosub after_gosub after_return
      went no_scope refl came_back

-- A function of one parameter, "X", at address 7.
abbrev first_function : Function
first_function = record { name = 70 ∷ []; bytecode_address = 7; param_names = (88 ∷ []) ∷ [] }

abbrev before_call : Runtime ℕ
before_call = record blank { ip = 2; stack = number 3 ∷ []; functions = first_function ∷ [] }

abbrev in_function : Runtime ℕ
in_function = state_of (call_function 1 before_call)

abbrev after_call : Runtime ℕ
after_call = state_of (return_op whole_numbers false in_function)

called : call_function 1 before_call ≡ done true in_function
unfolding call_function
called = refl

same_scope :
    in_function.scope_stack
    ≡ with_locals (new_var (88 ∷ []) (number 3) ∷ []) in_function.scope_stack
unfolding call_function
same_scope = refl

left : return_op whole_numbers false in_function ≡ done true after_call
unfolding call_function return_op push
left = refl

call_function-return_op_example :
    (f : Function) × (function_at before_call.functions (1 / 2 ^ 16) ≡ some f)
    × (length f.param_names ≡ 1 % 2 ^ 16)
    × Opens f before_call in_function
    × ((after_call.ip ≡ 2)
        × (after_call.scope_stack ≡ [])
        × (after_call.gosub_stack ≡ in_function.gosub_stack)
        × (after_call.variables ≡ in_function.variables)
        × (after_call.stack ≡ number 0 ∷ in_function.stack))
call_function-return_op_example =
    call_function-return_op whole_numbers 1 true false true before_call in_function in_function
      after_call (new_var (88 ∷ []) (number 3) ∷ []) called same_scope left
