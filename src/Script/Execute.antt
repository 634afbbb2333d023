-- ===== src/Script/Execute.antt =====
-- src/script/vm/c64-script-vm-dispatch-core.c: one instruction. Those on devices, files and the
-- clock are an interface, `Devices`. Logging and sleeps are left out.
use Prim.Native.Nat.{bit_and, bit_or, bit_xor}
use c64stream.Base.{ℕ, zero, suc, ◌-◌, ◌^◌, Bool, true, false, not, ◌&&◌, Option, none, some}
use c64stream.Base.Bools.{◌==◌, if◌then◌else◌}
use c64stream.Base.Int.{pos}
use c64stream.Script.Floats.{Floats}
use c64stream.Script.Opcode.{Opcode}
use c64stream.Script.Value.{Value, number}
use c64stream.Script.State.{
  M, done, pure, fail, ◌>>=◌, push, pop, illegal_quantity, invalid_constant,
}
use c64stream.Script.Runtime.{set_var, get_var}
use c64stream.Script.Compute.{
  require_number, binary, unary, calculate, divide, op_add_values, negate, relate, bitwise,
  complement, is_eq, is_lt, is_gt,
}
use c64stream.Script.Containers.{
  constant_at, constant_name, dim_array, array_get_op, array_set_op, map_get_op, map_set_op,
}
use c64stream.Script.Control.{
  jump, call_function, jump_if_false, gosub, return_op, for_init, for_check, for_incr,
}

pub record Devices (F : Type 0) : Type 0 where
  pub device : Opcode → ℕ → M F (Unit {0})

-- wait_unit_multiplier: milliseconds, seconds, minutes, hours, days.
abbrev pub wait_unit_multiplier : ℕ → ℕ
wait_unit_multiplier zero = 1
wait_unit_multiplier (suc zero) = 1000
wait_unit_multiplier (suc (suc zero)) = 60000
wait_unit_multiplier (suc (suc (suc zero))) = 3600000
wait_unit_multiplier (suc (suc (suc (suc zero)))) = 86400000
wait_unit_multiplier _ = 1000

module _ {F : Type 0} (N : Floats F) (dev : Devices F) where
  abbrev pub quiet : M F (Unit {0}) → M F Bool
  quiet m = m >>= λ _. pure false

  abbrev pub push_found : Option (Value F) → M F (Unit {0})
  push_found none = fail invalid_constant
  push_found (some v) = push v

  unfoldable pub push_const : ℕ → M F (Unit {0})
  push_const i r = push_found (constant_at r.constants i) r

  unfoldable pub push_var : ℕ → M F (Unit {0})
  push_var i = do name ← constant_name i; λ r. push (get_var N name r) r

  unfoldable pub pop_var : ℕ → M F (Unit {0})
  pop_var i = do name ← constant_name i; v ← pop; set_var N name v

  unfoldable pub wait : ℕ → M F (Unit {0})
  wait unit = do
    v ← pop
    x ← require_number v
    let ms = N.mul x (N.from_int (pos (wait_unit_multiplier unit))) in
        if N.less_eq N.zero x && N.less_eq ms (N.from_int (pos (2 ^ 32 - 1)))
        then pure tt
        else fail illegal_quantity

  abbrev pub stop : M F (Unit {0})
  stop r = done tt (record r { should_stop = true })

  abbrev pub trace_off : M F (Unit {0})
  trace_off r = done tt (record r { trace_enabled = false })

  unfoldable pub execute_instruction : Opcode → ℕ → M F Bool
  unfolding push_const push_var pop_var wait
  execute_instruction Opcode.op_nop i = pure false
  execute_instruction Opcode.op_push_const i = quiet (push_const i)
  execute_instruction Opcode.op_push_num i = quiet (push (number (N.from_int (pos i))))
  execute_instruction Opcode.op_push_var i = quiet (push_var i)
  execute_instruction Opcode.op_pop_var i = quiet (pop_var i)
  execute_instruction Opcode.op_pop i = quiet (unary λ _. pure tt)
  execute_instruction Opcode.op_dim_array i = quiet (dim_array N i)
  execute_instruction Opcode.op_array_get i = quiet (array_get_op N i)
  execute_instruction Opcode.op_array_set i = quiet (array_set_op N i)
  execute_instruction Opcode.op_map_get i = quiet (map_get_op N i)
  execute_instruction Opcode.op_map_set i = quiet (map_set_op N i)
  execute_instruction Opcode.op_add i = quiet (binary (op_add_values N))
  execute_instruction Opcode.op_subtract i = quiet (binary (calculate N N.sub))
  execute_instruction Opcode.op_multiply i = quiet (binary (calculate N N.mul))
  execute_instruction Opcode.op_divide i = quiet (binary (divide N))
  execute_instruction Opcode.op_negate i = quiet (unary (negate N))
  execute_instruction Opcode.op_eq i = quiet (binary (relate N is_eq))
  execute_instruction Opcode.op_ne i = quiet (binary (relate N λ c. not (is_eq c)))
  execute_instruction Opcode.op_lt i = quiet (binary (relate N is_lt))
  execute_instruction Opcode.op_le i = quiet (binary (relate N λ c. not (is_gt c)))
  execute_instruction Opcode.op_gt i = quiet (binary (relate N is_gt))
  execute_instruction Opcode.op_ge i = quiet (binary (relate N λ c. not (is_lt c)))
  execute_instruction Opcode.op_not i = quiet (unary (complement N))
  execute_instruction Opcode.op_and i = quiet (binary (bitwise N bit_and))
  execute_instruction Opcode.op_xor i = quiet (binary (bitwise N bit_xor))
  execute_instruction Opcode.op_or i = quiet (binary (bitwise N bit_or))
  execute_instruction Opcode.op_jump i = quiet (jump i)
  execute_instruction Opcode.op_jump_if_false i = quiet (jump_if_false N i)
  execute_instruction Opcode.op_call i = quiet (gosub N i)
  execute_instruction Opcode.op_return i = return_op N (not (i == 0))
  execute_instruction Opcode.op_return_value i = return_op N true
  execute_instruction Opcode.op_enter_scope i = pure false
  execute_instruction Opcode.op_exit_scope i = pure false
  execute_instruction Opcode.op_stop i = quiet stop
  execute_instruction Opcode.op_halt i = quiet stop
  execute_instruction Opcode.op_for_init i = quiet (for_init N i)
  execute_instruction Opcode.op_for_check i = quiet (for_check N i)
  execute_instruction Opcode.op_for_incr i = quiet (for_incr N)
  execute_instruction Opcode.op_while_check i = quiet (jump_if_false N i)
  execute_instruction Opcode.op_wait i = quiet (wait i)
  execute_instruction Opcode.op_troff i = quiet trace_off
  execute_instruction Opcode.op_call_function i = call_function i
  execute_instruction op i = quiet (dev.device op i)
