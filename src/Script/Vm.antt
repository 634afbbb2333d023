-- ===== src/Script/Vm.antt =====
-- src/script/vm/c64-script-vm.c: a step, and the loop. `Signals` is what the user interface sets
-- the flags to, by the round of the loop that sees it, and how it ends a pause. Logging and the
-- recording of traces are left out.
pub mod Frame
pub mod Store
pub mod Values
pub mod Tables
pub mod Flow
pub mod Bounds
pub mod Rounds
pub mod Ends
pub mod Stays
pub mod Steps
pub mod Calls
pub mod Functions
mod Tests
use Prim.Native.Nat.{bit_and, bit_or, bit_xor}
use c64stream.Base.{
  ℕ, zero, suc, ◌+◌, ◌-◌, ◌%◌, ◌^◌, Bool, true, false, not, ◌&&◌, ◌||◌, Option, none, some, List,
  [], ◌∷◌,
}
use c64stream.Base.Bools.{◌==◌, ltb, leb, if◌then◌else◌}
use c64stream.Base.Int.{ℤ, pos}
use c64stream.Script.Floats.{Floats}
use c64stream.Script.Opcode
use c64stream.Script.Opcode.{Opcode, Instruction}
use c64stream.Script.Value.{Value, number}
use c64stream.Script.State.{
  Runtime, Outcome, M, done, failed, pure, fail, ◌>>=◌, ◌>>◌, push, pop, illegal_quantity,
  iteration_limit, invalid_constant,
}
use c64stream.Script.Runtime.{set_var, get_var}
use c64stream.Script.Compute.{
  require_number, binary, unary, calculate, divide, op_add_values, negate, relate, bitwise,
  complement, is_eq, is_lt, is_gt,
}
use c64stream.Script.Containers.{
  constant_at, constant_name, dim_array, array_get_op, array_set_op, map_get_op, map_set_op,
}
use c64stream.Script.Control.{
  jump, call_function, jump_if_false, gosub, return_op, for_init, for_check, for_incr,
}
use c64stream.Script.Execute.{Devices, execute_instruction}

-- How the user ends a pause: by going on, by one step, by stopping the script, or not at all.
pub data PauseEnd : Type 0 where
  resumed stepped stopped never : PauseEnd

pub record Signals : Type 0 where
  pub stops : ℕ → Bool
  pub pauses : ℕ → Bool → Bool
  pub ends : ℕ → PauseEnd

-- Whether the loop ends with an answer, goes on, or waits for ever in a pause.
pub data Round (F : Type 0) : Type 0 where
  finished : Bool → Runtime F → Round F
  goes_on : Runtime F → Round F
  waits : Runtime F → Round F

unfoldable pub instruction_at : List Instruction → ℕ → Option Instruction
instruction_at [] i = none
instruction_at (x ∷ xs) zero = some x
instruction_at (x ∷ xs) (suc i) = instruction_at xs i

abbrev pub line_of : Option Instruction → ℕ
line_of none = 0
line_of (some x) = x.source_line

module _ {F : Type 0} (N : Floats F) (dev : Devices F) where
  abbrev pub next_line : Runtime F → Runtime F
  next_line r = record r { next_line_to_execute = line_of (instruction_at r.bytecode r.ip) }

  abbrev pub after_instruction : ℕ → Outcome F Bool → Round F
  after_instruction line (failed s) = finished false s
  after_instruction line (done skip s) = goes_on (
      next_line (record s {
        last_executed_line =
            if not skip && ltb 0 line && not (line == s.last_executed_line)
            then line
            else s.last_executed_line;
      }))

  -- From the error's line to the end of the round.
  unfoldable pub run_instruction : Instruction → Runtime F → Round F
  run_instruction x r = after_instruction x.source_line (
      execute_instruction N dev x.opcode x.operand
        (record r { error_line = x.source_line; ip = r.ip + 1 }))

  abbrev pub counted : Runtime F → Runtime F
  counted r = record r { iteration_count = (r.iteration_count + 1) % 2 ^ 64 }

  -- The guard against endless scripts, and what comes behind it.
  unfoldable pub limited : Runtime F → (Runtime F → Round F) → Round F
  limited r rest =
      if ltb 0 r.max_iterations
      then if leb r.max_iterations (counted r).iteration_count
        then finished false
            (record (counted r) { error = some iteration_limit; should_stop = true })
        else rest (counted r)
      else rest r

  unfoldable pub vm_step : Runtime F → Round F
  unfolding limited run_instruction
  vm_step r = elim (instruction_at r.bytecode r.ip) [
    | none ↦ finished false r
    | some x ↦ if r.should_stop then finished false r else limited r (run_instruction x)
  ]

  abbrev pub end_pause : PauseEnd → Runtime F → Instruction → Round F
  end_pause resumed r x = run_instruction x (record r { is_paused = false })
  end_pause stepped r x = run_instruction x (record r {
    step_mode = false;
    step_skip_waits = true;
    is_paused = false;
    should_pause = true;
  })
  end_pause stopped r x = finished true (record r { should_stop = true })
  end_pause never r x = waits r

  -- The pause at a new line.
  unfoldable pub pause_then_run : PauseEnd → Instruction → Runtime F → Round F
  unfolding run_instruction
  pause_then_run how x r =
      if r.should_pause && not (x.source_line == r.last_executed_line) && ltb 0 x.source_line
      then end_pause how
          (record r { is_paused = true; should_pause = false; step_skip_waits = false }) x
      else run_instruction x r

  -- The body of the loop, its condition first.
  unfoldable pub round : PauseEnd → Runtime F → Round F
  unfolding limited pause_then_run
  round how r = elim (instruction_at r.bytecode r.ip) [
    | none ↦ finished true r
    | some x ↦ if r.should_stop then finished true r else limited r (pause_then_run how x)
  ]

  module _ (ui : Signals) where
    -- The flags as the user has set them by round `k`: a pause may also be taken back.
    abbrev pub seen : ℕ → Runtime F → Runtime F
    seen k r = record r {
      should_stop = r.should_stop || ui.stops k;
      should_pause = ui.pauses k r.should_pause;
    }

    -- `none` is out of fuel, or a pause that does not end.
    unfoldable pub loop : ℕ → ℕ → Runtime F → Option (Bool × Runtime F)
    unfolding round
    loop zero k r = none
    loop (suc fuel) k r = elim (round (ui.ends k) (seen k r)) [
      | finished b s ↦ some (b, s)
      | goes_on s ↦ loop fuel (suc k) s
      | waits s ↦ none
    ]

    abbrev pub is_empty : List Instruction → Bool
    is_empty [] = true
    is_empty (x ∷ xs) = false

    unfoldable pub vm_execute : ℕ → Runtime F → Option (Bool × Runtime F)
    unfolding loop
    vm_execute fuel r =
        let run = loop fuel 0 (
          next_line (record r {
            ip = 0;
            should_stop = false;
            last_executed_line = 0;
            iteration_count = 0;
          })) in
        if is_empty r.bytecode then some (false, r) else run
