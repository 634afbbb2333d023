-- ===== src/Script/Samples.antt =====
-- Numbers, devices and a state for the tests.
use c64stream.Base.{ℕ, ◌+◌, ◌-◌, ◌*◌, ◌/◌, false, none, some, []}
use c64stream.Base.Int.{ℤ, pos, negsuc}
use c64stream.Base.Bools.{ltb, leb, ◌==◌}
use c64stream.Network.Protocol.{decimal}
use c64stream.Script.Floats.{Floats}
use c64stream.Script.State.{Runtime, pure}
use c64stream.Script.Execute.{Devices}
use c64stream.Script.Vm.{Signals, resumed}

abbrev whole : ℤ → ℕ
whole (pos n) = n
whole (negsuc n) = 0

-- The natural numbers in place of the floating point ones.
abbrev pub whole_numbers : Floats ℕ
whole_numbers = record {
  zero = 0;
  one = 1;
  sum = λ x y. x + y;
  sub = λ x y. x - y;
  mul = λ x y. x * y;
  div = λ x y. x / y;
  neg = λ x. 0;
  less = ltb;
  less_eq = leb;
  is_zero = λ x. x == 0;
  same = λ x y. x == y;
  from_int = whole;
  trunc = λ x. some (pos x);
  text = λ x. decimal 20 x;
}

abbrev pub no_devices : Devices ℕ
no_devices = record { device = λ op i. pure tt }

-- The user does nothing.
abbrev pub left_alone : Signals
left_alone = record { stops = λ k. false; pauses = λ k asked. asked; ends = λ k. resumed }

abbrev pub blank : Runtime ℕ
blank = record {
  bytecode = [];
  ip = 0;
  constants = [];
  variables = [];
  variable_capacity = 0;
  stack = [];
  for_stack = [];
  gosub_stack = [];
  functions = [];
  scope_stack = [];
  should_stop = false;
  should_pause = false;
  is_paused = false;
  step_mode = false;
  step_skip_waits = false;
  trace_enabled = false;
  max_iterations = 0;
  iteration_count = 0;
  last_executed_line = 0;
  next_line_to_execute = 0;
  error = none;
  error_line = 0;
}
