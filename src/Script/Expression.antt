-- ===== src/Script/Expression.antt =====
-- src/script/vm/c64-script-bytecode.c: the compilation of expressions, less the calls of functions.
-- The emitted instructions are a list with the newest first; the constants are in their order.
pub mod Constants
pub mod Meaning
pub mod Instructions
pub mod Growth
pub mod Emitted
pub mod Correct
mod Tests
use c64stream.Base.{
  ℕ, suc, ◌+◌, ◌^◌, ◌-◌, ◌%◌, Bool, true, false, Option, none, some, List, [], ◌∷◌, ◌++◌,
}
use c64stream.Base.Bools.{◌==◌, if◌then◌else◌}
use c64stream.Base.Bytes.{same_text}
use c64stream.Base.Lists.{length}
use c64stream.Script.Floats.{Floats}
use c64stream.Script.Value.{Value, number, string}
use c64stream.Script.Opcode
use c64stream.Script.Opcode.{Opcode, Instruction}

-- c64script_operator_t
pub data Operator : Type 0 where
  expr_add expr_subtract expr_multiply expr_divide expr_negate : Operator
  expr_eq expr_ne expr_lt expr_le expr_gt expr_ge : Operator
  expr_not expr_and expr_xor expr_or : Operator

-- Every node has its line.
pub data Expression (F : Type 0) : Type 0 where
  number_expr : F → ℕ → Expression F
  string_expr : List ℕ → ℕ → Expression F
  identifier_expr : List ℕ → ℕ → Expression F
  array_access : List ℕ → Expression F → ℕ → Expression F
  map_access : List ℕ → Expression F → ℕ → Expression F
  unary_expr : Operator → Expression F → ℕ → Expression F
  binary_expr : Operator → Expression F → Expression F → ℕ → Expression F

-- What expressions change of compiler_context_t.
pub record ExpressionContext (F : Type 0) : Type 0 where
  pub instructions : List Instruction
  pub constants : List (Value F)

module _ {F : Type 0} (N : Floats F) where
  -- Whether a constant of the pool serves for a value.
  abbrev pub serves : Value F → Value F → Bool
  serves (number x) (number y) = N.same x y
  serves (string s) (string t) = same_text s t
  serves _ _ = false

  abbrev pub next_place : Option ℕ → Option ℕ
  next_place none = none
  next_place (some i) = some (suc i)

  -- The loop that looks for the value.
  unfoldable pub find_constant : List (Value F) → Value F → Option ℕ
  find_constant [] v = none
  find_constant (c ∷ cs) v = if serves c v then some 0 else next_place (find_constant cs v)

  abbrev pub constant_or_new : Option ℕ → Value F → ExpressionContext F → ℕ × ExpressionContext F
  constant_or_new (some i) v ctx = (i % 2 ^ 32, ctx)
  constant_or_new none v ctx =
      (length ctx.constants % 2 ^ 32, record ctx { constants = ctx.constants ++ v ∷ [] })

  unfoldable pub add_constant : Value F → ExpressionContext F → ℕ × ExpressionContext F
  unfolding find_constant
  add_constant v ctx = constant_or_new (find_constant ctx.constants v) v ctx

  abbrev pub emit_into : Opcode → ℕ → ℕ → ExpressionContext F → ExpressionContext F
  emit_into opcode operand line ctx = record ctx {
    instructions =
        record { opcode = opcode; operand = operand; source_line = line } ∷ ctx.instructions;
  }

  -- An instruction on a constant; the index UINT32_MAX stands for a failure.
  unfoldable pub emit_constant :
      Opcode → Value F → ℕ → ExpressionContext F → Option (ExpressionContext F)
  emit_constant opcode v line ctx =
      let (i, after) = add_constant v ctx in
      if i == 2 ^ 32 - 1 then none else some (emit_into opcode i line after)

  abbrev pub unary_opcode : Operator → Option Opcode
  unary_opcode expr_negate = some Opcode.op_negate
  unary_opcode expr_not = some Opcode.op_not
  unary_opcode _ = none

  abbrev pub binary_opcode : Operator → Option Opcode
  binary_opcode expr_add = some Opcode.op_add
  binary_opcode expr_subtract = some Opcode.op_subtract
  binary_opcode expr_multiply = some Opcode.op_multiply
  binary_opcode expr_divide = some Opcode.op_divide
  binary_opcode expr_eq = some Opcode.op_eq
  binary_opcode expr_ne = some Opcode.op_ne
  binary_opcode expr_lt = some Opcode.op_lt
  binary_opcode expr_le = some Opcode.op_le
  binary_opcode expr_gt = some Opcode.op_gt
  binary_opcode expr_ge = some Opcode.op_ge
  binary_opcode expr_and = some Opcode.op_and
  binary_opcode expr_or = some Opcode.op_or
  binary_opcode expr_xor = some Opcode.op_xor
  binary_opcode expr_negate = none
  binary_opcode expr_not = none

  -- An unknown unary operator emits nothing; an unknown binary one is an error.
  abbrev pub emit_unary : Option Opcode → ℕ → ExpressionContext F → Option (ExpressionContext F)
  emit_unary none line ctx = some ctx
  emit_unary (some opcode) line ctx = some (emit_into opcode 0 line ctx)

  abbrev pub emit_binary : Option Opcode → ℕ → ExpressionContext F → Option (ExpressionContext F)
  emit_binary none line ctx = none
  emit_binary (some opcode) line ctx = some (emit_into opcode 0 line ctx)

  abbrev pub and_then :
      Option (ExpressionContext F)
      → (ExpressionContext F → Option (ExpressionContext F))
      → Option (ExpressionContext F)
  and_then none f = none
  and_then (some ctx) f = f ctx

  -- `none` is false.
  unfoldable pub compile_expression :
      Expression F → ExpressionContext F → Option (ExpressionContext F)
  unfolding emit_constant
  compile_expression (number_expr x line) ctx =
      emit_constant Opcode.op_push_const (number x) line ctx
  compile_expression (string_expr s line) ctx =
      emit_constant Opcode.op_push_const (string s) line ctx
  compile_expression (identifier_expr s line) ctx =
      emit_constant Opcode.op_push_var (string s) line ctx
  compile_expression (array_access name e line) ctx =
      and_then (compile_expression e ctx)
        λ c. emit_constant Opcode.op_array_get (string name) line c
  compile_expression (map_access name e line) ctx =
      and_then (compile_expression e ctx) λ c. emit_constant Opcode.op_map_get (string name) line c
  compile_expression (unary_expr op e line) ctx =
      and_then (compile_expression e ctx) λ c. emit_unary (unary_opcode op) line c
  compile_expression (binary_expr op l e line) ctx =
      and_then (compile_expression l ctx)
        λ c. and_then (compile_expression e c) λ d. emit_binary (binary_opcode op) line d
