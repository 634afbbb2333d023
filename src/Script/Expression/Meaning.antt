-- ===== src/Script/Expression/Meaning.antt =====
-- What an expression means, without a stack; and code that is run from its first instruction to its
-- last.
use Prim.Native.Nat.{bit_and, bit_or, bit_xor}
use c64stream.Base.{ℕ, ◌+◌, ◌<◌, ◌≡◌, not, some, List, [], ◌∷◌}
use c64stream.Base.Bools.{leb, if◌then◌else◌}
use c64stream.Base.Lists.{length}
use c64stream.Script.Floats.{Floats}
use c64stream.Script.Value.{
  Value, Values, Entries, ValueType, number, string, array, map, array_get, map_get,
}
use c64stream.Script.Opcode.{Instruction}
use c64stream.Script.State.{Runtime, M, done, pure, fail, ◌>>=◌, max_stack_depth, unknown_opcode}
use c64stream.Script.Runtime.{get_var}
use c64stream.Script.Compute.{
  calculate, divide, op_add_values, relate, bitwise, complement, is_eq, is_lt, is_gt,
}
use c64stream.Script.Containers.{array_index_from_number}
use c64stream.Script.Execute.{Devices, execute_instruction}
use c64stream.Script.Expression.{
  Operator, expr_add, expr_subtract, expr_multiply, expr_divide, expr_negate, expr_eq, expr_ne,
  expr_lt, expr_le, expr_gt, expr_ge, expr_not, expr_and, expr_xor, expr_or, Expression,
  number_expr, string_expr, identifier_expr, array_access, map_access, unary_expr, binary_expr,
}

module _ {F : Type 0} where
  abbrev pub with_stack : Runtime F → List (Value F) → Runtime F
  with_stack r vs = record r { stack = vs }

  -- The call puts a value on every stack with room, and does nothing else.
  abbrev pub Pushes : M F (Unit {0}) → Runtime F → Value F → Type 0
  Pushes m r v =
      (vs : List (Value F))
      → length vs < max_stack_depth
      → m (with_stack r vs) ≡ done tt (with_stack r (v ∷ vs))

module _ {F : Type 0} (N : Floats F) where
  -- The operators on two values.
  abbrev pub operation : Operator → Value F → Value F → M F (Unit {0})
  operation expr_add a b = op_add_values N a b
  operation expr_subtract a b = calculate N N.sub a b
  operation expr_multiply a b = calculate N N.mul a b
  operation expr_divide a b = divide N a b
  operation expr_eq a b = relate N is_eq a b
  operation expr_ne a b = relate N (λ c. not (is_eq c)) a b
  operation expr_lt a b = relate N is_lt a b
  operation expr_le a b = relate N (λ c. not (is_gt c)) a b
  operation expr_gt a b = relate N is_gt a b
  operation expr_ge a b = relate N (λ c. not (is_lt c)) a b
  operation expr_and a b = bitwise N bit_and a b
  operation expr_xor a b = bitwise N bit_xor a b
  operation expr_or a b = bitwise N bit_or a b
  operation expr_negate a b = fail unknown_opcode
  operation expr_not a b = fail unknown_opcode

  -- The operators on one.
  abbrev pub UnaryGives : Operator → Value F → Runtime F → Value F → Type 0
  UnaryGives expr_negate a r v = (x : F) × (a ≡ number x) × (v ≡ number (N.neg x))
  UnaryGives expr_not a r v = Pushes (complement N a) r v
  UnaryGives op a r v = v ≡ a

  -- The element of an array, and the value at the key of a map.
  abbrev pub ElementOf : List ℕ → Value F → Runtime F → Value F → Type 0
  ElementOf name i r v =
      (x : F) × (k : ℕ) × (t : ValueType) × (vs : Values F) × (i ≡ number x)
      × (array_index_from_number N x ≡ some k)
      × (get_var N name r ≡ array t vs)
      × (array_get vs k ≡ some v)

  abbrev pub EntryOf : List ℕ → Value F → Runtime F → Value F → Type 0
  EntryOf name i r v =
      (key : List ℕ) × (t : ValueType) × (es : Entries F) × (i ≡ string key)
      × (get_var N name r ≡ map t es)
      × (v ≡ map_get N t es key)

  -- An expression has a value in a state.
  abbrev pub Evaluates : Expression F → Runtime F → Value F → Type 0
  Evaluates (number_expr x line) r v = v ≡ number x
  Evaluates (string_expr s line) r v = v ≡ string s
  Evaluates (identifier_expr s line) r v = v ≡ get_var N s r
  Evaluates (array_access name e line) r v = (i : Value F) × Evaluates e r i × ElementOf name i r v
  Evaluates (map_access name e line) r v = (i : Value F) × Evaluates e r i × EntryOf name i r v
  Evaluates (unary_expr op e line) r v = (a : Value F) × Evaluates e r a × UnaryGives op a r v
  Evaluates (binary_expr op l e line) r v =
      (a : Value F) × (b : Value F) × Evaluates l r a
      × Evaluates e r b
      × Pushes (operation op a b) r v

  abbrev pub max : ℕ → ℕ → ℕ
  max m n = if leb m n then n else m

  -- How much of the stack an expression needs.
  abbrev pub depth : Expression F → ℕ
  depth (number_expr x line) = 1
  depth (string_expr s line) = 1
  depth (identifier_expr s line) = 1
  depth (array_access name e line) = depth e
  depth (map_access name e line) = depth e
  depth (unary_expr op e line) = depth e
  depth (binary_expr op l e line) = max (depth l) (depth e + 1)

  module _ (dev : Devices F) where
    -- The newest instruction is the first of the list.
    abbrev pub run_code : List Instruction → M F (Unit {0})
    run_code [] = pure tt
    run_code (x ∷ xs) =
        run_code xs >>= λ _. execute_instruction N dev x.opcode x.operand >>= λ _. pure tt
