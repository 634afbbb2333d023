-- ===== src/Script/Expression/Tests.antt =====
-- The expression 2 + X.
use c64stream.Base.{ℕ, ◌≡◌, ◌<◌, ◌^◌, Option, some, none, [], ◌∷◌, refl, arith}
use c64stream.Base.Bools.{==_iff, if-eq_of_false, lt→leb-false}
use c64stream.Base.Bytes.{same_text}
use c64stream.Base.Lists.{length}
use c64stream.Script.Value.{number}
use c64stream.Script.State.{Runtime, done, push, max_stack_depth}
use c64stream.Script.Runtime.{new_var, get_var, find_var, normalize_identifier}
use c64stream.Script.Compute.{op_add_values}
use c64stream.Script.Expression.{
  add_constant, Expression, binary_expr, number_expr, identifier_expr, expr_add, ExpressionContext,
  compile_expression,
}
use c64stream.Script.Expression.Constants.{IsExact}
use c64stream.Script.Expression.Meaning.{with_stack, Pushes, Evaluates, run_code}
use c64stream.Script.Expression.Correct.{compile_expression-Adds}
use c64stream.Script.Samples.{whole_numbers, no_devices, blank}

abbrev two_plus_x : Expression ℕ
two_plus_x = binary_expr expr_add (number_expr 2 10) (identifier_expr (88 ∷ []) 10) 10

abbrev nothing_yet : ExpressionContext ℕ
nothing_yet = record { instructions = []; constants = [] }

abbrev context_of : Option (ExpressionContext ℕ) → ExpressionContext ℕ
context_of none = nothing_yet
context_of (some ctx) = ctx

abbrev compiled_sum : ExpressionContext ℕ
compiled_sum = context_of (compile_expression whole_numbers two_plus_x nothing_yet)

sum_compiles : compile_expression whole_numbers two_plus_x nothing_yet ≡ some compiled_sum
unfolding compile_expression add_constant
sum_compiles = refl

-- X is 5.
abbrev ready : Runtime ℕ
ready = record blank {
  constants = compiled_sum.constants;
  variables = new_var (88 ∷ []) (number 5) ∷ [];
  variable_capacity = 64;
}

two-IsExact : IsExact whole_numbers compiled_sum.constants (number 2)
two-IsExact i x y p q e = (==_iff x y).0 e

few_constants : length compiled_sum.constants < 2 ^ 32
unfolding compile_expression add_constant
few_constants = omega arith

adds_up : Pushes (op_add_values whole_numbers (number 2) (number 5)) ready (number 7)
unfolding op_add_values push
adds_up vs lt = if-eq_of_false _ _ (lt→leb-false max_stack_depth (length vs) lt)

x_is_five : number 5 ≡ get_var whole_numbers (88 ∷ []) ready
unfolding get_var find_var same_text normalize_identifier
x_is_five = refl

sum_value : Evaluates whole_numbers two_plus_x ready (number 7)
sum_value = (number 2, number 5, refl, x_is_five, adds_up)

compile_expression-Adds_example :
    run_code whole_numbers no_devices compiled_sum.instructions ready
    ≡ done tt (with_stack ready (number 7 ∷ []))
compile_expression-Adds_example =
    compile_expression-Adds whole_numbers no_devices two_plus_x nothing_yet compiled_sum ready ready
      [] (number 7) sum_compiles (two-IsExact, tt) ((λ i v e. e), few_constants) (omega arith) refl
      sum_value
