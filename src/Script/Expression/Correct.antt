-- ===== src/Script/Expression/Correct.antt =====
-- Compiled expressions push their value.
use c64stream.Base.{◌+◌, ◌≤◌, ◌≡◌, ◌∙◌, sym, ap, false, some, List, ◌∷◌, arith}
use c64stream.Base.Lists.{length}
use c64stream.Script.Floats.{Floats}
use c64stream.Script.Value.{Value, number, string}
use c64stream.Script.Opcode.{Opcode}
use c64stream.Script.State.{Runtime, done, max_stack_depth}
use c64stream.Script.Execute.{Devices}
use c64stream.Script.Expression.{
  Expression, number_expr, string_expr, identifier_expr, array_access, map_access, unary_expr,
  binary_expr, ExpressionContext, unary_opcode, binary_opcode, compile_expression,
}
use c64stream.Script.Expression.Constants.{IsExact}
use c64stream.Script.Expression.Meaning.{with_stack, Evaluates, depth, run_code}
use c64stream.Script.Expression.Instructions.{
  run_push_const, run_push_var, run_array_get, run_map_get,
}
use c64stream.Script.Expression.Growth.{
  and_then-InTwo, emit_unary-Grows, emit_binary-Grows, emit_constant-Grows,
  compile_expression-Grows,
}
use c64stream.Script.Expression.Emitted.{
  depth_positive, rooms, HasPool, string-IsExact, earlier-HasPool, after_constant, after_binary,
  after_unary,
}

module _ {F : Type 0} (N : Floats F) where
  -- Each number of an expression is the only one of the pool that compares as the same as it.
  abbrev pub AreExact : List (Value F) → Expression F → Type 0
  AreExact cs (number_expr x line) = IsExact N cs (number x)
  AreExact cs (string_expr s line) = Unit
  AreExact cs (identifier_expr s line) = Unit
  AreExact cs (array_access name e line) = AreExact cs e
  AreExact cs (map_access name e line) = AreExact cs e
  AreExact cs (unary_expr op e line) = AreExact cs e
  AreExact cs (binary_expr op l e line) = AreExact cs l × AreExact cs e

  module _ (dev : Devices F) where
    -- An expression compiles to code that, run behind whatever code was compiled before, pushes the
    -- value of the expression in the state reached, and changes nothing else, if the stack has room
    -- for the depth of the expression. The pool must be that of the compiler, with fewer than
    -- 2 ^ 32 constants, and each number of the expression the only one of the pool that compares as
    -- the same as it. The code is run from its first instruction to its last.
    pub compile_expression-Adds :
        (e : Expression F) (ctx after : ExpressionContext F) (r0 r : Runtime F)
        (vs : List (Value F)) (v : Value F)
        → compile_expression N e ctx ≡ some after
        → AreExact r.constants e
        → HasPool N dev after r
        → length vs + depth N e ≤ max_stack_depth
        → run_code N dev ctx.instructions r0 ≡ done tt (with_stack r vs)
        → Evaluates N e r v
        → run_code N dev after.instructions r0 ≡ done tt (with_stack r (v ∷ vs))
    unfolding compile_expression
    compile_expression-Adds (number_expr x line) ctx after r0 r vs v c exact pool room before h =
        after_constant N dev Opcode.op_push_const (number x) v line ctx after r0 r vs vs c exact
          pool before
          λ i p. run_push_const N dev i v r vs (p ∙ ap some (sym h)) (omega (arith, room))
    compile_expression-Adds (string_expr s line) ctx after r0 r vs v c exact pool room before h =
        after_constant N dev Opcode.op_push_const (string s) v line ctx after r0 r vs vs c
          (string-IsExact N dev r.constants s) pool before
          λ i p. run_push_const N dev i v r vs (p ∙ ap some (sym h)) (omega (arith, room))
    compile_expression-Adds (identifier_expr s line) ctx after r0 r vs v c exact pool room before
          h =
        after_constant N dev Opcode.op_push_var (string s) v line ctx after r0 r vs vs c
          (string-IsExact N dev r.constants s) pool before
          λ i p.
            run_push_var N dev i s r vs p (omega (arith, room))
            ∙ ap (λ w. done false (with_stack r (w ∷ vs))) (sym h)
    compile_expression-Adds (array_access name e line) ctx after r0 r vs v c exact pool room before
          (i, hi, h) =
        let (mid, h1, k) = and_then-InTwo N (compile_expression N e ctx) _ after c in
        let inner : HasPool N dev mid r =
          earlier-HasPool N dev mid after r
            (emit_constant-Grows N Opcode.op_array_get (string name) line mid after k) pool in
        after_constant N dev Opcode.op_array_get (string name) v line mid after r0 r (i ∷ vs) vs k
          (string-IsExact N dev r.constants name) pool
          (compile_expression-Adds e ctx mid r0 r vs i h1 exact inner room before hi)
          λ j p. run_array_get N dev j name i v r vs p h (omega (arith, room, depth_positive N e))
    compile_expression-Adds (map_access name e line) ctx after r0 r vs v c exact pool room before
          (i, hi, h) =
        let (mid, h1, k) = and_then-InTwo N (compile_expression N e ctx) _ after c in
        let inner : HasPool N dev mid r =
          earlier-HasPool N dev mid after r
            (emit_constant-Grows N Opcode.op_map_get (string name) line mid after k) pool in
        after_constant N dev Opcode.op_map_get (string name) v line mid after r0 r (i ∷ vs) vs k
          (string-IsExact N dev r.constants name) pool
          (compile_expression-Adds e ctx mid r0 r vs i h1 exact inner room before hi)
          λ j p. run_map_get N dev j name i v r vs p h (omega (arith, room, depth_positive N e))
    compile_expression-Adds (unary_expr op e line) ctx after r0 r vs v c exact pool room before
          (a, ha, h) =
        let (mid, h1, k) = and_then-InTwo N (compile_expression N e ctx) _ after c in
        let inner : HasPool N dev mid r =
          earlier-HasPool N dev mid after r
            (emit_unary-Grows N (unary_opcode N op) line mid after k) pool in
        after_unary N dev op a v line mid after r0 r vs k
          (compile_expression-Adds e ctx mid r0 r vs a h1 exact inner room before ha) h
          (omega (arith, room, depth_positive N e))
    compile_expression-Adds (binary_expr op l e line) ctx after r0 r vs v c exact pool room before
          (a, b, ha, hb, h) =
        let (mid, h1, k) = and_then-InTwo N (compile_expression N l ctx) _ after c in
        let (last, h2, k2) = and_then-InTwo N (compile_expression N e mid) _ after k in
        let second : HasPool N dev last r =
          earlier-HasPool N dev last after r
            (emit_binary-Grows N (binary_opcode N op) line last after k2) pool in
        let first : HasPool N dev mid r =
          earlier-HasPool N dev mid last r (compile_expression-Grows N e mid last h2) second in
        let (left, right) = rooms N (length vs) (depth N l) (depth N e) max_stack_depth room in
        after_binary N dev op a b v line last after r0 r vs k2
          (compile_expression-Adds e mid last r0 r (a ∷ vs) b h2 exact.1 second right
            (compile_expression-Adds l ctx mid r0 r vs a h1 exact.0 first left before ha) hb)
          h (omega (arith, left, depth_positive N l))
