-- ===== src/Script/Expression/Growth.antt =====
-- The pool of constants only grows while an expression is compiled.
use c64stream.Base.{
  ℕ, ◌≤◌, ◌≡◌, ap, subst, Bool, true, false, false≢true, Option, none, some, refl, arith,
}
use c64stream.Base.Lists.{length}
use c64stream.Script.Floats.{Floats}
use c64stream.Script.Value.{Value, number, string}
use c64stream.Script.Opcode.{Opcode}
use c64stream.Script.Expression.{
  Expression, number_expr, string_expr, identifier_expr, array_access, map_access, unary_expr,
  binary_expr, ExpressionContext, unary_opcode, binary_opcode, emit_unary, emit_binary,
  emit_constant, and_then, compile_expression,
}
use c64stream.Script.Expression.Constants.{Agrees, emit_constant-Emits}

abbrev pub is_some : {A : Type 0} → Option A → Bool
is_some none = false
is_some (some a) = true

module _ {F : Type 0} (N : Floats F) where
  -- How two steps of the compilation succeed.
  abbrev pub InTwo :
      Option (ExpressionContext F)
      → (ExpressionContext F → Option (ExpressionContext F))
      → ExpressionContext F
      → Type 0
  InTwo o f after = (mid : ExpressionContext F) × (o ≡ some mid) × (f mid ≡ some after)

  pub and_then-InTwo :
      (o : Option (ExpressionContext F)) (f : ExpressionContext F → Option (ExpressionContext F))
      (after : ExpressionContext F)
      → and_then N o f ≡ some after
      → InTwo o f after
  and_then-InTwo none f after e = absurd (false≢true (ap is_some e))
  and_then-InTwo (some mid) f after e = (mid, refl, e)

  -- The pool only grows.
  abbrev pub Grows : ExpressionContext F → ExpressionContext F → Type 0
  Grows ctx after =
      Agrees ctx.constants after.constants × (length ctx.constants ≤ length after.constants)

  Grows-trans : (a b c : ExpressionContext F) → Grows a b → Grows b c → Grows a c
  Grows-trans a b c g h = ((λ i v e. h.0 i v (g.0 i v e)), omega (arith, g.1, h.1))

  abbrev pub OfSome : (f : ExpressionContext F → Type 0) → Option (ExpressionContext F) → Type 0
  OfSome f none = Unit
  OfSome f (some c) = f c

  pub emit_unary-Grows :
      (o : Option Opcode) (line : ℕ) (ctx after : ExpressionContext F)
      → emit_unary N o line ctx ≡ some after
      → Grows ctx after
  emit_unary-Grows none line ctx after e = subst (OfSome (Grows ctx)) e ((λ i v e. e), omega arith)
  emit_unary-Grows (some op) line ctx after e =
      subst (OfSome (Grows ctx)) e ((λ i v e. e), omega arith)

  pub emit_binary-Grows :
      (o : Option Opcode) (line : ℕ) (ctx after : ExpressionContext F)
      → emit_binary N o line ctx ≡ some after
      → Grows ctx after
  emit_binary-Grows none line ctx after e = absurd (false≢true (ap is_some e))
  emit_binary-Grows (some op) line ctx after e =
      subst (OfSome (Grows ctx)) e ((λ i v e. e), omega arith)

  pub emit_constant-Grows :
      (op : Opcode) (v : Value F) (line : ℕ) (ctx after : ExpressionContext F)
      → emit_constant N op v line ctx ≡ some after
      → Grows ctx after
  emit_constant-Grows op v line ctx after e =
      let (i, l, code, agrees, more, place) = emit_constant-Emits N op v line ctx after e in
      (agrees, more)

  pub compile_expression-Grows :
      (e : Expression F) (ctx after : ExpressionContext F)
      → compile_expression N e ctx ≡ some after
      → Grows ctx after
  unfolding compile_expression
  compile_expression-Grows (number_expr x line) ctx after c =
      emit_constant-Grows Opcode.op_push_const (number x) line ctx after c
  compile_expression-Grows (string_expr s line) ctx after c =
      emit_constant-Grows Opcode.op_push_const (string s) line ctx after c
  compile_expression-Grows (identifier_expr s line) ctx after c =
      emit_constant-Grows Opcode.op_push_var (string s) line ctx after c
  compile_expression-Grows (array_access name e line) ctx after c =
      let (mid, h, k) = and_then-InTwo (compile_expression N e ctx) _ after c in
      Grows-trans ctx mid after (compile_expression-Grows e ctx mid h)
        (emit_constant-Grows Opcode.op_array_get (string name) line mid after k)
  compile_expression-Grows (map_access name e line) ctx after c =
      let (mid, h, k) = and_then-InTwo (compile_expression N e ctx) _ after c in
      Grows-trans ctx mid after (compile_expression-Grows e ctx mid h)
        (emit_constant-Grows Opcode.op_map_get (string name) line mid after k)
  compile_expression-Grows (unary_expr op e line) ctx after c =
      let (mid, h, k) = and_then-InTwo (compile_expression N e ctx) _ after c in
      Grows-trans ctx mid after (compile_expression-Grows e ctx mid h)
        (emit_unary-Grows (unary_opcode N op) line mid after k)
  compile_expression-Grows (binary_expr op l e line) ctx after c =
      let (mid, h, k) = and_then-InTwo (compile_expression N l ctx) _ after c in
      let (mid2, h2, k2) = and_then-InTwo (compile_expression N e mid) _ after k in
      Grows-trans ctx mid after (compile_expression-Grows l ctx mid h) (
        Grows-trans mid mid2 after (compile_expression-Grows e mid mid2 h2)
          (emit_binary-Grows (binary_opcode N op) line mid2 after k2))
