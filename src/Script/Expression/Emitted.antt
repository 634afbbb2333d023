-- ===== src/Script/Expression/Emitted.antt =====
-- What is emitted last adds a value to the stack that the code before leaves.
use c64stream.Base.{
  ℕ, suc, ◌+◌, ◌^◌, ◌<◌, ◌≤◌, ◌≡◌, ◌∙◌, sym, ap, subst, Bool, true, refl, false, false≢true, Option,
  none, some, List, ◌∷◌, arith,
}
use c64stream.Base.Lists.{length}
use c64stream.Script.Floats.{Floats}
use c64stream.Script.Value.{Value, number, string, array, map}
use c64stream.Script.Opcode.{Opcode, Instruction}
use c64stream.Script.State.{Runtime, done, max_stack_depth}
use c64stream.Script.Containers.{constant_at}
use c64stream.Script.Execute.{Devices, execute_instruction}
use c64stream.Script.Expression.{
  Operator, expr_add, expr_subtract, expr_multiply, expr_divide, expr_negate, expr_eq, expr_ne,
  expr_lt, expr_le, expr_gt, expr_ge, expr_not, expr_and, expr_xor, expr_or, Expression,
  number_expr, string_expr, identifier_expr, array_access, map_access, unary_expr, binary_expr,
  ExpressionContext, unary_opcode, binary_opcode, emit_unary, emit_binary, emit_constant,
}
use c64stream.Script.Expression.Constants.{IsExact, Agrees, emit_constant-Emits}
use c64stream.Script.Expression.Meaning.{
  with_stack, Pushes, operation, UnaryGives, max, depth, run_code,
}
use c64stream.Script.Expression.Instructions.{run_step, run_negate, run_not, RunsBinary, run_binary}
use c64stream.Script.Expression.Growth.{is_some, OfSome, Grows}

abbrev is_number : {F : Type 0} → Value F → Bool
is_number (number x) = true
is_number (string s) = false
is_number (array k vs) = false
is_number (map k es) = false

module _ {F : Type 0} (N : Floats F) where
  pub depth_positive : (e : Expression F) → 0 < depth N e
  depth_positive (number_expr x line) = omega arith
  depth_positive (string_expr s line) = omega arith
  depth_positive (identifier_expr s line) = omega arith
  depth_positive (array_access name e line) = depth_positive e
  depth_positive (map_access name e line) = depth_positive e
  depth_positive (unary_expr op e line) = depth_positive e
  depth_positive (binary_expr op l e line) = max_positive (depth N l) (depth N e) (depth_positive l)
    where
      max_positive : (m n : ℕ) → 0 < m → 0 < max N m (n + 1)
      max_positive m n h = ground (arith, h)

  -- The two operands have room, the second one a value higher.
  pub rooms : (k m n b : ℕ) → k + max N m (n + 1) ≤ b → (k + m ≤ b) × (suc k + n ≤ b)
  rooms k m n b h = (ground (arith, h), ground (arith, h))

  module _ (dev : Devices F) where
    -- From a state with some stack, which the code before leaves, the code goes on to one with a
    -- value more.
    abbrev pub Adds : List Instruction → Runtime F → Runtime F → List (Value F) → Value F → Type 0
    Adds xs r0 r vs v = run_code N dev xs r0 ≡ done tt (with_stack r (v ∷ vs))

    -- The machine has the constants of the compiler, and there are not too many.
    abbrev pub HasPool : ExpressionContext F → Runtime F → Type 0
    HasPool ctx r = Agrees ctx.constants r.constants × (length ctx.constants < 2 ^ 32)

    pub earlier-HasPool :
        (ctx after : ExpressionContext F) (r : Runtime F)
        → Grows N ctx after
        → HasPool after r
        → HasPool ctx r
    earlier-HasPool ctx after r g p = ((λ i v e. p.0 i v (g.0 i v e)), omega (arith, g.1, p.1))

    -- Of a string there are no two.
    pub string-IsExact : (cs : List (Value F)) (s : List ℕ) → IsExact N cs (string s)
    string-IsExact cs s i x y p e = absurd (false≢true (ap is_number e ∙ refl))

    pub after_constant :
        (op : Opcode) (c v : Value F) (line : ℕ) (ctx after : ExpressionContext F)
        (r0 r : Runtime F) (us vs : List (Value F))
        → emit_constant N op c line ctx ≡ some after
        → IsExact N r.constants c
        → HasPool after r
        → run_code N dev ctx.instructions r0 ≡ done tt (with_stack r us)
        → ((i : ℕ)
            → constant_at r.constants i ≡ some c
            → execute_instruction N dev op i (with_stack r us) ≡ done false (with_stack r (v ∷ vs)))
        → Adds after.instructions r0 r vs v
    after_constant op c v line ctx after r0 r us vs e exact pool before h =
        let (i, l, code, agrees, more, place) = emit_constant-Emits N op c line ctx after e in
        ap (λ xs. run_code N dev xs r0) code
        ∙ run_step N dev op i l false ctx.instructions r0 (with_stack r us) (with_stack r (v ∷ vs))
            before
            (h i (pool.0 i c (place (λ j x y p. exact j x y (pool.0 j (number x) p)) pool.1)))

    pub after_binary :
        (op : Operator) (a b v : Value F) (line : ℕ) (ctx after : ExpressionContext F)
        (r0 r : Runtime F) (vs : List (Value F))
        → emit_binary N (binary_opcode N op) line ctx ≡ some after
        → run_code N dev ctx.instructions r0 ≡ done tt (with_stack r (b ∷ a ∷ vs))
        → Pushes (operation N op a b) r v
        → length vs < max_stack_depth
        → Adds after.instructions r0 r vs v
    after_binary op a b v line ctx after r0 r vs e before h lt =
        emitted (binary_opcode N op) e (run_binary N dev op a b v r vs h lt)
      where
        emitted :
            (o : Option Opcode)
            → emit_binary N o line ctx ≡ some after
            → RunsBinary N dev o a b v r vs
            → Adds after.instructions r0 r vs v
        emitted none e k = absurd (false≢true (ap is_some e))
        emitted (some oc) e k = subst (OfSome N (λ c. Adds c.instructions r0 r vs v)) e (
            run_step N dev oc 0 line false ctx.instructions r0 (with_stack r (b ∷ a ∷ vs))
              (with_stack r (v ∷ vs)) before k)

    unchanged :
        (a v : Value F) (ctx after : ExpressionContext F) (r0 r : Runtime F) (vs : List (Value F))
        → some ctx ≡ some after
        → run_code N dev ctx.instructions r0 ≡ done tt (with_stack r (a ∷ vs))
        → v ≡ a
        → Adds after.instructions r0 r vs v
    unchanged a v ctx after r0 r vs e before h =
        subst (OfSome N (λ c. Adds c.instructions r0 r vs v)) e
          (before ∙ ap (λ w. done tt (with_stack r (w ∷ vs))) (sym h))

    pub after_unary :
        (op : Operator) (a v : Value F) (line : ℕ) (ctx after : ExpressionContext F)
        (r0 r : Runtime F) (vs : List (Value F))
        → emit_unary N (unary_opcode N op) line ctx ≡ some after
        → run_code N dev ctx.instructions r0 ≡ done tt (with_stack r (a ∷ vs))
        → UnaryGives N op a r v
        → length vs < max_stack_depth
        → Adds after.instructions r0 r vs v
    after_unary expr_negate a v line ctx after r0 r vs e before (x, ea, ev) lt =
        subst (OfSome N (λ c. Adds c.instructions r0 r vs v)) e (
          run_step N dev Opcode.op_negate 0 line false ctx.instructions r0
            (with_stack r (number x ∷ vs)) (with_stack r (v ∷ vs))
            (before ∙ ap (λ w. done tt (with_stack r (w ∷ vs))) ea)
            (run_negate N dev x r vs lt ∙ ap (λ w. done false (with_stack r (w ∷ vs))) (sym ev)))
    after_unary expr_not a v line ctx after r0 r vs e before h lt =
        subst (OfSome N (λ c. Adds c.instructions r0 r vs v)) e (
          run_step N dev Opcode.op_not 0 line false ctx.instructions r0 (with_stack r (a ∷ vs))
            (with_stack r (v ∷ vs)) before (run_not N dev a v r vs h lt))
    after_unary expr_add a v line ctx after r0 r vs e before h lt =
        unchanged a v ctx after r0 r vs e before h
    after_unary expr_subtract a v line ctx after r0 r vs e before h lt =
        unchanged a v ctx after r0 r vs e before h
    after_unary expr_multiply a v line ctx after r0 r vs e before h lt =
        unchanged a v ctx after r0 r vs e before h
    after_unary expr_divide a v line ctx after r0 r vs e before h lt =
        unchanged a v ctx after r0 r vs e before h
    after_unary expr_eq a v line ctx after r0 r vs e before h lt =
        unchanged a v ctx after r0 r vs e before h
    after_unary expr_ne a v line ctx after r0 r vs e before h lt =
        unchanged a v ctx after r0 r vs e before h
    after_unary expr_lt a v line ctx after r0 r vs e before h lt =
        unchanged a v ctx after r0 r vs e before h
    after_unary expr_le a v line ctx after r0 r vs e before h lt =
        unchanged a v ctx after r0 r vs e before h
    after_unary expr_gt a v line ctx after r0 r vs e before h lt =
        unchanged a v ctx after r0 r vs e before h
    after_unary expr_ge a v line ctx after r0 r vs e before h lt =
        unchanged a v ctx after r0 r vs e before h
    after_unary expr_and a v line ctx after r0 r vs e before h lt =
        unchanged a v ctx after r0 r vs e before h
    after_unary expr_xor a v line ctx after r0 r vs e before h lt =
        unchanged a v ctx after r0 r vs e before h
    after_unary expr_or a v line ctx after r0 r vs e before h lt =
        unchanged a v ctx after r0 r vs e before h
