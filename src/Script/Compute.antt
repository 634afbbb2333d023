-- ===== src/Script/Compute.antt =====
-- src/script/vm/c64-script-vm-dispatch-core.c and -vm-utils.c: arithmetic, comparison, bits.
use Prim.Native.Nat.{compare, Ordering}
use Prim.Native.Nat.Ordering.{lt, eq, gt}
use c64stream.Base.{ℕ, ◌-◌, ◌^◌, Bool, true, false, Option, none, some, List, [], ◌∷◌, ◌++◌}
use c64stream.Base.Bools.{ltb, if◌then◌else◌}
use c64stream.Base.Int.{ℤ, pos, negsuc}
use c64stream.Base.Words.{signed32}
use c64stream.Script.Floats.{Floats}
use c64stream.Script.Value.{Value, number, string}
use c64stream.Script.State.{
  M, pure, fail, ◌>>=◌, push, pop, type_mismatch, illegal_quantity, division_by_zero,
}
use c64stream.Script.Runtime.{wrap32}

module _ {F : Type 0} where
  unfoldable pub require_number : Value F → M F F
  require_number (number x) = pure x
  require_number _ = fail type_mismatch

  -- The two operands, the upper one first.
  unfoldable pub binary : (Value F → Value F → M F (Unit {0})) → M F (Unit {0})
  binary op = do b ← pop; a ← pop; op a b

  unfoldable pub unary : (Value F → M F (Unit {0})) → M F (Unit {0})
  unary op = do a ← pop; op a

-- `strcmp`, by its sign.
unfoldable pub compare_text : List ℕ → List ℕ → Ordering
compare_text [] [] = eq
compare_text [] (y ∷ ys) = lt
compare_text (x ∷ xs) [] = gt
compare_text (x ∷ xs) (y ∷ ys) = elim (compare x y) [ lt ↦ lt | eq ↦ compare_text xs ys | gt ↦ gt ]

-- The tests that the relations make of `cmp`.
abbrev pub is_eq : Ordering → Bool
is_eq eq = true
is_eq _ = false

abbrev pub is_lt : Ordering → Bool
is_lt lt = true
is_lt _ = false

abbrev pub is_gt : Ordering → Bool
is_gt gt = true
is_gt _ = false

abbrev pub in_int : ℤ → Bool
in_int (pos n) = ltb n (2 ^ 31)
in_int (negsuc n) = ltb n (2 ^ 31)

module _ {F : Type 0} (N : Floats F) where
  unfoldable pub compare_values : Value F → Value F → M F Ordering
  unfolding compare_text
  compare_values (number x) (number y) =
      pure (if N.less x y then lt else if N.less y x then gt else eq)
  compare_values (string s) (string t) = pure (compare_text s t)
  compare_values _ _ = fail type_mismatch

  abbrev pub int_of : Option ℤ → M F ℤ
  int_of none = fail illegal_quantity
  int_of (some z) = if in_int z then pure z else fail illegal_quantity

  unfoldable pub number_to_int : Value F → M F ℤ
  unfolding require_number
  number_to_int v = do x ← require_number v; int_of (N.trunc x)

  -- OP_SUBTRACT and OP_MULTIPLY; OP_ADD of numbers. `b` is on top.
  unfoldable pub calculate : (F → F → F) → Value F → Value F → M F (Unit {0})
  unfolding require_number
  calculate f a b = do x ← require_number a; y ← require_number b; push (number (f x y))

  abbrev pub quotient : F → F → M F (Unit {0})
  quotient x y = if N.is_zero y then fail division_by_zero else push (number (N.div x y))

  unfoldable pub divide : Value F → Value F → M F (Unit {0})
  unfolding require_number
  divide a b = do x ← require_number a; y ← require_number b; quotient x y

  -- An operand of a concatenation.
  unfoldable pub as_text : Value F → M F (List ℕ)
  as_text (string s) = pure s
  as_text (number x) = pure (N.text x)
  as_text _ = fail type_mismatch

  unfoldable pub concatenate : Value F → Value F → M F (Unit {0})
  unfolding as_text
  concatenate a b = do s ← as_text a; t ← as_text b; push (string (s ++ t))

  unfoldable pub op_add_values : Value F → Value F → M F (Unit {0})
  unfolding concatenate calculate
  op_add_values (string s) b = concatenate (string s) b
  op_add_values a (string t) = concatenate a (string t)
  op_add_values a b = calculate N.sum a b

  unfoldable pub negate : Value F → M F (Unit {0})
  unfolding require_number
  negate a = do x ← require_number a; push (number (N.neg x))

  -- A relation gives one or zero.
  abbrev pub truth : Bool → Value F
  truth b = number (if b then N.one else N.zero)

  unfoldable pub relate : (Ordering → Bool) → Value F → Value F → M F (Unit {0})
  unfolding compare_values
  relate test a b = do c ← compare_values a b; push (truth (test c))

  -- On the 32 bits of two ints.
  unfoldable pub bitwise : (ℕ → ℕ → ℕ) → Value F → Value F → M F (Unit {0})
  unfolding number_to_int
  bitwise f a b = do
    x ← number_to_int a
    y ← number_to_int b
    push (number (N.from_int (signed32 (f (wrap32 x) (wrap32 y)))))

  unfoldable pub complement : Value F → M F (Unit {0})
  unfolding number_to_int
  complement a = do
    x ← number_to_int a
    push (number (N.from_int (signed32 (2 ^ 32 - 1 - wrap32 x))))
