-- ===== src/Script/Vm/Values.antt =====
-- The instructions on values keep the bounds.
use c64stream.Base.{ℕ, Bool, Option, none, some}
use c64stream.Base.Int.{ℤ}
use c64stream.Script.Floats.{Floats}
use c64stream.Script.Value.{Value, number, string, array, map}
use c64stream.Script.State.{M}
use Prim.Native.Nat.{Ordering}
use c64stream.Script.Compute.{
  require_number, binary, unary, calculate, divide, as_text, concatenate, op_add_values, negate,
  relate, bitwise, complement, compare_values, number_to_int, int_of, in_int,
}
use c64stream.Script.Containers.{constant_at, name_of, constant_name}
use c64stream.Script.Vm.Frame.{
  Plan, IsSound, sound, pure-IsSound, fail-IsSound, bind-IsSound, if-IsSound, push-IsSound,
  pop-IsSound,
}

module _ {F : Type 0} {p : Plan} where
  pub require_number-IsSound : (v : Value F) → IsSound p (require_number v)
  unfolding require_number
  require_number-IsSound (number x) = pure-IsSound x
  require_number-IsSound (string s) = fail-IsSound _
  require_number-IsSound (array t vs) = fail-IsSound _
  require_number-IsSound (map t es) = fail-IsSound _

  pub binary-IsSound :
      (op : Value F → Value F → M F (Unit {0}))
      → ((a b : Value F) → IsSound p (op a b))
      → IsSound p (binary op)
  unfolding binary
  binary-IsSound op h = bind-IsSound pop-IsSound λ b. bind-IsSound pop-IsSound λ a. h a b

  pub unary-IsSound :
      (op : Value F → M F (Unit {0})) → ((a : Value F) → IsSound p (op a)) → IsSound p (unary op)
  unfolding unary
  unary-IsSound op h = bind-IsSound pop-IsSound h

  name_of-IsSound : (v : Option (Value F)) → IsSound p (name_of v)
  name_of-IsSound none = fail-IsSound _
  name_of-IsSound (some (number x)) = fail-IsSound _
  name_of-IsSound (some (string s)) = pure-IsSound s
  name_of-IsSound (some (array t vs)) = fail-IsSound _
  name_of-IsSound (some (map t es)) = fail-IsSound _

  pub constant_name-IsSound : (i : ℕ) → IsSound {F = F} p (constant_name i)
  unfolding constant_name
  constant_name-IsSound i = sound λ r o. (name_of-IsSound (constant_at r.constants i)).keeps r o

module _ {F : Type 0} {p : Plan} (N : Floats F) where
  pub calculate-IsSound : (f : F → F → F) (a b : Value F) → IsSound p (calculate N f a b)
  unfolding calculate
  calculate-IsSound f a b =
      bind-IsSound (require_number-IsSound a)
        λ x. bind-IsSound (require_number-IsSound b) λ y. push-IsSound _

  pub divide-IsSound : (a b : Value F) → IsSound p (divide N a b)
  unfolding divide
  divide-IsSound a b = bind-IsSound (require_number-IsSound a) λ x.
      bind-IsSound (require_number-IsSound b)
        λ y. if-IsSound (N.is_zero y) (fail-IsSound _) (push-IsSound _)

  as_text-IsSound : (a : Value F) → IsSound p (as_text N a)
  unfolding as_text
  as_text-IsSound (number x) = pure-IsSound _
  as_text-IsSound (string s) = pure-IsSound s
  as_text-IsSound (array t vs) = fail-IsSound _
  as_text-IsSound (map t es) = fail-IsSound _

  concatenate-IsSound : (a b : Value F) → IsSound p (concatenate N a b)
  unfolding concatenate
  concatenate-IsSound a b =
      bind-IsSound (as_text-IsSound a) λ s. bind-IsSound (as_text-IsSound b) λ t. push-IsSound _

  pub op_add_values-IsSound : (a b : Value F) → IsSound p (op_add_values N a b)
  unfolding op_add_values
  op_add_values-IsSound (string s) b = concatenate-IsSound (string s) b
  op_add_values-IsSound (number x) (string t) = concatenate-IsSound (number x) (string t)
  op_add_values-IsSound (array k vs) (string t) = concatenate-IsSound (array k vs) (string t)
  op_add_values-IsSound (map k es) (string t) = concatenate-IsSound (map k es) (string t)
  op_add_values-IsSound (number x) (number y) = calculate-IsSound N.sum (number x) (number y)
  op_add_values-IsSound (number x) (array k vs) = calculate-IsSound N.sum (number x) (array k vs)
  op_add_values-IsSound (number x) (map k es) = calculate-IsSound N.sum (number x) (map k es)
  op_add_values-IsSound (array k vs) (number y) = calculate-IsSound N.sum (array k vs) (number y)
  op_add_values-IsSound (array k vs) (array l us) =
      calculate-IsSound N.sum (array k vs) (array l us)
  op_add_values-IsSound (array k vs) (map l us) = calculate-IsSound N.sum (array k vs) (map l us)
  op_add_values-IsSound (map k vs) (number y) = calculate-IsSound N.sum (map k vs) (number y)
  op_add_values-IsSound (map k vs) (array l us) = calculate-IsSound N.sum (map k vs) (array l us)
  op_add_values-IsSound (map k vs) (map l us) = calculate-IsSound N.sum (map k vs) (map l us)

  pub negate-IsSound : (a : Value F) → IsSound p (negate N a)
  unfolding negate
  negate-IsSound a = bind-IsSound (require_number-IsSound a) λ x. push-IsSound _

  compare_values-IsSound : (a b : Value F) → IsSound p (compare_values N a b)
  unfolding compare_values
  compare_values-IsSound (number x) (number y) = pure-IsSound _
  compare_values-IsSound (number x) (string t) = fail-IsSound _
  compare_values-IsSound (number x) (array l us) = fail-IsSound _
  compare_values-IsSound (number x) (map l us) = fail-IsSound _
  compare_values-IsSound (string s) (number y) = fail-IsSound _
  compare_values-IsSound (string s) (string t) = pure-IsSound _
  compare_values-IsSound (string s) (array l us) = fail-IsSound _
  compare_values-IsSound (string s) (map l us) = fail-IsSound _
  compare_values-IsSound (array k vs) b = fail-IsSound _
  compare_values-IsSound (map k es) b = fail-IsSound _

  pub relate-IsSound : (test : Ordering → Bool) (a b : Value F) → IsSound p (relate N test a b)
  unfolding relate
  relate-IsSound test a b = bind-IsSound (compare_values-IsSound a b) λ c. push-IsSound _

  int_of-IsSound : (z : Option ℤ) → IsSound p (int_of N z)
  int_of-IsSound none = fail-IsSound _
  int_of-IsSound (some z) = if-IsSound (in_int z) (pure-IsSound z) (fail-IsSound _)

  number_to_int-IsSound : (v : Value F) → IsSound p (number_to_int N v)
  unfolding number_to_int
  number_to_int-IsSound v = bind-IsSound (require_number-IsSound v) λ x. int_of-IsSound (N.trunc x)

  pub bitwise-IsSound : (f : ℕ → ℕ → ℕ) (a b : Value F) → IsSound p (bitwise N f a b)
  unfolding bitwise
  bitwise-IsSound f a b =
      bind-IsSound (number_to_int-IsSound a)
        λ x. bind-IsSound (number_to_int-IsSound b) λ y. push-IsSound _

  pub complement-IsSound : (a : Value F) → IsSound p (complement N a)
  unfolding complement
  complement-IsSound a = bind-IsSound (number_to_int-IsSound a) λ x. push-IsSound _
