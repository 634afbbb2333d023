-- ===== src/Script/Expression/Constants.antt =====
-- The pool of constants: what is added is found again, and nothing moves.
use c64stream.Base.{
  ℕ, zero, suc, ◌-◌, ◌^◌, ◌<◌, ◌≤◌, ◌≡◌, ap, subst, Bool, true, false, false≢true, Option, none,
  some, List, [], ◌∷◌, ◌++◌, refl, arith,
}
use c64stream.Base.Bools.{◌==◌, if◌then◌else◌, if-split}
use c64stream.Base.Bytes.{same_text-eq}
use c64stream.Base.Lists.{length, length-append}
use c64stream.Script.Floats.{Floats}
use c64stream.Script.Value.{Value, number, string, array, map}
use c64stream.Script.Opcode.{Opcode}
use c64stream.Script.Containers.{constant_at}
use c64stream.Script.Expression.{
  ExpressionContext, serves, next_place, find_constant, constant_or_new, add_constant, emit_into,
  emit_constant,
}

-- A number of the pool that compares as the same as `v` is `v`.
abbrev pub IsExact : {F : Type 0} → Floats F → List (Value F) → Value F → Type 0
IsExact {F} N cs v =
    (i : ℕ) (x y : F)
    → constant_at cs i ≡ some (number x)
    → v ≡ number y
    → N.same x y ≡ true
    → x ≡ y

-- Every constant of one pool is in the other, at the same place.
abbrev pub Agrees : {F : Type 0} → List (Value F) → List (Value F) → Type 0
Agrees {F} cs ds = (i : ℕ) (v : Value F) → constant_at cs i ≡ some v → constant_at ds i ≡ some v

abbrev is_found : {A : Type 0} → Option A → Bool
is_found none = false
is_found (some a) = true

module _ {F : Type 0} where
  Agrees-append : (cs ds : List (Value F)) → Agrees cs (cs ++ ds)
  unfolding constant_at
  Agrees-append [] ds i v e = absurd (false≢true (ap is_found e))
  Agrees-append (c ∷ cs) ds zero v e = e
  Agrees-append (c ∷ cs) ds (suc i) v e = Agrees-append cs ds i v e

  constant_at-last :
      (cs : List (Value F)) (v : Value F) → constant_at (cs ++ v ∷ []) (length cs) ≡ some v
  unfolding constant_at
  constant_at-last [] v = refl
  constant_at-last (c ∷ cs) v = constant_at-last cs v

module _ {F : Type 0} (N : Floats F) where
  serves-eq :
      (c v : Value F)
      → ((x y : F) → c ≡ number x → v ≡ number y → N.same x y ≡ true → x ≡ y)
      → serves N c v ≡ true
      → c ≡ v
  serves-eq (number x) (number y) exact e = ap number (exact x y refl refl e)
  serves-eq (number x) (string t) exact e = absurd (false≢true e)
  serves-eq (number x) (array k vs) exact e = absurd (false≢true e)
  serves-eq (number x) (map k es) exact e = absurd (false≢true e)
  serves-eq (string s) (number y) exact e = absurd (false≢true e)
  serves-eq (string s) (string t) exact e = ap string (same_text-eq s t e)
  serves-eq (string s) (array k vs) exact e = absurd (false≢true e)
  serves-eq (string s) (map k es) exact e = absurd (false≢true e)
  serves-eq (array k vs) v exact e = absurd (false≢true e)
  serves-eq (map k es) v exact e = absurd (false≢true e)

  -- What the search gives is the place of the value.
  abbrev IsPlace : List (Value F) → Value F → Option ℕ → Type 0
  IsPlace cs v none = Unit
  IsPlace cs v (some i) = (IsExact N cs v → constant_at cs i ≡ some v) × (i < length cs)

  next-IsPlace :
      (c : Value F) (cs : List (Value F)) (v : Value F) (o : Option ℕ)
      → IsPlace cs v o
      → IsPlace (c ∷ cs) v (next_place N o)
  unfolding constant_at
  next-IsPlace c cs v none h = tt
  next-IsPlace c cs v (some i) h = ((λ exact. h.0 (λ j. exact (suc j))), omega (arith, h.1))

  find_constant-IsPlace : (cs : List (Value F)) (v : Value F) → IsPlace cs v (find_constant N cs v)
  unfolding find_constant constant_at
  find_constant-IsPlace [] v = tt
  find_constant-IsPlace (c ∷ cs) v =
      if-split (IsPlace (c ∷ cs) v) (serves N c v)
        (λ e.
          ((λ exact. ap some (serves-eq c v (λ x y p. exact 0 x y (ap some p)) e)), omega arith))
        (λ _. next-IsPlace c cs v (find_constant N cs v) (find_constant-IsPlace cs v))

  -- What adding a constant gives: its place, in a pool that agrees with the old one.
  abbrev IsAdded : Value F → ExpressionContext F → ℕ × ExpressionContext F → Type 0
  IsAdded v ctx (i, after) =
      (after.instructions ≡ ctx.instructions)
      × Agrees ctx.constants after.constants
      × (length ctx.constants ≤ length after.constants)
      × (IsExact N after.constants v
          → length after.constants < 2 ^ 32
          → constant_at after.constants i ≡ some v)

  constant_or_new-IsAdded :
      (o : Option ℕ) (v : Value F) (ctx : ExpressionContext F)
      → IsPlace ctx.constants v o
      → IsAdded v ctx (constant_or_new N o v ctx)
  constant_or_new-IsAdded (some i) v ctx h = (
    refl,
    (λ j w e. e),
    omega arith,
    λ exact few.
        subst (λ j. constant_at ctx.constants j ≡ some v) (omega (arith, few, h.1)) (h.0 exact),
  )
  constant_or_new-IsAdded none v ctx h = (
    refl,
    Agrees-append ctx.constants (v ∷ []),
    omega (arith, length-append ctx.constants (v ∷ [])),
    λ exact few.
        subst (λ j. constant_at (ctx.constants ++ v ∷ []) j ≡ some v)
          (omega (arith, few, length-append ctx.constants (v ∷ [])))
          (constant_at-last ctx.constants v),
  )

  -- What an instruction on a constant adds.
  abbrev pub Emits : Opcode → Value F → ExpressionContext F → ExpressionContext F → Type 0
  Emits opcode v ctx after =
      (i : ℕ) × (line : ℕ) × (after.instructions
        ≡ record { opcode = opcode; operand = i; source_line = line } ∷ ctx.instructions)
      × Agrees ctx.constants after.constants
      × (length ctx.constants ≤ length after.constants)
      × (IsExact N after.constants v
          → length after.constants < 2 ^ 32
          → constant_at after.constants i ≡ some v)

  pub emit_constant-Emits :
      (opcode : Opcode) (v : Value F) (line : ℕ) (ctx after : ExpressionContext F)
      → emit_constant N opcode v line ctx ≡ some after
      → Emits opcode v ctx after
  unfolding emit_constant add_constant
  emit_constant-Emits opcode v line ctx after =
      of_added (constant_or_new N (find_constant N ctx.constants v) v ctx) (
        constant_or_new-IsAdded (find_constant N ctx.constants v) v ctx
          (find_constant-IsPlace ctx.constants v))
    where
      of_added :
          (p : ℕ × ExpressionContext F)
          → IsAdded v ctx p
          → (if p.0 == 2 ^ 32 - 1 then none else some (emit_into N opcode p.0 line p.1))
            ≡ some after
          → Emits opcode v ctx after
      of_added (i, mid) h =
          if-split (λ (o : Option (ExpressionContext F)). o ≡ some after → Emits opcode v ctx after)
            (i == 2 ^ 32 - 1) (λ _ e. absurd (false≢true (ap is_found e)))
            (λ _ e. subst (λ o. Emits_of i mid o) e (emitted i mid h))
        where
          Emits_of : ℕ → ExpressionContext F → Option (ExpressionContext F) → Type 0
          Emits_of i mid none = Unit
          Emits_of i mid (some c) = Emits opcode v ctx c

          emitted :
              (i : ℕ) (mid : ExpressionContext F)
              → IsAdded v ctx (i, mid)
              → Emits_of i mid (some (emit_into N opcode i line mid))
          emitted i mid h = (
            i,
            line,
            ap (λ xs. record { opcode = opcode; operand = i; source_line = line } ∷ xs) h.0,
            h.1,
            h.2,
            h.3,
          )
