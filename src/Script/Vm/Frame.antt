-- ===== src/Script/Vm/Frame.antt =====
-- What no instruction changes, and the bounds that every instruction keeps.
use c64stream.Base.{ℕ, ◌≤◌, ◌≡◌, Bool, true, false, List, [], ◌∷◌, arith}
use c64stream.Base.Bools.{if-split, leb, if◌then◌else◌}
use c64stream.Base.Lists.{length}
use c64stream.Script.Opcode.{Instruction}
use c64stream.Script.Value.{Value}
use c64stream.Script.State.{
  Runtime, Outcome, M, done, failed, pure, fail, ◌>>=◌, attempt, push, pop, pop_from, Error,
  max_stack_depth,
}
use c64stream.Script.Runtime.{max_variables}
use c64stream.Script.Control.{max_for_nesting, max_gosub_depth, max_scopes}

-- The program, its limit and the count of the round.
pub record Plan : Type 0 where
  pub code : List Instruction
  pub most : ℕ
  pub count : ℕ

-- The program and the counters are the plan's, and every stack and table is within its bound.
abbrev pub Fits : {F : Type 0} → Plan → Runtime F → Type 0
Fits p r =
    (r.bytecode ≡ p.code)
    × (r.max_iterations ≡ p.most)
    × (r.iteration_count ≡ p.count)
    × (length r.stack ≤ max_stack_depth)
    × (length r.for_stack ≤ max_for_nesting)
    × (length r.gosub_stack ≤ max_gosub_depth)
    × (length r.scope_stack ≤ max_scopes)
    × (length r.variables ≤ r.variable_capacity)
    × (r.variable_capacity ≤ max_variables)

-- Whether the call succeeds or not.
abbrev pub After : {F A : Type 0} → Plan → Outcome F A → Type 0
After p (done a s) = Fits p s
After p (failed s) = Fits p s

-- A call keeps the bounds, whether it succeeds or not.
pub record IsSound {F A : Type 0} (p : Plan) (m : M F A) : Type 0 where
  pub keeps : (r : Runtime F) → Fits p r → After p (m r)

After-attempt :
    {F : Type 0} (p : Plan) (x : Outcome F (Unit {0}))
    → After p x
    → After {F = F} {A = Unit {0}} p (elim x [ done a s ↦ done tt s | failed s ↦ done tt s ])
After-attempt p (done a s) h = h
After-attempt p (failed s) h = h

module _ {F : Type 0} {p : Plan} where
  pub sound : {A : Type 0} {m : M F A} → ((r : Runtime F) → Fits p r → After p (m r)) → IsSound p m
  sound h = record { keeps = h }

  pub pure-IsSound : {A : Type 0} (a : A) → IsSound {F = F} p (pure a)
  pure-IsSound a = sound λ r o. o

  pub fail-IsSound : {A : Type 0} (e : Error) → IsSound {F = F} {A = A} p (fail e)
  fail-IsSound e = sound λ r o. o

  After-bind :
      {A B : Type 0} (f : A → M F B) (x : Outcome F A)
      → After p x
      → ((a : A) → IsSound p (f a))
      → After p (elim x [ done a s ↦ f a s | failed s ↦ failed s ])
  After-bind f (done a s) h k = (k a).keeps s h
  After-bind f (failed s) h k = h

  pub bind-IsSound :
      {A B : Type 0} {m : M F A} {f : A → M F B}
      → IsSound p m
      → ((a : A) → IsSound p (f a))
      → IsSound p (m >>= f)
  bind-IsSound {m = m} {f = f} h k = sound λ r o. After-bind f (m r) (h.keeps r o) k

  pub attempt-IsSound : {m : M F (Unit {0})} → IsSound p m → IsSound p (attempt m)
  attempt-IsSound {m = m} h = sound λ r o. After-attempt p (m r) (h.keeps r o)

  pub if-IsSound :
      {A : Type 0} (b : Bool) {m n : M F A}
      → IsSound p m
      → IsSound p n
      → IsSound p (if b then m else n)
  if-IsSound true h k = h
  if-IsSound false h k = k

  pub push-IsSound : (v : Value F) → IsSound p (push v)
  unfolding push
  push-IsSound v = sound λ r o.
      if-split (After {F = F} {A = Unit {0}} p) (leb max_stack_depth (length r.stack)) (λ _. o)
        (λ e. (o.0, o.1, o.2, ground (arith, e), o.4, o.5, o.6, o.7, o.8))

  pop_from-After :
      (vs : List (Value F)) (r : Runtime F)
      → length vs ≤ max_stack_depth
      → Fits p r
      → After p (pop_from vs r)
  pop_from-After [] r h o = o
  pop_from-After (v ∷ vs) r h o = (o.0, o.1, o.2, omega (arith, h), o.4, o.5, o.6, o.7, o.8)

  pub pop-IsSound : IsSound {F = F} p pop
  unfolding pop
  pop-IsSound = sound λ r o. pop_from-After r.stack r o.3 o
