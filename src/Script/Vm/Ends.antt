-- ===== src/Script/Vm/Ends.antt =====
-- The loop of the machine: a limit on the rounds ends every script, and the bounds hold to its end.
use c64stream.Base.{
  ℕ, zero, suc, ◌+◌, ◌≤◌, ◌<◌, ◌≡◌, ◌≢◌, Bool, false, Option, none, some, refl, arith, ◌^◌, subst,
}
use c64stream.Base.Lists.{length}
use c64stream.Script.Floats.{Floats}
use c64stream.Script.State.{Runtime, max_stack_depth}
use c64stream.Script.Control.{max_for_nesting, max_gosub_depth, max_scopes}
use c64stream.Script.Runtime.{max_variables}
use c64stream.Script.Execute.{Devices}
use c64stream.Script.Vm.{
  Signals, Round, never, finished, goes_on, waits, next_line, seen, loop, is_empty, vm_execute,
}
use c64stream.Base.Bools.{if-split}
use c64stream.Script.Vm.Frame.{Plan, Fits}
use c64stream.Script.Vm.Bounds.{IsSafe}
use c64stream.Script.Vm.Rounds.{at, HasLimit, Leaves, IsOver, round-Leaves, round-IsOver}

-- Every stack and the table of the variables is within its limit.
abbrev pub InBounds : {F : Type 0} → Runtime F → Type 0
InBounds r =
    (length r.stack ≤ max_stack_depth)
    × (length r.for_stack ≤ max_for_nesting)
    × (length r.gosub_stack ≤ max_gosub_depth)
    × (length r.scope_stack ≤ max_scopes)
    × (length r.variables ≤ r.variable_capacity)
    × (r.variable_capacity ≤ max_variables)

module _ {F : Type 0} (N : Floats F) (dev : Devices F) (safe : (p : Plan) → IsSafe p dev) where
  module _ (ui : Signals) where
    -- The bounds hold of the end, if there is one.
    abbrev Keeps : Plan → Option (Bool × Runtime F) → Type 0
    Keeps p none = Unit {0}
    Keeps p (some (b, s)) = (n : ℕ) × Fits (at n p) s

    after_round-Keeps :
        (p : Plan) (x : Round F) (fuel k : ℕ)
        → Leaves p x
        → ((n : ℕ) (s : Runtime F) → Fits (at n p) s → Keeps (at n p) (loop N dev ui fuel k s))
        → Keeps p (elim x [
          | finished b s ↦ some (b, s)
          | goes_on s ↦ loop N dev ui fuel k s
          | waits s ↦ none
        ])
    after_round-Keeps p (finished b s) fuel k h f = h
    after_round-Keeps p (waits s) fuel k h f = tt
    after_round-Keeps p (goes_on s) fuel k (n, o, _) f = stays (loop N dev ui fuel k s) (f n s o)
      where
        stays : (x : Option (Bool × Runtime F)) → Keeps (at n p) x → Keeps p x
        stays none h = tt
        stays (some (b, s)) h = h

    loop-Keeps :
        (p : Plan) (fuel k : ℕ) (r : Runtime F) → Fits p r → Keeps p (loop N dev ui fuel k r)
    unfolding loop
    loop-Keeps p zero k r o = tt
    loop-Keeps p (suc fuel) k r o =
        after_round-Keeps p _ fuel (suc k)
          (round-Leaves N dev safe p (ui.ends k) (seen N dev ui k r) o)
          λ n s q. loop-Keeps (at n p) fuel (suc k) s q

    abbrev IsGiven : Option (Bool × Runtime F) → Type 0
    IsGiven none = ⊥
    IsGiven (some x) = Unit {0}

    given : (x : Option (Bool × Runtime F)) → IsGiven x → (y : Bool × Runtime F) × (x ≡ some y)
    given none h = elim h [ ]
    given (some y) h = (y, refl)

    after_round-ends :
        (p : Plan) (x : Round F) (fuel k : ℕ)
        → HasLimit p
        → p.count < p.most
        → p.most ≤ p.count + suc fuel
        → Leaves p x
        → IsOver x
        → ((n : ℕ) (s : Runtime F)
            → n < p.most
            → p.most ≤ n + fuel
            → Fits (at n p) s
            → IsGiven (loop N dev ui fuel k s))
        → IsGiven (elim x [
          | finished b s ↦ some (b, s)
          | goes_on s ↦ loop N dev ui fuel k s
          | waits s ↦ none
        ])
    after_round-ends p (finished b s) fuel k lim lt le h g f = tt
    after_round-ends p (waits s) fuel k lim lt le h g f = absurd g
    after_round-ends p (goes_on s) fuel k lim lt le (n, o, h) g f =
        f n s (h lim).1 (omega (arith, (h lim).0, (h lim).1, lim.1, lt, le)) o

    loop-ends :
        (p : Plan) (fuel k : ℕ) (r : Runtime F)
        → HasLimit p
        → p.count < p.most
        → p.most ≤ p.count + fuel
        → Fits p r
        → ((j : ℕ) → ui.ends j ≢ never)
        → IsGiven (loop N dev ui fuel k r)
    unfolding loop
    loop-ends p zero k r lim lt le o ends = omega (arith, lt, le)
    loop-ends p (suc fuel) k r lim lt le o ends =
        after_round-ends p _ fuel (suc k) lim lt le
          (round-Leaves N dev safe p (ui.ends k) (seen N dev ui k r) o)
          (round-IsOver N dev (ui.ends k) (seen N dev ui k r) (ends k))
          λ n s lt le q. loop-ends (at n p) fuel (suc k) s lim lt le q ends

    -- Where `vm_execute` starts the loop.
    abbrev start : Runtime F → Runtime F
    start r =
        next_line N dev
          (record r { ip = 0; should_stop = false; last_executed_line = 0; iteration_count = 0 })

    abbrev start_plan : Runtime F → Plan
    start_plan r = record { code = r.bytecode; most = r.max_iterations; count = 0 }

    start-Fits : (r : Runtime F) → InBounds r → Fits (start_plan r) (start r)
    start-Fits r o = (refl, refl, refl, o.0, o.1, o.2, o.3, o.4, o.5)

    -- If a run ends, it leaves the program and the limit as they were, and if the stacks and the
    -- variables were within their limits, they still are, however the run ends: the value stack
    -- has at most 64 values, 16 FOR loops, 32 GOSUBs and 1,024 functions are nested at most, and
    -- there are at most 512 global variables. The instructions on devices are taken to keep this.
    pub vm_execute-InBounds :
        (fuel : ℕ) (r s : Runtime F) (b : Bool)
        → InBounds r
        → vm_execute N dev ui fuel r ≡ some (b, s)
        → InBounds s × (s.bytecode ≡ r.bytecode) × (s.max_iterations ≡ r.max_iterations)
    unfolding vm_execute
    vm_execute-InBounds fuel r s b o e =
        let kept =
          if-split (Keeps (start_plan r)) (is_empty N dev ui r.bytecode)
            (λ _. (r.iteration_count, (refl, refl, refl, o.0, o.1, o.2, o.3, o.4, o.5)))
            (λ _. loop-Keeps (start_plan r) fuel 0 (start r) (start-Fits r o)) in
        result (subst (Keeps (start_plan r)) e kept)
      where
        result :
            Keeps (start_plan r) (some (b, s))
            → InBounds s × (s.bytecode ≡ r.bytecode) × (s.max_iterations ≡ r.max_iterations)
        result (n, h) = ((h.3, h.4, h.5, h.6, h.7, h.8), h.0, h.1)

    -- With a limit above zero and below 2 ^ 64 on the rounds, and stacks and variables within their
    -- limits at the start, every run ends after at most as many rounds, whatever the program is and
    -- whatever the user does, if the user ends every pause. The instructions on devices are taken to return, to leave the program
    -- and the counters alone, and to keep the limits.
    pub vm_execute-ends :
        (fuel : ℕ) (r : Runtime F)
        → 0 < r.max_iterations
        → r.max_iterations < 2 ^ 64
        → r.max_iterations ≤ fuel
        → InBounds r
        → ((k : ℕ) → ui.ends k ≢ never)
        → (x : Bool × Runtime F) × (vm_execute N dev ui fuel r ≡ some x)
    unfolding vm_execute
    vm_execute-ends fuel r lo hi enough o ends = given _ (
        if-split IsGiven (is_empty N dev ui r.bytecode) (λ _. tt)
          (λ _.
            loop-ends (start_plan r) fuel 0 (start r) (lo, hi) lo (omega (arith, enough))
              (start-Fits r o) ends))
