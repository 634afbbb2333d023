-- ===== src/Script/Vm/Rounds.antt =====
-- One round of the loop of the machine: what it keeps, and what it counts.
use c64stream.Base.{
  ℕ, ◌+◌, ◌<◌, ◌≡◌, ◌≢◌, Bool, true, false, not, none, some, refl, arith, ◌%◌, ◌^◌, ◌&&◌, ap,
}
use c64stream.Base.Bools.{if-split, ltb, leb, ◌==◌, if◌then◌else◌}
use c64stream.Script.Floats.{Floats}
use c64stream.Script.Opcode.{Instruction}
use c64stream.Script.State.{Runtime, Outcome, done, failed}
use c64stream.Script.Execute.{Devices}
use c64stream.Script.Vm.{
  PauseEnd, resumed, stepped, stopped, never, Round, finished, goes_on, waits, instruction_at,
  after_instruction, run_instruction, counted, limited, end_pause, pause_then_run, round,
}
use c64stream.Script.Vm.Frame.{Plan, Fits, After}
use c64stream.Script.Vm.Bounds.{IsSafe, execute_instruction-IsSound}

-- The plan with another count.
abbrev pub at : ℕ → Plan → Plan
at n p = record p { count = n }

-- A limit that the counter can reach.
abbrev pub HasLimit : Plan → Type 0
HasLimit p = (0 < p.most) × (p.most < 2 ^ 64)

-- What holds after a round: it goes on only below the limit, if there is one, with one more counted.
abbrev pub Leaves : {F : Type 0} → Plan → Round F → Type 0
Leaves p (finished b s) = (n : ℕ) × Fits (at n p) s
Leaves p (waits s) = (n : ℕ) × Fits (at n p) s
Leaves p (goes_on s) =
    (n : ℕ) × Fits (at n p) s × (HasLimit p → (n ≡ (p.count + 1) % 2 ^ 64) × (n < p.most))

-- What holds after the rest of a round.
abbrev Rests : {F : Type 0} → Plan → Round F → Type 0
Rests p (finished b s) = Fits p s
Rests p (goes_on s) = Fits p s
Rests p (waits s) = Fits p s

-- The round does not wait for ever.
abbrev pub IsOver : {F : Type 0} → Round F → Type 0
IsOver (finished b s) = Unit {0}
IsOver (goes_on s) = Unit {0}
IsOver (waits s) = ⊥

module _ {F : Type 0} (N : Floats F) (dev : Devices F) (safe : (p : Plan) → IsSafe p dev) where
  after_instruction-Rests :
      (p : Plan) (line : ℕ) (x : Outcome F Bool)
      → After p x
      → Rests p (after_instruction N dev line x)
  after_instruction-Rests p line (done b s) o = o
  after_instruction-Rests p line (failed s) o = o

  run_instruction-Rests :
      (p : Plan) (x : Instruction) (r : Runtime F) → Fits p r → Rests p (run_instruction N dev x r)
  unfolding run_instruction
  run_instruction-Rests p x r o = after_instruction-Rests p x.source_line _ (
      (execute_instruction-IsSound N dev (safe p) x.opcode x.operand).keeps
        (record r { error_line = x.source_line; ip = r.ip + 1 }) o)

  end_pause-Rests :
      (p : Plan) (how : PauseEnd) (x : Instruction) (r : Runtime F)
      → Fits p r
      → Rests p (end_pause N dev how r x)
  end_pause-Rests p resumed x r o = run_instruction-Rests p x (record r { is_paused = false }) o
  end_pause-Rests p stepped x r o =
      run_instruction-Rests p x
        (record r {
          step_mode = false;
          step_skip_waits = true;
          is_paused = false;
          should_pause = true;
        })
        o
  end_pause-Rests p stopped x r o = o
  end_pause-Rests p never x r o = o

  pause_then_run-Rests :
      (p : Plan) (how : PauseEnd) (x : Instruction) (r : Runtime F)
      → Fits p r
      → Rests p (pause_then_run N dev how x r)
  unfolding pause_then_run
  pause_then_run-Rests p how x r o =
      if-split (Rests p)
        (r.should_pause && not (x.source_line == r.last_executed_line) && ltb 0 x.source_line)
        (λ _.
          end_pause-Rests p how x
            (record r { is_paused = true; should_pause = false; step_skip_waits = false }) o)
        (λ _. run_instruction-Rests p x r o)

  Rests-Leaves :
      (p : Plan) (n : ℕ) (x : Round F)
      → Rests (at n p) x
      → (HasLimit p → (n ≡ (p.count + 1) % 2 ^ 64) × (n < p.most))
      → Leaves p x
  Rests-Leaves p n (finished b s) o h = (n, o)
  Rests-Leaves p n (goes_on s) o h = (n, o, h)
  Rests-Leaves p n (waits s) o h = (n, o)

  limited-Leaves :
      (p : Plan) (r : Runtime F) (rest : Runtime F → Round F)
      → Fits p r
      → ((n : ℕ) (q : Runtime F) → Fits (at n p) q → Rests (at n p) (rest q))
      → Leaves p (limited N dev r rest)
  unfolding limited
  limited-Leaves p r rest o h =
      if-split (Leaves p) (ltb 0 r.max_iterations)
        (λ _.
          if-split (Leaves p) (leb r.max_iterations (counted N dev r).iteration_count)
            (λ _. ((counted N dev r).iteration_count, counts))
            (λ e.
              Rests-Leaves p (counted N dev r).iteration_count _ (h _ (counted N dev r) counts)
                λ _. (ap (λ c. (c + 1) % 2 ^ 64) o.2, ground (arith, e, o.1))))
        (λ e. Rests-Leaves p p.count _ (h p.count r o) λ (lo, hi). ground (arith, e, lo, o.1))
    where
      counts : Fits (at (counted N dev r).iteration_count p) (counted N dev r)
      counts = (o.0, o.1, refl, o.3, o.4, o.5, o.6, o.7, o.8)

  pub round-Leaves :
      (p : Plan) (how : PauseEnd) (r : Runtime F) → Fits p r → Leaves p (round N dev how r)
  unfolding round
  round-Leaves p how r o =
      elim (instruction_at r.bytecode r.ip)
        as (λ x. Leaves p (elim x [
          | none ↦ finished true r
          | some x ↦
              if r.should_stop
              then finished true r
              else limited N dev r (pause_then_run N dev how x)
        ])) [
          | none ↦ (p.count, o)
          | some x ↦
              if-split (Leaves p) r.should_stop (λ _. (p.count, o))
                (λ _.
                  limited-Leaves p r (pause_then_run N dev how x) o
                    λ n q. pause_then_run-Rests (at n p) how x q)
        ]

module _ {F : Type 0} (N : Floats F) (dev : Devices F) where
  after_instruction-IsOver :
      (line : ℕ) (x : Outcome F Bool) → IsOver (after_instruction N dev line x)
  after_instruction-IsOver line (done b s) = tt
  after_instruction-IsOver line (failed s) = tt

  run_instruction-IsOver : (x : Instruction) (r : Runtime F) → IsOver (run_instruction N dev x r)
  unfolding run_instruction
  run_instruction-IsOver x r = after_instruction-IsOver x.source_line _

  end_pause-IsOver :
      (how : PauseEnd) (x : Instruction) (r : Runtime F)
      → how ≢ never
      → IsOver (end_pause N dev how r x)
  end_pause-IsOver resumed x r h = run_instruction-IsOver x _
  end_pause-IsOver stepped x r h = run_instruction-IsOver x _
  end_pause-IsOver stopped x r h = tt
  end_pause-IsOver never x r h = absurd (h refl)

  limited-IsOver :
      (r : Runtime F) (rest : Runtime F → Round F)
      → ((q : Runtime F) → IsOver (rest q))
      → IsOver (limited N dev r rest)
  unfolding limited
  limited-IsOver r rest h =
      if-split IsOver (ltb 0 r.max_iterations)
        (λ _.
          if-split IsOver (leb r.max_iterations (counted N dev r).iteration_count) (λ _. tt)
            (λ _. h _))
        (λ _. h r)

  pause_then_run-IsOver :
      (how : PauseEnd) (x : Instruction) (r : Runtime F)
      → how ≢ never
      → IsOver (pause_then_run N dev how x r)
  unfolding pause_then_run
  pause_then_run-IsOver how x r h =
      if-split IsOver
        (r.should_pause && not (x.source_line == r.last_executed_line) && ltb 0 x.source_line)
        (λ _. end_pause-IsOver how x _ h) (λ _. run_instruction-IsOver x r)

  -- A round waits for ever only in a pause that the user does not end.
  pub round-IsOver : (how : PauseEnd) (r : Runtime F) → how ≢ never → IsOver (round N dev how r)
  unfolding round
  round-IsOver how r h =
      elim (instruction_at r.bytecode r.ip)
        as (λ x. IsOver (elim x [
          | none ↦ finished true r
          | some x ↦
              if r.should_stop
              then finished true r
              else limited N dev r (pause_then_run N dev how x)
        ])) [
          | none ↦ tt
          | some x ↦
              if-split IsOver r.should_stop (λ _. tt)
                (λ _.
                  limited-IsOver r (pause_then_run N dev how x)
                    λ q. pause_then_run-IsOver how x q h)
        ]
