-- ===== src/Device/Departure/Passes.antt =====
-- The loop over the devices to stop, and passes one after the other.
use c64stream.Base.{
  ℕ, zero, suc, ◌+◌, ◌%◌, ◌^◌, ◌≤◌, ◌<◌, ◌≡◌, ◌⊎◌, inl, inr, sym, ap₂, subst, false, List, [], ◌∷◌,
  ◌++◌, refl, arith,
}
use mathlib.Core.List.{append-nil, append_assoc}
use c64stream.Base.Lists.{All, All-append, length, length-append, get_elem?-length, get_elem?-end}
use c64stream.Device.StopQueue.{Entry}
use c64stream.Device.Departure.{
  Command, Round, leaves, goes_on, stop_round, by_test, by_return, Pass, stop_loop, stop_attempts,
}
use c64stream.Device.Departure.Rounds.{
  IsTo, is_in_use, IsNewer, counted, left, removed, kept, stop_round-Turned,
}

-- How a loop ends whose rounds turn an entry with `Before` into one with `After`, if they keep it.
pub data Passed (Before After : Entry → Type 0) (P : Command → Type 0) (Newer : Type 0) (p : Pass)
    : Type 0 where
  through : p.exit ≡ by_test → All After p.queue → All P p.sent → Passed Before After P Newer p
  cut :
      (early late : List Entry)
      → Newer
      → p.exit ≡ by_return
      → p.queue ≡ early ++ late
      → All After early
      → All Before late
      → All P p.sent
      → Passed Before After P Newer p

module _ (observed : ℕ → Round) (fuel n : ℕ) (early late : List Entry) (e : Entry)
    (sent commands : List Command) (q : List Entry) where
  stop_loop-leaves :
      stop_round (observed n) e (early ++ e ∷ late) (length early) ≡ leaves q commands
      → stop_loop (suc fuel) observed n (early ++ e ∷ late) (length early) sent
        ≡ record { exit = by_return; queue = q; sent = sent ++ commands }
  unfolding stop_loop
  stop_loop-leaves h = rw (get_elem?-length early late e, h) refl

  stop_loop-goes_on :
      (i : ℕ)
      → stop_round (observed n) e (early ++ e ∷ late) (length early) ≡ goes_on i q commands
      → stop_loop (suc fuel) observed n (early ++ e ∷ late) (length early) sent
        ≡ stop_loop fuel observed (n + 1) q i (sent ++ commands)
  unfolding stop_loop
  stop_loop-goes_on i h = rw (get_elem?-length early late e, h) refl

stop_loop-end :
    (fuel n : ℕ) (observed : ℕ → Round) (early : List Entry) (sent : List Command)
    → stop_loop fuel observed n (early ++ []) (length early) sent
      ≡ record { exit = by_test; queue = early; sent = sent }
unfolding stop_loop
stop_loop-end zero n observed early sent = rw (append-nil early) (ground arith)
stop_loop-end (suc fuel) n observed early sent = rw (get_elem?-end early, append-nil early) refl

module _ (observed : ℕ → Round) (Before After : Entry → Type 0) (P : Command → Type 0)
    (counts : (e : Entry)
      → (e.attempts + 1) % 2 ^ 32 < stop_attempts
      → Before e
      → After (counted e))
    (sends : (n : ℕ) (e : Entry) (c : Command)
      → Before e
      → is_in_use (observed n) e ≡ false
      → IsTo e c
      → P c) where
  abbrev Ended : Pass → Type 0
  Ended = Passed Before After P ((n : ℕ) × IsNewer (observed n))

  All-sends :
      (n : ℕ) (e : Entry) (sent : List Command)
      → Before e
      → (sent ≡ []) ⊎ (is_in_use (observed n) e ≡ false)
      → All (IsTo e) sent
      → All P sent
  All-sends n e [] b u a = tt
  All-sends n e (c ∷ sent) b (inl z) a = absurd (cc)
  All-sends n e (c ∷ sent) b (inr u) a = (sends n e c b u a.0, All-sends n e sent b (inr u) a.1)

  module _ (n : ℕ) (e : Entry) (sent commands : List Command) (b : Before e) (k : All P sent) where
    All-sent :
        All (IsTo e) commands
        → (commands ≡ []) ⊎ (is_in_use (observed n) e ≡ false)
        → All P (sent ++ commands)
    All-sent a u = All-append P sent commands k (All-sends n e commands b u a)

  pub stop_loop-Passed :
      (fuel n : ℕ) (early late : List Entry) (sent : List Command)
      → length late ≤ fuel
      → All After early
      → All Before late
      → All P sent
      → Ended (stop_loop fuel observed n (early ++ late) (length early) sent)
  stop_loop-Passed fuel n early [] sent h a b k =
      subst Ended (sym (stop_loop-end fuel n observed early sent)) (through refl a k)
  stop_loop-Passed zero n early (e ∷ late) sent h a b k = absurd (omega (arith, h))
  stop_loop-Passed (suc fuel) n early (e ∷ late) sent h a b k =
      elim (stop_round-Turned (observed n) e early late) [
        | left commands new to u t ↦
            subst Ended (sym (stop_loop-leaves observed fuel n early late e sent commands _ t))
              (cut early (e ∷ late) (n, new) refl refl a b (All-sent n e sent commands b.0 k to u))
        | removed commands to u t ↦
            subst Ended (sym (stop_loop-goes_on observed fuel n early late e sent commands _ _ t)) (
              stop_loop-Passed fuel (n + 1) early late _ (omega (arith, h)) a b.1
                (All-sent n e sent commands b.0 k to u))
        | kept commands few to u t ↦
            subst Ended (sym (stop_loop-goes_on observed fuel n early late e sent commands _ _ t)) (
              subst Ended
                (ap₂ (λ q i. stop_loop fuel observed (n + 1) q i (sent ++ commands))
                  (append_assoc early (counted e ∷ []) late) (length-append early (counted e ∷ [])))
                (stop_loop-Passed fuel (n + 1) (early ++ counted e ∷ []) late (sent ++ commands)
                  (omega (arith, h)) (All-append After early _ a (counts e few b.0, tt)) b.1
                  (All-sent n e sent commands b.0 k to (inr u))))
      ]
