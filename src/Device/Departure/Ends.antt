-- ===== src/Device/Departure/Ends.antt =====
-- What a pass of the worker sends, and what passes one after the other come to.
use c64stream.Base.{
  ℕ, zero, suc, ◌+◌, ◌≤◌, ◌<◌, ◌≡◌, ◌≢◌, ◌⊎◌, inl, inr, ◌∙◌, sym, ap, ap₂, subst, false, false≢true,
  ◌&&◌, List, [], ◌∷◌, refl, arith,
}
use mathlib.Core.List.{Mem, mem-cons_self, mem-cons_of_mem}
use c64stream.Base.Bools.{if-eq_of_false, if-split, ◌==◌}
use c64stream.Base.Words.{sub64}
use c64stream.Base.Lists.{All, length, take}
use c64stream.Device.StopQueue.{Entry, matches, same_text}
use c64stream.Device.Departure.{
  Command, test, release_all, rest_stop, control_stop, Round, by_test, no_fuel, Pass, stop_loop,
  stop_attempts, Worker, holds, after_pass, handover_hold_ns, process_previous_device_stops,
}
use c64stream.Device.Departure.Rounds.{IsTo, is_in_use}
use c64stream.Device.Departure.Passes.{through, cut, stop_loop-Passed}

-- Passes one after the other; the i-th is at the time `now i` and reads `observed i`.
unfoldable pub run_passes : ℕ → (ℕ → ℕ) → (ℕ → ℕ → Round) → Worker → Worker
run_passes zero now observed w = w
run_passes (suc n) now observed w =
    run_passes n (λ i. now (suc i)) (λ i. observed (suc i))
      (process_previous_device_stops w (now 0) (observed 0)).0

-- The attempts that an entry in the queue has.
abbrev Tried : ℕ → Entry → Type 0
Tried k e = (k ≤ e.attempts) × (e.attempts < stop_attempts)

abbrev pub IsUndisturbed : (ℕ → Round) → Type 0
IsUndisturbed observed =
    (n : ℕ) → ((observed n).newer_at_start ≡ false) × ((observed n).newer_at_end ≡ false)

abbrev pub start : Worker → (ℕ → Round) → Pass
start w observed = stop_loop (length w.pending_stops) observed 0 w.pending_stops 0 []

-- The old device need not be kept on the screen any longer.
abbrev pub IsOver : Worker → ℕ → Type 0
IsOver w now = (w.streaming ≡ false) ⊎ (handover_hold_ns ≤ sub64 now w.switch_requested_ns)

module _ (w : Worker) (observed : ℕ → Round) where
  not-holds : (now : ℕ) → IsOver w now → holds w now ≡ false
  not-holds now h = ground arith

  proceeds :
      (now : ℕ)
      → IsOver w now
      → (process_previous_device_stops w now observed).0 ≡ after_pass w (start w observed)
  unfolding process_previous_device_stops
  proceeds now h =
      ap (λ (r : Worker × List Command). r.0)
        (if-eq_of_false {b = holds w now} (w, [])
          (after_pass w (start w observed), (start w observed).sent) (not-holds now h))

  pass-Tried :
      (k : ℕ)
      → IsUndisturbed observed
      → All (Tried k) w.pending_stops
      → ((start w observed).exit ≡ by_test) × All (Tried (suc k)) (start w observed).queue
  pass-Tried k u a =
      elim (stop_loop-Passed observed (Tried k) (Tried (suc k)) (λ c. Unit {0})
        (λ e f t. omega arith) (λ n e c b i t. tt) (length w.pending_stops) 0 [] w.pending_stops []
        (omega arith) tt a tt) [
          | through x q _ ↦ (x, q)
          | cut _ _ (n, inl s) _ _ _ _ _ ↦ absurd (false≢true (sym (u n).0 ∙ s))
          | cut _ _ (n, inr s) _ _ _ _ _ ↦ absurd (false≢true (sym (u n).1 ∙ s))
        ]

  ends_handover :
      (start w observed).exit ≡ by_test
      → (start w observed).queue ≡ []
      → (after_pass w (start w observed)).handover_peer_ip_set ≡ false
  ends_handover h e = rw (h, e) (ground arith)

-- After a pass: the attempts, and what holds of a queue that is empty.
abbrev Settled : ℕ → Worker → Type 0
Settled m v =
    All (Tried m) v.pending_stops × (v.pending_stops ≡ [] → v.handover_peer_ip_set ≡ false)

run_passes-Settled :
    (n k m : ℕ) (now : ℕ → ℕ) (observed : ℕ → ℕ → Round) (w : Worker)
    → n + k ≡ m
    → ((i : ℕ) → IsOver w (now i))
    → ((i : ℕ) → IsUndisturbed (observed i))
    → Settled k w
    → Settled m (run_passes n now observed w)
unfolding run_passes
run_passes-Settled zero k m now observed w e o u s = subst (λ j. Settled j w) (omega (arith, e)) s
run_passes-Settled (suc n) k m now observed w e o u s =
    let (x, q) = pass-Tried w (observed 0) k (u 0) s.0 in
    subst (λ v. Settled m (run_passes n (λ i. now (suc i)) (λ i. observed (suc i)) v))
      (sym (proceeds w (observed 0) (now 0) (o 0)))
      (run_passes-Settled n (suc k) m (λ i. now (suc i)) (λ i. observed (suc i))
        (after_pass w (start w (observed 0))) (omega (arith, e)) (λ i. o (suc i)) (λ i. u (suc i))
        (q, ends_handover w (observed 0) x))

Tried-none : (es : List Entry) → All (Tried stop_attempts) es → es ≡ []
Tried-none [] a = refl
Tried-none (e ∷ es) a = absurd (omega (arith, a.0))

-- Five passes of the worker empty the queue of devices to stop and end the handover, whatever the
-- devices answer, if no newer request comes, the old device need not be shown any longer (the
-- source does not stream, or the switch was five seconds ago), and no entry has five failures at
-- the start.
pub five_passes_end :
    (now : ℕ → ℕ) (observed : ℕ → ℕ → Round) (w : Worker)
    → ((i : ℕ) → IsOver w (now i))
    → ((i : ℕ) → IsUndisturbed (observed i))
    → All (λ e. e.attempts < stop_attempts) w.pending_stops
    → let v = run_passes stop_attempts now observed w in
      (v.pending_stops ≡ []) × (v.handover_peer_ip_set ≡ false)
unfolding run_passes
five_passes_end now observed w o u a =
    let (x, q) = pass-Tried w (observed 0) 0 (u 0) (All-map w.pending_stops a) in
    let settled : Settled 5 (run_passes 5 now observed w) =
      subst (λ v. Settled 5 (run_passes 4 (λ i. now (suc i)) (λ i. observed (suc i)) v))
        (sym (proceeds w (observed 0) (now 0) (o 0)))
        (run_passes-Settled 4 1 5 (λ i. now (suc i)) (λ i. observed (suc i))
          (after_pass w (start w (observed 0))) (omega arith) (λ i. o (suc i)) (λ i. u (suc i))
          (q, ends_handover w (observed 0) x)) in
    let e = Tried-none _ settled.0 in (e, settled.1 e)
  where
    All-map : (es : List Entry) → All (λ e. e.attempts < stop_attempts) es → All (Tried 0) es
    All-map [] b = tt
    All-map (e ∷ es) b = ((omega arith, b.0), All-map es b.1)

-- An entry with the host and port of one in the queue.
abbrev IsListed : List Entry → Entry → Type 0
IsListed queue e = (o : Entry) × Mem o queue × (e.host ≡ o.host) × (e.control_port ≡ o.control_port)

All-Mem : (q : List Entry) (P : Entry → Type 0) → ((e : Entry) → Mem e q → P e) → All P q
All-Mem [] P h = tt
All-Mem (e ∷ q) P h = (h e mem-cons_self, All-Mem q P (λ x m. h x (mem-cons_of_mem e m)))

-- To a device of the queue that is not the one with this host and port.
abbrev pub IsToAnother : List Entry → List ℕ → ℕ → Command → Type 0
IsToAnother queue host port c = (o : Entry) × Mem o queue × (matches host port o ≡ false) × IsTo o c

IsTo-same :
    (e o : Entry) (c : Command)
    → e.host ≡ o.host
    → e.control_port ≡ o.control_port
    → IsTo e c
    → IsTo o c
IsTo-same e o (test host port) h p t = (t.0 ∙ h, t.1 ∙ p)
IsTo-same e o (release_all host) h p t = t ∙ h
IsTo-same e o (rest_stop host stream_id) h p t = t ∙ h
IsTo-same e o (control_stop host port stream_id) h p t = (t.0 ∙ h, t.1 ∙ p)

module _ (queue : List Entry) (observed : ℕ → Round) (host : List ℕ) (port : ℕ)
    (same : (n : ℕ)
      → (take 63 (observed n).ip_address ≡ host) × ((observed n).control_port ≡ port)) where
  sends-IsToAnother :
      (n : ℕ) (e : Entry) (c : Command)
      → IsListed queue e
      → is_in_use (observed n) e ≡ false
      → IsTo e c
      → IsToAnother queue host port c
  sends-IsToAnother n e c (o, m, h, p) free t =
      let (s, k) = same n in
      let free' : matches host port e ≡ false =
        subst (λ x. matches x port e ≡ false) s
          (subst (λ x. matches (take 63 (observed n).ip_address) x e ≡ false) k free) in
      let key : (e.host, e.control_port) ≡ (o.host, o.control_port) = ap₂ (λ x y. (x, y)) h p in
      (
        o,
        m,
        subst (λ (x : List ℕ × ℕ). (same_text x.0 host && x.1 == port) ≡ false) key free',
        IsTo-same e o c h p t,
      )

  loop-IsToAnother :
      let p = stop_loop (length queue) observed 0 queue 0 [] in
      (p.exit ≢ no_fuel) × All (IsToAnother queue host port) p.sent
  loop-IsToAnother =
      elim (stop_loop-Passed observed (IsListed queue) (IsListed queue)
        (IsToAnother queue host port) (λ e f k. k) sends-IsToAnother (length queue) 0 [] queue []
        (omega arith) tt (All-Mem queue (IsListed queue) (λ e m. (e, m, refl, refl))) tt) [
          | through x _ a ↦ ((λ y. cc), a)
          | cut _ _ _ x _ _ _ a ↦ ((λ y. cc), a)
        ]

-- A pass never runs out of its fuel: it ends by the test of its loop or by a return. While the
-- device in use stays the same, all that it sends is for devices that were queued, other than the
-- entry with the address (its first 63 bytes) and control port in use.
pub pass-IsToAnother :
    (w : Worker) (now : ℕ) (observed : ℕ → Round) (host : List ℕ) (port : ℕ)
    → ((n : ℕ) → (take 63 (observed n).ip_address ≡ host) × ((observed n).control_port ≡ port))
    → ((start w observed).exit ≢ no_fuel)
      × All (IsToAnother w.pending_stops host port) (process_previous_device_stops w now observed).1
unfolding process_previous_device_stops
pass-IsToAnother w now observed host port u =
    let (e, a) = loop-IsToAnother w.pending_stops observed host port u in
    (
      e,
      if-split (λ (x : Worker × List Command). All (IsToAnother w.pending_stops host port) x.1)
          (holds w now) {x = (w, [])}
          {y = (after_pass w (start w observed), (start w observed).sent)} (λ _. tt) (λ _. a),
    )
