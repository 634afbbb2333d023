-- ===== src/Device/Departure/Switch.antt =====
-- A switch that the worker takes over: the queue before the new device is started.
use c64stream.Base.{
  ℕ, ◌-◌, ◌<◌, ◌≡◌, ◌≢◌, ◌∙◌, sym, ap, subst, Bool, true, false, false≢true, List, [], ◌∷◌, ◌++◌,
  refl, arith,
}
use mathlib.Core.Logic.Or
use mathlib.Core.List.{
  Mem, Mem-prop, eq-or-mem_of_mem-cons, mem-cons_self, mem-cons_of_mem, mem-append_right,
  mem_of_ne_of_mem,
}
use c64stream.Base.Bools.{if-split}
use c64stream.Base.Lists.{length, take}
use c64stream.Device.StopQueue.{Entry, add, cancel, matches, has_nothing_to_stop, host_max}
use c64stream.Device.StopQueue.Keys.{Absent}
use c64stream.Device.StopQueue.Entries.{IsQueue, Added, refreshed, queued, displaced, take-short}
use c64stream.Device.StopQueue.Calls.{
  ignored, accepted, add-AddResult, Cancelled, removed, not_queued, cancel-IsCancelled,
}
use c64stream.Device.Departure.{Worker, take_pending_device_transition}

Mem-drop :
    (early late : List Entry) (x e : Entry)
    → e ≢ x
    → Mem e (early ++ x ∷ late)
    → Mem e (early ++ late)
Mem-drop [] late x e n m = mem_of_ne_of_mem n m
Mem-drop (y ∷ early) late x e n m =
    Or.elim Mem-prop (eq-or-mem_of_mem-cons m)
      (λ h. subst (λ z. Mem z (y ∷ (early ++ late))) (sym h) mem-cons_self)
      (λ k. mem-cons_of_mem y (Mem-drop early late x e n k))

Added-Mem :
    (queue after : List Entry) (new : Entry) (dropped : List ℕ)
    → Added queue new dropped after
    → Mem new after
Added-Mem queue after new dropped (refreshed early late e _ _ _ a) =
    subst (Mem new) (sym a) (mem-append_right early mem-cons_self)
Added-Mem queue after new dropped (queued _ _ _ a) =
    subst (Mem new) (sym a) (mem-append_right queue mem-cons_self)
Added-Mem queue after new dropped (displaced e rest _ _ _ _ a) =
    subst (Mem new) (sym a) (mem-append_right rest mem-cons_self)

Cancelled-Mem :
    (queue : List Entry) (host : List ℕ) (port : ℕ) (r : Bool × List Entry) (e : Entry)
    → Cancelled queue host port r
    → matches host port e ≡ false
    → Mem e queue
    → Mem e r.1
Cancelled-Mem queue host port r e (removed early late x q _ m a) n h =
    subst (λ (s : Bool × List Entry). Mem e s.1) (sym a)
      (Mem-drop early late x e (λ y. false≢true (sym n ∙ ap (λ z. matches host port z) y ∙ m))
        (subst (Mem e) q h))
Cancelled-Mem queue host port r e (not_queued _ a) n h =
    subst (λ (s : Bool × List Entry). Mem e s.1) (sym a) h

-- The entry for the device that is left.
abbrev pub departed : Worker → Entry
departed w = record {
  host = take 63 w.device_transition_host;
  control_port = w.device_transition_control_port;
  password = take 255 w.device_transition_password;
  rest_demoted_until_ns = w.device_transition_rest_demoted_until_ns;
  attempts = 0;
}

-- The queue behind both calls, for a host as it is stored.
abbrev stops : Worker → List ℕ → List Entry
stops w host =
    (cancel
      (add w.pending_stops host w.device_transition_control_port w.device_transition_password
        w.device_transition_rest_demoted_until_ns).2
      w.ip_address w.control_port).1

pub record IsTaken (w : Worker) (queue : List Entry) : Type 0 where
  pub distinct : IsQueue queue
  pub not_in_use : Absent w.ip_address w.control_port queue
  pub left_queued :
      has_nothing_to_stop w.device_transition_host ≡ false
      → matches w.ip_address w.control_port (departed w) ≡ false
      → Mem (departed w) queue

stops-IsTaken :
    (w : Worker)
    → IsQueue w.pending_stops
    → length w.device_transition_host < host_max
    → IsTaken w (stops w w.device_transition_host)
stops-IsTaken w q s =
    elim (add-AddResult w.pending_stops w.device_transition_host w.device_transition_control_port
      w.device_transition_password w.device_transition_rest_demoted_until_ns q s) [
        | ignored h e ↦
            let (_, a, d) =
              cancel-IsCancelled _ w.ip_address w.control_port
                (subst (λ (r : Bool × List ℕ × List Entry). IsQueue r.2) (sym e) q) in
            record {
              distinct = d;
              not_in_use = a;
              left_queued = λ n. absurd (false≢true (sym n ∙ h));
            }
        | accepted h _ added valid ↦
            let (c, a, d) = cancel-IsCancelled _ w.ip_address w.control_port valid in
            record {
              distinct = d;
              not_in_use = a;
              left_queued = λ _ m. Cancelled-Mem _ _ _ _ _ c m (Added-Mem _ _ _ _ added);
            }
      ]

-- The answer and the worker, as a switch leaves them.
abbrev pub IsTakenOver : Worker → Bool × Worker → Type 0
IsTakenOver w (taken, v) =
    (taken ≡ true)
    × (v.device_transition_pending ≡ false)
    × (v.ip_address ≡ w.ip_address)
    × (v.control_port ≡ w.control_port)
    × IsTaken w v.pending_stops

-- A switch that is pending is taken over, and then no longer pending; the address and the control
-- port stay. The devices to stop, distinct and four at most before, are so afterwards; the one now
-- in use is not among them, and the one that was left is, with no failed attempts, unless it has
-- nothing to stop or is the one in use. Its host has fewer than 64 bytes.
pub take_pending_device_transition-IsTakenOver :
    (w : Worker)
    → w.device_transition_pending ≡ true
    → IsQueue w.pending_stops
    → length w.device_transition_host < host_max
    → IsTakenOver w (take_pending_device_transition w)
unfolding take_pending_device_transition
take_pending_device_transition-IsTakenOver w p q s =
    if-split (IsTakenOver w) w.device_transition_pending
      (λ _. (
        refl,
        refl,
        refl,
        refl,
        subst (λ h. IsTaken w (stops w h))
            (sym (take-short (host_max - 1) w.device_transition_host (omega (arith, s))))
            (stops-IsTaken w q s),
      ))
      (λ n. absurd (false≢true (sym n ∙ p)))
