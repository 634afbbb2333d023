-- ===== src/Audio/Pops/Queue.antt =====
-- The queues of events that wait for a match.
use c64stream.Base.{
  ℕ, zero, suc, ◌+◌, ◌≤◌, ◌≡◌, inl, inr, refl, ap, Bool, true, false, not, ◌&&◌, List, [], ◌∷◌,
  ◌++◌, arith,
}
use c64stream.Base.Bools.{ltb, if◌then◌else◌, if-split, if-either, Bool-cases, ltb→lt}
use c64stream.Base.Lists.{All, length, drop, length-append}
use c64stream.Audio.Pops.{
  Event, event_queue_size, is_expired, prune_used_or_expired, push_event, mark_used,
}

-- At most eight events, none of them matched.
abbrev pub IsQueue : List Event → Type 0
IsQueue es = (length es ≤ event_queue_size) × All (λ e. e.used ≡ false) es

-- The events without the one at `i`.
abbrev pub remove_at : List Event → ℕ → List Event
remove_at [] i = []
remove_at (e ∷ es) zero = es
remove_at (e ∷ es) (suc i) = e ∷ remove_at es i

-- A queue that makes room for one more event.
abbrev pub make_room : List Event → List Event
make_room es = if ltb (length es) event_queue_size then es else drop 1 es

length-prune : (es : List Event) (now : ℕ) → length (prune_used_or_expired es now) ≤ length es
unfolding prune_used_or_expired
length-prune [] now = omega arith
length-prune (e ∷ es) now =
    if-either (λ (l : List Event). length l ≤ suc (length es))
      (not e.used && not (is_expired e now)) (omega (arith, length-prune es now))
      (omega (arith, length-prune es now))

not_used : (b d : Bool) → (not b && d) ≡ true → b ≡ false
not_used b d h = ground arith

prune-unused :
    (es : List Event) (now : ℕ) → All (λ e. e.used ≡ false) (prune_used_or_expired es now)
unfolding prune_used_or_expired
prune-unused [] now = tt
prune-unused (e ∷ es) now =
    if-split (λ (l : List Event). All (λ e. e.used ≡ false) l)
      (not e.used && not (is_expired e now))
      (λ h. (not_used e.used (not (is_expired e now)) h, prune-unused es now))
      (λ h. prune-unused es now)

length-drop : (es : List Event) → ¬ (length es ≡ 0) → length (drop 1 es) + 1 ≡ length es
length-drop [] h = absurd (h refl)
length-drop (e ∷ es) h = omega arith

length-push_event :
    (es : List Event) (e : Event)
    → length es ≤ event_queue_size
    → length (push_event es e) ≤ event_queue_size
unfolding push_event
length-push_event es e h =
    if-split (λ (l : List Event). length l ≤ event_queue_size) (ltb (length es) event_queue_size)
      (λ l. omega (arith, length-append es (e ∷ []), ltb→lt _ _ l))
      (λ l. omega (arith, length-append (drop 1 es) (e ∷ []), length-drop es (ground arith), h))

length-mark_used : (es : List Event) (i : ℕ) → length (mark_used es i) ≡ length es
unfolding mark_used
length-mark_used [] i = refl
length-mark_used (e ∷ es) zero = refl
length-mark_used (e ∷ es) (suc i) = ap suc (length-mark_used es i)

-- Whatever is pushed and pruned is a queue again.
pub push-IsQueue :
    (es : List Event) (e : Event) (now : ℕ)
    → length es ≤ event_queue_size
    → IsQueue (prune_used_or_expired (push_event es e) now)
push-IsQueue es e now h = (
  omega (arith, length-prune (push_event es e) now, length-push_event es e h),
  prune-unused (push_event es e) now,
)

pub prune-IsQueue :
    (es : List Event) (now : ℕ)
    → length es ≤ event_queue_size
    → IsQueue (prune_used_or_expired es now)
prune-IsQueue es now h = (omega (arith, length-prune es now), prune-unused es now)

pub mark-IsQueue :
    (es : List Event) (i now : ℕ)
    → length es ≤ event_queue_size
    → IsQueue (prune_used_or_expired (mark_used es i) now)
mark-IsQueue es i now h = prune-IsQueue (mark_used es i) now (omega (arith, length-mark_used es i))

-- A matched event is gone behind the next pruning.
pub prune-mark_used :
    (es : List Event) (i now : ℕ)
    → prune_used_or_expired (mark_used es i) now ≡ prune_used_or_expired (remove_at es i) now
unfolding prune_used_or_expired mark_used
prune-mark_used [] i now = refl
prune-mark_used (e ∷ es) zero now = refl
prune-mark_used (e ∷ es) (suc i) now =
    ap (λ l. if not e.used && not (is_expired e now) then e ∷ l else l) (prune-mark_used es i now)

prune-append :
    (es : List Event) (e : Event) (now : ℕ)
    → e.used ≡ true
    → prune_used_or_expired (es ++ e ∷ []) now ≡ prune_used_or_expired es now
unfolding prune_used_or_expired
prune-append [] e now h = rw h refl
prune-append (f ∷ es) e now h =
    ap (λ l. if not f.used && not (is_expired f now) then f ∷ l else l) (prune-append es e now h)

-- A matched event that is pushed is gone too; but the oldest event had to go for it.
pub prune-push_event :
    (es : List Event) (e : Event) (now : ℕ)
    → e.used ≡ true
    → prune_used_or_expired (push_event es e) now ≡ prune_used_or_expired (make_room es) now
unfolding push_event
prune-push_event es e now h = elim (Bool-cases (ltb (length es) event_queue_size)) [
  | inl b ↦ rw b (prune-append es e now h)
  | inr b ↦ rw b (prune-append (drop 1 es) e now h)
]
