-- ===== src/Device/StopQueue/Calls.antt =====
-- Adding and cancelling, on every branch.
use c64stream.Base.{
  ℕ, ◌-◌, ◌≤◌, ◌<◌, ◌≡◌, ◌≢◌, inl, inr, ◌∙◌, sym, ap, ap₂, subst, Bool, true, false, List, [], ◌∷◌,
  ◌++◌, refl, arith,
}
use native.Mathlib.Decide.{ℕ_discrete}
use c64stream.Base.Bools.{if-eq_of_true, if-eq_of_false, ==_iff, ==-ne, lt→ltb, not-ltb, Bool-cases}
use c64stream.Base.Lists.{All-append, length, length-append, take}
use c64stream.Device.StopQueue.{
  Entry, matches, find, remove_at, write_at, add, cancel, has_nothing_to_stop, oldest_host,
  queue_max, host_max,
}
use c64stream.Device.StopQueue.Keys.{
  Absent, at, nowhere, find-Found, matches-eq, write_at-length, write_at-at, remove_at-at,
}
use c64stream.Device.StopQueue.Entries.{
  Distinct, IsQueue, Added, refreshed, queued, displaced, Added-IsQueue, Distinct-drop, take-short,
}

module _ (queue : List Entry) (host : List ℕ) (port : ℕ) (password : List ℕ) (until : ℕ) where
  abbrev pub new : Entry
  new = record {
    host = take 63 host;
    control_port = port;
    password = take 255 password;
    rest_demoted_until_ns = until;
    attempts = 0;
  }

  -- The results of `add`.
  pub data AddResult (r : Bool × List ℕ × List Entry) : Type 0 where
    ignored : has_nothing_to_stop host ≡ true → r ≡ (false, [], queue) → AddResult r
    accepted :
        has_nothing_to_stop host ≡ false
        → r.0 ≡ true
        → Added queue new r.1 r.2
        → IsQueue r.2
        → AddResult r

  add-ignored :
      has_nothing_to_stop host ≡ true → add queue host port password until ≡ (false, [], queue)
  unfolding add
  add-ignored h = if-eq_of_true _ _ h

  add-full :
      has_nothing_to_stop host ≡ false
      → find host port queue ≡ queue_max
      → add queue host port password until
        ≡ (true, oldest_host queue, write_at (remove_at queue 0) (length (remove_at queue 0)) new)
  unfolding add
  add-full h e = if-eq_of_false _ _ h ∙ if-eq_of_true _ _ ((==_iff _ _).1 e)

  add-room :
      has_nothing_to_stop host ≡ false
      → find host port queue ≢ queue_max
      → add queue host port password until ≡ (true, [], write_at queue (find host port queue) new)
  unfolding add
  add-room h ne = if-eq_of_false _ _ h ∙ if-eq_of_false _ _ (==-ne _ _ ne)

displaced-Added :
    (queue : List Entry) (new : Entry)
    → length queue ≡ queue_max
    → Absent new.host new.control_port queue
    → Added queue new
        (oldest_host queue)
        (write_at (remove_at queue 0) (length (remove_at queue 0)) new)
unfolding remove_at
displaced-Added [] new l a = absurd (omega arith)
displaced-Added (e ∷ es) new l a = displaced e es refl l a refl (write_at-length es new)

module _ (queue : List Entry) (host : List ℕ) (port : ℕ) (password : List ℕ) (until : ℕ)
    (o : IsQueue queue) (short : length host < host_max) where
  same-host : host ≡ take (host_max - 1) host
  same-host = sym (take-short (host_max - 1) host (omega (arith, short)))

  abbrev entry : Entry
  entry = new queue host port password until

  full-Added :
      find host port queue ≡ queue_max
      → Added queue entry
          (oldest_host queue)
          (write_at (remove_at queue 0) (length (remove_at queue 0)) entry)
  full-Added e = elim (find-Found host port queue) [
    | at early late x q i _ _ ↦
        absurd (omega (arith, e, i, o.1, ap length q, length-append early (x ∷ late)))
    | nowhere i a ↦
        displaced-Added queue entry (sym i ∙ e) (subst (λ h. Absent h port queue) same-host a)
  ]

  room-Added :
      find host port queue ≢ queue_max
      → Added queue entry [] (write_at queue (find host port queue) entry)
  room-Added ne = elim (find-Found host port queue) [
    | at early late x q i _ m ↦
        refreshed early late x q (subst (λ h. matches h port x ≡ true) same-host m) refl
          (ap₂ (λ es k. write_at es k entry) q i ∙ write_at-at early late x entry)
    | nowhere i a ↦
        queued (subst (λ h. Absent h port queue) same-host a) (omega (arith, o.1, i, ne)) refl
          (ap (λ k. write_at queue k entry) i ∙ write_at-length queue entry)
  ]

  accepted-AddResult :
      (dropped : List ℕ) (after : List Entry)
      → has_nothing_to_stop host ≡ false
      → Added queue entry dropped after
      → add queue host port password until ≡ (true, dropped, after)
      → AddResult queue host port password until (add queue host port password until)
  accepted-AddResult dropped after h a e =
      subst (AddResult queue host port password until) (sym e)
        (accepted h refl a (Added-IsQueue o a))

  -- Adding ignores a host with nothing to stop. Any other host of fewer than 64 bytes is queued
  -- with no failed attempts: in place of its entry if it has one, else at the end, where the
  -- oldest of four entries makes room and its host is reported. Nothing else changes, and if no
  -- device was queued twice and no more than four were, this stays so.
  pub add-AddResult : AddResult queue host port password until (add queue host port password until)
  add-AddResult = elim (Bool-cases (has_nothing_to_stop host)) [
    | inl h ↦ ignored h (add-ignored queue host port password until h)
    | inr h ↦ elim (ℕ_discrete (find host port queue) queue_max) [
      | yes e ↦
          accepted-AddResult _ _ h (full-Added e) (add-full queue host port password until h e)
      | no ne ↦
          accepted-AddResult _ _ h (room-Added ne) (add-room queue host port password until h ne)
    ]
  ]

-- The results of `cancel`.
pub data Cancelled (queue : List Entry) (host : List ℕ) (port : ℕ) (r : Bool × List Entry)
    : Type 0 where
  removed :
      (early late : List Entry) (e : Entry)
      → queue ≡ early ++ e ∷ late
      → Absent host port early
      → matches host port e ≡ true
      → r ≡ (true, early ++ late)
      → Cancelled queue host port r
  not_queued : Absent host port queue → r ≡ (false, queue) → Cancelled queue host port r

cancel-Cancelled :
    (queue : List Entry) (host : List ℕ) (port : ℕ)
    → Cancelled queue host port (cancel queue host port)
unfolding cancel
cancel-Cancelled queue host port = elim (find-Found host port queue) [
  | at early late x q i a m ↦ removed early late x q a m (
      if-eq_of_true _ _ (
        lt→ltb (find host port queue) (length queue)
          (omega (arith, i, ap length q, length-append early (x ∷ late))))
      ∙ ap (λ es. (true, es)) (ap₂ remove_at q i ∙ remove_at-at early late x))
  | nowhere i a ↦
      not_queued a
        (if-eq_of_false _ _ (not-ltb (find host port queue) (length queue) (omega (arith, i))))
]

Distinct-right : (xs ys : List Entry) → Distinct (xs ++ ys) → Distinct ys
Distinct-right [] ys d = d
Distinct-right (x ∷ xs) ys d = Distinct-right xs ys d.1

Absent-rest :
    (host : List ℕ) (port : ℕ) (early late : List Entry) (e : Entry)
    → matches host port e ≡ true
    → Absent host port early
    → Distinct (early ++ e ∷ late)
    → Absent host port (early ++ late)
Absent-rest host port early late e m a d =
    let (h, p) = matches-eq host port e m in
    let rest = (Distinct-right early (e ∷ late) d).0 in
    All-append (λ x. matches host port x ≡ false) early late a
      (subst (λ x. Absent x port late) h (subst (λ x. Absent e.host x late) p rest))

-- What is left after a cancel.
abbrev pub IsCancelled : List Entry → List ℕ → ℕ → Bool × List Entry → Type 0
IsCancelled queue host port r = Cancelled queue host port r × Absent host port r.1 × IsQueue r.1

-- Cancelling takes a device out of the queue, whose other entries stay in order, and tells whether
-- it was there; afterwards it is not, and the queue is still one.
pub cancel-IsCancelled :
    (queue : List Entry) (host : List ℕ) (port : ℕ)
    → IsQueue queue
    → IsCancelled queue host port (cancel queue host port)
cancel-IsCancelled queue host port o = elim (cancel-Cancelled queue host port) [
  | removed early late e q a m r ↦
      let d = subst Distinct q o.0 in
      let size : length (early ++ late) ≤ queue_max =
        omega (arith, o.1, ap length q, length-append early (e ∷ late), length-append early late) in
      subst (IsCancelled queue host port) (sym r) (
        removed early late e q a m refl,
        Absent-rest host port early late e m a d,
        (Distinct-drop early late e d, size),
      )
  | not_queued a r ↦ subst (IsCancelled queue host port) (sym r) (not_queued a refl, a, o)
]
