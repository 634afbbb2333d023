-- ===== src/Network/Buffer/Adjust.antt =====
-- A change of the delay, on every branch; the reset.
use c64stream.Base.{
  ℕ, ◌+◌, ◌-◌, ◌*◌, ◌^◌, ◌≤◌, ◌<◌, ◌≡◌, ◌⊎◌, inl, inr, ◌∙◌, sym, ap, subst, true, false, ◌&&◌, List,
  [], ◌∷◌, refl, arith,
}
use mathlib.Core.List.{map}
use native.Mathlib.Decide.{ℕ_discrete, dec_lt}
use c64stream.Base.Bools.{
  if-either, ltb, ◌==◌, if◌then◌else◌, if-eq_of_true, if-eq_of_false, lt→ltb, not-ltb, ==_iff,
}
use c64stream.Base.Lists.{All, drop}
use c64stream.Base.Words.{sub64}
use c64stream.Network.Buffer.{Slot, RingBuffer, packet_count, rb_reset_locked}
use c64stream.Network.Buffer.Index.{contents, IsValid, packet_count-lt, segment, view}
use c64stream.Network.Buffer.Drain.{age}
use c64stream.Network.Buffer.Delay.{
  discard_oldest, retimestamp, reduce_delay, slots_for, set_ring_delay,
}
use c64stream.Network.Buffer.Trim.{
  Trimmed, discard_oldest-Trimmed, stamp, contents-retimestamp, retimestamp-IsValid,
}

pub rb_reset_locked-IsValid :
    (rb : RingBuffer) (n : ℕ) → 0 < rb.max_capacity → IsValid (rb_reset_locked rb n)
unfolding rb_reset_locked
rb_reset_locked-IsValid rb n h = record {
  head_in = h;
  tail_in = h;
  filled = λ k l. absurd (ground (arith, l));
}

pub contents-rb_reset_locked : (rb : RingBuffer) (n : ℕ) → contents (rb_reset_locked rb n) ≡ []
unfolding rb_reset_locked
contents-rb_reset_locked rb n =
    let e : packet_count (rb_reset_locked rb n) ≡ 0 = ground arith in
    ap (segment (view (rb_reset_locked rb n)) 0) e

stamp-age :
    (ready now_us later new_delay : ℕ) (xs : List Slot)
    → ready ≡ sub64 (sub64 now_us new_delay) 1000
    → new_delay + 1000 ≤ now_us
    → now_us ≤ later
    → later < 2 ^ 64
    → All (λ s. new_delay ≤ age later s) (map (stamp ready) xs)
stamp-age ready now_us later new_delay [] e h l w = tt
stamp-age ready now_us later new_delay (x ∷ xs) e h l w =
    (ground (arith, e), stamp-age ready now_us later new_delay xs e h l w)

-- The timestamp that makes a packet ready at `now_us`.
abbrev pub ready_at : ℕ → ℕ → ℕ
ready_at now_us delay_ms = sub64 (sub64 now_us (delay_ms * 1000)) 1000

-- The least number of packets that last for the delay at `rate` a second, or the capacity if that
-- is less.
abbrev pub IsNeeded : ℕ → ℕ → ℕ → ℕ → Type 0
IsNeeded rate delay_ms capacity n =
    (n ≤ capacity)
    × (n * 1000 < rate * delay_ms + 1000)
    × (n < capacity → rate * delay_ms ≤ n * 1000)

slots_for-IsNeeded :
    (rate delay_ms capacity : ℕ)
    → IsNeeded rate delay_ms capacity (slots_for rate delay_ms capacity)
unfolding slots_for
slots_for-IsNeeded rate delay_ms capacity = ground arith

-- What set_delay makes of one ring.
pub data Adjusted (rate delay_ms now_us later : ℕ) (rb after : RingBuffer) : Type 0 where
  not_reduced :
      rb.delay_us ≤ delay_ms * 1000
      → contents after ≡ contents rb
      → Adjusted rate delay_ms now_us later rb after
  flushed :
      delay_ms ≡ 0
      → 50000 < rb.delay_us
      → contents after ≡ []
      → Adjusted rate delay_ms now_us later rb after
  reduced :
      (n : ℕ)
      → IsNeeded rate delay_ms rb.max_capacity n
      → delay_ms * 1000 < rb.delay_us
      → (0 < delay_ms) ⊎ (rb.delay_us ≤ 50000)
      → contents after
        ≡ map (stamp (ready_at now_us delay_ms)) (drop (packet_count rb - n) (contents rb))
      → All (λ s. after.delay_us ≤ age later s) (contents after)
      → Adjusted rate delay_ms now_us later rb after

module _ (rate delay_ms now_us later : ℕ) (rb : RingBuffer) (v : IsValid rb) where
  abbrev new_delay : ℕ
  new_delay = delay_ms * 1000

  abbrev set : RingBuffer
  set = record rb { delay_us = new_delay }

  abbrev slots : ℕ
  slots = slots_for rate delay_ms rb.max_capacity

  set-IsValid : IsValid set
  set-IsValid = record { head_in = v.head_in; tail_in = v.tail_in; filled = v.filled }

  abbrev trimmed : RingBuffer
  trimmed =
      if ltb slots (packet_count set)
      then discard_oldest set.max_capacity (packet_count set - slots) set
      else set

  trimmed-Trimmed : Trimmed set (packet_count set - slots) trimmed
  trimmed-Trimmed = elim (dec_lt slots (packet_count set)) [
    | yes l ↦
        subst (Trimmed set (packet_count set - slots)) (sym (if-eq_of_true _ _ (lt→ltb _ _ l))) (
          discard_oldest-Trimmed set.max_capacity (packet_count set - slots) set set-IsValid
            (omega arith) (omega (arith, packet_count-lt v)))
    | no nl ↦
        let none_left : 0 ≡ packet_count set - slots = omega arith in
        subst (Trimmed set (packet_count set - slots))
          (sym (if-eq_of_false _ _ (not-ltb slots (packet_count set) (omega arith))))
          (subst (λ n. Trimmed set n set) none_left
            (record { valid = set-IsValid; kept = refl; delay = refl }))
  ]

  abbrev after : RingBuffer
  after = set_ring_delay rate delay_ms now_us rb

  after-not_reduced : rb.delay_us ≤ new_delay → after ≡ set
  unfolding set_ring_delay reduce_delay
  after-not_reduced h = if-eq_of_false _ _ (not-ltb new_delay rb.delay_us h)

  after-flushed :
      new_delay < rb.delay_us
      → delay_ms ≡ 0
      → 50000 < rb.delay_us
      → after ≡ rb_reset_locked set slots
  unfolding set_ring_delay reduce_delay
  after-flushed h z f =
      let to_zero : (new_delay == 0) ≡ true = (==_iff new_delay 0).1 (omega arith) in
      rw (lt→ltb new_delay rb.delay_us h, to_zero, lt→ltb 50000 rb.delay_us f) refl

  after-reduced :
      new_delay < rb.delay_us
      → (0 < delay_ms) ⊎ (rb.delay_us ≤ 50000)
      → after ≡ retimestamp (ready_at now_us delay_ms) trimmed
  unfolding set_ring_delay reduce_delay
  after-reduced h f =
      let keep : ((new_delay == 0) && ltb 50000 rb.delay_us) ≡ false = ground (arith, f) in
      rw (lt→ltb new_delay rb.delay_us h, keep) refl

  delay-retimestamp : (ready : ℕ) (r : RingBuffer) → (retimestamp ready r).delay_us ≡ r.delay_us
  unfolding retimestamp
  delay-retimestamp ready r = refl

  abbrev Result : RingBuffer → Type 0
  Result r = IsValid r × Adjusted rate delay_ms now_us later rb r

  retimestamp-Result :
      new_delay < rb.delay_us
      → (0 < delay_ms) ⊎ (rb.delay_us ≤ 50000)
      → new_delay + 1000 ≤ now_us
      → now_us ≤ later
      → later < 2 ^ 64
      → Result (retimestamp (ready_at now_us delay_ms) trimmed)
  retimestamp-Result h f p q w =
      let t = trimmed-Trimmed in
      let ready = ready_at now_us delay_ms in
      let kept = contents-retimestamp ready trimmed t.valid ∙ ap (map (stamp ready)) t.kept in
      let aged =
        stamp-age ready now_us later new_delay (drop (packet_count rb - slots) (contents rb)) refl p
          q w in
      (
        retimestamp-IsValid ready trimmed t.valid,
        reduced slots (slots_for-IsNeeded rate delay_ms rb.max_capacity) h f kept (
            subst (λ d. All (λ s. d ≤ age later s) (contents (retimestamp ready trimmed)))
              (sym (delay-retimestamp ready trimmed ∙ t.delay))
              (subst (All (λ s. new_delay ≤ age later s)) (sym kept) aged)),
      )

  -- A change of one ring's delay keeps the ring valid. A delay that is not shorter changes no
  -- packet; a change to zero from more than 50 ms empties the ring; any other shorter delay
  -- discards the oldest packets beyond the least number that lasts for the delay, or beyond the
  -- capacity if that is less, and makes all others ready, then and at any `later` time. The clock reads the delay and a millisecond at least, and
  -- does not pass 2 ^ 64.
  pub set_ring_delay-Adjusted :
      new_delay + 1000 ≤ now_us
      → now_us ≤ later
      → later < 2 ^ 64
      → IsValid (set_ring_delay rate delay_ms now_us rb)
        × Adjusted rate delay_ms now_us later rb (set_ring_delay rate delay_ms now_us rb)
  set_ring_delay-Adjusted p q w = elim (dec_lt new_delay rb.delay_us) [
    | no nl ↦
        let h : rb.delay_us ≤ new_delay = omega arith in
        subst Result (sym (after-not_reduced h)) (set-IsValid, not_reduced h refl)
    | yes h ↦ elim (ℕ_discrete delay_ms 0) [
      | no ne ↦
          let f : (0 < delay_ms) ⊎ (rb.delay_us ≤ 50000) = inl (omega (arith, ne)) in
          subst Result (sym (after-reduced h f)) (retimestamp-Result h f p q w)
      | yes z ↦ elim (dec_lt 50000 rb.delay_us) [
        | no nf ↦
            let f : (0 < delay_ms) ⊎ (rb.delay_us ≤ 50000) = inr (omega (arith, nf)) in
            subst Result (sym (after-reduced h f)) (retimestamp-Result h f p q w)
        | yes l ↦
            let some_room : 0 < rb.max_capacity = omega (arith, v.head_in) in
            subst Result (sym (after-flushed h z l)) (
              rb_reset_locked-IsValid set slots some_room,
              flushed z l (contents-rb_reset_locked set slots),
            )
      ]
    ]
  ]

-- Whatever the clock reads.
pub set_ring_delay-IsValid :
    (rate delay_ms now_us : ℕ) (rb : RingBuffer)
    → IsValid rb
    → IsValid (set_ring_delay rate delay_ms now_us rb)
unfolding set_ring_delay reduce_delay
set_ring_delay-IsValid rate delay_ms now_us rb v =
    let w = set-IsValid rate delay_ms now_us now_us rb v in
    let t = trimmed-Trimmed rate delay_ms now_us now_us rb v in
    if-either IsValid (ltb (delay_ms * 1000) rb.delay_us)
      (if-either IsValid _ (rb_reset_locked-IsValid _ _ (omega (arith, v.head_in)))
        (retimestamp-IsValid _ _ t.valid))
      w
