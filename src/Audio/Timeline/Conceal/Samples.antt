-- ===== src/Audio/Timeline/Conceal/Samples.antt =====
-- The samples of a filled gap.
use c64stream.Base.Products.{mul_mono}
use c64stream.Base.{
  ℕ, suc, ◌+◌, ◌-◌, ◌*◌, ◌/◌, ◌≤◌, ◌<◌, ◌≡◌, ◌∙◌, ◌⊎◌, inl, inr, refl, max, ap, false, arith,
}
use c64stream.Base.Bools.{
  ltb, leb, if◌then◌else◌, if-split, leb→le, le→leb, lt→leb-false, not-ltb, leb-false, Bool-cases,
  if-eq_of_true, if-eq_of_false,
}
use c64stream.Base.Int.{ℤ, pos, negsuc, pos_part, neg_part, sub_ℕ, ◌≤ℤ◌}
use c64stream.Audio.Timeline.Conceal.{
  plus, subtract, scale, conceal_held_value, fill_sample, fade_samples, ramp_samples,
}

pos_part-sub : (a b : ℕ) → pos_part (sub_ℕ a b) ≡ a - b
pos_part-sub a b = ground arith

neg_part-sub : (a b : ℕ) → neg_part (sub_ℕ a b) ≡ b - a
neg_part-sub a b = ground arith

-- `r` is between 0 and `z`.
abbrev IsWithin : ℤ → ℤ → Type 0
IsWithin z r = (pos_part r ≤ pos_part z) × (neg_part r ≤ neg_part z)

fade-IsWithin : (z : ℤ) (k : ℕ) → k ≤ fade_samples → IsWithin z (scale z k fade_samples)
unfolding scale
fade-IsWithin (pos n) k h = (omega (arith, mul_mono n k fade_samples h), omega arith)
fade-IsWithin (negsuc n) k h = (
  omega (arith, pos_part-sub 0 (suc n * k / fade_samples)),
  omega (arith, neg_part-sub 0 (suc n * k / fade_samples), mul_mono (suc n) k fade_samples h),
)

ramp-IsWithin : (z : ℤ) (k : ℕ) → k ≤ ramp_samples → IsWithin z (scale z k ramp_samples)
unfolding scale
ramp-IsWithin (pos n) k h = (omega (arith, mul_mono n k ramp_samples h), omega arith)
ramp-IsWithin (negsuc n) k h = (
  omega (arith, pos_part-sub 0 (suc n * k / ramp_samples)),
  omega (arith, neg_part-sub 0 (suc n * k / ramp_samples), mul_mono (suc n) k ramp_samples h),
)

-- `r` is between `a` and `b`.
abbrev pub IsBetween : ℤ → ℤ → ℤ → Type 0
IsBetween a b r = (a ≤ℤ r) × (r ≤ℤ b) ⊎ (b ≤ℤ r) × (r ≤ℤ a)

blend-IsBetween : (a b r : ℤ) → IsWithin (subtract b a) r → IsBetween a b (plus a r)
blend-IsBetween a b r h =
    let up = pos_part a + pos_part r in
    let down = neg_part a + neg_part r in
    let p = pos_part-sub up down in
    let q = neg_part-sub up down in
    let p' = pos_part-sub (pos_part b + neg_part a) (neg_part b + pos_part a) in
    let q' = neg_part-sub (pos_part b + neg_part a) (neg_part b + pos_part a) in
    elim (Bool-cases (leb (neg_part b + pos_part a) (pos_part b + neg_part a))) [
      | inl e ↦
          let l = leb→le _ _ e in
          inl (omega (arith, p, q, p', q', h.0, h.1, l), omega (arith, p, q, p', q', h.0, h.1, l))
      | inr e ↦
          let l = leb-false _ _ e in
          inr (omega (arith, p, q, p', q', h.0, h.1, l), omega (arith, p, q, p', q', h.0, h.1, l))
    ]

held-IsWithin : (last : ℤ) (s : ℕ) → IsWithin last (conceal_held_value last s)
unfolding conceal_held_value
held-IsWithin last s =
    if-split (λ (r : ℤ). IsWithin last r) (leb fade_samples s) (λ h. (omega arith, omega arith))
      (λ h. fade-IsWithin last (fade_samples - s) (omega arith))

-- The samples of a gap of at least one packet never leave the range between the faded sample and
-- the first sample behind the gap, and there the ramp ends.
ramp-Between :
    (held next : ℤ) (k : ℕ)
    → k ≤ ramp_samples
    → IsBetween held next (plus held (scale (subtract next held) k ramp_samples))
ramp-Between held next k h =
    blend-IsBetween held next (scale (subtract next held) k ramp_samples)
      (ramp-IsWithin (subtract next held) k h)

minus-suc : (n : ℕ) → sub_ℕ 0 (suc n) ≡ negsuc n
minus-suc n = ground arith

scale-all : (z : ℤ) (d : ℕ) → 0 < d → ((n : ℕ) → n * d / d ≡ n) → scale z d d ≡ z
unfolding scale
scale-all (pos n) d h c = ap pos (c n)
scale-all (negsuc n) d h c = ap (sub_ℕ 0) (c (suc n)) ∙ minus-suc n

plus-subtract : (a b : ℤ) → plus a (subtract b a) ≡ b
plus-subtract (pos a) (pos b) = ground arith
plus-subtract (pos a) (negsuc b) = ground arith
plus-subtract (negsuc a) (pos b) = ground arith
plus-subtract (negsuc a) (negsuc b) = ground arith

IsBetween-left : (a b : ℤ) → IsBetween a b a
IsBetween-left a b = ground arith

-- Not louder than the louder one of two samples.
abbrev pub IsInside : ℤ → ℤ → ℤ → Type 0
IsInside a b r =
    (pos_part r ≤ max (pos_part a) (pos_part b)) × (neg_part r ≤ max (neg_part a) (neg_part b))

between-IsInside : (a h b r : ℤ) → IsWithin a h → IsBetween h b r → IsInside a b r
between-IsInside a h b (pos r) w (inl (k, l)) = (omega (arith, w.0, w.1, k, l), omega arith)
between-IsInside a h b (negsuc r) w (inl (k, l)) = (omega arith, omega (arith, w.0, w.1, k, l))
between-IsInside a h b (pos r) w (inr (k, l)) = (omega (arith, w.0, w.1, k, l), omega arith)
between-IsInside a h b (negsuc r) w (inr (k, l)) = (omega arith, omega (arith, w.0, w.1, k, l))

module _ (last next : ℤ) (n : ℕ) (some_packet : 0 < n) where
  total-ramp :
      (s : ℕ)
      → fill_sample last next (n * 192) s ≡ (
          if leb (n * 192 - ramp_samples) s
          then plus (conceal_held_value last s) (
              scale
                (subtract next (conceal_held_value last s))
                (s - (n * 192 - ramp_samples) + 1)
                ramp_samples)
          else conceal_held_value last s)
  unfolding fill_sample
  total-ramp s =
      let b : ltb (n * 192) ramp_samples ≡ false =
        not-ltb (n * 192) ramp_samples (omega (arith, some_packet)) in
      rw b refl

  pub fill_sample-IsInside :
      (s : ℕ) → s < n * 192 → IsInside last next (fill_sample last next (n * 192) s)
  fill_sample-IsInside s h =
      let held = conceal_held_value last s in
      rw (total-ramp s) (
        between-IsInside last held next _ (held-IsWithin last s) (
          if-split (λ (r : ℤ). IsBetween held next r) (leb (n * 192 - ramp_samples) s)
            (λ e. ramp-Between held next (s - (n * 192 - ramp_samples) + 1) (omega arith))
            (λ e. IsBetween-left held next)))

  pub fill_sample-last : fill_sample last next (n * 192) (n * 192 - 1) ≡ next
  fill_sample-last =
      let held = conceal_held_value last (n * 192 - 1) in
      let e : n * 192 - 1 - (n * 192 - ramp_samples) + 1 ≡ ramp_samples =
        omega (arith, some_packet) in
      total-ramp (n * 192 - 1)
      ∙ if-eq_of_true _ _
          (le→leb (n * 192 - ramp_samples) (n * 192 - 1) (omega (arith, some_packet)))
      ∙ ap (λ k. plus held (scale (subtract next held) k ramp_samples)) e
      ∙ ap (plus held)
          (scale-all (subtract next held) ramp_samples (omega arith) (λ m. omega arith))
      ∙ plus-subtract held next

  pub fill_sample-first : fill_sample last next (n * 192) 0 ≡ last
  unfolding conceal_held_value
  fill_sample-first =
      total-ramp 0
      ∙ if-eq_of_false _ _ (lt→leb-false (n * 192 - ramp_samples) 0 (omega (arith, some_packet)))
      ∙ scale-all last fade_samples (omega arith) (λ m. omega arith)
