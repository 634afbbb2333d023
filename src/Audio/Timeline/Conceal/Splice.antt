-- ===== src/Audio/Timeline/Conceal/Splice.antt =====
-- The bytes of the filled packets, read back as samples.
use c64stream.Base.Products.{0-add}
use c64stream.Base.{
  ℕ, zero, suc, ◌+◌, ◌-◌, ◌*◌, ◌/◌, ◌%◌, ◌^◌, ◌≤◌, ◌<◌, ◌≡◌, ◌∙◌, ap, ap₂, subst, sym, false, ◌||◌,
  List, ◌∷◌, arith,
}
use c64stream.Base.Bools.{◌==◌, leb}
use c64stream.Base.Int.{ℤ, pos, negsuc, pos_part, neg_part}
use c64stream.Base.Words.{signed16}
use c64stream.Base.Lists.{get_or}
use c64stream.Audio.Timeline.Conceal.{
  ConcealFill, word_of, fill_sample, fill_from, conceal_fill_packet, samples_per_packet,
}
use c64stream.Audio.Timeline.Conceal.Samples.{
  IsInside, fill_sample-IsInside, fill_sample-last, fill_sample-first,
}

-- A sample of 16 bits.
abbrev pub IsSample : ℤ → Type 0
IsSample z = (pos_part z < 2 ^ 15) × (neg_part z ≤ 2 ^ 15)

-- The sample in the two bytes from `i` on.
abbrev pub sample_at : List ℕ → ℕ → ℤ
sample_at bytes i = signed16 (get_or bytes i 0 + get_or bytes (i + 1) 0 * 2 ^ 8)

signed16-word_of :
    (z : ℤ) → IsSample z → signed16 (word_of z % 2 ^ 8 + word_of z / 2 ^ 8 * 2 ^ 8) ≡ z
signed16-word_of (pos n) h = ground arith
signed16-word_of (negsuc n) h = ground arith

four : (n : ℕ) → n + 4 ≡ suc (suc (suc (suc n)))
four n = omega arith

sample_at-behind :
    (a b c d : ℕ) (rest : List ℕ) (i i' : ℕ)
    → i ≡ i' + 4
    → sample_at (a ∷ b ∷ c ∷ d ∷ rest) i ≡ sample_at rest i'
sample_at-behind a b c d rest i i' e =
    let bytes = a ∷ b ∷ c ∷ d ∷ rest in
    let low : get_or bytes i 0 ≡ get_or rest i' 0 = ap (λ x. get_or bytes x 0) (e ∙ four i') in
    let high : get_or bytes (i + 1) 0 ≡ get_or rest (i' + 1) 0 =
      ap (λ x. get_or bytes x 0) (omega (arith, e) ∙ four (i' + 1)) in
    ap₂ (λ x y. signed16 (x + y * 2 ^ 8)) low high

module _ (fill : ConcealFill) (k n : ℕ) where
  abbrev left_at : ℕ → ℤ
  left_at i =
      fill_sample fill.last_left fill.next_left (n * samples_per_packet)
        (k * samples_per_packet + i)

  abbrev right_at : ℕ → ℤ
  right_at i =
      fill_sample fill.last_right fill.next_right (n * samples_per_packet)
        (k * samples_per_packet + i)

  fill_from-samples :
      (m i j : ℕ)
      → j < m
      → IsSample (left_at (i + j))
      → IsSample (right_at (i + j))
      → (sample_at (fill_from fill k n m i) (j * 4) ≡ left_at (i + j))
        × (sample_at (fill_from fill k n m i) (j * 4 + 2) ≡ right_at (i + j))
  unfolding fill_from
  fill_from-samples zero i j h l r = absurd (omega arith)
  fill_from-samples (suc m) i zero h l r =
      let e : i + 0 ≡ i = omega arith in
      (
        signed16-word_of (left_at i) (subst (λ x. IsSample (left_at x)) e l) ∙ ap left_at (sym e),
        signed16-word_of (right_at i) (subst (λ x. IsSample (right_at x)) e r)
            ∙ ap right_at (sym e),
      )
  fill_from-samples (suc m) i (suc j) h l r =
      let e : i + suc j ≡ i + 1 + j = omega arith in
      let rest =
        fill_from-samples m (i + 1) j (omega arith) (subst (λ x. IsSample (left_at x)) e l)
          (subst (λ x. IsSample (right_at x)) e r) in
      (
        sample_at-behind _ _ _ _ _ (suc j * 4) (j * 4) (omega arith) ∙ rest.0 ∙ ap left_at (sym e),
        sample_at-behind _ _ _ _ _ (suc j * 4 + 2) (j * 4 + 2) (omega arith)
            ∙ rest.1
            ∙ ap right_at (sym e),
      )

IsInside-IsSample : (a b r : ℤ) → IsSample a → IsSample b → IsInside a b r → IsSample r
IsInside-IsSample a b r h k i = (omega (arith, h.0, k.0, i.0), omega (arith, h.1, k.1, i.1))

-- The samples around the gap have 16 bits.
abbrev pub IsFill : ConcealFill → Type 0
IsFill fill =
    IsSample fill.last_left
    × IsSample fill.last_right
    × IsSample fill.next_left
    × IsSample fill.next_right

module _ (fill : ConcealFill) (f : IsFill fill) (k n : ℕ) (h : k < n) where
  left-IsInside :
      (j : ℕ) → j < samples_per_packet → IsInside fill.last_left fill.next_left (left_at fill k n j)
  left-IsInside j l =
      fill_sample-IsInside fill.last_left fill.next_left n (omega (arith, h))
        (k * samples_per_packet + j) (omega (arith, h, l))

  right-IsInside :
      (j : ℕ)
      → j < samples_per_packet
      → IsInside fill.last_right fill.next_right (right_at fill k n j)
  right-IsInside j l =
      fill_sample-IsInside fill.last_right fill.next_right n (omega (arith, h))
        (k * samples_per_packet + j) (omega (arith, h, l))

  -- What the two channels of a packet read as.
  packet-samples :
      (j : ℕ)
      → j < samples_per_packet
      → (sample_at (conceal_fill_packet fill k n) (j * 4) ≡ left_at fill k n j)
        × (sample_at (conceal_fill_packet fill k n) (j * 4 + 2) ≡ right_at fill k n j)
  unfolding conceal_fill_packet
  packet-samples j l =
      let e : (n == 0 || leb n k) ≡ false = ground arith in
      let z = 0-add j in
      let left =
        IsInside-IsSample fill.last_left fill.next_left (left_at fill k n j) f.0 f.2
          (left-IsInside j l) in
      let right =
        IsInside-IsSample fill.last_right fill.next_right (right_at fill k n j) f.1 f.3
          (right-IsInside j l) in
      let (a, b) =
        fill_from-samples fill k n samples_per_packet 0 j l
          (subst (λ x. IsSample (left_at fill k n x)) (sym z) left)
          (subst (λ x. IsSample (right_at fill k n x)) (sym z) right) in
      rw e (a ∙ ap (left_at fill k n) z, b ∙ ap (right_at fill k n) z)

-- In a gap of `gap + 1` packets between samples of 16 bits, whatever channel is read back from the
-- bytes of packet `k`, no sample `j` is louder than the louder one of the last sample before the gap
-- and the first one behind it; the gap begins with the one and ends with the other.
pub conceal-Splices :
    (fill : ConcealFill) (gap k j : ℕ)
    → IsFill fill
    → k ≤ gap
    → j < samples_per_packet
    → let packet = conceal_fill_packet fill k (gap + 1) in
      let first = conceal_fill_packet fill 0 (gap + 1) in
      let last = conceal_fill_packet fill gap (gap + 1) in
      IsInside fill.last_left fill.next_left (sample_at packet (j * 4))
      × IsInside fill.last_right fill.next_right (sample_at packet (j * 4 + 2))
      × (sample_at first 0 ≡ fill.last_left)
      × (sample_at first 2 ≡ fill.last_right)
      × (sample_at last 764 ≡ fill.next_left)
      × (sample_at last 766 ≡ fill.next_right)
conceal-Splices fill gap k j f h l =
    let n = gap + 1 in
    let here = packet-samples fill f k n (omega arith) j l in
    let first = packet-samples fill f 0 n (omega arith) 0 (omega arith) in
    let last = packet-samples fill f gap n (omega arith) 191 (omega arith) in
    let end : gap * samples_per_packet + 191 ≡ n * samples_per_packet - 1 = omega arith in
    (
      subst (IsInside fill.last_left fill.next_left) (sym here.0)
          (left-IsInside fill f k n (omega arith) j l),
      subst (IsInside fill.last_right fill.next_right) (sym here.1)
          (right-IsInside fill f k n (omega arith) j l),
      first.0 ∙ fill_sample-first fill.last_left fill.next_left n (omega arith),
      first.1 ∙ fill_sample-first fill.last_right fill.next_right n (omega arith),
      last.0
          ∙ ap (fill_sample fill.last_left fill.next_left (n * samples_per_packet)) end
          ∙ fill_sample-last fill.last_left fill.next_left n (omega arith),
      last.1
          ∙ ap (fill_sample fill.last_right fill.next_right (n * samples_per_packet)) end
          ∙ fill_sample-last fill.last_right fill.next_right n (omega arith),
    )
