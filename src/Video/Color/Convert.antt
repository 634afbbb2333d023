-- ===== src/Video/Color/Convert.antt =====
-- The conversion against the palette.
use c64stream.Base.Products.{0-add}
use c64stream.Base.{
  ℕ, zero, suc, ◌+◌, ◌*◌, ◌/◌, ◌%◌, ◌^◌, ◌≤◌, ◌<◌, ◌⊎◌, ◌≡◌, ◌∙◌, refl, ap, subst, sym, true, false,
  List, [], ◌∷◌, arith,
}
use c64stream.Base.Bools.{◌==◌, ltb, leb, if◌then◌else◌, leb→le, ltb→lt, if-split}
use c64stream.Base.Lists.{All, get_or}
use c64stream.Video.Color.{
  Pixels, lut_entry, lut_entries, build_lut, write64, convert_pair, convert_batches,
  convert_remaining, convert_pixels,
}

-- The colour of pixel `x` of a line: the low half of a byte is the pixel on the left.
abbrev pub color_at : List ℕ → (ℕ → ℕ) → ℕ → ℕ
color_at palette src x =
    let byte = src (x / 2) in get_or palette (if x % 2 == 0 then byte % 16 else byte / 16) 0

lut_entries-at :
    (palette : List ℕ) (n i k : ℕ)
    → k < n
    → get_or (lut_entries palette n i) k 0 ≡ lut_entry palette (i + k)
unfolding lut_entries
lut_entries-at palette zero i k h = ground arith
lut_entries-at palette (suc n) i zero h = ap (lut_entry palette) (omega arith)
lut_entries-at palette (suc n) i (suc k) h =
    lut_entries-at palette n (i + 1) k (omega arith) ∙ ap (lut_entry palette) (omega arith)

get_or-below : (xs : List ℕ) (i b : ℕ) → 0 < b → All (λ c. c < b) xs → get_or xs i 0 < b
get_or-below [] i b p h = p
get_or-below (x ∷ xs) zero b p h = h.0
get_or-below (x ∷ xs) (suc i) b p h = get_or-below xs i b p h.1

color_at-left :
    (palette : List ℕ) (src : ℕ → ℕ) (i : ℕ)
    → color_at palette src (i * 2) ≡ get_or palette (src i % 16) 0
color_at-left palette src i =
    let e : i * 2 / 2 ≡ i = omega arith in
    let b : ((i * 2) % 2 == 0) ≡ true = ground arith in rw e (rw b refl)

color_at-right :
    (palette : List ℕ) (src : ℕ → ℕ) (i : ℕ)
    → color_at palette src (i * 2 + 1) ≡ get_or palette (src i / 16) 0
color_at-right palette src i =
    let e : (i * 2 + 1) / 2 ≡ i = omega arith in
    let b : ((i * 2 + 1) % 2 == 0) ≡ false = ground arith in rw e (rw b refl)

module _ (palette : List ℕ) (src : ℕ → ℕ) (colors : All (λ c. c < 2 ^ 32) palette) where
  lut-entry :
      (i : ℕ)
      → src i < 256
      → get_or (build_lut palette) (src i) 0
        ≡ get_or palette (src i / 16) 0 * 2 ^ 32 + get_or palette (src i % 16) 0
  unfolding build_lut lut_entry
  lut-entry i h =
      let e : (src i / 16) % 16 ≡ src i / 16 = omega arith in
      lut_entries-at palette 256 0 (src i) h
      ∙ ap (lut_entry palette) (0-add (src i))
      ∙ ap (λ x. get_or palette x 0 * 2 ^ 32 + get_or palette (src i % 16) 0) e

  lut-low :
      (i : ℕ)
      → src i < 256
      → get_or (build_lut palette) (src i) 0 % 2 ^ 32 ≡ color_at palette src (i * 2)
  lut-low i h = rw (lut-entry i h) (
      omega (
        arith,
        color_at-left palette src i,
        get_or-below palette (src i % 16) (2 ^ 32) (omega arith) colors,
      ))

  lut-high :
      (i : ℕ)
      → src i < 256
      → get_or (build_lut palette) (src i) 0 / 2 ^ 32 ≡ color_at palette src (i * 2 + 1)
  lut-high i h = rw (lut-entry i h) (
      omega (
        arith,
        color_at-right palette src i,
        get_or-below palette (src i % 16) (2 ^ 32) (omega arith) colors,
      ))

-- The pixels before pair `i` are converted, all others are those of `out`.
abbrev pub Converted : List ℕ → (ℕ → ℕ) → ℕ → Pixels → ℕ → Pixels → Type 0
Converted palette src dst out i now =
    ((x : ℕ) → x < i * 2 → now (dst + x) ≡ color_at palette src x)
    × ((j : ℕ) → j < dst ⊎ dst + i * 2 ≤ j → now j ≡ out j)

module _ (palette : List ℕ) (src : ℕ → ℕ) (colors : All (λ c. c < 2 ^ 32) palette) (dst pairs : ℕ)
    (bytes : (i : ℕ) → i < pairs → src i < 256) (out : Pixels) where
  abbrev IsDone : ℕ → Pixels → Type 0
  IsDone = Converted palette src dst out

  abbrev lut : List ℕ
  lut = build_lut palette

  convert_pair-IsDone :
      (i : ℕ) (now : Pixels)
      → i < pairs
      → IsDone i now
      → IsDone (i + 1) (convert_pair lut src dst pairs now i)
  unfolding convert_pair write64
  convert_pair-IsDone i now h d =
      let low = lut-low palette src colors i (bytes i h) in
      let high = lut-high palette src colors i (bytes i h) in
      let kept = d.0 in
      let outside = d.1 in (λ x l. grind (arith, kept, low, high), λ j o. grind (arith, outside))

  convert_pair_to :
      (i next : ℕ) (now : Pixels)
      → next ≡ i + 1
      → i < pairs
      → IsDone i now
      → IsDone next (convert_pair lut src dst pairs now i)
  convert_pair_to i next now e h d =
      subst (λ n. IsDone n (convert_pair lut src dst pairs now i)) (sym e)
        (convert_pair-IsDone i now h d)

  convert_remaining-IsDone :
      (fuel i : ℕ) (now : Pixels)
      → i ≤ pairs
      → pairs ≤ i + fuel
      → IsDone i now
      → IsDone pairs (convert_remaining lut src dst pairs fuel i now)
  unfolding convert_remaining
  convert_remaining-IsDone zero i now h k d = subst (λ n. IsDone n now) (omega arith) d
  convert_remaining-IsDone (suc fuel) i now h k d =
      if-split (λ (p : Pixels). IsDone pairs p) (ltb i pairs)
        (λ l.
          convert_remaining-IsDone fuel (i + 1) (convert_pair lut src dst pairs now i)
            (omega (arith, ltb→lt i pairs l)) (omega arith)
            (convert_pair-IsDone i now (ltb→lt i pairs l) d))
        (λ l. subst (λ n. IsDone n now) (ground arith) d)

  AtIndex : ℕ × Pixels → Type 0
  AtIndex r = (r.0 ≤ pairs) × IsDone r.0 r.1

  convert_batches-IsDone :
      (fuel i : ℕ) (now : Pixels)
      → i ≤ pairs
      → IsDone i now
      → AtIndex (convert_batches lut src dst pairs fuel i now)
  unfolding convert_batches AtIndex
  convert_batches-IsDone zero i now h d = (h, d)
  convert_batches-IsDone (suc fuel) i now h d =
      let put = convert_pair lut src dst pairs in
      if-split (λ (p : ℕ × Pixels). AtIndex p) (leb (i + 4) pairs)
        (λ l.
          let le = leb→le (i + 4) pairs l in
          let one = convert_pair_to i (i + 1) now refl (omega arith) d in
          let two = convert_pair_to (i + 1) (i + 2) (put now i) (omega arith) (omega arith) one in
          let three =
            convert_pair_to (i + 2) (i + 3) (put (put now i) (i + 1)) (omega arith) (omega arith)
              two in
          convert_batches-IsDone fuel (i + 4) (put (put (put (put now i) (i + 1)) (i + 2)) (i + 3))
            le
            (convert_pair_to (i + 3) (i + 4) (put (put (put now i) (i + 1)) (i + 2)) (omega arith)
              (omega arith) three))
        (λ l. (h, d))

  pub convert_pixels-Converted :
      Converted palette src dst out pairs (convert_pixels (build_lut palette) src dst pairs out)
  unfolding convert_pixels AtIndex
  convert_pixels-Converted =
      let start : IsDone 0 out = (λ x l. omega arith, λ j o. refl) in
      let (i, batches) = convert_batches (build_lut palette) src dst pairs pairs 0 out in
      let (h, d) = convert_batches-IsDone pairs 0 out (omega arith) start in
      convert_remaining-IsDone pairs i batches h (omega arith) d

  -- A line of `pairs` bytes is converted to the colours that the palette has for its halves, the low
  -- half first, and nothing else in the buffer is written; the palette's colours have 32 bits.
  pub convert_pixels-color_at :
      (x j : ℕ)
      → x < pairs * 2
      → j < dst ⊎ dst + pairs * 2 ≤ j
      → let line = convert_pixels (build_lut palette) src dst pairs out in
        (line (dst + x) ≡ color_at palette src x) × (line j ≡ out j)
  convert_pixels-color_at x j h o = (convert_pixels-Converted.0 x h, convert_pixels-Converted.1 j o)
