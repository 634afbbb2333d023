-- ===== src/Video/Color.antt =====
-- src/video/c64-color.c: the table from a byte of two pixels to two colours, and the conversion.
-- A pixel buffer is a function from the index of a pixel to its colour. A store of 64 bits puts the
-- low half first, as on the little-endian machines that the code is written for.
pub mod Convert
mod Tests
use c64stream.Base.{ℕ, zero, suc, ◌+◌, ◌*◌, ◌/◌, ◌%◌, ◌^◌, List, [], ◌∷◌}
use c64stream.Base.Bools.{◌==◌, ltb, leb, if◌then◌else◌}
use c64stream.Base.Lists.{get_or}

abbrev pub Pixels : Type 0
Pixels = ℕ → ℕ

pub record ColorLut : Type 0 where
  pub palette : List ℕ
  pub lut : List ℕ

-- `lut[i]`; the two parts share no bit, so that their sum is the source's `|`.
unfoldable pub lut_entry : List ℕ → ℕ → ℕ
lut_entry palette i = get_or palette ((i / 2 ^ 4) % 2 ^ 4) 0 * 2 ^ 32 + get_or palette (i % 2 ^ 4) 0

-- The entries from `i` on, `n` of them.
unfoldable pub lut_entries : List ℕ → ℕ → ℕ → List ℕ
unfolding lut_entry
lut_entries palette zero i = []
lut_entries palette (suc n) i = lut_entry palette i ∷ lut_entries palette n (i + 1)

unfoldable pub build_lut : List ℕ → List ℕ
unfolding lut_entries
build_lut palette = lut_entries palette 256 0

-- `c64_color_lut_init` and `c64_color_lut_update` do the same.
unfoldable pub lut_update : ColorLut → List ℕ → ColorLut
lut_update table palette = record { palette = palette; lut = build_lut palette }

unfoldable pub lut_snapshot : ColorLut → List ℕ
lut_snapshot table = table.lut

abbrev pub write : Pixels → ℕ → ℕ → Pixels
write dst at color = λ i. if i == at then color else dst i

unfoldable pub write64 : Pixels → ℕ → ℕ → Pixels
write64 dst at two = write (write dst at (two % 2 ^ 32)) (at + 1) (two / 2 ^ 32)

module _ (lut : List ℕ) (src : ℕ → ℕ) (dst : ℕ) (pixel_pairs : ℕ) where
  -- `*(uint64_t *)(dst + i * 2) = lut[src[i]]`
  unfoldable pub convert_pair : Pixels → ℕ → Pixels
  unfolding write64
  convert_pair out i = write64 out (dst + i * 2) (get_or lut (src i) 0)

  -- The loop that takes four pairs at a time; where it ends, and the pixels. One turn for each pair
  -- is enough fuel.
  unfoldable pub convert_batches : ℕ → ℕ → Pixels → ℕ × Pixels
  convert_batches zero i out = (i, out)
  convert_batches (suc fuel) i out =
      let four =
        convert_pair (convert_pair (convert_pair (convert_pair out i) (i + 1)) (i + 2)) (i + 3) in
      let rest = convert_batches fuel (i + 4) four in
      if leb (i + 4) pixel_pairs then rest else (i, out)

  unfoldable pub convert_remaining : ℕ → ℕ → Pixels → Pixels
  convert_remaining zero i out = out
  convert_remaining (suc fuel) i out =
      let rest = convert_remaining fuel (i + 1) (convert_pair out i) in
      if ltb i pixel_pairs then rest else out

  -- `dst` is the place of the first pixel in the buffer.
  unfoldable pub convert_pixels : Pixels → Pixels
  unfolding convert_batches convert_remaining
  convert_pixels out =
      let (i, batches) = convert_batches pixel_pairs 0 out in
      convert_remaining pixel_pairs i batches
