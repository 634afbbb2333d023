-- ===== src/Video/Color/Tests.antt =====
-- The conversion of a short line.
use c64stream.Base.{◌+◌, inl, ℕ, ◌<◌, ◌^◌, ◌≡◌, refl, List, [], ◌∷◌, arith}
use c64stream.Base.Lists.{All, get_or}
use c64stream.Video.Color.{
  Pixels, build_lut, lut_entries, lut_entry, convert_pixels, convert_batches, convert_remaining,
  convert_pair, write64,
}
use c64stream.Video.Color.Convert.{color_at, convert_pixels-color_at}

abbrev palette : List ℕ
palette = 10 ∷ 11 ∷ 12 ∷ 13 ∷ 14 ∷ 15 ∷ 16 ∷ 17 ∷ 18 ∷ 19 ∷ 20 ∷ 21 ∷ 22 ∷ 23 ∷ 24 ∷ 25 ∷ []

colors-below : All (λ c. c < 2 ^ 32) palette
colors-below = ground arith

abbrev bytes : ℕ → ℕ
bytes i = get_or (0x10 ∷ 0x32 ∷ 0x54 ∷ 0x76 ∷ 0x98 ∷ []) i 0

abbrev black : Pixels
black i = 0

bytes-below : (i : ℕ) → i < 5 → bytes i < 256
bytes-below i h = ground arith

-- Four pairs and one, from the third pixel on.
convert_pixels-color_at_example :
    let line = convert_pixels (build_lut palette) bytes 2 5 black in
    (line (2 + 9) ≡ color_at palette bytes 9) × (line 1 ≡ black 1)
convert_pixels-color_at_example =
    convert_pixels-color_at palette bytes colors-below 2 5 bytes-below black 9 1 (omega arith)
      (inl (omega arith))

low_half_first : convert_pixels (build_lut palette) bytes 2 5 black 10 ≡ 18
unfolding convert_pixels convert_batches convert_remaining convert_pair write64 build_lut
    lut_entries lut_entry
low_half_first = refl
