-- ===== src/Audio/Timeline/Conceal.antt =====
-- src/audio/c64-audio-timeline.c and .h: the packets that fill a gap, as they fade from the last
-- sample before it and run into the first one behind it. `fill` is not null.
pub mod Samples
pub mod Splice
use c64stream.Base.{ℕ, zero, suc, ◌+◌, ◌-◌, ◌*◌, ◌/◌, ◌%◌, ◌^◌, min, Bool, ◌||◌, List, [], ◌∷◌}
use c64stream.Base.Bools.{◌==◌, ltb, leb, if◌then◌else◌}
use c64stream.Base.Int.{ℤ, pos, negsuc, pos_part, neg_part, sub_ℕ}
use c64stream.Base.Lists.{replicate}

abbrev pub samples_per_packet : ℕ
samples_per_packet = 192

abbrev pub fade_samples : ℕ
fade_samples = 4800

abbrev pub ramp_samples : ℕ
ramp_samples = 128

-- Samples are integers of 16 bits.
pub record ConcealFill : Type 0 where
  pub last_left : ℤ
  pub last_right : ℤ
  pub next_left : ℤ
  pub next_right : ℤ

abbrev pub plus : ℤ → ℤ → ℤ
plus a b = sub_ℕ (pos_part a + pos_part b) (neg_part a + neg_part b)

abbrev pub subtract : ℤ → ℤ → ℤ
subtract a b = sub_ℕ (pos_part a + neg_part b) (neg_part a + pos_part b)

-- `z * k / d`, which rounds towards zero.
unfoldable pub scale : ℤ → ℕ → ℕ → ℤ
scale (pos n) k d = pos (n * k / d)
scale (negsuc n) k d = sub_ℕ 0 (suc n * k / d)

unfoldable pub conceal_held_value : ℤ → ℕ → ℤ
unfolding scale
conceal_held_value last s =
    if leb fade_samples s then pos 0 else scale last (fade_samples - s) fade_samples

-- Sample `s` of a gap of `total` samples.
unfoldable pub fill_sample : ℤ → ℤ → ℕ → ℕ → ℤ
unfolding conceal_held_value scale
fill_sample last next total s =
    let ramp_len = if ltb total ramp_samples then total else ramp_samples in
    let ramp_start = total - ramp_len in
    let held = conceal_held_value last s in
    if leb ramp_start s
    then plus held (scale (subtract next held) (s - ramp_start + 1) ramp_len)
    else held

-- The bits of `(uint16_t)(int16_t)z`.
abbrev pub word_of : ℤ → ℕ
word_of (pos n) = n % 2 ^ 16
word_of (negsuc n) = 2 ^ 16 - 1 - n % 2 ^ 16

-- `m` samples from `i` on, each two words of two bytes, the low byte first.
unfoldable pub fill_from : ConcealFill → ℕ → ℕ → ℕ → ℕ → List ℕ
unfolding fill_sample
fill_from fill k n zero i = []
fill_from fill k n (suc m) i =
    let total = n * samples_per_packet in
    let s = k * samples_per_packet + i in
    let left = word_of (fill_sample fill.last_left fill.next_left total s) in
    let right = word_of (fill_sample fill.last_right fill.next_right total s) in
    left % 2 ^ 8 ∷ left / 2 ^ 8 ∷ right % 2 ^ 8 ∷ right / 2 ^ 8 ∷ fill_from fill k n m (i + 1)

-- The bytes of packet `k` of a gap of `n` packets.
unfoldable pub conceal_fill_packet : ConcealFill → ℕ → ℕ → List ℕ
unfolding fill_from
conceal_fill_packet fill k n =
    if n == 0 || leb n k then replicate 768 0 else fill_from fill k n samples_per_packet 0
