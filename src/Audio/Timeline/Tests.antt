-- ===== src/Audio/Timeline/Tests.antt =====
-- Concrete runs of the audio timeline, and the theorems at concrete inputs.
use c64stream.Base.{◌+◌, ◌*◌, ℕ, ◌≡◌, refl, ◌⊎◌, true, List, [], ◌∷◌, some, none, arith}
use c64stream.Base.Int.{pos, negsuc}
use c64stream.Audio.Timeline.Conceal.{ConcealFill, conceal_fill_packet}
use c64stream.Audio.Timeline.Conceal.Samples.{IsInside}
use c64stream.Audio.Timeline.Conceal.Splice.{sample_at, conceal-Splices}
use c64stream.Base.Words.{diff16}
use c64stream.Audio.Timeline.{Timeline, advance, reset, classify}
use c64stream.Audio.Timeline.Order.{IsLate, IsNear, IsFar, Dropped, Placed, Anchored, advance_cases}
use c64stream.Audio.Timeline.Sync.{replay, ideal, played, replay-ideal}

abbrev running : Timeline
running = record reset { seq_set = true; last_seq = 65530; packet_index = 40 }

-- 65530 to 3 is nine packets ahead.
wraps : (advance running 3 1000 0 0).out_index ≡ 49
unfolding advance classify
wraps = refl

restart_lands_on_the_wall_clock : (advance running 30000 1000 0 0).out_index ≡ 1000
unfolding advance classify
restart_lands_on_the_wall_clock = refl

advance_cases_example :
    let d = diff16 3 65530 in
    let r = advance running 3 1000 0 0 in
    IsLate d × Dropped running 0 0 r
    ⊎ IsNear d × Placed running 3 d r
    ⊎ IsFar d × Anchored running 3 1000 r
advance_cases_example = advance_cases running 3 1000 0 0 refl (omega arith)

-- A loss of eight packets across the wrap, the last of them late, and a duplicate.
abbrev arrivals : List (ℕ × ℕ)
arrivals = (65545, 9) ∷ (65544, 10) ∷ (65545, 11) ∷ (65546, 12) ∷ []

replay-ideal_example : replay reset ((65535, 0) ∷ arrivals) ≡ some 0 ∷ ideal 65535 65535 arrivals
replay-ideal_example = replay-ideal 65535 0 arrivals (omega arith)

replay-arrivals :
    replay reset ((65535, 0) ∷ arrivals) ≡ some 0 ∷ some 10 ∷ none ∷ none ∷ some 11 ∷ []
unfolding replay advance classify played
replay-arrivals = refl

abbrev gap_fill : ConcealFill
gap_fill = record {
  last_left = pos 1000;
  last_right = negsuc 999;
  next_left = negsuc 4;
  next_right = pos 30000;
}

-- A sample in the ramp of the second of two lost packets.
conceal-Splices_example :
    let packet = conceal_fill_packet gap_fill 1 2 in
    let first = conceal_fill_packet gap_fill 0 2 in
    let last = conceal_fill_packet gap_fill 1 2 in
    IsInside (pos 1000) (negsuc 4) (sample_at packet (100 * 4))
    × IsInside (negsuc 999) (pos 30000) (sample_at packet (100 * 4 + 2))
    × (sample_at first 0 ≡ pos 1000)
    × (sample_at first 2 ≡ negsuc 999)
    × (sample_at last 764 ≡ negsuc 4)
    × (sample_at last 766 ≡ pos 30000)
conceal-Splices_example =
    conceal-Splices gap_fill 1 1 100
      (
        (omega arith, omega arith),
        (omega arith, omega arith),
        (omega arith, omega arith),
        (omega arith, omega arith),
      )
      (omega arith) (omega arith)
