-- ===== src/Video/Timestamps/Counter.antt =====
-- Timestamps against the counter of frames that the device keeps without bound, of which a packet
-- carries 16 bits.
use c64stream.Base.Products.{mul-le}
use c64stream.Base.{
  ℕ, ◌+◌, ◌-◌, ◌*◌, ◌%◌, ◌^◌, ◌≤◌, ◌<◌, ◌≡◌, refl, ap₂, true, List, [], ◌∷◌, map, arith,
}
use c64stream.Base.Int.{pos}
use c64stream.Video.Timestamps.{
  Clock, calculate_ideal_timestamp, predict_video_timestamp, timestamps, timestamp_at, count_frame,
  frame_diff, wrap_diff, has_no_start, start_stream,
}
use c64stream.Video.Timestamps.Order.{timestamp_at-exact, calculate-count_frame, count_frame-first}

abbrev number_of : ℕ → ℕ
number_of m = m % 2 ^ 16

-- Each counter is later than the one before, by at most 32,767.
abbrev pub Ascending : ℕ → List ℕ → Type 0
Ascending m [] = Unit
Ascending m (k ∷ ks) = (m < k) × (k ≤ m + 32767) × Ascending k ks

abbrev last_of : ℕ → List ℕ → ℕ
last_of m [] = m
last_of m (k ∷ ks) = last_of k ks

frame_diff-near :
    (m k : ℕ) → m < k → k ≤ m + 32767 → frame_diff (number_of k) (number_of m) ≡ pos (k - m)
unfolding frame_diff wrap_diff
frame_diff-near m k h l = ground arith

-- The clock has submitted frame `m` of a stream whose first frame was `base`.
record Follows (c : Clock) (base m : ℕ) : Type 0 where
  started : c.stream_start_set ≡ true
  start : 0 < c.stream_start_ns
  set : c.video_ts_frame_num_set ≡ true
  last : c.last_video_ts_frame_num ≡ number_of m
  since : base ≤ m
  index : c.video_frame_index ≡ m - base

module _ {c : Clock} {base m : ℕ} (f : Follows c base m) (k : ℕ) where
  count_frame-near :
      m < k
      → k ≤ m + 32767
      → k - base < 2 ^ 64
      → count_frame c (number_of k)
        ≡ record c { last_video_ts_frame_num = number_of k; video_frame_index = k - base }
  unfolding count_frame
  count_frame-near h l r =
      rw f.set (rw f.last (rw (frame_diff-near m k h l) (ground (arith, f.since, f.index))))

last_of-after : (m : ℕ) (ks : List ℕ) → Ascending m ks → m ≤ last_of m ks
last_of-after m [] h = omega arith
last_of-after m (k ∷ ks) h = omega (arith, h.0, last_of-after k ks h.2)

none_since : (i v : ℕ) → (i - i) * v ≡ 0
none_since i v = grind arith

abbrev due : Clock → ℕ → ℕ → ℕ
due c base k = c.stream_start_ns + (k - base) * c.frame_interval_ns

timestamps-behind :
    (ks : List ℕ) (c : Clock) (base m : ℕ)
    → Follows c base m
    → 0 < c.frame_interval_ns
    → Ascending m ks
    → due c base (last_of m ks) < 2 ^ 64
    → (timestamps c (map number_of ks)).0 ≡ map (due c base) ks
unfolding timestamps
timestamps-behind [] c base m f v a r = refl
timestamps-behind (k ∷ ks) c base m f v a r =
    let behind : Clock = record c {
      last_video_ts_frame_num = number_of k;
      video_frame_index = k - base;
    } in
    let e = last_of-after k ks a.2 in
    let le = mul-le (k - base) (last_of k ks - base) c.frame_interval_ns (omega arith) in
    let one = mul-le 1 c.frame_interval_ns (k - base) v in
    let exact = timestamp_at-exact behind (k - base) (omega (arith, le, r)) in
    let follows : Follows behind base k = record {
      started = f.started;
      start = f.start;
      set = f.set;
      last = refl;
      since = omega (arith, f.since, a.0);
      index = refl;
    } in
    rw (calculate-count_frame c (number_of k) f.started f.start) (
      rw (count_frame-near f k a.0 a.1 (omega (arith, le, r, one)))
        (ap₂ ◌∷◌ exact (timestamps-behind ks behind base k follows v a.2 r)))

-- After the stream has started, if the device's counter goes up by at most 32,767 from one submitted
-- frame to the next, while the interval stays the same and 64 bits are enough, the timestamp of
-- each frame is the start plus one interval for each frame that the device has counted since the
-- first, those that were lost included, although the packets carry 16 bits of the counter only.
pub timestamps-exact :
    (c : Clock) (start base : ℕ) (ks : List ℕ)
    → 0 < start
    → 0 < c.frame_interval_ns
    → Ascending base ks
    → start + (last_of base ks - base) * c.frame_interval_ns < 2 ^ 64
    → (timestamps (start_stream c start) (map number_of (base ∷ ks))).0
      ≡ map (λ k. start + (k - base) * c.frame_interval_ns) (base ∷ ks)
unfolding timestamps start_stream
timestamps-exact c start base ks p v a r =
    let s = start_stream c start in
    let first : Clock = record s {
      video_ts_frame_num_set = true;
      last_video_ts_frame_num = number_of base;
      video_frame_index = 0;
    } in
    let follows : Follows first base base = record {
      started = refl;
      start = p;
      set = refl;
      last = refl;
      since = omega arith;
      index = omega arith;
    } in
    rw (calculate-count_frame s (number_of base) refl p) (
      rw (count_frame-first s (number_of base) refl) (
        ap₂ ◌∷◌
          (omega
            (arith, timestamp_at-exact first 0 (omega arith), none_since base s.frame_interval_ns))
          (timestamps-behind ks first base base follows v a r)))

-- What the log predicts for a frame is the timestamp, and the index, that the frame gets when it is
-- submitted next; before the start there is no prediction and the timestamp is zero.
pub predict-calculate :
    (c : Clock) (n : ℕ) → (predict_video_timestamp c n).2 ≡ (calculate_ideal_timestamp c n).0
unfolding predict_video_timestamp calculate_ideal_timestamp count_frame timestamp_at has_no_start
predict-calculate c n = ground arith
