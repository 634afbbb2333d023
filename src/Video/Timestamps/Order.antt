-- ===== src/Video/Timestamps/Order.antt =====
-- Timestamps in the order of submission.
use c64stream.Base.Products.{mul-lt, mul-le, mul_mono}
use c64stream.Base.{
  ℕ, suc, ◌+◌, ◌*◌, ◌^◌, ◌≤◌, ◌<◌, ◌≡◌, ◌∙◌, inl, inr, refl, true, false, List, [], ◌∷◌, arith,
}
use c64stream.Base.Lists.{All, length}
use c64stream.Base.Int.{pos_part}
use c64stream.Base.Bools.{Bool-cases}
use c64stream.Video.Timestamps.{
  Clock, calculate_ideal_timestamp, timestamps, timestamp_at, count_frame, frame_diff, wrap_diff,
  has_no_start, start_stream,
}

-- Each number is larger than the one before it, the first larger than `low`.
abbrev pub Increasing : ℕ → List ℕ → Type 0
Increasing low [] = Unit
Increasing low (t ∷ ts) = (low < t) × Increasing t ts

-- The stream has started, and its timestamps have room for `frames` more frames.
pub record IsRunning (c : Clock) (frames : ℕ) : Type 0 where
  pub started : c.stream_start_set ≡ true
  pub start : 0 < c.stream_start_ns
  pub interval : 0 < c.frame_interval_ns
  pub room :
      c.stream_start_ns + (c.video_frame_index + frames * 32768) * c.frame_interval_ns < 2 ^ 64
  pub index : c.video_frame_index + frames * 32768 < 2 ^ 64

-- What one frame does to the counter.
pub record Counted (c : Clock) (c' : Clock) : Type 0 where
  pub more : c.video_frame_index < c'.video_frame_index
  pub at_most : c'.video_frame_index ≤ c.video_frame_index + 32768
  pub last : c'.last_video_ts_frame_num < 2 ^ 16
  pub set : c'.video_ts_frame_num_set ≡ true
  pub start_set : c'.stream_start_set ≡ c.stream_start_set
  pub same_start : c'.stream_start_ns ≡ c.stream_start_ns
  pub same_interval : c'.frame_interval_ns ≡ c.frame_interval_ns

pub frame_diff-at_most :
    (n last : ℕ) → n < 2 ^ 16 → last < 2 ^ 16 → pos_part (frame_diff n last) ≤ 32768
unfolding frame_diff wrap_diff
frame_diff-at_most n last h k = ground arith

module _ (c : Clock) (n : ℕ) where
  pub count_frame-Counted :
      n < 2 ^ 16
      → c.last_video_ts_frame_num < 2 ^ 16
      → c.video_ts_frame_num_set ≡ true
      → c.video_frame_index + 32768 < 2 ^ 64
      → Counted c (count_frame c n)
  unfolding count_frame
  count_frame-Counted h k s r =
      let b = frame_diff-at_most n c.last_video_ts_frame_num h k in
      record {
        more = ground arith;
        at_most = ground arith;
        last = ground arith;
        set = ground arith;
        start_set = ground arith;
        same_start = ground arith;
        same_interval = ground arith;
      }

  -- The clock behind the first frame of a stream.
  pub count_frame-first :
      c.video_ts_frame_num_set ≡ false
      → count_frame c n ≡ record c {
        last_video_ts_frame_num = n;
        video_ts_frame_num_set = true;
        video_frame_index = 0;
      }
  unfolding count_frame
  count_frame-first s = rw s refl

  pub calculate-count_frame :
      c.stream_start_set ≡ true
      → 0 < c.stream_start_ns
      → calculate_ideal_timestamp c n
        ≡ (timestamp_at (count_frame c n) (count_frame c n).video_frame_index, count_frame c n)
  unfolding calculate_ideal_timestamp has_no_start
  calculate-count_frame s h = ground arith

pub timestamp_at-exact :
    (c : Clock) (i : ℕ)
    → c.stream_start_ns + i * c.frame_interval_ns < 2 ^ 64
    → timestamp_at c i ≡ c.stream_start_ns + i * c.frame_interval_ns
unfolding timestamp_at
timestamp_at-exact c i h = omega arith

-- A clock that has counted a frame with a 16-bit number.
record HasFrame (c : Clock) : Type 0 where
  set : c.video_ts_frame_num_set ≡ true
  last : c.last_video_ts_frame_num < 2 ^ 16

module _ {c c' : Clock} {k : ℕ} (r : IsRunning c (suc k)) (d : Counted c c') where
  Counted-IsRunning : IsRunning c' k
  Counted-IsRunning =
      let le =
        mul-le (c'.video_frame_index + k * 32768) (c.video_frame_index + suc k * 32768)
          c.frame_interval_ns (omega (arith, d.at_most)) in
      record {
        started = d.start_set ∙ r.started;
        start = omega (arith, d.same_start, r.start);
        interval = omega (arith, d.same_interval, r.interval);
        room = rw d.same_start (rw d.same_interval (omega (arith, le, r.room)));
        index = omega (arith, d.at_most, r.index);
      }

  -- The timestamp behind is later than the one before.
  Counted-later : timestamp_at c c.video_frame_index < timestamp_at c' c'.video_frame_index
  Counted-later =
      let lt =
        mul-lt c.video_frame_index c'.video_frame_index c.frame_interval_ns d.more r.interval in
      let le =
        mul-le c'.video_frame_index (c.video_frame_index + suc k * 32768) c.frame_interval_ns
          (omega (arith, d.at_most)) in
      rw (timestamp_at-exact c c.video_frame_index (omega (arith, lt, le, r.room))) (
        rw
          (timestamp_at-exact c' c'.video_frame_index
            (rw d.same_start (rw d.same_interval (omega (arith, le, r.room)))))
          (rw d.same_start (rw d.same_interval (omega (arith, lt)))))

Increasing-behind :
    (ns : List ℕ) (c : Clock)
    → IsRunning c (length ns)
    → HasFrame c
    → All (λ n. n < 2 ^ 16) ns
    → Increasing (timestamp_at c c.video_frame_index) (timestamps c ns).0
unfolding timestamps
Increasing-behind [] c r f h = tt
Increasing-behind (n ∷ ns) c r f h =
    let d = count_frame-Counted c n h.0 f.last f.set (omega (arith, r.index)) in
    rw (calculate-count_frame c n r.started r.start) (
      Counted-later r d,
      Increasing-behind ns (count_frame c n) (Counted-IsRunning r d)
          (record { set = d.set; last = d.last }) h.1,
    )

-- After the stream has started, while the interval stays the same and 64 bits are enough, the
-- frames that are submitted have timestamps above zero and each later than the one before, whatever
-- their 16-bit numbers are: lost, repeated or out of order.
pub timestamps-Increasing :
    (c : Clock) (start : ℕ) (ns : List ℕ)
    → 0 < start
    → 0 < c.frame_interval_ns
    → start + length ns * 32768 * c.frame_interval_ns < 2 ^ 64
    → All (λ n. n < 2 ^ 16) ns
    → Increasing 0 (timestamps (start_stream c start) ns).0
unfolding timestamps start_stream
timestamps-Increasing c start [] p v r h = tt
timestamps-Increasing c start (n ∷ ns) p v r h =
    let s = start_stream c start in
    let first : Clock = record s {
      video_ts_frame_num_set = true;
      last_video_ts_frame_num = n;
      video_frame_index = 0;
    } in
    let one = mul-le 1 c.frame_interval_ns (suc (length ns) * 32768) (omega arith) in
    let two =
      mul-le (length ns * 32768) (suc (length ns) * 32768) c.frame_interval_ns (omega arith) in
    let running : IsRunning first (length ns) = record {
      started = refl;
      start = p;
      interval = v;
      room = omega arith;
      index = omega (arith, one, r);
    } in
    rw (calculate-count_frame s n refl p) (
      rw (count_frame-first s n refl) (
        omega (arith, timestamp_at-exact first 0 (omega (arith, r))),
        Increasing-behind ns first running (record { set = refl; last = h.0 }) h.1,
      ))

-- A started stream whose timestamps have room for one more frame at any interval up to this one.
pub record HasRoom (c : Clock) (interval : ℕ) : Type 0 where
  pub started : c.stream_start_set ≡ true
  pub start : 0 < c.stream_start_ns
  pub last : c.last_video_ts_frame_num < 2 ^ 16
  pub slow : 0 < interval
  pub at_most : c.frame_interval_ns ≤ interval
  pub room : c.stream_start_ns + (c.video_frame_index + 32768) * interval < 2 ^ 64

positive :
    (c : Clock) (i interval bound : ℕ)
    → 0 < c.stream_start_ns
    → i ≤ bound
    → c.frame_interval_ns ≤ interval
    → c.stream_start_ns + bound * interval < 2 ^ 64
    → 0 < timestamp_at c i
positive c i interval bound p h k r =
    let le = mul-le i bound interval h in
    let le' = mul_mono i c.frame_interval_ns interval k in
    omega (arith, timestamp_at-exact c i (omega (arith, le, le', r)), p)

-- Such a stream has no frame without a timestamp.
pub calculate-positive :
    (c : Clock) (n interval : ℕ)
    → n < 2 ^ 16
    → HasRoom c interval
    → 0 < (calculate_ideal_timestamp c n).0
calculate-positive c n interval h r =
    let one = mul-le 1 interval (c.video_frame_index + 32768) r.slow in
    rw (calculate-count_frame c n r.started r.start) (elim (Bool-cases c.video_ts_frame_num_set) [
      | inl s ↦
          let d = count_frame-Counted c n h r.last s (omega (arith, one, r.room)) in
          positive (count_frame c n) (count_frame c n).video_frame_index interval
            (c.video_frame_index + 32768) (omega (arith, d.same_start, r.start)) d.at_most
            (omega (arith, d.same_interval, r.at_most)) (rw d.same_start r.room)
      | inr s ↦ rw (count_frame-first c n s) (
          positive _ 0 interval (c.video_frame_index + 32768) r.start (omega arith) r.at_most
            r.room)
    ])
