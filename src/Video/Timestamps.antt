-- ===== src/Video/Timestamps.antt =====
-- src/video/c64-video.c: the timestamps of the frames, from the start of the stream and the 16-bit
-- frame numbers. The context is not null; the log is not modelled.
pub mod Order
pub mod Counter
mod Tests
use c64stream.Base.{ℕ, ◌+◌, ◌*◌, ◌%◌, ◌^◌, Bool, true, false, not, ◌||◌, List, [], ◌∷◌}
use c64stream.Base.Bools.{◌==◌, ltb, if◌then◌else◌}
use c64stream.Base.Int.{ℤ, pos, negsuc, sub_ℕ, pos_part, ltb_ℤ}
use c64stream.Base.Words.{add64}

-- The fields of `struct c64_source` that the timestamps are made from.
pub record Clock : Type 0 where
  pub stream_start_set : Bool
  pub stream_start_ns : ℕ
  pub video_ts_frame_num_set : Bool
  pub last_video_ts_frame_num : ℕ
  pub video_frame_index : ℕ
  pub frame_interval_ns : ℕ

-- A start, and the reset of the counters that goes with it.
unfoldable pub start_stream : Clock → ℕ → Clock
start_stream c start = record c {
  stream_start_set = true;
  stream_start_ns = start;
  video_ts_frame_num_set = false;
  last_video_ts_frame_num = 0;
  video_frame_index = 0;
}

-- `c64_try_init_stream_start_ns` at the time of a packet; `delay_ms` is zero without a buffer.
unfoldable pub try_init_stream_start : Clock → ℕ → ℕ → Clock
unfolding start_stream
try_init_stream_start c packet_time_ns delay_ms =
    if c.stream_start_set then c else start_stream c (add64 packet_time_ns (delay_ms * 1000000))

-- The difference of two frame numbers, the short way round.
unfoldable pub wrap_diff : ℤ → ℤ
wrap_diff (pos d) = if ltb 32768 d then sub_ℕ d 65536 else pos d
wrap_diff (negsuc d) = if ltb 32767 d then sub_ℕ 65535 d else negsuc d

unfoldable pub frame_diff : ℕ → ℕ → ℤ
unfolding wrap_diff
frame_diff frame_num last = wrap_diff (sub_ℕ frame_num last)

has_no_start : Clock → Bool
has_no_start c = not c.stream_start_set || c.stream_start_ns == 0

unfoldable pub timestamp_at : Clock → ℕ → ℕ
timestamp_at c index = add64 c.stream_start_ns ((index * c.frame_interval_ns) % 2 ^ 64)

-- The counter of frames once the frame with this number is submitted.
unfoldable pub count_frame : Clock → ℕ → Clock
unfolding frame_diff
count_frame c frame_num =
    if not c.video_ts_frame_num_set
    then record c {
      last_video_ts_frame_num = frame_num;
      video_ts_frame_num_set = true;
      video_frame_index = 0;
    }
    else let d = frame_diff frame_num c.last_video_ts_frame_num in
      if ltb_ℤ (pos 0) d
      then record c {
        video_frame_index = add64 c.video_frame_index (pos_part d);
        last_video_ts_frame_num = frame_num;
      }
      else record c { video_frame_index = add64 c.video_frame_index 1 }

-- The timestamp, zero before the stream has started, and the clock as the call leaves it.
unfoldable pub calculate_ideal_timestamp : Clock → ℕ → ℕ × Clock
unfolding has_no_start timestamp_at count_frame
calculate_ideal_timestamp c frame_num =
    if has_no_start c
    then (0, c)
    else let counted = count_frame c frame_num in
      (timestamp_at counted counted.video_frame_index, counted)

-- The answer, `*out_frame_index` and `*out_timestamp_ns`; neither pointer is null.
unfoldable pub predict_video_timestamp : Clock → ℕ → Bool × ℕ × ℕ
unfolding has_no_start timestamp_at frame_diff
predict_video_timestamp c frame_num =
    if has_no_start c
    then (false, 0, 0)
    else let d = frame_diff frame_num c.last_video_ts_frame_num in
      let index =
        if not c.video_ts_frame_num_set
        then 0
        else add64 c.video_frame_index (if ltb_ℤ (pos 0) d then pos_part d else 1) in
      (true, index, timestamp_at c index)

-- The timestamps of the frames that are submitted one after the other, and the clock behind them.
unfoldable pub timestamps : Clock → List ℕ → List ℕ × Clock
unfolding calculate_ideal_timestamp
timestamps c [] = ([], c)
timestamps c (n ∷ ns) =
    let (ts, c') = calculate_ideal_timestamp c n in
    let (rest, last) = timestamps c' ns in (ts ∷ rest, last)
