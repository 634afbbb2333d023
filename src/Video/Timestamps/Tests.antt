-- ===== src/Video/Timestamps/Tests.antt =====
-- Timestamps of PAL and NTSC frames.
use c64stream.Base.{◌+◌, ◌-◌, ◌*◌, ◌%◌, ◌^◌, ◌<◌, ◌≡◌, true, false, [], ◌∷◌, map, arith}
use c64stream.Video.Timestamps.{
  Clock, timestamps, calculate_ideal_timestamp, count_frame, frame_diff, wrap_diff, timestamp_at,
  start_stream, has_no_start,
}
use c64stream.Video.Timestamps.Order.{Increasing, timestamps-Increasing}
use c64stream.Video.Timestamps.Counter.{timestamps-exact}

abbrev pal : Clock
pal = record {
  stream_start_set = false;
  stream_start_ns = 0;
  video_ts_frame_num_set = false;
  last_video_ts_frame_num = 0;
  video_frame_index = 0;
  frame_interval_ns = 19950125;
}

-- One frame is lost, the numbers wrap round, one frame comes twice.
timestamps-Increasing_example :
    Increasing 0 (timestamps (start_stream pal 1000) (65534 ∷ 0 ∷ 0 ∷ 1 ∷ [])).0
timestamps-Increasing_example =
    timestamps-Increasing pal 1000 (65534 ∷ 0 ∷ 0 ∷ 1 ∷ []) (omega arith) (omega arith)
      (omega arith) (omega arith, (omega arith, (omega arith, (omega arith, tt))))

timestamps-exact_example :
    (timestamps (start_stream pal 1000) (map (λ m. m % 2 ^ 16) (65534 ∷ 65536 ∷ 65537 ∷ []))).0
    ≡ map (λ k. 1000 + (k - 65534) * 19950125) (65534 ∷ 65536 ∷ 65537 ∷ [])
timestamps-exact_example =
    timestamps-exact pal 1000 65534 (65536 ∷ 65537 ∷ []) (omega arith) (omega arith)
      (omega arith, omega arith, (omega arith, omega arith, tt)) (omega arith)

abbrev behind_1000 : Clock
behind_1000 = record pal {
  stream_start_set = true;
  stream_start_ns = 1000;
  video_ts_frame_num_set = true;
  last_video_ts_frame_num = 1000;
  video_frame_index = 1000;
}

abbrev behind_1000_ntsc : Clock
behind_1000_ntsc = record behind_1000 { frame_interval_ns = 16715141 }

-- The interval of the other format counts for the frames before it too: the next frame is due
-- more than three seconds before the last one.
format_change_goes_back :
    (calculate_ideal_timestamp behind_1000_ntsc 1001).0 + 3000000000
    < timestamp_at behind_1000 behind_1000.video_frame_index
unfolding calculate_ideal_timestamp count_frame frame_diff wrap_diff timestamp_at has_no_start
format_change_goes_back = omega arith
