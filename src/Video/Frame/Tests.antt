-- ===== src/Video/Frame/Tests.antt =====
-- A frame of 240 lines, number 7, whose last packet comes first and whose first one comes twice.
use c64stream.Base.{
  ℕ, zero, suc, ◌+◌, ◌*◌, ◌<◌, ◌≤◌, ◌≡◌, refl, ap, true, false, false≢true, List, [], ◌∷◌, arith,
  inl, inr, ◌∙◌,
}
use c64stream.Base.Bools.{◌==◌, if◌then◌else◌, Bool-cases, if-either, if-eq_of_true, if-eq_of_false}
use c64stream.Base.Lists.{All, length, replicate}
use c64stream.Video.Color.{build_lut}
use c64stream.Video.Color.Convert.{color_at}
use c64stream.Video.Assemble.{line_data, pixels_per_line}
use c64stream.Video.Render.{Context, Submitted, Standard, init_frame_assembly}
use c64stream.Video.Frame.{
  process_video_packet, process_all, packet_of, pal_interval, index_of, video_packet_size,
}
use c64stream.Video.Frame.Slots.{is_filled}
use c64stream.Video.Frame.Parts.{IsPart}
use c64stream.Video.Frame.Complete.{Arrival, first_of}
use c64stream.Video.Frame.Ready.{IsReady}
use c64stream.Video.Frame.Whole.{frame_is_rendered}

-- Packet `i` of frame `n`, all its pixels of colour 1.
abbrev packet : ℕ → ℕ → List ℕ
packet n i =
    0
    ∷ 0
    ∷ n
    ∷ 0
    ∷ 4 * i
    ∷ (if i == 59 then 128 else 0)
    ∷ 128
    ∷ 1
    ∷ 4
    ∷ 4
    ∷ 0
    ∷ 0
    ∷ replicate 768 0x11

length-replicate : (n x : ℕ) → length (replicate n x) ≡ n
length-replicate zero x = refl
length-replicate (suc n) x = ap suc (length-replicate n x)

replicate-bytes : (n : ℕ) → All (λ b. b < 256) (replicate n 0x11)
replicate-bytes zero = tt
replicate-bytes (suc n) = (omega arith, replicate-bytes n)

length-packet : (n i : ℕ) → length (packet n i) ≡ video_packet_size
length-packet n i = omega (arith, length-replicate 768 0x11)

packet-IsPart : (i : ℕ) → i < 60 → IsPart 7 60 (packet 7 i)
packet-IsPart i h = record {
  size = length-packet 7 i;
  bytes = (
    omega arith,
    (
      omega arith,
      (
        omega arith,
        (
          omega arith,
          (
            omega arith,
            (
              ground arith,
              (
                omega arith,
                (
                  omega arith,
                  (omega arith, (omega arith, (omega arith, (omega arith, replicate-bytes 768)))),
                ),
              ),
            ),
          ),
        ),
      ),
    ),
  );
  frame = refl;
  lines = refl;
  line = ground arith;
  inside = ground arith;
  last = ground arith;
}

packet-index : (i : ℕ) → i < 60 → index_of (packet 7 i) ≡ i
packet-index i h = ground arith

-- The packets below `k`, the last one first.
abbrev descending : ℕ → List Arrival
descending zero = []
descending (suc k) = (packet 7 k, 1000, 1000) ∷ descending k

descending-parts : (k : ℕ) → k ≤ 60 → All (λ a. IsPart 7 60 a.0) (descending k)
descending-parts zero h = tt
descending-parts (suc k) h = (packet-IsPart k (omega arith), descending-parts k (omega arith))

descending-filled : (k i : ℕ) → k ≤ 60 → i < k → is_filled (first_of (descending k) i) ≡ true
descending-filled zero i h l = absurd (omega (arith, l))
descending-filled (suc k) i h l =
    let e = packet-index k (omega arith) in
    elim (Bool-cases (i == index_of (packet 7 k))) [
      | inl b ↦ ap is_filled (if-eq_of_true _ _ b)
      | inr b ↦
          ap is_filled (if-eq_of_false _ _ b)
          ∙ descending-filled k i (omega arith) (ground (arith, e))
    ]

abbrev palette : List ℕ
palette = 10 ∷ 11 ∷ []

abbrev started : Context
started = record {
  current_frame = init_frame_assembly 7 1000;
  last_completed_frame = 6;
  clock = record {
    stream_start_set = true;
    stream_start_ns = 1000;
    video_ts_frame_num_set = true;
    last_video_ts_frame_num = 6;
    video_frame_index = 3;
    frame_interval_ns = pal_interval;
  };
  color_lut = record { palette = palette; lut = build_lut palette };
  frame_buffer = λ i. 0;
  width = 384;
  height = 272;
  format_detected = false;
  detected_frame_height = 0;
  standard = Standard.pal;
  audio_interval_ns = 0;
  last_capture_time = 0;
  frames_expected = 0;
  frames_captured = 1;
  frames_completed = 0;
  frames_delivered_to_obs = 0;
  video_frames_processed = 0;
  total_pipeline_latency = 0;
  frame_drops = 0;
  packet_drops = 0;
  last_video_ts_ns = 0;
  submitted = [];
}

started-IsReady : IsReady 7 palette started
started-IsReady = record {
  start_time = 1000;
  fresh = refl;
  number = omega arith;
  other = λ e. absurd (omega (arith, e));
  clock = record {
    started = refl;
    start = omega arith;
    last = omega arith;
    slow = omega arith;
    at_most = omega arith;
    room = omega arith;
  };
  height = λ e. absurd (false≢true e);
  lut = refl;
  colors = (omega arith, (omega arith, tt));
}

abbrev arrivals : List Arrival
arrivals = (packet 7 59, 1000, 1000) ∷ (packet 7 0, 1000, 1000) ∷ descending 60

repeated-filled :
    (k : ℕ) (rest : List Arrival) (i : ℕ)
    → is_filled (first_of rest i) ≡ true
    → is_filled (first_of ((packet 7 k, 1000, 1000) ∷ rest) i) ≡ true
repeated-filled k rest i h = if-either (λ o. is_filled o ≡ true) (i == index_of (packet 7 k)) refl h

arrivals-filled : (i : ℕ) → i < 60 → is_filled (first_of arrivals i) ≡ true
arrivals-filled i h =
    repeated-filled 59 ((packet 7 0, 1000, 1000) ∷ descending 60) i
      (repeated-filled 0 (descending 60) i (descending-filled 60 i (omega arith) h))

frame_is_rendered_example :
    let after = process_video_packet (process_all started arrivals) (packet 8 0) 2000 2000 in
    (out : Submitted) × (after.submitted ≡ out ∷ [])
    × (after.last_completed_frame ≡ 7)
    × (out.number ≡ 7)
    × (0 < out.timestamp)
    × (out.pixels (5 * pixels_per_line + 9)
        ≡ color_at palette (line_data (packet_of (packet 7 1)) 1) 9)
frame_is_rendered_example =
    frame_is_rendered 7 60 palette started arrivals (packet 8 0) 2000 2000 5 9 (packet 7 1)
      (omega arith, omega arith) started-IsReady
      (
        packet-IsPart 59 (omega arith),
        (packet-IsPart 0 (omega arith), descending-parts 60 (omega arith)),
      )
      arrivals-filled (length-packet 8 0) (λ e. absurd (omega (arith, e))) (omega arith)
      (omega arith) refl
