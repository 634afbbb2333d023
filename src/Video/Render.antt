-- ===== src/Video/Render.antt =====
-- src/video/c64-video.c and src/util/c64-types.h: the frame that is put together, and its rendering.
-- The reads of the clock in a call agree. Left out are the log, the probes for markers, the
-- recording, what measures a device switch, and the afterglow: frames are given out as they are.
use c64stream.Base.{ℕ, ◌+◌, ◌/◌, Bool, true, false, not, ◌&&◌, List, [], ◌∷◌}
use c64stream.Base.Bools.{◌==◌, ltb, leb, if◌then◌else◌}
use c64stream.Base.Lists.{replicate}
use c64stream.Base.Words.{add32, sub64}
use c64stream.Video.Color.{Pixels, ColorLut, lut_snapshot}
use c64stream.Video.Assemble.{FramePacket, assemble_frame}
use c64stream.Video.Timestamps.{Clock, calculate_ideal_timestamp}

abbrev pub max_packets : ℕ
max_packets = 68

abbrev pub frame_timeout_ms : ℕ
frame_timeout_ms = 100

-- `packets_received_mask` is written by code only that nothing calls.
pub record FrameAssembly : Type 0 where
  pub frame_num : ℕ
  pub packets : List FramePacket
  pub received_packets : ℕ
  pub expected_packets : ℕ
  pub complete : Bool
  pub start_time : ℕ
  pub last_packet_time : ℕ

-- Stands for the frame rate, the audio rate and the preference for the logo, which are set together.
pub data Standard : Type 0 where
  pal ntsc : Standard

-- What OBS Studio is given: the frame's number, its timestamp and its pixels.
pub record Submitted : Type 0 where
  pub number : ℕ
  pub timestamp : ℕ
  pub pixels : Pixels

-- The fields of `struct c64_source` that the code reads and writes; `submitted`, newest first, is
-- what was given to OBS Studio.
pub record Context : Type 0 where
  pub current_frame : FrameAssembly
  pub last_completed_frame : ℕ
  pub clock : Clock
  pub color_lut : ColorLut
  pub frame_buffer : Pixels
  pub width : ℕ
  pub height : ℕ
  pub format_detected : Bool
  pub detected_frame_height : ℕ
  pub standard : Standard
  pub audio_interval_ns : ℕ
  pub last_capture_time : ℕ
  pub frames_expected : ℕ
  pub frames_captured : ℕ
  pub frames_completed : ℕ
  pub frames_delivered_to_obs : ℕ
  pub video_frames_processed : ℕ
  pub total_pipeline_latency : ℕ
  pub frame_drops : ℕ
  pub packet_drops : ℕ
  pub last_video_ts_ns : ℕ
  pub submitted : List Submitted

abbrev pub no_packet : FramePacket
no_packet = record { line_num = 0; lines_per_packet = 0; packet_data = []; received = false }

unfoldable pub init_frame_assembly : ℕ → ℕ → FrameAssembly
init_frame_assembly frame_num now = record {
  frame_num = frame_num;
  packets = replicate max_packets no_packet;
  received_packets = 0;
  expected_packets = 0;
  complete = false;
  start_time = now;
  last_packet_time = 0;
}

-- The mark that the call leaves in a complete frame is `mark_complete`.
unfoldable pub is_frame_complete : FrameAssembly → Bool
is_frame_complete frame =
    not (frame.expected_packets == 0) && leb frame.expected_packets frame.received_packets

unfoldable pub mark_complete : FrameAssembly → FrameAssembly
unfolding is_frame_complete
mark_complete frame = if is_frame_complete frame then record frame { complete = true } else frame

unfoldable pub is_frame_timeout : FrameAssembly → ℕ → Bool
is_frame_timeout frame now = ltb frame_timeout_ms (sub64 now frame.start_time / 1000000)

-- `c64_render_frame_direct` at the current frame.
unfoldable pub render_frame_direct : Context → Context
render_frame_direct c =
    let buffer =
      assemble_frame (lut_snapshot c.color_lut) c.height c.current_frame.packets c.frame_buffer in
    let (timestamp, clock) = calculate_ideal_timestamp c.clock c.current_frame.frame_num in
    let assembled = record c { frame_buffer = buffer; clock = clock } in
    if timestamp == 0 then assembled else record assembled {
      submitted =
          record { number = c.current_frame.frame_num; timestamp = timestamp; pixels = buffer }
          ∷ c.submitted;
      last_video_ts_ns = timestamp;
      frames_delivered_to_obs = add32 c.frames_delivered_to_obs 1;
      video_frames_processed = c.video_frames_processed + 1;
    }
