-- ===== src/Video/Frame/Parts.antt =====
-- The packets of a frame, and what is kept while they are collected.
use c64stream.Base.{ℕ, ◌+◌, ◌*◌, ◌≤◌, ◌<◌, ◌≡◌, Bool, true, List}
use c64stream.Base.Bools.{◌==◌, if◌then◌else◌}
use c64stream.Base.Lists.{All, length, get_or}
use c64stream.Video.Render.{Context, max_packets, no_packet}
use c64stream.Video.Frame.{
  video_packet_size, frame_num_of, line_num_of, is_last, lines_of, index_of, pal_interval,
}
use c64stream.Video.Frame.Slots.{Slots, slot_packet, count_slots}

-- A packet of frame `n`, which has `count` packets of four lines.
pub record IsPart (n count : ℕ) (p : List ℕ) : Type 0 where
  pub size : length p ≡ video_packet_size
  pub bytes : All (λ b. b < 256) p
  pub frame : frame_num_of p ≡ n
  pub lines : lines_of p ≡ 4
  pub line : line_num_of p ≡ 4 * index_of p
  pub inside : index_of p < count
  pub last : is_last p ≡ (index_of p + 1 == count)

-- Frames of 240 to 272 lines.
abbrev pub IsHeight : ℕ → Type 0
IsHeight count = (60 ≤ count) × (count ≤ max_packets)

-- The frame's packets are those in the slots.
pub record Holds (n : ℕ) (slots : Slots) (c : Context) : Type 0 where
  pub number : c.current_frame.frame_num ≡ n
  pub size : length c.current_frame.packets ≡ max_packets
  pub slot :
      (i : ℕ) → i < max_packets → get_or c.current_frame.packets i no_packet ≡ slot_packet (slots i)
  pub received : c.current_frame.received_packets ≡ count_slots slots max_packets

-- What stays as it was in `c₀`, and what is known once the last packet was there (`ended`).
pub record Rests (count : ℕ) (ended : Bool) (c₀ c : Context) : Type 0 where
  pub completed : c.last_completed_frame ≡ c₀.last_completed_frame
  pub submitted : c.submitted ≡ c₀.submitted
  pub lut : c.color_lut ≡ c₀.color_lut
  pub start_set : c.clock.stream_start_set ≡ c₀.clock.stream_start_set
  pub start : c.clock.stream_start_ns ≡ c₀.clock.stream_start_ns
  pub set : c.clock.video_ts_frame_num_set ≡ c₀.clock.video_ts_frame_num_set
  pub index : c.clock.video_frame_index ≡ c₀.clock.video_frame_index
  pub last_number : c.clock.last_video_ts_frame_num ≡ c₀.clock.last_video_ts_frame_num
  pub interval : c.clock.frame_interval_ns ≤ pal_interval
  pub height : c.format_detected ≡ true → c.height ≡ c.detected_frame_height
  pub expected : c.current_frame.expected_packets ≡ (if ended then count else 0)
  pub tall : ended ≡ true → (c.format_detected ≡ true) × (c.detected_frame_height ≡ 4 * count)
