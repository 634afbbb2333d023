-- ===== src/Video/Frame.antt =====
-- src/video/c64-video.c: a frame put together from the packets of the processor thread, and the one
-- before it completed when it begins.
pub mod Slots
pub mod Parts
pub mod Collect
pub mod Complete
pub mod Tiles
pub mod Rendered
pub mod Ready
pub mod Whole
mod Tests
use c64stream.Base.{
  ℕ, zero, suc, ◌+◌, ◌-◌, ◌*◌, ◌/◌, ◌%◌, ◌^◌, Bool, true, false, not, ◌&&◌, ◌||◌, List, [], ◌∷◌,
}
use c64stream.Base.Bools.{◌==◌, ltb, leb, if◌then◌else◌}
use c64stream.Base.Lists.{length, get_or, drop}
use c64stream.Base.Words.{add64, add32, sub64}
use c64stream.Network.Protocol.{clamp_frame_height, pal_height, ntsc_height, video_header_size}
use c64stream.Video.Assemble.{FramePacket, pixels_per_line}
use c64stream.Video.Render.{
  Context, FrameAssembly, Standard, pal, ntsc, max_packets, no_packet, init_frame_assembly,
  is_frame_complete, mark_complete, is_frame_timeout, render_frame_direct,
}

abbrev pub video_packet_size : ℕ
video_packet_size = 780

abbrev pub pal_interval : ℕ
pal_interval = 19950125

abbrev pub ntsc_interval : ℕ
ntsc_interval = 16715141

-- The header of a packet: little-endian words, and the last packet of a frame has the top bit of its
-- line number set.
abbrev pub word_at : List ℕ → ℕ → ℕ
word_at packet i = get_or packet i 0 + get_or packet (i + 1) 0 * 2 ^ 8

abbrev pub frame_num_of : List ℕ → ℕ
frame_num_of packet = word_at packet 2

abbrev pub line_num_of : List ℕ → ℕ
line_num_of packet = word_at packet 4 % 2 ^ 15

abbrev pub is_last : List ℕ → Bool
is_last packet = leb (2 ^ 15) (word_at packet 4)

abbrev pub lines_of : List ℕ → ℕ
lines_of packet = get_or packet 8 0

abbrev pub index_of : List ℕ → ℕ
index_of packet = line_num_of packet / lines_of packet

-- The previous frame is rendered if it is complete and was not before, dropped if it took too long.
unfoldable pub complete_previous : Context → ℕ → ℕ → Context
unfolding is_frame_timeout
complete_previous c capture_time now =
    let marked = record c { current_frame = mark_complete c.current_frame } in
    let rendered = render_frame_direct marked in
    if ltb 0 c.current_frame.received_packets
    then if is_frame_complete c.current_frame
      then if c.last_completed_frame == c.current_frame.frame_num then marked else record rendered {
        last_completed_frame = c.current_frame.frame_num;
        frames_completed = add32 c.frames_completed 1;
        total_pipeline_latency = add64 c.total_pipeline_latency (sub64 now capture_time);
      }
      else if is_frame_timeout c.current_frame now
      then record c { frame_drops = add32 c.frame_drops 1 }
      else c
    else c

-- A packet of another frame than the current one.
unfoldable pub begin_frame : Context → ℕ → ℕ → ℕ → Context
unfolding complete_previous
begin_frame c frame_num timestamp_ns now =
    let counted = record c {
      frames_expected =
          if ltb 0 c.last_capture_time then add32 c.frames_expected 1 else c.frames_expected;
      frames_captured = add32 c.frames_captured 1;
      last_capture_time = timestamp_ns;
    } in
    let previous = complete_previous counted timestamp_ns now in
    record previous { current_frame = init_frame_assembly frame_num now }

unfoldable pub set_packet : List FramePacket → ℕ → FramePacket → List FramePacket
set_packet [] i packet = []
set_packet (p ∷ ps) zero packet = packet ∷ ps
set_packet (p ∷ ps) (suc i) packet = p ∷ set_packet ps i packet

abbrev pub packet_of : List ℕ → FramePacket
packet_of packet = record {
  line_num = line_num_of packet;
  lines_per_packet = lines_of packet;
  packet_data = drop video_header_size packet;
  received = true;
}

unfoldable pub add_packet : Context → List ℕ → ℕ → Context
unfolding set_packet
add_packet c packet timestamp_ns =
    let index = index_of packet in
    let frame = c.current_frame in
    if ltb index max_packets
    then if (get_or frame.packets index no_packet).received then c else record c {
      current_frame = record frame {
        packets = set_packet frame.packets index (packet_of packet);
        received_packets = (frame.received_packets + 1) % 2 ^ 16;
        last_packet_time = timestamp_ns;
      };
    }
    else record c { packet_drops = add32 c.packet_drops 1 }

abbrev pub interval_of : Standard → ℕ
interval_of pal = pal_interval
interval_of ntsc = ntsc_interval

-- A height of neither standard counts as NTSC up to 250 lines.
abbrev pub standard_of : ℕ → Standard
standard_of height =
    if height == pal_height
    then pal
    else if height == ntsc_height
    then ntsc
    else if leb height 250
    then ntsc
    else pal

-- The format, the rates and the published size, if the height is new.
unfoldable pub detect_format : Context → ℕ → Context
detect_format c height =
    let standard = standard_of height in
    if not c.format_detected || not (c.detected_frame_height == height)
    then record c {
      detected_frame_height = height;
      format_detected = true;
      standard = standard;
      clock = record c.clock { frame_interval_ns = interval_of standard };
      audio_interval_ns = 0;
      width = if c.height == height then c.width else pixels_per_line;
      height = height;
    }
    else c

unfoldable pub end_of_frame : Context → List ℕ → Context
unfolding detect_format
end_of_frame c packet =
    let expected = record c {
      current_frame = record c.current_frame { expected_packets = (index_of packet + 1) % 2 ^ 16 };
    } in
    let height = line_num_of packet + lines_of packet in
    if is_last packet && c.current_frame.expected_packets == 0
    then if height == clamp_frame_height height
      then detect_format expected height
      else record expected { packet_drops = add32 c.packet_drops 1 }
    else c

-- Stage two passes on packets of four lines only, so that the index divides by no zero.
unfoldable pub process_video_packet : Context → List ℕ → ℕ → ℕ → Context
unfolding begin_frame add_packet end_of_frame
process_video_packet c packet timestamp_ns now =
    let begun =
      if c.current_frame.frame_num == frame_num_of packet
      then c
      else begin_frame c (frame_num_of packet) timestamp_ns now in
    if length packet == video_packet_size
    then end_of_frame (add_packet begun packet timestamp_ns) packet
    else c

-- Packets one after the other, each with the time that it came and the time that it is processed.
unfoldable pub process_all : Context → List (List ℕ × ℕ × ℕ) → Context
unfolding process_video_packet
process_all c [] = c
process_all c ((packet, timestamp_ns, now) ∷ rest) =
    process_all (process_video_packet c packet timestamp_ns now) rest

unfoldable pub handover_flush : Context → ℕ → Context
handover_flush c now = record c { current_frame = init_frame_assembly 0 now }
