-- ===== src/Video/Assemble.antt =====
-- src/video/c64-video.c: a picture from the packets of a frame, lines that are missing filled in.
-- The log is not modelled. A byte behind the end of a packet's data reads as zero; packets have
-- their four lines, which stage two makes sure of, so that there is none.
pub mod Picture
pub mod Lines
pub mod Counts
pub mod Interpolate
pub mod Shown
mod Tests
use c64stream.Base.{
  ℕ, zero, suc, ◌+◌, ◌-◌, ◌*◌, Bool, true, false, ◌&&◌, Option, none, some, List, [], ◌∷◌,
}
use c64stream.Base.Bools.{◌==◌, ltb, leb, if◌then◌else◌}
use c64stream.Base.Lists.{get_or}
use c64stream.Video.Color.{Pixels, convert_pixels}

abbrev pub pixels_per_line : ℕ
pixels_per_line = 384

abbrev pub bytes_per_line : ℕ
bytes_per_line = 192

abbrev pub max_height : ℕ
max_height = 272

pub record FramePacket : Type 0 where
  pub line_num : ℕ
  pub lines_per_packet : ℕ
  pub packet_data : List ℕ
  pub received : Bool

-- The frame buffer and the locals of the first pass.
pub record Assembly : Type 0 where
  pub frame_buffer : Pixels
  pub line_written : ℕ → Bool
  pub lines_written_count : ℕ

abbrev pub line_data : FramePacket → ℕ → ℕ → ℕ
line_data packet line i = get_or packet.packet_data (line * bytes_per_line + i) 0

abbrev pub set_line : (ℕ → Bool) → ℕ → ℕ → Bool
set_line written line l = if l == line then true else written l

unfoldable pub assemble_line : List ℕ → FramePacket → ℕ → Assembly → Assembly
assemble_line lut packet line s =
    let current = packet.line_num + line in
    let converted = record s {
      frame_buffer =
          convert_pixels lut (line_data packet line) (current * pixels_per_line) bytes_per_line
            s.frame_buffer;
    } in
    if s.line_written current then converted else record converted {
      line_written = set_line s.line_written current;
      lines_written_count = s.lines_written_count + 1;
    }

-- `n` lines of the packet from `line` on, down to the end of the frame.
unfoldable pub assemble_lines : List ℕ → ℕ → FramePacket → ℕ → ℕ → Assembly → Assembly
assemble_lines lut height packet zero line s = s
assemble_lines lut height packet (suc n) line s =
    let rest = assemble_lines lut height packet n (line + 1) (assemble_line lut packet line s) in
    if ltb (packet.line_num + line) height then rest else s

unfoldable pub assemble_packets : List ℕ → ℕ → List FramePacket → Assembly → Assembly
unfolding assemble_lines
assemble_packets lut height [] s = s
assemble_packets lut height (p ∷ ps) s =
    assemble_packets lut height ps
      (if p.received then assemble_lines lut height p p.lines_per_packet 0 s else s)

-- `memcpy` of one line to another.
unfoldable pub copy_line : Pixels → ℕ → ℕ → Pixels
copy_line buffer from to = λ i.
    if leb (to * pixels_per_line) i && ltb i (to * pixels_per_line + pixels_per_line)
    then buffer (from * pixels_per_line + (i - to * pixels_per_line))
    else buffer i

-- `have_last_valid ? last_valid_line : 0`
abbrev pub source_of : Option ℕ → ℕ
source_of none = 0
source_of (some l) = l

-- The second pass over `n` lines from `line` on; `last` is the last valid line, if there is one.
unfoldable pub interpolate : (ℕ → Bool) → ℕ → ℕ → Option ℕ → Pixels → Pixels
unfolding copy_line
interpolate written zero line last buffer = buffer
interpolate written (suc n) line last buffer =
    let valid = interpolate written n (line + 1) (some line) buffer in
    let copied = interpolate written n (line + 1) last (copy_line buffer (source_of last) line) in
    if written line then valid else copied

-- The frame buffer behind the call.
unfoldable pub assemble_frame : List ℕ → ℕ → List FramePacket → Pixels → Pixels
unfolding assemble_packets interpolate
assemble_frame lut height packets buffer =
    let s =
      assemble_packets lut height packets
        record { frame_buffer = buffer; line_written = λ l. false; lines_written_count = 0 } in
    if ltb max_height height
    then buffer
    else if s.lines_written_count == height
    then s.frame_buffer
    else interpolate s.line_written height 0 none s.frame_buffer
