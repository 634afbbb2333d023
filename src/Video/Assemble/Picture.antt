-- ===== src/Video/Assemble/Picture.antt =====
-- What a frame is meant to show, said by its packets alone.
use c64stream.Base.{ℕ, zero, suc, ◌+◌, ◌-◌, Bool, ◌&&◌, Option, none, some, List, [], ◌∷◌}
use c64stream.Base.Bools.{ltb, leb, if◌then◌else◌}
use c64stream.Video.Color.Convert.{color_at}
use c64stream.Video.Assemble.{FramePacket, line_data}

-- The pixels of a line, if it is known.
abbrev pub Line : Type 0
Line = Option (ℕ → ℕ)

abbrev pub covers : FramePacket → ℕ → Bool
covers p row = p.received && (leb p.line_num row && ltb row (p.line_num + p.lines_per_packet))

abbrev pub line_of : List ℕ → FramePacket → ℕ → ℕ → ℕ
line_of palette p row = color_at palette (line_data p (row - p.line_num))

-- The line as the last packet that covers it has it.
abbrev pub received_line : List ℕ → List FramePacket → ℕ → Line
received_line palette [] row = none
received_line palette (p ∷ ps) row = elim (received_line palette ps row) [
  | some line ↦ some line
  | none ↦ if covers p row then some (line_of palette p row) else none
]

-- The nearest line above `row` that is known.
abbrev pub line_above : (ℕ → Line) → ℕ → Line
line_above lines zero = none
line_above lines (suc row) = elim (lines row) [
  | some line ↦ some line
  | none ↦ line_above lines row
]

abbrev pub pixel_or : Line → ℕ → ℕ → ℕ
pixel_or none old column = old
pixel_or (some line) old column = line column
