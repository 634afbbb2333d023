-- ===== src/Video/Assemble/Tests.antt =====
-- A frame of three lines of which one came.
use c64stream.Base.{◌≡◌, ◌+◌, ◌*◌, ℕ, true, false, List, [], ◌∷◌, arith}
use c64stream.Video.Color.{Pixels, build_lut}
use c64stream.Video.Assemble.{FramePacket, assemble_frame, pixels_per_line}
use c64stream.Video.Assemble.Picture.{received_line, line_above, pixel_or}
use c64stream.Video.Assemble.Shown.{assemble_frame-picture}

abbrev palette : List ℕ
palette = 10 ∷ 11 ∷ 12 ∷ 13 ∷ []

abbrev packets : List FramePacket
packets =
    record { line_num = 1; lines_per_packet = 1; packet_data = 0x10 ∷ 0x32 ∷ []; received = true }
    ∷ record { line_num = 2; lines_per_packet = 1; packet_data = 0x33 ∷ []; received = false }
    ∷ []

abbrev old : Pixels
old i = i

-- The line below the one that came shows it too.
assemble_frame-picture_example :
    let buffer = assemble_frame (build_lut palette) 3 packets old in
    (buffer (2 * pixels_per_line + 1)
      ≡ pixel_or (line_above (received_line palette packets) 3) (old 1) 1)
    × (buffer 2000 ≡ old 2000)
assemble_frame-picture_example =
    assemble_frame-picture palette 3 packets old 2 1 2000
      (omega arith, (omega arith, (omega arith, (omega arith, tt))))
      ((omega arith, (omega arith, tt)), ((omega arith, tt), tt)) (omega arith) (omega arith)
      (omega arith) (omega arith)
