-- ===== src/Video/Assemble/Shown.antt =====
-- Both passes of the assembly together.
use c64stream.Base.{
  ℕ, suc, ◌+◌, ◌*◌, ◌^◌, ◌≤◌, ◌<◌, ◌≡◌, ◌∙◌, refl, ap, sym, false, none, List, arith,
}
use c64stream.Base.Bools.{◌==◌, ltb, if-split}
use c64stream.Base.Lists.{All}
use c64stream.Video.Color.{Pixels, build_lut}
use c64stream.Video.Assemble.{
  FramePacket, Assembly, pixels_per_line, max_height, assemble_packets, assemble_frame,
}
use c64stream.Video.Assemble.Picture.{Line, received_line, line_above, pixel_or}
use c64stream.Video.Assemble.Lines.{assemble_packets-Shows}
use c64stream.Video.Assemble.Counts.{Shows, HasBytes, count-all, count-most, ==→eq}
use c64stream.Video.Assemble.Interpolate.{line_above-known, known-some, Filled, interpolate-Filled}

-- Each pixel of a frame is that of the line as the last packet that covers it has it, or else of the
-- nearest line above that some packet covers, or else what the top line showed before.
abbrev pub ShowsFrame : List ℕ → ℕ → List FramePacket → Pixels → Pixels → Type 0
ShowsFrame palette height ps old buffer =
    ((row column : ℕ)
      → row < height
      → column < pixels_per_line
      → buffer (row * pixels_per_line + column)
        ≡ pixel_or (line_above (received_line palette ps) (suc row)) (old column) column)
    × ((j : ℕ) → height * pixels_per_line ≤ j → buffer j ≡ old j)

module _ (height : ℕ) (old : Pixels) (lines : ℕ → Line) (s : Assembly)
    (now : Shows height old lines s) where
  all_written-shown :
      (row column : ℕ)
      → s.lines_written_count ≡ height
      → row < height
      → column < pixels_per_line
      → s.frame_buffer (row * pixels_per_line + column)
        ≡ pixel_or (line_above lines (suc row)) (old column) column
  all_written-shown row column e h k =
      let w = count-all s.line_written height row (sym now.count ∙ e) h in
      let (known, q) = known-some (lines row) (sym (now.written row h) ∙ w) in
      now.pixels row column h k
      ∙ ap (λ x. pixel_or x (old (row * pixels_per_line + column)) column) q
      ∙ sym (ap (λ x. pixel_or x (old column) column) (line_above-known lines row known q))

  start-Filled : ¬ (s.lines_written_count ≡ height) → Filled height old lines s now 0 s.frame_buffer
  start-Filled ne = record {
    done = λ r c l k. absurd (omega (arith, l));
    rest = λ j l. refl;
    first = λ c k.
        ap s.frame_buffer (omega arith)
        ∙ now.pixels 0 c (omega (arith, ne, now.count, count-most s.line_written height)) k
        ∙ ap (λ x. pixel_or (lines 0) (old x) c) (omega arith);
  }

pub assemble_frame-ShowsFrame :
    (palette : List ℕ) (height : ℕ) (ps : List FramePacket) (old : Pixels)
    → All (λ c. c < 2 ^ 32) palette
    → All HasBytes ps
    → height ≤ max_height
    → ShowsFrame palette height ps old (assemble_frame (build_lut palette) height ps old)
unfolding assemble_frame
assemble_frame-ShowsFrame palette height ps old colors bytes h =
    let lines = received_line palette ps in
    let now = assemble_packets-Shows palette colors height old ps bytes in
    let s =
      assemble_packets (build_lut palette) height ps
        record { frame_buffer = old; line_written = λ l. false; lines_written_count = 0 } in
    if-split (λ (b : Pixels). ShowsFrame palette height ps old b) (ltb max_height height)
      (λ l. absurd (ground arith))
      (λ l.
        if-split (λ (b : Pixels). ShowsFrame palette height ps old b)
          (s.lines_written_count == height)
          (λ e. (
            λ row column.
                all_written-shown height old lines s now row column
                  (==→eq s.lines_written_count height e),
            now.outside,
          ))
          (λ e.
            let f =
              interpolate-Filled height old lines s now height 0 none s.frame_buffer (omega arith)
                refl (start-Filled height old lines s now (ground arith)) in
            (f.done, λ j k. f.rest j k ∙ now.outside j k)))

-- Whatever packets a frame of at most 272 lines has received, behind the call each of its pixels
-- has the colour of the palette for its half of a byte, of the line as the last packet in the frame
-- that covers it has it, or else of the nearest line above that some packet covers, or else it shows
-- what the top line showed before; the buffer below the frame is as before. The palette's colours
-- have 32 bits and the packets' data is bytes.
pub assemble_frame-picture :
    (palette : List ℕ) (height : ℕ) (ps : List FramePacket) (old : Pixels) (row column below : ℕ)
    → All (λ c. c < 2 ^ 32) palette
    → All HasBytes ps
    → height ≤ max_height
    → row < height
    → column < pixels_per_line
    → height * pixels_per_line ≤ below
    → let buffer = assemble_frame (build_lut palette) height ps old in
      (buffer (row * pixels_per_line + column)
        ≡ pixel_or (line_above (received_line palette ps) (suc row)) (old column) column)
      × (buffer below ≡ old below)
assemble_frame-picture palette height ps old row column below colors bytes h r k b =
    let shows = assemble_frame-ShowsFrame palette height ps old colors bytes h in
    (shows.0 row column r k, shows.1 below b)
