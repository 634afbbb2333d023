-- ===== src/Video/Assemble/Lines.antt =====
-- The first pass: the lines that the packets bring.
use c64stream.Base.{
  ℕ, zero, suc, ◌+◌, ◌-◌, ◌*◌, ◌^◌, ◌<◌, ◌≡◌, ◌∙◌, inr, refl, ap, false, ◌&&◌, none, some, List, [],
  ◌∷◌, arith,
}
use c64stream.Base.Bools.{◌==◌, ltb, leb, if◌then◌else◌, ltb→lt, if-split}
use c64stream.Base.Lists.{All, get_or}
use c64stream.Video.Color.{Pixels, build_lut, convert_pixels}
use c64stream.Video.Color.Convert.{color_at, convert_pixels-Converted}
use c64stream.Video.Assemble.{
  FramePacket, Assembly, pixels_per_line, bytes_per_line, line_data, set_line, assemble_line,
  assemble_lines, assemble_packets,
}
use c64stream.Video.Assemble.Picture.{Line, covers, line_of, received_line, pixel_or}
use c64stream.Video.Assemble.Counts.{
  ==→eq, HasBytes, Shows, count-none, count-set_line, count_lines, is_known, keep, merge, put,
  range_start, range_step,
}

module _ (palette : List ℕ) (colors : All (λ c. c < 2 ^ 32) palette) (height : ℕ)
    (old : Pixels) where
  abbrev lut : List ℕ
  lut = build_lut palette

  get_or-byte : (xs : List ℕ) (i : ℕ) → All (λ b. b < 256) xs → get_or xs i 0 < 256
  get_or-byte [] i h = omega arith
  get_or-byte (x ∷ xs) zero h = h.0
  get_or-byte (x ∷ xs) (suc i) h = get_or-byte xs i h.1

  module _ (lines : ℕ → Line) (p : FramePacket) (bytes : HasBytes p) (line : ℕ) (s : Assembly)
      (now : Shows height old lines s) (inside : p.line_num + line < height) where
    abbrev row : ℕ
    row = p.line_num + line

    assemble_line-buffer :
        (assemble_line lut p line s).frame_buffer
        ≡ convert_pixels lut
            (line_data p line)
            (row * pixels_per_line)
            bytes_per_line
            s.frame_buffer
    unfolding assemble_line
    assemble_line-buffer = ground arith

    assemble_line-written :
        (r : ℕ) → (assemble_line lut p line s).line_written r ≡ set_line s.line_written row r
    unfolding assemble_line
    assemble_line-written r = ground arith

    assemble_line-count :
        (assemble_line lut p line s).lines_written_count
        ≡ count_lines (assemble_line lut p line s).line_written height
    unfolding assemble_line
    assemble_line-count =
        if-split (λ (a : Assembly). a.lines_written_count ≡ count_lines a.line_written height)
          (s.line_written row) (λ w. now.count)
          (λ w. omega (arith, now.count, count-set_line s.line_written row height inside w))

    assemble_line-Shows :
        Shows height old
          (put lines row (color_at palette (line_data p line)))
          (assemble_line lut p line s)
    assemble_line-Shows =
        let bytes' : (i : ℕ) → i < bytes_per_line → line_data p line i < 256 =
          λ i l. get_or-byte p.packet_data (line * bytes_per_line + i) bytes in
        let converted =
          convert_pixels-Converted palette (line_data p line) colors (row * pixels_per_line)
            bytes_per_line bytes' s.frame_buffer in
        let out =
          convert_pixels lut (line_data p line) (row * pixels_per_line) bytes_per_line
            s.frame_buffer in
        record {
          written = λ r h. assemble_line-written r ∙ grind (arith, now.written r h);
          pixels = λ r c h k.
              ap (λ b. b (r * pixels_per_line + c)) assemble_line-buffer
              ∙ if-split
                  (λ (l : Line).
                    out (r * pixels_per_line + c) ≡ pixel_or l (old (r * pixels_per_line + c)) c)
                  (r == row)
                  (λ e.
                    ap (λ x. out (x * pixels_per_line + c)) (==→eq r row e)
                    ∙ converted.0 c (omega arith))
                  (λ e. converted.1 (r * pixels_per_line + c) (ground arith) ∙ now.pixels r c h k);
          outside = λ j h.
              ap (λ b. b j) assemble_line-buffer
              ∙ converted.1 j (inr (omega arith))
              ∙ now.outside j h;
          count = assemble_line-count;
        }

  Shows-same :
      (lines lines' : ℕ → Line) (s : Assembly)
      → ((r : ℕ) → r < height → lines r ≡ lines' r)
      → Shows height old lines s
      → Shows height old lines' s
  Shows-same lines lines' s e h = record {
    written = λ r l. h.written r l ∙ ap is_known (e r l);
    pixels = λ r c l k.
        h.pixels r c l k ∙ ap (λ x. pixel_or x (old (r * pixels_per_line + c)) c) (e r l);
    outside = h.outside;
    count = h.count;
  }

  row-line : (first line r : ℕ) → r ≡ first + line → line ≡ r - first
  row-line first line r e = omega arith

  -- The lines behind `n` lines of a packet from `line` on.
  abbrev put_lines : FramePacket → ℕ → ℕ → (ℕ → Line) → ℕ → Line
  put_lines p n line lines r =
      if leb (p.line_num + line) r && ltb r (p.line_num + line + n)
      then some (line_of palette p r)
      else lines r

  assemble_lines-Shows :
      (p : FramePacket) (n line : ℕ) (lines : ℕ → Line) (s : Assembly)
      → HasBytes p
      → Shows height old lines s
      → Shows height old (put_lines p n line lines) (assemble_lines lut height p n line s)
  unfolding assemble_lines
  assemble_lines-Shows p zero line lines s b h =
      Shows-same lines (put_lines p zero line lines) s (λ r l. ground arith) h
  assemble_lines-Shows p (suc n) line lines s b h =
      if-split (λ (a : Assembly). Shows height old (put_lines p (suc n) line lines) a)
        (ltb (p.line_num + line) height)
        (λ l.
          let inside = ltb→lt (p.line_num + line) height l in
          let one = assemble_line-Shows lines p b line s h inside in
          Shows-same _ (put_lines p (suc n) line lines) _
            (λ r k.
              range_step (p.line_num + line) (p.line_num + (line + 1)) n r
                (some (line_of palette p r)) (some (color_at palette (line_data p line))) (lines r)
                (omega arith)
                (λ e.
                  ap (λ x. some (color_at palette (line_data p x))) (row-line p.line_num line r e)))
            (assemble_lines-Shows p n (line + 1) _ (assemble_line lut p line s) b one))
        (λ l. Shows-same lines (put_lines p (suc n) line lines) s (λ r k. ground arith) h)

  pub behind_packets : List FramePacket → (ℕ → Line) → ℕ → Line
  behind_packets [] lines r = lines r
  behind_packets (p ∷ ps) lines r =
      behind_packets ps (λ x. if covers p x then some (line_of palette p x) else lines x) r

  behind_packets-received_line :
      (ps : List FramePacket) (lines : ℕ → Line) (r : ℕ)
      → behind_packets ps lines r
        ≡ elim (received_line palette ps r) [ some line ↦ some line | none ↦ lines r ]
  unfolding behind_packets
  behind_packets-received_line [] lines r = refl
  behind_packets-received_line (p ∷ ps) lines r =
      behind_packets-received_line ps
        (λ x. if covers p x then some (line_of palette p x) else lines x) r
      ∙ merge (received_line palette ps r) (covers p r) (line_of palette p r) (lines r)

  assemble_packets-behind :
      (ps : List FramePacket) (lines : ℕ → Line) (s : Assembly)
      → All HasBytes ps
      → Shows height old lines s
      → Shows height old (behind_packets ps lines) (assemble_packets lut height ps s)
  unfolding assemble_packets behind_packets
  assemble_packets-behind [] lines s b h = h
  assemble_packets-behind (p ∷ ps) lines s b h =
      assemble_packets-behind ps (λ x. if covers p x then some (line_of palette p x) else lines x)
        (if p.received then assemble_lines lut height p p.lines_per_packet 0 s else s) b.1
        (if-split
          (λ (a : Assembly).
            Shows height old (λ x. if covers p x then some (line_of palette p x) else lines x) a)
          p.received
          (λ e.
            Shows-same (put_lines p p.lines_per_packet 0 lines) _ _
              (λ r k.
                range_start p.received p.line_num p.lines_per_packet r (some (line_of palette p r))
                  (lines r) e)
              (assemble_lines-Shows p p.lines_per_packet 0 lines s b.0 h))
          (λ e. Shows-same lines _ s (λ r k. ground arith) h))

  -- Behind the first pass the buffer shows each line as the last packet that covers it has it.
  pub assemble_packets-Shows :
      (ps : List FramePacket)
      → All HasBytes ps
      → Shows height old (received_line palette ps) (
          assemble_packets lut height ps
            record { frame_buffer = old; line_written = λ l. false; lines_written_count = 0 })
  assemble_packets-Shows ps b =
      Shows-same (behind_packets ps (λ r. none)) (received_line palette ps) _
        (λ r k. behind_packets-received_line ps (λ x. none) r ∙ keep (received_line palette ps r))
        (assemble_packets-behind ps (λ r. none)
          record { frame_buffer = old; line_written = λ l. false; lines_written_count = 0 } b
          record {
            written = λ r l. refl;
            pixels = λ r c l k. refl;
            outside = λ j l. refl;
            count = count-none height;
          })
