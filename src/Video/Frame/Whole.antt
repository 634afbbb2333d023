-- ===== src/Video/Frame/Whole.antt =====
-- A whole frame, from its packets in any order to what OBS Studio is given.
use c64stream.Base.{
  ℕ, ◌+◌, ◌-◌, ◌*◌, ◌/◌, ◌%◌, ◌≤◌, ◌<◌, ◌≡◌, ◌∙◌, inl, inr, refl, ap, ap₂, sym, subst, true, some,
  List, [], ◌∷◌, arith,
}
use c64stream.Base.Bools.{◌==◌, ==_iff, Bool-cases, Option-cases, if-eq_of_true, if-eq_of_false}
use c64stream.Base.Lists.{All, length, get_or}
use c64stream.Video.Assemble.{FramePacket, assemble_frame, line_data, pixels_per_line}
use c64stream.Video.Assemble.Picture.{received_line, line_of, pixel_or}
use c64stream.Video.Assemble.Counts.{HasBytes}
use c64stream.Video.Assemble.Interpolate.{line_above-known}
use c64stream.Video.Assemble.Shown.{assemble_frame-ShowsFrame}
use c64stream.Video.Color.{ColorLut, build_lut, lut_snapshot}
use c64stream.Video.Color.Convert.{color_at}
use c64stream.Video.Timestamps.Order.{HasRoom, calculate-positive}
use c64stream.Video.Render.{Context, Submitted, max_packets, no_packet, is_frame_complete}
use c64stream.Video.Frame.{
  video_packet_size, frame_num_of, index_of, packet_of, process_video_packet, process_all,
  pal_interval,
}
use c64stream.Video.Frame.Slots.{is_filled, slot_packet, count_slots-least}
use c64stream.Video.Frame.Parts.{IsPart, IsHeight, Holds, Rests}
use c64stream.Video.Frame.Complete.{
  Arrival, first_of, fill_all-nothing, nothing, Collects, process_all-Collects,
}
use c64stream.Video.Frame.Tiles.{IsTile, Tiles-of_index, received_line-tile}
use c64stream.Video.Frame.Rendered.{output, shown, timestamp, next-output}
use c64stream.Video.Frame.Ready.{
  IsReady, none≢some, some-inj, All-drop, All-of_index, start-Holds, start-Rests,
}

first_of-IsPart :
    (n count : ℕ) (ps : List Arrival) (i : ℕ) (p : List ℕ)
    → All (λ a. IsPart n count a.0) ps
    → first_of ps i ≡ some p
    → IsPart n count p × (index_of p ≡ i)
first_of-IsPart n count [] i p h e = absurd (none≢some e)
first_of-IsPart n count ((q, t, now) ∷ rest) i p h e = elim (Bool-cases (i == index_of q)) [
  | inl b ↦
      let w = some-inj (sym (if-eq_of_true _ _ b) ∙ e) in
      (subst (λ x. IsPart n count x) w h.0, ap index_of (sym w) ∙ sym ((==_iff i (index_of q)).0 b))
  | inr b ↦ first_of-IsPart n count rest i p h.1 (sym (if-eq_of_false _ _ b) ∙ e)
]

slot-IsTile :
    (n count : ℕ) (ps : List Arrival) (i : ℕ)
    → All (λ a. IsPart n count a.0) ps
    → IsTile i (slot_packet (first_of ps i)) × HasBytes (slot_packet (first_of ps i))
slot-IsTile n count ps i h = elim (Option-cases (first_of ps i)) [
  | inl e ↦ subst (λ o. IsTile i (slot_packet o) × HasBytes (slot_packet o)) (sym e) (inl refl, tt)
  | inr (p, e) ↦
      let (part, q) = first_of-IsPart n count ps i p h e in
      subst (λ o. IsTile i (slot_packet o) × HasBytes (slot_packet o)) (sym e)
        (inr (part.line ∙ ap (λ x. 4 * x) q, part.lines), All-drop 12 p part.bytes)
]

module _ (n count : ℕ) (palette : List ℕ) (c : Context) (ps : List Arrival) (high : IsHeight count)
    (ready : IsReady n palette c) (parts : All (λ a. IsPart n count a.0) ps)
    (all : (i : ℕ) → i < count → is_filled (first_of ps i) ≡ true) where
  abbrev collected : Context
  collected = process_all c ps

  collected-Collects : Collects n count high c (first_of ps) collected
  collected-Collects =
      subst (λ s. Collects n count high c s collected) (fill_all-nothing ps)
        (process_all-Collects n count high c ps nothing c parts
          (start-Holds n count palette c ready, start-Rests n count palette c ready))

  collected-Holds : Holds n (first_of ps) collected
  collected-Holds = collected-Collects.0

  collected-Rests : Rests count true c collected
  collected-Rests =
      subst (λ b. Rests count b c collected) (all (count - 1) (omega (arith, high.0)))
        collected-Collects.1

  received-enough : count ≤ collected.current_frame.received_packets
  received-enough = omega (
    arith,
    collected-Holds.received,
    count_slots-least (first_of ps) count max_packets high.1 all,
  )

  collected_complete : is_frame_complete collected.current_frame ≡ true
  unfolding is_frame_complete
  collected_complete =
      let e : collected.current_frame.expected_packets ≡ count = collected-Rests.expected in
      ground (arith, e, received-enough, high.0)

  collected-HasRoom : HasRoom collected.clock pal_interval
  collected-HasRoom =
      let r = collected-Rests in
      let k = ready.clock in
      record {
        started = r.start_set ∙ k.started;
        start = omega (arith, r.start, k.start);
        last = omega (arith, r.last_number, k.last);
        slow = k.slow;
        at_most = r.interval;
        room = rw r.start (rw r.index k.room);
      }

  collected-timestamp : 0 < timestamp collected
  collected-timestamp =
      calculate-positive collected.clock collected.current_frame.frame_num pal_interval
        (omega (arith, collected-Holds.number, ready.number)) collected-HasRoom

  collected-height : collected.height ≡ 4 * count
  collected-height = let (d, t) = collected-Rests.tall refl in collected-Rests.height d ∙ t

  -- What the next frame's first packet brings about.
  next-submitted :
      (q : List ℕ) (time now : ℕ)
      → length q ≡ video_packet_size
      → ¬ (frame_num_of q ≡ n)
      → output (process_video_packet collected q time now) ≡ (shown collected ∷ c.submitted, n)
  next-submitted q time now size other =
      let h = collected-Holds in
      let r = collected-Rests in
      next-output collected q time now size (λ e. other (sym e ∙ h.number)) collected-timestamp
        (omega (arith, received-enough, high.0)) collected_complete
        (λ e. ready.other (sym r.completed ∙ e ∙ h.number))
      ∙ ap₂ (λ x y. (shown collected ∷ x, y)) r.submitted h.number

  collected-slot :
      (i : ℕ)
      → i < length collected.current_frame.packets
      → IsTile i (get_or collected.current_frame.packets i no_packet)
        × HasBytes (get_or collected.current_frame.packets i no_packet)
  collected-slot i l =
      subst (λ p. IsTile i p × HasBytes p)
        (sym (collected-Holds.slot i (omega (arith, l, collected-Holds.size))))
        (slot-IsTile n count ps i parts)

  collected-line :
      (row : ℕ) (p : List ℕ)
      → row < 4 * count
      → first_of ps (row / 4) ≡ some p
      → received_line palette collected.current_frame.packets row
        ≡ some (line_of palette (packet_of p) row)
  collected-line row p h e =
      let packets = collected.current_frame.packets in
      let slot = collected-Holds.slot (row / 4) (omega (arith, h, high.1)) ∙ ap slot_packet e in
      received_line-tile palette row 0 (row / 4) packets
        (Tiles-of_index 0 packets (λ i l.
          subst (λ j. IsTile j (get_or packets i no_packet)) (omega arith) (collected-slot i l).0))
        (omega (arith, collected-Holds.size, h, high.1)) (omega arith)
        (ap (λ (f : FramePacket). f.received) slot)
      ∙ ap (λ f. some (line_of palette f row)) slot

  collected-pixels :
      (row column : ℕ) (p : List ℕ)
      → row < 4 * count
      → column < pixels_per_line
      → first_of ps (row / 4) ≡ some p
      → (shown collected).pixels (row * pixels_per_line + column)
        ≡ color_at palette (line_data (packet_of p) (row % 4)) column
  unfolding lut_snapshot
  collected-pixels row column p h k e =
      let packets = collected.current_frame.packets in
      let lut : collected.color_lut.lut ≡ build_lut palette =
        ap (λ (l : ColorLut). l.lut) collected-Rests.lut ∙ ready.lut in
      let shows =
        assemble_frame-ShowsFrame palette (4 * count) packets collected.frame_buffer ready.colors
          (All-of_index packets (λ i l. (collected-slot i l).1)) (omega (arith, high.1)) in
      ap₂
        (λ l x. assemble_frame l x packets collected.frame_buffer (row * pixels_per_line + column))
        lut collected-height
      ∙ shows.0 row column h k
      ∙ ap (λ x. pixel_or x (collected.frame_buffer column) column)
          (line_above-known (received_line palette packets) row (line_of palette (packet_of p) row)
            (collected-line row p h e))
      ∙ ap (λ l. color_at palette (line_data (packet_of p) l) column)
          (let (part, i) = first_of-IsPart n count ps (row / 4) p parts e in
            omega (arith, part.line, i))

-- A frame of 240 to 272 lines that has just begun is given out, and only it, with the first packet
-- of any other frame, if by then all of its packets came, in any order and any number of times: with
-- its number, a timestamp above zero, and each pixel as the first packet that came for its line has
-- it. The stream has started and its timestamps fit 64 bits, the frame was not given out before, the
-- format that was detected, if any, is the published height, and the palette has 32 bits.
pub frame_is_rendered :
    (n count : ℕ) (palette : List ℕ) (c : Context) (ps : List Arrival) (q : List ℕ) (time now : ℕ)
    (row column : ℕ) (p : List ℕ)
    → IsHeight count
    → IsReady n palette c
    → All (λ a. IsPart n count a.0) ps
    → ((i : ℕ) → i < count → is_filled (first_of ps i) ≡ true)
    → length q ≡ video_packet_size
    → ¬ (frame_num_of q ≡ n)
    → row < 4 * count
    → column < pixels_per_line
    → first_of ps (row / 4) ≡ some p
    → let after = process_video_packet (process_all c ps) q time now in
      (out : Submitted) × (after.submitted ≡ out ∷ c.submitted)
      × (after.last_completed_frame ≡ n)
      × (out.number ≡ n)
      × (0 < out.timestamp)
      × (out.pixels (row * pixels_per_line + column)
          ≡ color_at palette (line_data (packet_of p) (row % 4)) column)
frame_is_rendered n count palette c ps q time now row column p high ready parts all size other r k
      e =
    let done = next-submitted n count palette c ps high ready parts all q time now size other in
    (
      shown (process_all c ps),
      ap (λ o. o.0) done,
      ap (λ o. o.1) done,
      (collected-Holds n count palette c ps high ready parts all).number,
      collected-timestamp n count palette c ps high ready parts all,
      collected-pixels n count palette c ps high ready parts all row column p r k e,
    )
