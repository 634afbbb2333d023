-- ===== src/Video/Frame/Rendered.antt =====
-- A frame from its first packet to what OBS Studio is given.
use c64stream.Base.{
  ℕ, ◌+◌, ◌<◌, ◌≡◌, ◌∙◌, refl, ap, sym, true, false≢true, not, ◌&&◌, ◌||◌, List, ◌∷◌, arith,
}
use c64stream.Base.Bools.{◌==◌, ==_iff, ltb, if◌then◌else◌, if-eq_of_true, if-split, if-either}
use c64stream.Base.Lists.{length, get_or}
use c64stream.Base.Words.{add32}
use c64stream.Network.Protocol.{clamp_frame_height}
use c64stream.Video.Assemble.{assemble_frame}
use c64stream.Video.Color.{Pixels, lut_snapshot}
use c64stream.Video.Timestamps.{calculate_ideal_timestamp}
use c64stream.Video.Render.{
  Context, Submitted, max_packets, no_packet, render_frame_direct, is_frame_complete, mark_complete,
}
use c64stream.Video.Frame.{
  video_packet_size, frame_num_of, is_last, index_of, lines_of, line_num_of, add_packet,
  end_of_frame, begin_frame, complete_previous, process_video_packet, detect_format,
}

-- What the calls leave alone that do not render.
abbrev pub output : Context → List Submitted × ℕ
output c = (c.submitted, c.last_completed_frame)

module _ (c : Context) (p : List ℕ) where
  add_packet-output : (time : ℕ) → output (add_packet c p time) ≡ output c
  unfolding add_packet
  add_packet-output time =
      let P : Context → Type 0 = λ d. output d ≡ output c in
      if-either P (ltb (index_of p) max_packets)
        (if-either P (get_or c.current_frame.packets (index_of p) no_packet).received refl refl)
        refl

  end_of_frame-output : output (end_of_frame c p) ≡ output c
  unfolding end_of_frame detect_format
  end_of_frame-output =
      let height = line_num_of p + lines_of p in
      let P : Context → Type 0 = λ d. output d ≡ output c in
      if-either P (is_last p && c.current_frame.expected_packets == 0)
        (if-either P (height == clamp_frame_height height)
          (if-either P (not c.format_detected || not (c.detected_frame_height == height)) refl refl)
          refl)
        refl

abbrev pub buffer : Context → Pixels
buffer c = assemble_frame (lut_snapshot c.color_lut) c.height c.current_frame.packets c.frame_buffer

abbrev pub timestamp : Context → ℕ
timestamp c = (calculate_ideal_timestamp c.clock c.current_frame.frame_num).0

abbrev pub shown : Context → Submitted
shown c = record { number = c.current_frame.frame_num; timestamp = timestamp c; pixels = buffer c }

render-submitted :
    (c : Context) → 0 < timestamp c → (render_frame_direct c).submitted ≡ shown c ∷ c.submitted
unfolding render_frame_direct
render-submitted c t =
    if-split (λ (d : Context). d.submitted ≡ shown c ∷ c.submitted) (timestamp c == 0)
      (λ e. absurd (ground (arith, t))) (λ e. refl)

module _ (c : Context) (t : 0 < timestamp c) where
  mark_complete-eq :
      is_frame_complete c.current_frame ≡ true
      → mark_complete c.current_frame ≡ record c.current_frame { complete = true }
  unfolding mark_complete
  mark_complete-eq k = if-eq_of_true _ _ k

  -- A frame that is complete and was not rendered before is rendered when the next begins.
  module _ (time now : ℕ) (h : 0 < c.current_frame.received_packets)
      (k : is_frame_complete c.current_frame ≡ true)
      (l : ¬ (c.last_completed_frame ≡ c.current_frame.frame_num)) where
    complete_previous-output :
        output (complete_previous c time now) ≡ (shown c ∷ c.submitted, c.current_frame.frame_num)
    unfolding complete_previous
    complete_previous-output =
        let P : Context → Type 0 =
          λ d. output d ≡ (shown c ∷ c.submitted, c.current_frame.frame_num) in
        if-split P (ltb 0 c.current_frame.received_packets)
          (λ a.
            if-split P (is_frame_complete c.current_frame)
              (λ b.
                if-split P (c.last_completed_frame == c.current_frame.frame_num)
                  (λ e. absurd (l ((==_iff _ _).0 e)))
                  (λ e.
                    ap (λ s. (s, c.current_frame.frame_num))
                      (ap (λ f. (render_frame_direct (record c { current_frame = f })).submitted)
                          (mark_complete-eq k)
                        ∙ render-submitted
                            (record c {
                              current_frame = record c.current_frame { complete = true };
                            })
                            t)))
              (λ b. absurd (false≢true (sym b ∙ k))))
          (λ a. absurd (ground (arith, h)))

-- The first packet of another frame.
pub next-output :
    (c : Context) (q : List ℕ) (time now : ℕ)
    → length q ≡ video_packet_size
    → ¬ (c.current_frame.frame_num ≡ frame_num_of q)
    → 0 < timestamp c
    → 0 < c.current_frame.received_packets
    → is_frame_complete c.current_frame ≡ true
    → ¬ (c.last_completed_frame ≡ c.current_frame.frame_num)
    → output (process_video_packet c q time now)
      ≡ (shown c ∷ c.submitted, c.current_frame.frame_num)
unfolding process_video_packet begin_frame
next-output c q time now size other t h k l =
    let P : Context → Type 0 = λ d. output d ≡ (shown c ∷ c.submitted, c.current_frame.frame_num) in
    if-split P (length q == video_packet_size)
      (λ e.
        if-split (λ (d : Context). P (end_of_frame (add_packet d q time) q))
          (c.current_frame.frame_num == frame_num_of q) (λ f. absurd (other ((==_iff _ _).0 f)))
          (λ f.
            let begun = begin_frame c (frame_num_of q) time now in
            end_of_frame-output (add_packet begun q time) q
            ∙ add_packet-output begun q time
            ∙ complete_previous-output
                (record c {
                  frames_expected =
                      if ltb 0 c.last_capture_time
                      then add32 c.frames_expected 1
                      else c.frames_expected;
                  frames_captured = add32 c.frames_captured 1;
                  last_capture_time = time;
                })
                t time now h k l))
      (λ e. absurd (false≢true (sym e ∙ (==_iff _ _).1 size)))
