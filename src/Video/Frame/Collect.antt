-- ===== src/Video/Frame/Collect.antt =====
-- The packets of one frame as they are collected.
use c64stream.Base.{
  ℕ, ◌+◌, ◌*◌, ◌%◌, ◌^◌, ◌≤◌, ◌≡◌, ◌∙◌, inl, inr, refl, ap, fun_ext, sym, subst, Bool, true, false,
  false≢true, not, ◌&&◌, ◌||◌, none, some, List, arith,
}
use c64stream.Base.Bools.{
  ◌==◌, ==_iff, ltb, if◌then◌else◌, Bool-cases, Option-cases, if-split, if-either,
}
use c64stream.Base.Lists.{get_or}
use c64stream.Network.Protocol.{clamp_frame_height}
use c64stream.Video.Assemble.{FramePacket}
use c64stream.Video.Render.{Context, FrameAssembly, Standard, pal, ntsc, max_packets, no_packet}
use c64stream.Video.Frame.{
  line_num_of, is_last, lines_of, index_of, packet_of, set_packet, add_packet, end_of_frame,
  detect_format, pal_interval, interval_of, standard_of,
}
use c64stream.Video.Frame.Slots.{
  Slots, is_filled, slot_packet, slot_packet-received, fill-again, fill, length-set_packet,
  set_packet-same, set_packet-other, count_slots-most, fill-index, fill-other, count_slots-fill,
}
use c64stream.Video.Frame.Parts.{IsPart, IsHeight, Holds, Rests}

Rests-frame :
    (count : ℕ) (ended ended' : Bool) (c₀ c : Context) (f : FrameAssembly) (drops : ℕ)
    → f.expected_packets ≡ (if ended' then count else 0)
    → (ended' ≡ true → ended ≡ true)
    → Rests count ended c₀ c
    → Rests count ended' c₀ (record c { current_frame = f; packet_drops = drops })
Rests-frame count ended ended' c₀ c f drops e k r = record {
  completed = r.completed;
  submitted = r.submitted;
  lut = r.lut;
  start_set = r.start_set;
  start = r.start;
  set = r.set;
  index = r.index;
  last_number = r.last_number;
  interval = r.interval;
  height = r.height;
  expected = e;
  tall = λ t. r.tall (k t);
}

pub add_packet-Rests :
    (count : ℕ) (ended : Bool) (c₀ c : Context) (p : List ℕ) (time : ℕ)
    → Rests count ended c₀ c
    → Rests count ended c₀ (add_packet c p time)
unfolding add_packet
add_packet-Rests count ended c₀ c p time r =
    if-split (λ (d : Context). Rests count ended c₀ d) (ltb (index_of p) max_packets)
      (λ l.
        if-either (λ (d : Context). Rests count ended c₀ d)
          (get_or c.current_frame.packets (index_of p) no_packet).received r
          (Rests-frame count ended ended c₀ c _ _ r.expected (λ t. t) r))
      (λ l. Rests-frame count ended ended c₀ c _ _ r.expected (λ t. t) r)

interval_of-most : (s : Standard) → interval_of s ≤ pal_interval
interval_of-most pal = omega arith
interval_of-most ntsc = omega arith

clamped :
    (height count : ℕ)
    → IsHeight count
    → height ≡ 4 * count
    → (height == clamp_frame_height height) ≡ true
unfolding clamp_frame_height
clamped height count high e = ground (arith, high.0, high.1)

known_format : (b : Bool) (d h : ℕ) → (not b || not (d == h)) ≡ false → (b ≡ true) × (d ≡ h)
known_format b d h e = ground arith

both_left : (b d : Bool) → (b && d) ≡ true → b ≡ true
both_left b d e = ground arith

not_again : (x count : ℕ) (b : Bool) → x ≡ count → 60 ≤ count → ¬ ((b && x == 0) ≡ true)
not_again x count b e h f = ground arith

ends : (b : Bool) (x : ℕ) → b ≡ true → x ≡ 0 → (b && x == 0) ≡ true
ends b x e h = ground arith

module _ {n count : ℕ} {p : List ℕ} (part : IsPart n count p) (high : IsHeight count) where
  module _ (slots : Slots) (c : Context) (h : Holds n slots c) (time : ℕ) where
    -- A further packet of an index that was there.
    again-Holds : (first : List ℕ) → slots (index_of p) ≡ some first → Holds n (fill slots p) c
    again-Holds first e = subst (λ s. Holds n s c) (fun_ext (fill-again slots p first e)) h

    new-Holds :
        slots (index_of p) ≡ none
        → Holds n (fill slots p) (record c {
          current_frame = record c.current_frame {
            packets = set_packet c.current_frame.packets (index_of p) (packet_of p);
            received_packets = (c.current_frame.received_packets + 1) % 2 ^ 16;
            last_packet_time = time;
          };
        })
    new-Holds e =
        let ps = c.current_frame.packets in
        record {
          number = h.number;
          size = length-set_packet c.current_frame.packets (index_of p) (packet_of p) ∙ h.size;
          slot = λ i l. elim (Bool-cases (i == index_of p)) [
            | inl q ↦
                let q' = (==_iff i (index_of p)).0 q in
                ap (λ x. get_or (set_packet ps (index_of p) (packet_of p)) x no_packet) q'
                ∙ set_packet-same ps (index_of p) (packet_of p) (omega (arith, q', l, h.size))
                ∙ sym (ap slot_packet (ap (fill slots p) q' ∙ fill-index slots p e))
            | inr q ↦
                let q' : ¬ (i ≡ index_of p) =
                  λ f. false≢true (sym q ∙ (==_iff i (index_of p)).1 f) in
                set_packet-other ps (index_of p) i (packet_of p) q'
                ∙ h.slot i l
                ∙ ap slot_packet (sym (fill-other slots p i q'))
          ];
          received = omega (
            arith,
            h.received,
            part.inside,
            high.1,
            count_slots-most slots max_packets,
            count_slots-fill slots p max_packets (omega (arith, part.inside, high.1)) e,
          );
        }

    pub add_packet-Holds : Holds n (fill slots p) (add_packet c p time)
    unfolding add_packet
    add_packet-Holds =
        if-split (λ (d : Context). Holds n (fill slots p) d) (ltb (index_of p) max_packets)
          (λ l.
            let was =
              ap (λ (x : FramePacket). x.received)
                (h.slot (index_of p) (omega (arith, part.inside, high.1)))
              ∙ slot_packet-received (slots (index_of p)) in
            if-split (λ (d : Context). Holds n (fill slots p) d)
              (get_or c.current_frame.packets (index_of p) no_packet).received
              (λ f. elim (Option-cases (slots (index_of p))) [
                | inl e ↦ absurd (false≢true (sym (ap is_filled e) ∙ sym was ∙ f))
                | inr (first, e) ↦ again-Holds first e
              ])
              (λ f. elim (Option-cases (slots (index_of p))) [
                | inl e ↦ new-Holds e
                | inr (first, e) ↦ absurd (false≢true (sym f ∙ was ∙ ap is_filled e))
              ]))
          (λ l. absurd (ground (arith, part.inside, high.1)))

  pub end_of_frame-Holds :
      (slots : Slots) (c : Context) → Holds n slots c → Holds n slots (end_of_frame c p)
  unfolding end_of_frame detect_format
  end_of_frame-Holds slots c h =
      let height = line_num_of p + lines_of p in
      let P : Context → Type 0 = λ d. Holds n slots d in
      if-either P (is_last p && c.current_frame.expected_packets == 0)
        (if-either P (height == clamp_frame_height height)
          (if-either P (not c.format_detected || not (c.detected_frame_height == height))
            (record { number = h.number; size = h.size; slot = h.slot; received = h.received })
            (record { number = h.number; size = h.size; slot = h.slot; received = h.received }))
          (record { number = h.number; size = h.size; slot = h.slot; received = h.received }))
        h

  -- The last packet, when it comes first.
  ended-Rests :
      (c₀ c : Context)
      → is_last p ≡ true
      → Rests count false c₀ c
      → Rests count true c₀ (end_of_frame c p)
  unfolding end_of_frame detect_format clamp_frame_height
  ended-Rests c₀ c l r =
      let height = line_num_of p + lines_of p in
      let P : Context → Type 0 = λ d. Rests count true c₀ d in
      let here : index_of p + 1 ≡ count = (==_iff (index_of p + 1) count).0 (sym part.last ∙ l) in
      let tall : height ≡ 4 * count = omega (arith, part.line, part.lines, here) in
      let e : (index_of p + 1) % 2 ^ 16 ≡ count = omega (arith, here, high.1) in
      if-split P (is_last p && c.current_frame.expected_packets == 0)
        (λ f.
          if-split P (height == clamp_frame_height height)
            (λ g.
              if-split P (not c.format_detected || not (c.detected_frame_height == height))
                (λ k. record {
                  completed = r.completed;
                  submitted = r.submitted;
                  lut = r.lut;
                  start_set = r.start_set;
                  start = r.start;
                  set = r.set;
                  index = r.index;
                  last_number = r.last_number;
                  interval = interval_of-most (standard_of height);
                  height = λ d. refl;
                  expected = e;
                  tall = λ t. (refl, tall);
                })
                (λ k.
                  let (d, w) = known_format c.format_detected c.detected_frame_height height k in
                  record {
                    completed = r.completed;
                    submitted = r.submitted;
                    lut = r.lut;
                    start_set = r.start_set;
                    start = r.start;
                    set = r.set;
                    index = r.index;
                    last_number = r.last_number;
                    interval = r.interval;
                    height = r.height;
                    expected = e;
                    tall = λ t. (d, w ∙ tall);
                  }))
            (λ g. absurd (false≢true (sym g ∙ clamped height count high tall))))
        (λ f.
          absurd
            (false≢true (sym f ∙ ends (is_last p) c.current_frame.expected_packets l r.expected)))

  pub end_of_frame-Rests :
      (ended : Bool) (c₀ c : Context)
      → Rests count ended c₀ c
      → Rests count (ended || is_last p) c₀ (end_of_frame c p)
  unfolding end_of_frame
  end_of_frame-Rests true c₀ c r =
      if-split (λ (d : Context). Rests count true c₀ d)
        (is_last p && c.current_frame.expected_packets == 0)
        (λ f.
          absurd (not_again c.current_frame.expected_packets count (is_last p) r.expected high.0 f))
        (λ f. r)
  end_of_frame-Rests false c₀ c r = elim (Bool-cases (is_last p)) [
    | inl l ↦ subst (λ b. Rests count b c₀ (end_of_frame c p)) (sym l) (ended-Rests c₀ c l r)
    | inr l ↦
        subst (λ b. Rests count b c₀ (end_of_frame c p)) (sym l)
          (if-split (λ (d : Context). Rests count false c₀ d)
            (is_last p && c.current_frame.expected_packets == 0)
            (λ f. absurd (false≢true (sym l ∙ both_left (is_last p) _ f))) (λ f. r))
  ]
