-- ===== src/Video/Frame/Ready.antt =====
-- A frame that has just begun, as the packets are collected from there.
use c64stream.Base.{
  ℕ, zero, suc, ◌^◌, ◌<◌, ◌≡◌, ◌∙◌, refl, ap, sym, true, false, false≢true, none, some, List, [],
  ◌∷◌, arith,
}
use c64stream.Base.Lists.{All, length, get_or, drop}
use c64stream.Video.Assemble.{FramePacket}
use c64stream.Video.Assemble.Counts.{HasBytes}
use c64stream.Video.Color.{build_lut}
use c64stream.Video.Timestamps.Order.{HasRoom}
use c64stream.Video.Render.{Context, FrameAssembly, max_packets, no_packet, init_frame_assembly}
use c64stream.Video.Frame.{pal_interval}
use c64stream.Video.Frame.Slots.{is_filled, count_slots, length-replicate, replicate-at}
use c64stream.Video.Frame.Parts.{Holds, Rests}
use c64stream.Video.Frame.Complete.{nothing}

-- The frame has just begun, and was not rendered before.
pub record IsReady (n : ℕ) (palette : List ℕ) (c : Context) : Type 0 where
  pub start_time : ℕ
  pub fresh : c.current_frame ≡ init_frame_assembly n start_time
  pub number : n < 2 ^ 16
  pub other : ¬ (c.last_completed_frame ≡ n)
  pub clock : HasRoom c.clock pal_interval
  pub height : c.format_detected ≡ true → c.height ≡ c.detected_frame_height
  pub lut : c.color_lut.lut ≡ build_lut palette
  pub colors : All (λ x. x < 2 ^ 32) palette

pub count_slots-none : (n : ℕ) → count_slots nothing n ≡ 0
count_slots-none zero = refl
count_slots-none (suc n) = omega (arith, count_slots-none n)

pub none≢some : {p : List ℕ} → ¬ (none ≡ some p)
none≢some e = false≢true (ap is_filled e)

pub some-inj : {p q : List ℕ} → some p ≡ some q → p ≡ q
some-inj {p} e = ap (λ o. elim o as (λ x. List ℕ) [ some x ↦ x | none ↦ p ]) e

pub All-drop : (k : ℕ) (xs : List ℕ) → All (λ b. b < 256) xs → All (λ b. b < 256) (drop k xs)
All-drop zero xs h = h
All-drop (suc k) [] h = tt
All-drop (suc k) (x ∷ xs) h = All-drop k xs h.1

pub All-of_index :
    (ps : List FramePacket)
    → ((i : ℕ) → i < length ps → HasBytes (get_or ps i no_packet))
    → All HasBytes ps
All-of_index [] h = tt
All-of_index (p ∷ ps) h = (h 0 (omega arith), All-of_index ps (λ i l. h (suc i) (omega (arith, l))))

module _ (n count : ℕ) (palette : List ℕ) (c : Context) (ready : IsReady n palette c) where
  pub start-Holds : Holds n nothing c
  unfolding init_frame_assembly
  start-Holds =
      let e = ready.fresh in
      record {
        number = ap (λ (f : FrameAssembly). f.frame_num) e;
        size =
            ap (λ (f : FrameAssembly). length f.packets) e ∙ length-replicate max_packets no_packet;
        slot = λ i l.
            ap (λ (f : FrameAssembly). get_or f.packets i no_packet) e ∙ replicate-at max_packets i;
        received =
            ap (λ (f : FrameAssembly). f.received_packets) e ∙ sym (count_slots-none max_packets);
      }

  pub start-Rests : Rests count false c c
  unfolding init_frame_assembly
  start-Rests = record {
    completed = refl;
    submitted = refl;
    lut = refl;
    start_set = refl;
    start = refl;
    set = refl;
    index = refl;
    last_number = refl;
    interval = ready.clock.at_most;
    height = ready.height;
    expected = ap (λ (f : FrameAssembly). f.expected_packets) ready.fresh;
    tall = λ e. absurd (false≢true e);
  }
