-- ===== src/Video/Frame/Complete.antt =====
-- All packets of a frame, and the rendering when the next frame begins.
use c64stream.Base.{
  ℕ, ◌+◌, ◌-◌, ◌<◌, ◌≡◌, ◌∙◌, refl, ap, fun_ext, sym, subst, Bool, true, false, false≢true, ◌||◌,
  Option, none, some, List, [], ◌∷◌, arith,
}
use c64stream.Base.Bools.{◌==◌, ==_iff, if◌then◌else◌, if-split}
use c64stream.Base.Lists.{All, length}
use c64stream.Video.Render.{Context}
use c64stream.Video.Frame.{
  video_packet_size, frame_num_of, is_last, index_of, add_packet, end_of_frame,
  process_video_packet, process_all,
}
use c64stream.Video.Frame.Slots.{Slots, is_filled, fill_slot, fill}
use c64stream.Video.Frame.Collect.{
  add_packet-Rests, add_packet-Holds, end_of_frame-Holds, end_of_frame-Rests,
}
use c64stream.Video.Frame.Parts.{IsPart, IsHeight, Holds, Rests}

-- A packet with the time that it came and the time that it is processed.
abbrev pub Arrival : Type 0
Arrival = List ℕ × ℕ × ℕ

-- The packet with this index that came first.
abbrev pub first_of : List Arrival → Slots
first_of [] i = none
first_of ((p, t, now) ∷ rest) i = if i == index_of p then some p else first_of rest i

abbrev pub fill_all : Slots → List Arrival → Slots
fill_all slots [] = slots
fill_all slots ((p, t, now) ∷ rest) = fill_all (fill slots p) rest

filled_or :
    (o : Option (List ℕ)) (b : Bool) (p : List ℕ) → is_filled (fill_slot o b p) ≡ (is_filled o || b)
filled_or (some q) b p = refl
filled_or none true p = refl
filled_or none false p = refl

or_else : Option (List ℕ) → Option (List ℕ) → Option (List ℕ)
or_else (some q) d = some q
or_else none d = d

or_else-fill :
    (o : Option (List ℕ)) (b : Bool) (p : List ℕ) (d : Option (List ℕ))
    → or_else (fill_slot o b p) d ≡ or_else o (if b then some p else d)
unfolding or_else
or_else-fill (some q) b p d = refl
or_else-fill none true p d = refl
or_else-fill none false p d = refl

or_else-none : (o : Option (List ℕ)) → or_else o none ≡ o
unfolding or_else
or_else-none none = refl
or_else-none (some q) = refl

same_index : (count i : ℕ) → i < count → ((count - 1) == i) ≡ (i + 1 == count)
same_index count i h = ground arith

fill_all-first_of :
    (ps : List Arrival) (slots : Slots) (i : ℕ)
    → fill_all slots ps i ≡ or_else (slots i) (first_of ps i)
unfolding or_else
fill_all-first_of [] slots i = sym (or_else-none (slots i))
fill_all-first_of ((p, t, now) ∷ rest) slots i =
    fill_all-first_of rest (fill slots p) i
    ∙ or_else-fill (slots i) (i == index_of p) p (first_of rest i)

abbrev pub nothing : Slots
nothing i = none

pub fill_all-nothing : (ps : List Arrival) → fill_all nothing ps ≡ first_of ps
unfolding or_else
fill_all-nothing ps = fun_ext (fill_all-first_of ps nothing)

module _ (n count : ℕ) (high : IsHeight count) (c₀ : Context) where
  abbrev pub Collects : Slots → Context → Type 0
  Collects slots c = Holds n slots c × Rests count (is_filled (slots (count - 1))) c₀ c

  last-filled :
      (p : List ℕ) (slots : Slots)
      → IsPart n count p
      → is_filled (fill slots p (count - 1)) ≡ (is_filled (slots (count - 1)) || is_last p)
  last-filled p slots part =
      let e : ((count - 1) == index_of p) ≡ (index_of p + 1 == count) =
        same_index count (index_of p) part.inside in
      filled_or (slots (count - 1)) ((count - 1) == index_of p) p
      ∙ ap (λ b. is_filled (slots (count - 1)) || b) (e ∙ sym part.last)

  process-Collects :
      (p : List ℕ) (t now : ℕ) (slots : Slots) (c : Context)
      → IsPart n count p
      → Collects slots c
      → Collects (fill slots p) (process_video_packet c p t now)
  unfolding process_video_packet
  process-Collects p t now slots c part (h, r) =
      let P : Context → Type 0 = λ d. Collects (fill slots p) d in
      let added-Holds = add_packet-Holds part high slots c h t in
      let added-Rests = add_packet-Rests count (is_filled (slots (count - 1))) c₀ c p t r in
      if-split P (length p == video_packet_size)
        (λ e.
          if-split (λ (d : Context). P (end_of_frame (add_packet d p t) p))
            (c.current_frame.frame_num == frame_num_of p)
            (λ f. (
              end_of_frame-Holds part high (fill slots p) (add_packet c p t) added-Holds,
              subst (λ b. Rests count b c₀ (end_of_frame (add_packet c p t) p))
                  (sym (last-filled p slots part))
                  (end_of_frame-Rests part high (is_filled (slots (count - 1))) c₀
                    (add_packet c p t) added-Rests),
            ))
            (λ f. absurd (false≢true (sym f ∙ (==_iff _ _).1 (h.number ∙ sym part.frame)))))
        (λ e. absurd (false≢true (sym e ∙ (==_iff _ _).1 part.size)))

  pub process_all-Collects :
      (ps : List Arrival) (slots : Slots) (c : Context)
      → All (λ a. IsPart n count a.0) ps
      → Collects slots c
      → Collects (fill_all slots ps) (process_all c ps)
  unfolding process_all
  process_all-Collects [] slots c parts h = h
  process_all-Collects ((p, t, now) ∷ rest) slots c parts h =
      process_all-Collects rest (fill slots p) (process_video_packet c p t now) parts.1
        (process-Collects p t now slots c parts.0 h)
