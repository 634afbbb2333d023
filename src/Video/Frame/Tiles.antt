-- ===== src/Video/Frame/Tiles.antt =====
-- The lines of a frame whose packets have four lines each, from the top to the bottom.
use c64stream.Base.{
  ℕ, zero, suc, ◌+◌, ◌*◌, ◌/◌, ◌<◌, ◌≡◌, ◌∙◌, ◌⊎◌, inl, inr, refl, subst, sym, true, false,
  false≢true, none, some, List, [], ◌∷◌, arith,
}
use c64stream.Base.Lists.{length, get_or}
use c64stream.Video.Assemble.{FramePacket}
use c64stream.Video.Assemble.Picture.{covers, line_of, received_line}
use c64stream.Video.Render.{no_packet}

-- A packet at index `i` is missing or has the four lines there.
abbrev pub IsTile : ℕ → FramePacket → Type 0
IsTile i p = (p.received ≡ false) ⊎ (p.line_num ≡ 4 * i) × (p.lines_per_packet ≡ 4)

pub Tiles : ℕ → List FramePacket → Type 0
Tiles k [] = Unit
Tiles k (p ∷ ps) = IsTile k p × Tiles (k + 1) ps

pub Tiles-of_index :
    (k : ℕ) (ps : List FramePacket)
    → ((i : ℕ) → i < length ps → IsTile (k + i) (get_or ps i no_packet))
    → Tiles k ps
unfolding Tiles
Tiles-of_index k [] h = tt
Tiles-of_index k (p ∷ ps) h = (
  subst (λ j. IsTile j p) (omega arith) (h 0 (omega arith)),
  Tiles-of_index (k + 1) ps (λ i l.
      subst (λ j. IsTile j (get_or ps i no_packet)) (omega arith) (h (suc i) (omega (arith, l)))),
)

covers-other : (k row : ℕ) (p : FramePacket) → IsTile k p → ¬ (row / 4 ≡ k) → covers p row ≡ false
covers-other k row p (inl e) h = rw e refl
covers-other k row p (inr (e, f)) h = ground arith

covers-here :
    (k row : ℕ) (p : FramePacket)
    → IsTile k p
    → p.received ≡ true
    → row / 4 ≡ k
    → covers p row ≡ true
covers-here k row p (inl e) r h = absurd (false≢true (sym e ∙ r))
covers-here k row p (inr (e, f)) r h = ground arith

module _ (palette : List ℕ) (row : ℕ) where
  -- A row above the packets.
  received_line-above :
      (k : ℕ) (ps : List FramePacket)
      → Tiles k ps
      → row / 4 < k
      → received_line palette ps row ≡ none
  unfolding Tiles
  received_line-above k [] h l = refl
  received_line-above k (p ∷ ps) h l =
      let rest = received_line-above (k + 1) ps h.1 (omega arith) in
      let here = covers-other k row p h.0 (λ e. absurd (omega (arith, e, l))) in
      rw rest (rw here refl)

  pub received_line-tile :
      (k i : ℕ) (ps : List FramePacket)
      → Tiles k ps
      → i < length ps
      → row / 4 ≡ k + i
      → (get_or ps i no_packet).received ≡ true
      → received_line palette ps row ≡ some (line_of palette (get_or ps i no_packet) row)
  unfolding Tiles
  received_line-tile k i [] h l e r = absurd (omega (arith, l))
  received_line-tile k zero (p ∷ ps) h l e r =
      let rest = received_line-above (k + 1) ps h.1 (omega arith) in
      let here = covers-here k row p h.0 r (omega arith) in rw rest (rw here refl)
  received_line-tile k (suc i) (p ∷ ps) h l e r =
      rw (received_line-tile (k + 1) i ps h.1 (omega (arith, l)) (omega arith) r) refl
