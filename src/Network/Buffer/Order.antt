-- ===== src/Network/Buffer/Order.antt =====
-- When rb_push keeps the packets in order, and when it does not.
use c64stream.Base.{
  ◌-◌, ℕ, suc, ◌+◌, ◌*◌, ◌^◌, ◌≤◌, ◌<◌, ◌≡◌, ◌∙◌, sym, subst, true, false≢true, List, [], ◌∷◌, ◌++◌,
  arith,
}
use c64stream.Base.Bools.{leb, leb→le, leb-false, le→leb}
use c64stream.Base.Lists.{All, All-left, All-right, All-zip, length, drop}
use c64stream.Base.Words.{sub16}
use c64stream.Network.Buffer.{
  Slot, RingBuffer, BufferType, video, audio, packet_count, should_insert_after, max_search_depth,
  rb_push, new_slot,
}
use c64stream.Network.Buffer.Index.{contents, IsValid, length-segment, view}
use c64stream.Network.Buffer.Push.{Pushed, behind, at_end, GoesBefore}
use c64stream.Network.Buffer.Accept.{refused, taken, rb_push-Outcome}

-- Where a packet stands in its stream, counted from a base: the sequence number of audio, the
-- frame number and then the line of video.
abbrev pub position : BufferType → ℕ → Slot → ℕ
position audio base s = sub16 s.sequence_num base
position video base s = sub16 s.frame_num base * 2 ^ 15 + s.line_num

-- The packet is less than 2 ^ 15 sequence or frame numbers behind the base.
abbrev pub IsNear : BufferType → ℕ → Slot → Type 0
IsNear audio base s = (s.sequence_num < 2 ^ 16) × (sub16 s.sequence_num base < 2 ^ 15)
IsNear video base s =
    (s.frame_num < 2 ^ 16) × (sub16 s.frame_num base < 2 ^ 15) × (s.line_num < 2 ^ 15)

-- Among such packets the 16-bit comparison of the code is the order of the positions.
pub should_insert_after-position :
    (type : BufferType) (base : ℕ) (new s : Slot)
    → base < 2 ^ 16
    → IsNear type base new
    → IsNear type base s
    → should_insert_after type new s ≡ leb (position type base s) (position type base new)
unfolding should_insert_after
should_insert_after-position audio base new s b h k = ground arith
should_insert_after-position video base new s b h k = ground arith

module _ (pos : Slot → ℕ) where
  abbrev pub Sorted : List Slot → Type 0
  Sorted [] = Unit
  Sorted (x ∷ []) = Unit
  Sorted (x ∷ y ∷ r) = (pos x ≤ pos y) × Sorted (y ∷ r)

  Sorted-tail : (x : Slot) (xs : List Slot) → Sorted (x ∷ xs) → Sorted xs
  Sorted-tail x [] h = tt
  Sorted-tail x (y ∷ r) h = h.1

  Sorted-insert :
      (early late : List Slot) (s new : Slot)
      → Sorted ((early ++ s ∷ []) ++ late)
      → pos s ≤ pos new
      → All (λ x. pos new ≤ pos x) late
      → Sorted ((early ++ s ∷ []) ++ new ∷ late)
  Sorted-insert [] [] s new h p a = (p, tt)
  Sorted-insert [] (l ∷ late) s new h p a = (p, (a.0, h.1))
  Sorted-insert (e ∷ []) late s new h p a = (h.0, Sorted-insert [] late s new h.1 p a)
  Sorted-insert (e ∷ f ∷ early) late s new h p a =
      (h.0, Sorted-insert (f ∷ early) late s new h.1 p a)

  -- The new packet is not older than the second oldest in the ring, or than the only one.
  abbrev pub Fits : Slot → List Slot → Type 0
  Fits new [] = Unit
  Fits new (x ∷ []) = pos x ≤ pos new
  Fits new (x ∷ y ∷ r) = pos y ≤ pos new

module _ (type : BufferType) (base : ℕ) (new : Slot) (hb : base < 2 ^ 16)
    (hn : IsNear type base new) where
  abbrev pos : Slot → ℕ
  pos = position type base

  behind-le :
      (s : Slot) → IsNear type base s → should_insert_after type new s ≡ true → pos s ≤ pos new
  behind-le s k t =
      leb→le (pos s) (pos new) (sym (should_insert_after-position type base new s hb hn k) ∙ t)

  before-le : (s : Slot) → IsNear type base s → GoesBefore type new s → pos new ≤ pos s
  before-le s k t =
      leb-false (pos s) (pos new) (sym (should_insert_after-position type base new s hb hn k) ∙ t)

  fits-behind : (s : Slot) → IsNear type base s → pos s ≤ pos new → ¬ GoesBefore type new s
  fits-behind s k p t =
      false≢true
        (sym t ∙ should_insert_after-position type base new s hb hn k ∙ le→leb (pos s) (pos new) p)

  end-Sorted :
      (before : List Slot)
      → All (IsNear type base) before
      → Fits pos new before
      → All (GoesBefore type new) (drop 1 before)
      → Sorted pos (before ++ new ∷ [])
  end-Sorted [] k f g = tt
  end-Sorted (x ∷ []) k f g = (f, tt)
  end-Sorted (x ∷ y ∷ r) k f g = absurd (fits-behind y k.1.0 f g.0)

  Pushed-Sorted :
      {before after : List Slot} (depth : ℕ)
      → All (IsNear type base) before
      → Sorted pos before
      → Fits pos new before
      → length before ≤ suc depth
      → Pushed type depth new before after
      → Sorted pos after
  Pushed-Sorted depth k o f l (behind early late s e e' ne t g _) =
      let k' = subst (All (IsNear type base)) e k in
      let ks =
        All-right (IsNear type base) early (s ∷ [])
          (All-left (IsNear type base) (early ++ s ∷ []) late k') in
      subst (Sorted pos) (sym e') (
        Sorted-insert pos early late s new (subst (Sorted pos) e o) (behind-le s ks.0 t)
          (All-zip late before-le (All-right (IsNear type base) (early ++ s ∷ []) late k') g))
  Pushed-Sorted {before} depth k o f l (at_end e g) = subst (Sorted pos) (sym e) (
      end-Sorted before k f (
        subst (λ n. All (GoesBefore type new) (drop n before)) {x = suc (length before - suc depth)}
          {y = 1} (omega (arith, l)) g))

-- The order of the stream, video by frame and line and audio by sequence number, is kept by a push
-- of a packet that is not older than the second oldest packet in the ring (or than the only one):
-- for a valid ring that has room, holds at most one packet more than the search reaches, and whose
-- packets like the new one are less than 2 ^ 15 numbers behind a base.
pub rb_push-Sorted :
    (rb : RingBuffer) (bytes : List ℕ) (ts base : ℕ)
    → base < 2 ^ 16
    → IsValid rb
    → packet_count rb ≤ suc (max_search_depth rb.type)
    → All (IsNear rb.type base) (contents rb)
    → let new = new_slot rb.type rb.packet_size bytes ts in
      IsNear rb.type base new
      → Sorted (position rb.type base) (contents rb)
      → Fits (position rb.type base) new (contents rb)
      → Sorted (position rb.type base) (contents (rb_push rb bytes ts))
rb_push-Sorted rb bytes ts base hb v l k kn o f = elim (rb_push-Outcome rb bytes ts v) [
  | refused _ e _ ↦ subst (Sorted (position rb.type base)) (sym e) o
  | taken _ _ p _ ↦
      Pushed-Sorted rb.type base (new_slot rb.type rb.packet_size bytes ts) hb kn
        (max_search_depth rb.type) k o f
        (omega (arith, length-segment (view rb) 0 (packet_count rb))) p
]
