-- ===== src/Network/Buffer/Late.antt =====
-- A late packet that rb_push leaves out of order.
use c64stream.Base.{
  ℕ, suc, ◌^◌, ◌≤◌, ◌<◌, ◌≡◌, inl, inr, ◌∙◌, sym, ap, subst, false≢true, List, [], ◌∷◌, ◌++◌, refl,
  arith,
}
use c64stream.Base.Bools.{lt→leb-false}
use c64stream.Base.Lists.{All, All-left, All-right, All-zip, length, drop}
use c64stream.Network.Buffer.{
  Slot, RingBuffer, BufferType, packet_count, max_search_depth, rb_push, new_slot, min_header_size,
}
use c64stream.Network.Buffer.Index.{contents, IsValid}
use c64stream.Network.Buffer.Push.{Pushed, behind, at_end, GoesBefore}
use c64stream.Network.Buffer.Order.{position, IsNear, Sorted, should_insert_after-position}
use c64stream.Network.Buffer.Accept.{refused, taken, rb_push-Outcome}

Pushed-late :
    (type : BufferType) (depth : ℕ) (new : Slot) {before after : List Slot}
    → All (GoesBefore type new) (drop 1 before)
    → Pushed type depth new before after
    → after ≡ before ++ new ∷ []
Pushed-late type depth new a (at_end e g) = e
Pushed-late type depth new a (behind [] late s e e' ne t g l) = absurd (ne refl)
Pushed-late type depth new a (behind (x ∷ early) late s e e' ne t g l) =
    let inner = subst (λ xs. All (GoesBefore type new) (drop 1 xs)) e a in
    let last =
      All-right (GoesBefore type new) early (s ∷ [])
        (All-left (GoesBefore type new) (early ++ s ∷ []) late inner) in
    absurd (false≢true (sym last.0 ∙ t))

not-Sorted-end :
    (pos : Slot → ℕ) (new y : Slot) (r : List Slot)
    → All (λ s. pos new < pos s) (y ∷ r)
    → ¬ Sorted pos ((y ∷ r) ++ new ∷ [])
not-Sorted-end pos new y [] a h = absurd (omega (arith, a.0, h.0))
not-Sorted-end pos new y (z ∷ r) a h = not-Sorted-end pos new z r a.1 h.1

lt-GoesBefore :
    (type : BufferType) (base : ℕ) (new s : Slot)
    → base < 2 ^ 16
    → IsNear type base new
    → IsNear type base s
    → position type base new < position type base s
    → GoesBefore type new s
lt-GoesBefore type base new s hb hn k p =
    should_insert_after-position type base new s hb hn k
    ∙ lt→leb-false (position type base s) (position type base new) p

-- The search stops one packet short of the oldest: a packet that belongs before all others but
-- the oldest of a ring with two or more, as one that comes late does, is put at the end, and the
-- ring is out of order. The ring is valid and has room, the packet has a whole header, and the
-- numbers, the oldest packet's left aside, are less than 2 ^ 15 behind a base.
pub rb_push_late-unsorted :
    (rb : RingBuffer) (bytes : List ℕ) (ts base : ℕ) (x y : Slot) (r : List Slot)
    → base < 2 ^ 16
    → IsValid rb
    → min_header_size rb.type ≤ length bytes
    → suc (packet_count rb) < rb.max_capacity
    → contents rb ≡ x ∷ y ∷ r
    → let new = new_slot rb.type rb.packet_size bytes ts in
      IsNear rb.type base new
      → All (IsNear rb.type base) (y ∷ r)
      → All (λ s. position rb.type base new < position rb.type base s) (y ∷ r)
      → (contents (rb_push rb bytes ts) ≡ contents rb ++ new ∷ [])
        × ¬ Sorted (position rb.type base) (contents (rb_push rb bytes ts))
rb_push_late-unsorted rb bytes ts base x y r hb v hl room e hn k p =
    elim (rb_push-Outcome rb bytes ts v) [
      | refused (inl s) _ _ ↦ absurd (omega arith)
      | refused (inr s) _ _ ↦ absurd (omega arith)
      | taken _ _ q _ ↦
          let new = new_slot rb.type rb.packet_size bytes ts in
          let late : All (GoesBefore rb.type new) (y ∷ r) =
            All-zip (y ∷ r) (λ s n l. lt-GoesBefore rb.type base new s hb hn n l) k p in
          let e' =
            Pushed-late rb.type (max_search_depth rb.type) new
              (subst (λ xs. All (GoesBefore rb.type new) (drop 1 xs)) (sym e) late) q in
          (
            e',
            λ h.
                not-Sorted-end (position rb.type base) new y r p
                  (subst (Sorted (position rb.type base)) (e' ∙ ap (λ xs. xs ++ new ∷ []) e) h).1,
          )
    ]
