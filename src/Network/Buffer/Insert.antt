-- ===== src/Network/Buffer/Insert.antt =====
-- rb_push: the list of packets in the ring before and after.
use c64stream.Base.{
  ℕ, zero, suc, ◌+◌, ◌-◌, ◌≤◌, ◌<◌, ◌≡◌, ◌≢◌, ◌∙◌, sym, ap, ap₂, subst, true, some, ◌∷◌, ◌++◌, refl,
  arith,
}
use native.Mathlib.Decide.{ℕ_discrete, dec_lt}
use c64stream.Base.Bools.{if-eq_of_false, ==-ne, not-ltb}
use c64stream.Network.Buffer.{
  Slot, RingBuffer, update, next_index, packet_count, search, clear_slot, shift_down,
  shift_distance, max_search_depth, make_room, insert,
}
use c64stream.Network.Buffer.Index.{
  place, view, segment, contents, IsValid, next_index-place, place-inj, place-lt, packet_count-lt,
  head-place, segment-ext, segment-append, update_self, update_ne,
}
use c64stream.Network.Buffer.Shift.{shift-other, shift-moved}

-- `after` is `before` with the slot `new` put in at place `k`, and one packet more.
pub record Opened (before : RingBuffer) (new : Slot) (k : ℕ) (after : RingBuffer) : Type 0 where
  pub within : k ≤ packet_count before
  pub capacity : after.max_capacity ≡ before.max_capacity
  pub tail : after.tail ≡ before.tail
  pub head : after.head ≡ next_index before.max_capacity before.head
  pub below : (j : ℕ) → j < k → view after j ≡ view before j
  pub here : view after k ≡ new
  pub above : (j : ℕ) → k ≤ j → j < packet_count before → view after (suc j) ≡ view before j

module _ {before after : RingBuffer} {new : Slot} {k : ℕ} (v : IsValid before)
    (room : suc (packet_count before) < before.max_capacity) (o : Opened before new k after) where
  packet_count-Opened : packet_count after ≡ suc (packet_count before)
  packet_count-Opened =
      let e : after.head ≡ place before.max_capacity before.tail (suc (packet_count before)) =
        o.head
        ∙ ap (next_index before.max_capacity) (head-place v)
        ∙ next_index-place before.max_capacity before.tail (packet_count before) v.tail_in
            (packet_count-lt v) in
      ground (arith, e, o.tail, o.capacity, v.tail_in, v.head_in)

  pub contents-Opened :
      contents after
      ≡ segment (view before) 0 k ++ new ∷ segment (view before) k (packet_count before - k)
  contents-Opened =
      let n = packet_count before in
      let total : packet_count after ≡ k + suc (n - k) =
        packet_count-Opened ∙ omega (arith, o.within) in
      let upper : segment (view after) (suc (0 + k)) (n - k) ≡ segment (view before) k (n - k) =
        ap (λ x. segment (view after) x (n - k)) (omega arith)
        ∙ segment-ext (view before) (view after) 1 k (n - k)
            (λ j p q. ap (view after) (omega arith) ∙ o.above j p (omega (arith, o.within))) in
      let lower : segment (view after) 0 k ≡ segment (view before) 0 k =
        segment-ext (view before) (view after) 0 0 k
          (λ j p q. ap (view after) (omega arith) ∙ o.below j (omega arith)) in
      let middle : view after (0 + k) ≡ new = ap (view after) (omega arith) ∙ o.here in
      ap (segment (view after) 0) total
      ∙ segment-append (view after) 0 k (suc (n - k))
      ∙ ap₂ (λ xs ys. xs ++ ys) lower (ap₂ ◌∷◌ middle upper)

  head-Opened : after.head ≡ place before.max_capacity before.tail (suc (packet_count before))
  head-Opened =
      o.head
      ∙ ap (next_index before.max_capacity) (head-place v)
      ∙ next_index-place before.max_capacity before.tail (packet_count before) v.tail_in
          (packet_count-lt v)

  filled-Opened : new.valid ≡ true → (j : ℕ) → j < packet_count after → (view after j).valid ≡ true
  filled-Opened nv zero l = elim (ℕ_discrete k 0) [
    | yes e ↦ subst (λ i. (view after i).valid ≡ true) e (ap (λ s. s.valid) o.here ∙ nv)
    | no ne ↦ ap (λ s. s.valid) (o.below 0 (omega arith)) ∙ v.filled 0 (omega (arith, o.within))
  ]
  filled-Opened nv (suc j) l = elim (dec_lt (suc j) k) [
    | yes p ↦ ap (λ s. s.valid) (o.below (suc j) p) ∙ v.filled (suc j) (omega (arith, o.within))
    | no np ↦ elim (ℕ_discrete k (suc j)) [
      | yes e ↦ subst (λ i. (view after i).valid ≡ true) e (ap (λ s. s.valid) o.here ∙ nv)
      | no ne ↦
          let m : j < packet_count before = omega (arith, packet_count-Opened) in
          ap (λ s. s.valid) (o.above j (omega arith) m) ∙ v.filled j m
    ]
  ]

  pub Opened-IsValid : new.valid ≡ true → IsValid after
  Opened-IsValid nv = record {
    head_in = ground (
      arith,
      head-Opened,
      o.capacity,
      place-lt before.max_capacity before.tail (suc (packet_count before)) v.tail_in,
    );
    tail_in = omega (arith, o.tail, o.capacity, v.tail_in);
    filled = filled-Opened nv;
  }

module _ (rb : RingBuffer) (new : Slot) (v : IsValid rb) where
  abbrev pub with_slots : (ℕ → Slot) → RingBuffer
  with_slots s = record rb { slots = s; head = next_index rb.max_capacity rb.head }

  pub insert-make_room :
      {p : ℕ} {s : ℕ → Slot}
      → make_room rb (search rb new (max_search_depth rb.type) rb.head) ≡ (p, s)
      → insert rb new ≡ with_slots (update s p new)
  unfolding insert
  insert-make_room e = ap (λ m. with_slots (update m.1 m.0 new)) e

  pub at_head-Opened : Opened rb new (packet_count rb) (with_slots (update rb.slots rb.head new))
  at_head-Opened =
      let cap = rb.max_capacity in
      let n = packet_count rb in
      record {
        within = omega arith;
        capacity = refl;
        tail = refl;
        head = refl;
        below = λ j l. update_ne rb.slots rb.head (place cap rb.tail j) new (λ e.
            place-inj cap rb.tail n j v.tail_in (packet_count-lt v)
              (omega (arith, packet_count-lt v)) (omega arith) (sym (head-place v) ∙ e));
        here =
            ap (update rb.slots rb.head new) (sym (head-place v))
            ∙ update_self rb.slots rb.head new;
        above = λ j l m. absurd (omega arith);
      }

  module _ (i : ℕ) (low : suc i < packet_count rb) where
    abbrev pub target : ℕ
    target = place rb.max_capacity rb.tail (suc i)

    abbrev pub hollow : ℕ → Slot
    hollow = update rb.slots rb.head (clear_slot (rb.slots rb.head))

    abbrev pub shifted : ℕ → Slot
    shifted = shift_down rb.max_capacity (packet_count rb - suc i) rb.head hollow

    hollow-below :
        (j : ℕ) → j < packet_count rb → hollow (place rb.max_capacity rb.tail j) ≡ view rb j
    hollow-below j l = update_ne rb.slots rb.head (place rb.max_capacity rb.tail j) _ (λ e.
        place-inj rb.max_capacity rb.tail (packet_count rb) j v.tail_in (packet_count-lt v)
          (omega (arith, packet_count-lt v)) (omega arith) (sym (head-place v) ∙ e))

    shifted-place :
        (j : ℕ)
        → shifted (place rb.max_capacity rb.tail j)
          ≡ shift_down rb.max_capacity
              (packet_count rb - suc i)
              (place rb.max_capacity rb.tail (packet_count rb))
              hollow
              (place rb.max_capacity rb.tail j)
    shifted-place j =
        ap
          (λ h.
            shift_down rb.max_capacity (packet_count rb - suc i) h hollow
              (place rb.max_capacity rb.tail j))
          (head-place v)

    target-ne : (j : ℕ) → j < rb.max_capacity → j ≢ suc i → target ≢ place rb.max_capacity rb.tail j
    target-ne j l ne =
        place-inj rb.max_capacity rb.tail (suc i) j v.tail_in (omega (arith, packet_count-lt v)) l
          (λ e. ne (sym e))

    pub inside-Opened : Opened rb new (suc i) (with_slots (update shifted target new))
    inside-Opened =
        let room = packet_count-lt v in
        record {
          within = omega arith;
          capacity = refl;
          tail = refl;
          head = refl;
          below = λ j l.
              update_ne shifted target (place rb.max_capacity rb.tail j) new
                (target-ne j (omega (arith, room)) (omega arith))
              ∙ shifted-place j
              ∙ shift-other rb.max_capacity rb.tail v.tail_in (packet_count rb - suc i)
                  (packet_count rb) j hollow (omega arith) room (omega (arith, room)) (omega arith)
              ∙ hollow-below j (omega arith);
          here = update_self shifted target new;
          above = λ j l m.
              update_ne shifted target (place rb.max_capacity rb.tail (suc j)) new
                (target-ne (suc j) (omega (arith, room)) (omega arith))
              ∙ shifted-place (suc j)
              ∙ shift-moved rb.max_capacity rb.tail v.tail_in (packet_count rb - suc i)
                  (packet_count rb) j hollow (omega arith) room (omega arith) m
              ∙ hollow-below j m;
        }

    shift_distance-inside : shift_distance rb.max_capacity rb.head target ≡ packet_count rb - suc i
    shift_distance-inside = ground (arith, v.tail_in, v.head_in)

    target-ne-head : target ≢ rb.head
    target-ne-head e =
        target-ne (packet_count rb) (packet_count-lt v) (omega arith) (e ∙ head-place v)

    pub make_room-inside :
        packet_count rb ≤ i + max_search_depth rb.type
        → make_room rb (some target) ≡ (target, shifted)
    unfolding make_room
    make_room-inside d =
        if-eq_of_false _ _ (==-ne target rb.head target-ne-head)
        ∙ if-eq_of_false _ _ (
            not-ltb (max_search_depth rb.type) (shift_distance rb.max_capacity rb.head target)
              (omega (arith, shift_distance-inside)))
        ∙ ap (λ n. (target, shift_down rb.max_capacity n rb.head hollow)) shift_distance-inside
