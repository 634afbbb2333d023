-- ===== src/Network/Buffer/Shed.antt =====
-- The ring without its oldest packet.
use c64stream.Base.{ℕ, suc, ◌<◌, ◌≡◌, ◌≢◌, ◌∙◌, sym, ap, ap₂, ◌∷◌, refl, arith}
use c64stream.Base.Ring.{place-place}
use c64stream.Network.Buffer.{Slot, RingBuffer, update, next_index, packet_count}
use c64stream.Network.Buffer.Index.{
  place, view, segment, contents, IsValid, next_index-place, packet_count-lt, segment-ext,
  update_ne,
}

-- `after` is `before` with the tail moved on, and nothing else changed but the slot at the tail.
pub record Shed (before after : RingBuffer) : Type 0 where
  pub capacity : after.max_capacity ≡ before.max_capacity
  pub head : after.head ≡ before.head
  pub tail : after.tail ≡ next_index before.max_capacity before.tail
  pub rest : (i : ℕ) → before.tail ≢ i → after.slots i ≡ before.slots i

module _ {before after : RingBuffer} (v : IsValid before) (some_left : 0 < packet_count before)
    (o : Shed before after) where
  tail-Shed : after.tail ≡ place before.max_capacity before.tail 1
  tail-Shed =
      o.tail
      ∙ ap (next_index before.max_capacity) (ground (arith, v.tail_in))
      ∙ next_index-place before.max_capacity before.tail 0 v.tail_in (omega (arith, v.tail_in))

  pub packet_count-Shed : suc (packet_count after) ≡ packet_count before
  packet_count-Shed = ground (arith, tail-Shed, o.head, o.capacity, v.tail_in, v.head_in)

  view-Shed : (j : ℕ) → suc j < packet_count before → view after j ≡ view before (suc j)
  view-Shed j l =
      let room = packet_count-lt v in
      let e : place after.max_capacity after.tail j
          ≡ place before.max_capacity before.tail (suc j) =
        ap₂ (λ c t. place c t j) o.capacity tail-Shed
        ∙ place-place before.max_capacity before.tail j v.tail_in (omega (arith, room)) in
      ap after.slots e
      ∙ o.rest (place before.max_capacity before.tail (suc j)) (ground (arith, v.tail_in, room))

  pub contents-Shed : contents before ≡ view before 0 ∷ contents after
  contents-Shed =
      ap (segment (view before) 0) (sym packet_count-Shed)
      ∙ ap (λ xs. view before 0 ∷ xs)
          (segment-ext (view after) (view before) 1 0 (packet_count after) (λ j p q.
            ap (view before) (omega arith) ∙ sym (view-Shed j (omega (arith, packet_count-Shed)))))

  pub Shed-IsValid : IsValid after
  Shed-IsValid = record {
    head_in = omega (arith, o.head, o.capacity, v.head_in);
    tail_in = ground (arith, tail-Shed, o.capacity, v.tail_in);
    filled = λ k l.
        ap (λ s. s.valid) (view-Shed k (omega (arith, packet_count-Shed)))
        ∙ v.filled (suc k) (omega (arith, packet_count-Shed));
  }

-- Moving the tail on, whatever is written to the slot that it leaves.
pub moved-Shed :
    (rb : RingBuffer) (s : Slot)
    → Shed rb
        (record rb { tail = next_index rb.max_capacity rb.tail; slots = update rb.slots rb.tail s })
moved-Shed rb s = record {
  capacity = refl;
  head = refl;
  tail = refl;
  rest = λ i n. update_ne rb.slots rb.tail i s n;
}
