-- ===== src/Network/Fifo/Queue.antt =====
-- The ring as a bounded queue, one call after another.
use c64stream.Base.{ℕ, suc, ◌+◌, ◌-◌, ◌<◌, ◌≡◌, ◌≢◌, ◌∙◌, sym, ap, ap₂, List, [], ◌∷◌, ◌++◌, arith}
use c64stream.Base.Bools.{leb, if◌then◌else◌}
use c64stream.Base.Ring.{
  update, update_ne, place, place-inj, place-place, next-place, segment, segment-ext, segment-cong,
  segment-snoc,
}
use c64stream.Network.Fifo.{Packet, Fifo, next_index}

abbrev pub count : Fifo → ℕ
count fifo =
    if leb fifo.tail fifo.head then fifo.head - fifo.tail else fifo.capacity - fifo.tail + fifo.head

abbrev pub view : Fifo → ℕ → Packet
view fifo k = fifo.entries (place fifo.capacity fifo.tail k)

-- The packets in the ring, oldest first.
abbrev pub contents : Fifo → List Packet
contents fifo = segment (view fifo) 0 (count fifo)

pub record IsValid (fifo : Fifo) : Type 0 where
  pub head_in : fifo.head < fifo.capacity
  pub tail_in : fifo.tail < fifo.capacity

module _ {fifo : Fifo} (v : IsValid fifo) where
  pub count-lt : count fifo < fifo.capacity
  count-lt = ground (arith, v.head_in, v.tail_in)

  pub head-place : fifo.head ≡ place fifo.capacity fifo.tail (count fifo)
  head-place = ground (arith, v.head_in, v.tail_in)

  next_index-head :
      next_index fifo.capacity fifo.head ≡ place fifo.capacity fifo.tail (suc (count fifo))
  next_index-head =
      ap (next_index fifo.capacity) head-place
      ∙ next-place fifo.capacity fifo.tail (count fifo) v.tail_in count-lt

  next_index-tail : next_index fifo.capacity fifo.tail ≡ place fifo.capacity fifo.tail 1
  next_index-tail =
      ap (next_index fifo.capacity) (ground (arith, v.tail_in))
      ∙ next-place fifo.capacity fifo.tail 0 v.tail_in (omega (arith, v.tail_in))

  pub count-full : next_index fifo.capacity fifo.head ≡ fifo.tail → suc (count fifo) ≡ fifo.capacity
  count-full e = ground (arith, e, next_index-head, v.tail_in, count-lt)

  pub count-room : next_index fifo.capacity fifo.head ≢ fifo.tail → suc (count fifo) < fifo.capacity
  count-room ne = let e = next_index-head in ground (arith, e, v.tail_in, count-lt)

  -- What is written to the free slot at the head is not seen.
  pub contents-write :
      (p : Packet)
      → contents (record fifo { entries = update fifo.entries fifo.head p }) ≡ contents fifo
  contents-write p =
      segment-cong (view fifo) (view (record fifo { entries = update fifo.entries fifo.head p })) 0
        (count fifo)
        (λ j _ l. update_ne fifo.entries fifo.head (place fifo.capacity fifo.tail j) p (λ e.
          place-inj fifo.capacity fifo.tail (count fifo) j v.tail_in count-lt
            (omega (arith, count-lt)) (omega arith) (sym head-place ∙ e)))

  pub count-publish :
      next_index fifo.capacity fifo.head ≢ fifo.tail
      → count (record fifo { head = next_index fifo.capacity fifo.head }) ≡ suc (count fifo)
  count-publish ne = ground (arith, next_index-head, count-room ne, v.tail_in)

  pub contents-publish :
      next_index fifo.capacity fifo.head ≢ fifo.tail
      → contents (record fifo { head = next_index fifo.capacity fifo.head })
        ≡ contents fifo ++ fifo.entries fifo.head ∷ []
  contents-publish ne =
      ap (segment (view fifo) 0) (count-publish ne)
      ∙ segment-snoc (view fifo) (count fifo)
      ∙ ap (λ i. contents fifo ++ fifo.entries i ∷ []) (sym head-place)

  abbrev committed : Fifo
  committed = record fifo { tail = next_index fifo.capacity fifo.tail }

  pub count-commit : fifo.head ≢ fifo.tail → suc (count committed) ≡ count fifo
  count-commit ne = ground (arith, next_index-tail, v.tail_in, v.head_in)

  pub contents-commit :
      fifo.head ≢ fifo.tail → contents fifo ≡ fifo.entries fifo.tail ∷ contents committed
  contents-commit ne =
      let here : place fifo.capacity fifo.tail 0 ≡ fifo.tail = ground (arith, v.tail_in) in
      ap (segment (view fifo) 0) (sym (count-commit ne))
      ∙ ap₂ (λ i xs. fifo.entries i ∷ xs) here
          (segment-ext (view committed) (view fifo) 1 0 (count committed) (λ j p q.
            let behind : 1 + j ≡ suc j = omega arith in
            let inside : suc j < fifo.capacity = omega (arith, count-lt, count-commit ne) in
            ap fifo.entries (
              ap (place fifo.capacity fifo.tail) behind
              ∙ sym (place-place fifo.capacity fifo.tail j v.tail_in inside)
              ∙ ap (λ t. place fifo.capacity t j) (sym next_index-tail))))

  pub publish-IsValid : IsValid (record fifo { head = next_index fifo.capacity fifo.head })
  publish-IsValid = record {
    head_in = ground (arith, next_index-head, count-lt, v.tail_in);
    tail_in = v.tail_in;
  }

  pub commit-IsValid : IsValid (record fifo { tail = next_index fifo.capacity fifo.tail })
  commit-IsValid = record {
    head_in = v.head_in;
    tail_in = ground (arith, next_index-tail, v.tail_in);
  }

  -- A pop keeps the room that a push has seen.
  pub commit-room :
      fifo.head ≢ fifo.tail
      → next_index fifo.capacity fifo.head ≢ next_index fifo.capacity fifo.tail
  commit-room ne e =
      ground (arith, e, ne, next_index-head, next_index-tail, v.tail_in, v.head_in, count-lt)
