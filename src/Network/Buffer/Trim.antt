-- ===== src/Network/Buffer/Trim.antt =====
-- What a shorter delay discards, and what it leaves.
use c64stream.Base.{
  ℕ, zero, suc, ◌+◌, ◌-◌, ◌≤◌, ◌<◌, ◌≡◌, ◌≢◌, ◌∙◌, sym, ap, subst, true, false, ◌∷◌, refl, arith,
}
use mathlib.Core.List.{map}
use c64stream.Base.Bools.{ltb, ◌==◌, lt→ltb, ==-ne}
use c64stream.Base.Lists.{drop}
use c64stream.Network.Buffer.{Slot, RingBuffer, update, next_index, packet_count}
use c64stream.Network.Buffer.Index.{
  place, view, segment, contents, IsValid, packet_count-lt, place-lt, segment-ext,
}
use c64stream.Network.Buffer.Shed.{contents-Shed, Shed-IsValid, moved-Shed, packet_count-Shed}
use c64stream.Network.Buffer.Drain.{head-ne-tail, oldest-valid}
use c64stream.Network.Buffer.Delay.{wipe_slot, discard_oldest, retimestamp}

-- `after` is `rb` without its `n` oldest packets.
pub record Trimmed (rb : RingBuffer) (n : ℕ) (after : RingBuffer) : Type 0 where
  pub valid : IsValid after
  pub kept : contents after ≡ drop n (contents rb)
  pub delay : after.delay_us ≡ rb.delay_us

-- One round of the loop.
abbrev round : RingBuffer → RingBuffer
round rb = record rb {
  tail = next_index rb.max_capacity rb.tail;
  slots = update rb.slots rb.tail (wipe_slot rb.packet_size (rb.slots rb.tail));
}

discard_oldest-suc :
    (fuel left : ℕ) (rb : RingBuffer)
    → IsValid rb
    → packet_count rb ≢ 0
    → discard_oldest (suc fuel) (suc left) rb ≡ discard_oldest fuel left (round rb)
unfolding discard_oldest
discard_oldest-suc fuel left rb v ne =
    let apart : (rb.tail == rb.head) ≡ false =
      ==-ne rb.tail rb.head (λ e. head-ne-tail rb 0 v ne (sym e)) in
    let some_left : (suc left == 0) ≡ false = ==-ne (suc left) 0 (omega arith) in
    let fewer : suc left - 1 ≡ left = omega arith in
    rw (some_left, apart, oldest-valid rb 0 v ne) (ap (λ l. discard_oldest fuel l (round rb)) fewer)

discard_oldest-zero : (fuel : ℕ) (rb : RingBuffer) → discard_oldest fuel 0 rb ≡ rb
unfolding discard_oldest
discard_oldest-zero zero rb = refl
discard_oldest-zero (suc fuel) rb = refl

-- Fuel and packets are enough.
pub discard_oldest-Trimmed :
    (fuel left : ℕ) (rb : RingBuffer)
    → IsValid rb
    → left ≤ packet_count rb
    → left ≤ fuel
    → Trimmed rb left (discard_oldest fuel left rb)
discard_oldest-Trimmed fuel zero rb v l f =
    subst (Trimmed rb 0) (sym (discard_oldest-zero fuel rb))
      (record { valid = v; kept = refl; delay = refl })
discard_oldest-Trimmed zero (suc left) rb v l f = absurd (omega arith)
discard_oldest-Trimmed (suc fuel) (suc left) rb v l f =
    let shed = moved-Shed rb (wipe_slot rb.packet_size (rb.slots rb.tail)) in
    let some_left : 0 < packet_count rb = omega arith in
    let rest =
      discard_oldest-Trimmed fuel left (round rb) (Shed-IsValid v some_left shed)
        (omega (arith, packet_count-Shed v some_left shed)) (omega arith) in
    subst (Trimmed rb (suc left)) (sym (discard_oldest-suc fuel left rb v (omega arith))) (record {
      valid = rest.valid;
      kept = rest.kept ∙ ap (drop (suc left)) (sym (contents-Shed v some_left shed));
      delay = rest.delay;
    })

abbrev pub stamp : ℕ → Slot → Slot
stamp ready s = record s { timestamp_us = ready }

segment-map :
    (f : Slot → Slot) (g : ℕ → Slot) (i n : ℕ) → segment (λ k. f (g k)) i n ≡ map f (segment g i n)
segment-map f g i zero = refl
segment-map f g i (suc n) = ap (λ xs. f (g i) ∷ xs) (segment-map f g (suc i) n)

view-retimestamp :
    (ready : ℕ) (rb : RingBuffer)
    → IsValid rb
    → (k : ℕ) → k < packet_count rb
    → view (retimestamp ready rb) k ≡ stamp ready (view rb k)
unfolding retimestamp
view-retimestamp ready rb v k l =
    let i = place rb.max_capacity rb.tail k in
    let inside : ltb i rb.max_capacity ≡ true =
      lt→ltb i rb.max_capacity
        (place-lt rb.max_capacity rb.tail k v.tail_in (omega (arith, packet_count-lt v))) in
    rw (inside, v.filled k l) refl

-- Every packet has the new timestamp, and nothing else of it changes.
pub contents-retimestamp :
    (ready : ℕ) (rb : RingBuffer)
    → IsValid rb
    → contents (retimestamp ready rb) ≡ map (stamp ready) (contents rb)
unfolding retimestamp
contents-retimestamp ready rb v =
    segment-ext (λ k. stamp ready (view rb k)) (view (retimestamp ready rb)) 0 0 (packet_count rb)
      (λ j p q.
        let e : 0 + j ≡ j = omega arith in
        ap (view (retimestamp ready rb)) e ∙ view-retimestamp ready rb v j (omega arith))
    ∙ segment-map (stamp ready) (view rb) 0 (packet_count rb)

pub retimestamp-IsValid :
    (ready : ℕ) (rb : RingBuffer) → IsValid rb → IsValid (retimestamp ready rb)
unfolding retimestamp
retimestamp-IsValid ready rb v = record {
  head_in = v.head_in;
  tail_in = v.tail_in;
  filled = λ k l. ap (λ s. s.valid) (view-retimestamp ready rb v k l) ∙ v.filled k l;
}
