-- ===== src/Network/Buffer/Drain.antt =====
-- What the pop hands out and what it leaves.
use c64stream.Base.{
  ℕ, suc, ◌-◌, ◌≤◌, ◌<◌, ◌≡◌, ◌≢◌, ◌∙◌, sym, ap, subst, Bool, true, Option, none, some, List, [],
  ◌∷◌, refl, arith,
}
use native.Mathlib.Decide.{ℕ_discrete, dec_le}
use c64stream.Base.Bools.{
  leb, if◌then◌else◌, if-eq_of_true, if-eq_of_false, ==_iff, ==-ne, le→leb, lt→leb-false,
}
use c64stream.Base.Words.{sub64}
use c64stream.Network.Buffer.{Slot, RingBuffer, packet_count, rb_pop_oldest_locked}
use c64stream.Network.Buffer.Index.{view, segment, contents, IsValid, update_ne}
use c64stream.Network.Buffer.Shed.{Shed, contents-Shed, Shed-IsValid}
use c64stream.Network.Buffer.Delay.{pop_ready, is_packet_ready_for_pop}

-- How long a packet has been in the ring, by the clock's 64 bits.
abbrev pub age : ℕ → Slot → ℕ
age now_us s = sub64 now_us s.timestamp_us

-- The pop of one ring at time `now_us`.
pub data Drained (rb : RingBuffer) (now_us : ℕ) (r : Option Slot × RingBuffer) : Type 0 where
  empty : contents rb ≡ [] → r ≡ (none, rb) → Drained rb now_us r
  too_young :
      (x : Slot) (xs : List Slot)
      → contents rb ≡ x ∷ xs
      → age now_us x < rb.delay_us
      → r ≡ (none, rb)
      → Drained rb now_us r
  handed_out :
      (x : Slot) (xs : List Slot)
      → contents rb ≡ x ∷ xs
      → rb.delay_us ≤ age now_us x
      → r.0 ≡ some x
      → contents r.1 ≡ xs
      → IsValid r.1
      → Drained rb now_us r

-- The copy that is handed out is the packet.
copy-eq : (s : Slot) → s.valid ≡ true → record s { valid = true } ≡ s
copy-eq s e = ap (λ (b : Bool). record s { valid = b }) (sym e)

module _ (rb : RingBuffer) (now_us : ℕ) (v : IsValid rb) where
  pub view-zero : view rb 0 ≡ rb.slots rb.tail
  view-zero = ap rb.slots (ground (arith, v.tail_in))

  empty-tail : packet_count rb ≡ 0 → rb.head ≡ rb.tail
  empty-tail e = ground (arith, v.tail_in, v.head_in)

  pub head-ne-tail : packet_count rb ≢ 0 → rb.head ≢ rb.tail
  head-ne-tail ne e = ne (ground (arith, e))

  pop_oldest-eq :
      rb.head ≢ rb.tail
      → (rb.slots rb.tail).valid ≡ true
      → ((rb_pop_oldest_locked rb).0 ≡ some (view rb 0)) × Shed rb (rb_pop_oldest_locked rb).1
  unfolding rb_pop_oldest_locked
  pop_oldest-eq ne e = rw (==-ne rb.head rb.tail ne) (
    ap some (copy-eq (rb.slots rb.tail) e ∙ sym view-zero),
    record {
      capacity = refl;
      head = refl;
      tail = refl;
      rest = λ i n. update_ne rb.slots rb.tail i _ n;
    },
  )

  pub oldest-valid : packet_count rb ≢ 0 → (rb.slots rb.tail).valid ≡ true
  oldest-valid ne = sym (ap (λ s. s.valid) view-zero) ∙ v.filled 0 (omega (arith, ne))

  pop_ready-empty : rb.head ≡ rb.tail → pop_ready rb now_us ≡ (none, rb)
  unfolding pop_ready
  pop_ready-empty e = if-eq_of_true _ _ ((==_iff rb.head rb.tail).1 e)

  pop_ready-at_tail :
      packet_count rb ≢ 0
      → pop_ready rb now_us ≡ (
          if leb rb.delay_us (age now_us (rb.slots rb.tail))
          then rb_pop_oldest_locked rb
          else (none, rb))
  unfolding pop_ready is_packet_ready_for_pop
  pop_ready-at_tail ne = rw (==-ne rb.head rb.tail (head-ne-tail ne), oldest-valid ne) refl

  handed-out :
      packet_count rb ≢ 0
      → rb.delay_us ≤ age now_us (rb.slots rb.tail)
      → Drained rb now_us (rb_pop_oldest_locked rb)
  handed-out ne old =
      let (same, shed) = pop_oldest-eq (head-ne-tail ne) (oldest-valid ne) in
      let left : 0 < packet_count rb = omega (arith, ne) in
      handed_out (view rb 0) (contents (rb_pop_oldest_locked rb).1) (contents-Shed v left shed)
        (subst (λ s. rb.delay_us ≤ age now_us s) (sym view-zero) old) same refl
        (Shed-IsValid v left shed)

  -- The pop of one ring hands out its oldest packet, once that is as old as the delay, and leaves
  -- the others as they are; until then, and on an empty ring, it changes nothing.
  pub pop_ready-Drained : Drained rb now_us (pop_ready rb now_us)
  pop_ready-Drained = elim (ℕ_discrete (packet_count rb) 0) [
    | yes e ↦ empty (ap (segment (view rb) 0) e) (pop_ready-empty (empty-tail e))
    | no ne ↦ elim (dec_le rb.delay_us (age now_us (rb.slots rb.tail))) [
      | yes old ↦
          subst (Drained rb now_us)
            (sym (pop_ready-at_tail ne ∙ if-eq_of_true _ _ (le→leb _ _ old))) (handed-out ne old)
      | no young ↦
          let more : packet_count rb ≡ suc (packet_count rb - 1) = omega (arith, ne) in
          too_young (view rb 0) (segment (view rb) 1 (packet_count rb - 1))
            (ap (segment (view rb) 0) more)
            (subst (λ s. age now_us s < rb.delay_us) (sym view-zero) (omega (arith, young)))
            (pop_ready-at_tail ne
              ∙ if-eq_of_false _ _
                  (lt→leb-false rb.delay_us (age now_us (rb.slots rb.tail)) (omega (arith, young))))
    ]
  ]
