-- ===== src/Network/Buffer/Accept.antt =====
-- rb_push as a whole: its guards, the start of the sequence, the insertion.
use c64stream.Base.{
  ℕ, suc, ◌≤◌, ◌<◌, ◌≡◌, ◌≢◌, ◌⊎◌, inl, inr, ◌∙◌, sym, ap, subst, true, List, refl, arith,
}
use native.Mathlib.Decide.{ℕ_discrete, dec_lt}
use c64stream.Base.Bools.{
  if-either, ◌==◌, if◌then◌else◌, if-eq_of_true, if-eq_of_false, not-ltb, ==_iff, lt→ltb, ==-ne,
}
use c64stream.Base.Lists.{length}
use c64stream.Network.Buffer.{
  RingBuffer, next_index, packet_count, max_search_depth, insert, rb_push, new_slot, init_sequence,
  min_header_size, word16,
}
use c64stream.Network.Buffer.Index.{
  place, contents, IsValid, packet_count-lt, head-place, next_index-place,
}
use c64stream.Network.Buffer.Push.{Pushed, insert-Result}

next_index-tail :
    {rb : RingBuffer}
    → IsValid rb
    → suc (packet_count rb) ≡ rb.max_capacity
    → next_index rb.max_capacity rb.head ≡ rb.tail
next_index-tail {rb} v e =
    ap (next_index rb.max_capacity) (head-place v)
    ∙ next_index-place rb.max_capacity rb.tail (packet_count rb) v.tail_in (packet_count-lt v)
    ∙ ground (arith, e, v.tail_in)

next_index-ne-tail :
    {rb : RingBuffer}
    → IsValid rb
    → suc (packet_count rb) < rb.max_capacity
    → next_index rb.max_capacity rb.head ≢ rb.tail
next_index-ne-tail {rb} v h e =
    let same : place rb.max_capacity rb.tail (suc (packet_count rb)) ≡ rb.tail =
      sym (next_index-place rb.max_capacity rb.tail (packet_count rb) v.tail_in (packet_count-lt v))
      ∙ ap (next_index rb.max_capacity) (sym (head-place v))
      ∙ e in
    ground (arith, v.tail_in, same)

-- The outcome of a push when the ring before it, as far as its packets go, was `rb`.
pub data Outcome (rb : RingBuffer) (bytes : List ℕ) (ts : ℕ) (after : RingBuffer) : Type 0 where
  refused :
      (length bytes < min_header_size rb.type) ⊎ (suc (packet_count rb) ≡ rb.max_capacity)
      → contents after ≡ contents rb
      → IsValid after
      → Outcome rb bytes ts after
  taken :
      min_header_size rb.type ≤ length bytes
      → suc (packet_count rb) < rb.max_capacity
      → Pushed rb.type
          (max_search_depth rb.type)
          (new_slot rb.type rb.packet_size bytes ts)
          (contents rb)
          (contents after)
      → IsValid after
      → Outcome rb bytes ts after

abbrev behind_guards : RingBuffer → List ℕ → ℕ → RingBuffer
behind_guards r bytes ts =
    if next_index r.max_capacity r.head == r.tail
    then r
    else insert r (new_slot r.type r.packet_size bytes ts)

behind_guards-Outcome :
    (r : RingBuffer) (bytes : List ℕ) (ts : ℕ)
    → IsValid r
    → min_header_size r.type ≤ length bytes
    → Outcome r bytes ts (behind_guards r bytes ts)
behind_guards-Outcome r bytes ts v h = elim (ℕ_discrete (suc (packet_count r)) r.max_capacity) [
  | yes e ↦
      subst (Outcome r bytes ts) (sym (if-eq_of_true _ _ ((==_iff _ _).1 (next_index-tail v e))))
        (refused (inr e) refl v)
  | no ne ↦
      let room : suc (packet_count r) < r.max_capacity = omega (arith, packet_count-lt v) in
      let new = new_slot r.type r.packet_size bytes ts in
      let (p, w) = insert-Result r new v room in
      subst (Outcome r bytes ts) (sym (if-eq_of_false _ _ (==-ne _ _ (next_index-ne-tail v room))))
        (taken h room p (w (unfold new_slot in refl)))
]

module _ (rb : RingBuffer) (bytes : List ℕ) (ts : ℕ) (v : IsValid rb) where
  abbrev started : RingBuffer
  started = record rb { next_expected_seq = word16 bytes 0; seq_initialized = true }

  started-IsValid : IsValid started
  started-IsValid = record { head_in = v.head_in; tail_in = v.tail_in; filled = v.filled }

  started-Outcome :
      {after : RingBuffer} → Outcome started bytes ts after → Outcome rb bytes ts after
  started-Outcome (refused r c w) = refused r c w
  started-Outcome (taken h m p w) = taken h m p w

  rb_push-short : length bytes < min_header_size rb.type → rb_push rb bytes ts ≡ rb
  unfolding rb_push
  rb_push-short s = if-eq_of_true _ _ (lt→ltb _ _ s)

  rb_push-long :
      min_header_size rb.type ≤ length bytes
      → rb_push rb bytes ts ≡ behind_guards (init_sequence rb (word16 bytes 0)) bytes ts
  unfolding rb_push
  rb_push-long h = if-eq_of_false _ _ (not-ltb _ _ h)

  -- A push keeps the ring valid. A packet that is too short, or that meets a full ring, changes no
  -- packet of it. Any other is put in directly behind the last packet, except the oldest, that it
  -- does not go before, if fewer packets than the depth of the search are behind that one, or else
  -- at the end, where it goes before each of the last packets up to that depth, the oldest left
  -- aside. No other packet is lost or moved past another.
  pub rb_push-Outcome : Outcome rb bytes ts (rb_push rb bytes ts)
  rb_push-Outcome = elim (dec_lt (length bytes) (min_header_size rb.type)) [
    | yes s ↦ subst (Outcome rb bytes ts) (sym (rb_push-short s)) (refused (inl s) refl v)
    | no ns ↦
        let h : min_header_size rb.type ≤ length bytes = omega arith in
        subst (Outcome rb bytes ts) (sym (rb_push-long h)) (
          if-either (λ r. Outcome rb bytes ts (behind_guards r bytes ts)) rb.seq_initialized
            (behind_guards-Outcome rb bytes ts v h)
            (started-Outcome (behind_guards-Outcome started bytes ts started-IsValid h)))
  ]
