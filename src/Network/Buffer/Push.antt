-- ===== src/Network/Buffer/Push.antt =====
-- rb_push against lists: where a new packet goes among the packets of the ring.
use c64stream.Base.{
  ℕ, zero, suc, ◌+◌, ◌-◌, ◌≤◌, ◌<◌, ◌≡◌, ◌≢◌, ◌∙◌, sym, ap, ap₂, subst, true, false, Option, some,
  List, [], ◌∷◌, ◌++◌, refl, arith,
}
use native.Mathlib.Decide.{ℕ_discrete}
use c64stream.Base.Bools.{if-eq_of_true, ==_iff}
use c64stream.Base.Lists.{All, length, drop}
use c64stream.Network.Buffer.{
  Slot, RingBuffer, BufferType, update, packet_count, should_insert_after, search, max_search_depth,
  make_room, insert,
}
use c64stream.Network.Buffer.Index.{
  place, view, segment, contents, IsValid, head-place, segment-append, length-segment, All-segment,
}
use c64stream.Network.Buffer.Search.{Searched, NoneFrom, NoneNear, missing, found, search-Searched}
use c64stream.Network.Buffer.Insert.{
  Opened, contents-Opened, Opened-IsValid, with_slots, insert-make_room, at_head-Opened,
  inside-Opened, make_room-inside,
}

abbrev pub GoesBefore : BufferType → Slot → Slot → Type 0
GoesBefore type new s = should_insert_after type new s ≡ false

-- The list of packets with `new` put in: directly behind the last packet but the oldest that it
-- does not go before, if fewer than `depth` packets are behind that one; or else at the end, where
-- it goes before each of the last `depth` packets, the oldest of all left aside.
pub data Pushed (type : BufferType) (depth : ℕ) (new : Slot) (before after : List Slot)
    : Type 0 where
  behind :
      (early late : List Slot) (s : Slot)
      → before ≡ (early ++ s ∷ []) ++ late
      → after ≡ (early ++ s ∷ []) ++ new ∷ late
      → early ≢ []
      → should_insert_after type new s ≡ true
      → All (GoesBefore type new) late
      → length late < depth
      → Pushed type depth new before after
  at_end :
      after ≡ before ++ new ∷ []
      → All (GoesBefore type new) (drop (suc (length before - suc depth)) before)
      → Pushed type depth new before after

segment-snoc : (g : ℕ → Slot) (i : ℕ) → segment g 0 (suc i) ≡ segment g 0 i ++ g i ∷ []
segment-snoc g i =
    let e : suc i ≡ i + 1 = omega arith in
    ap (segment g 0) e ∙ segment-append g 0 i 1 ∙ ap (λ x. segment g 0 i ++ g x ∷ []) (omega arith)

segment-split :
    (g : ℕ → Slot) (k n : ℕ) → k ≤ n → segment g 0 n ≡ segment g 0 k ++ segment g k (n - k)
segment-split g k n h =
    let e : n ≡ k + (n - k) = omega arith in
    ap (segment g 0) e
    ∙ segment-append g 0 k (n - k)
    ∙ ap (λ x. segment g 0 k ++ segment g x (n - k)) (omega arith)

drop-segment : (g : ℕ → Slot) (k i n : ℕ) → drop k (segment g i n) ≡ segment g (i + k) (n - k)
drop-segment g zero i n = ap₂ (segment g) (omega arith) (omega arith)
drop-segment g (suc k) i zero = ap (segment g (i + suc k)) {x = 0} (omega arith)
drop-segment g (suc k) i (suc n) =
    drop-segment g k (suc i) n ∙ ap₂ (segment g) (omega arith) (omega arith)

segment-ne-nil : (g : ℕ → Slot) (i : ℕ) → 1 ≤ i → segment g 0 i ≢ []
segment-ne-nil g zero h = absurd (omega arith)
segment-ne-nil g (suc i) h = λ e. cc

module _ (rb : RingBuffer) (new : Slot) (v : IsValid rb)
    (room : suc (packet_count rb) < rb.max_capacity) where
  abbrev pub Result : RingBuffer → Type 0
  Result after =
      Pushed rb.type (max_search_depth rb.type) new (contents rb) (contents after)
      × (new.valid ≡ true → IsValid after)

  behind-Pushed :
      (i : ℕ) {after : RingBuffer}
      → 1 ≤ i
      → suc i ≤ packet_count rb
      → should_insert_after rb.type new (view rb i) ≡ true
      → NoneFrom rb new (suc i) (packet_count rb)
      → packet_count rb ≤ i + max_search_depth rb.type
      → Opened rb new (suc i) after
      → Result after
  behind-Pushed i p q t n d o =
      let g = view rb in
      let late = segment g (suc i) (packet_count rb - suc i) in
      (
        behind (segment g 0 i) late (g i)
            (segment-split g (suc i) (packet_count rb) q ∙ ap (λ xs. xs ++ late) (segment-snoc g i))
            (contents-Opened v room o ∙ ap (λ xs. xs ++ new ∷ late) (segment-snoc g i))
            (segment-ne-nil g i p) t
            (All-segment (GoesBefore rb.type new) g (suc i) (packet_count rb - suc i)
              (λ j a b. n j a (omega arith)))
            (omega (arith, d, q, length-segment g (suc i) (packet_count rb - suc i))),
        Opened-IsValid v room o,
      )

  end-Pushed :
      {after : RingBuffer}
      → NoneNear rb new (max_search_depth rb.type) (packet_count rb)
      → Opened rb new (packet_count rb) after
      → Result after
  end-Pushed n o =
      let g = view rb in
      let count = packet_count rb in
      let none_left : count - count ≡ 0 = omega arith in
      (
        at_end
            (contents-Opened v room o
              ∙ ap (λ x. segment g 0 count ++ new ∷ segment g count x) none_left)
            (let past : length (segment g 0 count) ≡ count = length-segment g 0 count in
              let depth = max_search_depth rb.type in
              let k = suc (length (segment g 0 count) - suc depth) in
              subst (All (GoesBefore rb.type new)) (sym (drop-segment g k 0 count)) (
                All-segment (GoesBefore rb.type new) g (0 + k) (count - k)
                  (λ j a b. n j (omega arith) (omega (arith, a, b, past)) (omega (arith, a, b))))),
        Opened-IsValid v room o,
      )

  searched : Option ℕ
  searched = search rb new (max_search_depth rb.type) rb.head

  searched-Searched : Searched rb new (max_search_depth rb.type) (packet_count rb) searched
  unfolding searched
  searched-Searched =
      subst (Searched rb new (max_search_depth rb.type) (packet_count rb))
        (ap (search rb new (max_search_depth rb.type)) (sym (head-place v)))
        (search-Searched rb new v (max_search_depth rb.type) (packet_count rb) (omega arith))

  insert-at_head :
      make_room rb searched ≡ (rb.head, rb.slots)
      → {k : ℕ} → k ≡ packet_count rb
      → Opened rb new k (insert rb new)
  unfolding searched
  insert-at_head e k = subst (Opened rb new _) (sym (insert-make_room rb new v e)) (
      subst (λ j. Opened rb new j (with_slots rb new v (update rb.slots rb.head new))) (sym k)
        (at_head-Opened rb new v))

  make_room-head : {p : ℕ} → p ≡ rb.head → make_room rb (some p) ≡ (rb.head, rb.slots)
  unfolding make_room
  make_room-head e = if-eq_of_true _ _ ((==_iff _ _).1 e)

  insert-found :
      (i : ℕ)
      → searched ≡ some (place rb.max_capacity rb.tail (suc i))
      → suc i ≤ packet_count rb
      → packet_count rb ≤ i + max_search_depth rb.type
      → Opened rb new (suc i) (insert rb new)
  unfolding searched
  insert-found i r q d = elim (ℕ_discrete (suc i) (packet_count rb)) [
    | yes e ↦
        insert-at_head
          (ap (make_room rb) r
            ∙ make_room-head (ap (place rb.max_capacity rb.tail) e ∙ sym (head-place v)))
          e
    | no ne ↦
        subst (Opened rb new (suc i))
          (sym (
            insert-make_room rb new v
              (ap (make_room rb) r ∙ make_room-inside rb new v i (omega arith) d)))
          (inside-Opened rb new v i (omega arith))
  ]

  pub insert-Result : Result (insert rb new)
  insert-Result = elim searched-Searched [
    | missing r n ↦
        end-Pushed n (insert-at_head (ap (make_room rb) r ∙ unfold make_room in refl) refl)
    | found i r p q d t n ↦ behind-Pushed i p q t n d (insert-found i r q d)
  ]
