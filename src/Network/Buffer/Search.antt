-- ===== src/Network/Buffer/Search.antt =====
-- The backward search of rb_push, by the order of the ring.
use c64stream.Base.{
  ℕ, zero, suc, ◌+◌, ◌≤◌, ◌<◌, ◌≡◌, ◌≢◌, ◌∙◌, sym, ap, subst, inl, inr, true, false, Option, none,
  some, refl, arith,
}
use native.Mathlib.Decide.{ℕ_discrete}
use c64stream.Base.Bools.{if◌then◌else◌, Bool-cases, if-eq_of_true, if-eq_of_false}
use c64stream.Network.Buffer.{
  Slot, RingBuffer, prev_index, packet_count, should_insert_after, search,
}
use c64stream.Network.Buffer.Index.{place, view, IsValid, prev_index-place, packet_count-lt}

module _ (rb : RingBuffer) (new : Slot) where
  search-step :
      (depth cur p : ℕ)
      → prev_index rb.max_capacity cur ≡ p
      → cur ≢ rb.tail
      → p ≢ rb.tail
      → (rb.slots p).valid ≡ true
      → search rb new (suc depth) cur
        ≡ (if should_insert_after rb.type new (rb.slots p) then some cur else search rb new depth p)
  unfolding search
  search-step depth cur p e c t v = rw e (ground arith)

  search-tail :
      (depth cur : ℕ)
      → prev_index rb.max_capacity cur ≡ rb.tail
      → search rb new (suc depth) cur ≡ none
  unfolding search
  search-tail depth cur e = rw e (ground arith)

  search-here : (depth : ℕ) → search rb new depth rb.tail ≡ none
  unfolding search
  search-here zero = refl
  search-here (suc depth) = ground arith

  -- The new packet does not belong behind any of the packets `a`, ..., `b - 1`.
  abbrev pub NoneFrom : ℕ → ℕ → Type 0
  NoneFrom a b = (j : ℕ) → a ≤ j → j < b → should_insert_after rb.type new (view rb j) ≡ false

  -- Nor behind any of the last `depth` packets below place `k`, the oldest left aside.
  abbrev pub NoneNear : ℕ → ℕ → Type 0
  NoneNear depth k =
      (j : ℕ) → 1 ≤ j → k ≤ j + depth → j < k → should_insert_after rb.type new (view rb j) ≡ false

  NoneNear-suc :
      (depth k : ℕ)
      → should_insert_after rb.type new (view rb k) ≡ false
      → NoneNear depth k
      → NoneNear (suc depth) (suc k)
  NoneNear-suc depth k b n j p d q = elim (ℕ_discrete j k) [
    | yes e ↦ subst (λ i. should_insert_after rb.type new (view rb i) ≡ false) (sym e) b
    | no ne ↦ n j p (omega arith) (omega arith)
  ]

  -- The outcome of a search of `depth` steps down from place `k`.
  pub data Searched (depth k : ℕ) (r : Option ℕ) : Type 0 where
    missing : r ≡ none → NoneNear depth k → Searched depth k r
    found :
        (i : ℕ)
        → r ≡ some (place rb.max_capacity rb.tail (suc i))
        → 1 ≤ i
        → suc i ≤ k
        → k ≤ i + depth
        → should_insert_after rb.type new (view rb i) ≡ true
        → NoneFrom (suc i) k
        → Searched depth k r

  NoneFrom-suc :
      (a k : ℕ)
      → should_insert_after rb.type new (view rb k) ≡ false
      → NoneFrom a k
      → NoneFrom a (suc k)
  NoneFrom-suc a k b n j p q = elim (ℕ_discrete j k) [
    | yes e ↦ subst (λ i. should_insert_after rb.type new (view rb i) ≡ false) (sym e) b
    | no ne ↦ n j p (omega arith)
  ]

  extend :
      {depth k : ℕ} {r : Option ℕ}
      → should_insert_after rb.type new (view rb k) ≡ false
      → Searched depth k r
      → Searched (suc depth) (suc k) r
  extend {depth = depth} {k = k} b (missing e n) = missing e (NoneNear-suc depth k b n)
  extend {k = k} b (found i e p q d t n) =
      found i e p (omega arith) (omega arith) t (NoneFrom-suc (suc i) k b n)

  module _ (v : IsValid rb) where
    place-ne-tail :
        (k : ℕ) → suc k < rb.max_capacity → place rb.max_capacity rb.tail (suc k) ≢ rb.tail
    place-ne-tail k h = ground (arith, v.tail_in)

    place-zero : place rb.max_capacity rb.tail 0 ≡ rb.tail
    place-zero = ground (arith, v.tail_in)

    pub search-Searched :
        (depth k : ℕ)
        → k ≤ packet_count rb
        → Searched depth k (search rb new depth (place rb.max_capacity rb.tail k))
    search-Searched zero k h = missing (unfold search in refl) (λ j p l q. absurd (omega arith))
    search-Searched (suc depth) zero h =
        missing (ap (search rb new (suc depth)) place-zero ∙ search-here (suc depth))
          (λ j p l q. absurd (omega arith))
    search-Searched (suc depth) (suc zero) h =
        missing
          (search-tail depth _ (
            prev_index-place rb.max_capacity rb.tail 0 v.tail_in (omega (arith, packet_count-lt v))
            ∙ place-zero))
          (λ j p l q. absurd (omega arith))
    search-Searched (suc depth) (suc (suc k)) h =
        let room = packet_count-lt v in
        let step =
          search-step depth (place rb.max_capacity rb.tail (suc (suc k)))
            (place rb.max_capacity rb.tail (suc k))
            (prev_index-place rb.max_capacity rb.tail (suc k) v.tail_in (omega (arith, room)))
            (place-ne-tail (suc k) (omega (arith, room))) (place-ne-tail k (omega (arith, room)))
            (v.filled (suc k) h) in
        elim (Bool-cases (should_insert_after rb.type new (view rb (suc k)))) [
          | inl b ↦
              found (suc k) (step ∙ if-eq_of_true _ _ b) (omega arith) (omega arith) (omega arith) b
                (λ j p q. absurd (omega arith))
          | inr b ↦
              subst (Searched (suc depth) (suc (suc k))) (sym (step ∙ if-eq_of_false _ _ b))
                (extend b (search-Searched depth (suc k) (omega arith)))
        ]
