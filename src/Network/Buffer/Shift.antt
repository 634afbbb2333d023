-- ===== src/Network/Buffer/Shift.antt =====
-- The swap loop of rb_push: it moves a run of slots up by one place.
use c64stream.Base.{ℕ, zero, suc, ◌+◌, ◌≤◌, ◌<◌, ◌≡◌, ◌≢◌, ◌⊎◌, ◌∙◌, sym, ap, subst, refl, arith}
use native.Mathlib.Decide.{ℕ_discrete}
use c64stream.Network.Buffer.{Slot, update, shift_down}
use c64stream.Network.Buffer.Index.{place, prev_index-place, place-inj, update_self, update_ne}

module _ (cap t : ℕ) (ht : t < cap) where
  abbrev at : ℕ → ℕ
  at = place cap t

  -- One round: the hole and the slot below it change places.
  abbrev swapped : ℕ → (ℕ → Slot) → ℕ → Slot
  swapped k s = update (update s (at (suc k)) (s (at k))) (at k) (s (at (suc k)))

  swapped-other :
      (k j : ℕ) (s : ℕ → Slot)
      → suc k < cap
      → j < cap
      → j ≢ k
      → j ≢ suc k
      → swapped k s (at j) ≡ s (at j)
  swapped-other k j s h l a b =
      update_ne (update s (at (suc k)) (s (at k))) (at k) (at j) (s (at (suc k)))
        (place-inj cap t k j ht (omega arith) l (λ e. a (sym e)))
      ∙ update_ne s (at (suc k)) (at j) (s (at k))
          (place-inj cap t (suc k) j ht h l (λ e. b (sym e)))

  swapped-top : (k : ℕ) (s : ℕ → Slot) → suc k < cap → swapped k s (at (suc k)) ≡ s (at k)
  swapped-top k s h =
      update_ne (update s (at (suc k)) (s (at k))) (at k) (at (suc k)) (s (at (suc k)))
        (place-inj cap t k (suc k) ht (omega arith) h (λ e. absurd (omega arith)))
      ∙ update_self s (at (suc k)) (s (at k))

  shift-suc :
      (n k : ℕ) (s : ℕ → Slot)
      → suc k < cap
      → shift_down cap (suc n) (at (suc k)) s ≡ shift_down cap n (at k) (swapped k s)
  unfolding shift_down
  shift-suc n k s h = rw (prev_index-place cap t k ht (omega arith))

  -- The places above the start and those that the loop does not reach are left alone.
  pub shift-other :
      (n k j : ℕ) (s : ℕ → Slot)
      → n ≤ k
      → k < cap
      → j < cap
      → (j + n < k) ⊎ (k < j)
      → shift_down cap n (at k) s (at j) ≡ s (at j)
  shift-other zero k j s u h l o = unfold shift_down in refl
  shift-other (suc n) zero j s u h l o = absurd (omega arith)
  shift-other (suc n) (suc k) j s u h l o =
      ap (λ f. f (at j)) (shift-suc n k s h)
      ∙ shift-other n k j (swapped k s) (omega arith) (omega arith) l (omega arith)
      ∙ swapped-other k j s h l (omega arith) (omega arith)

  -- The slots of the places that it passes move up by one.
  pub shift-moved :
      (n k j : ℕ) (s : ℕ → Slot)
      → n ≤ k
      → k < cap
      → k ≤ j + n
      → j < k
      → shift_down cap n (at k) s (at (suc j)) ≡ s (at j)
  shift-moved zero k j s u h l o = absurd (omega arith)
  shift-moved (suc n) zero j s u h l o = absurd (omega arith)
  shift-moved (suc n) (suc k) j s u h l o =
      ap (λ f. f (at (suc j))) (shift-suc n k s h) ∙ elim (ℕ_discrete j k) [
        | yes e ↦ subst Moved (sym e) top
        | no ne ↦
            shift-moved n k j (swapped k s) (omega arith) (omega arith) (omega arith) (omega arith)
            ∙ swapped-other k j s h (omega arith) ne (omega arith)
      ]
    where
      Moved : ℕ → Type 0
      Moved i = shift_down cap n (at k) (swapped k s) (at (suc i)) ≡ s (at i)

      top : Moved k
      top =
          shift-other n k (suc k) (swapped k s) (omega arith) (omega arith) h (omega arith)
          ∙ swapped-top k s h
