-- ===== src/Base/Ring.antt =====
-- Arrays as functions of the index, places round a ring, and the entries between two of them.
use Prim.Native.Nat.{ℕ, zero, suc, ◌+◌, ◌-◌, ◌%◌, ◌≤◌, ◌<◌}
use mathlib.Core.Path.{◌≡◌, ◌∙◌, ap, ap₂, refl}
use mathlib.Core.Logic.{◌≢◌}
use mathlib.Core.List.{List, [], ◌∷◌, ◌++◌}
use native.Mathlib.Omega.{arith}
use native.Mathlib.Nat.{mod-eq_of_lt, mod_self}
use native.Mathlib.Decide.{dec_lt}
use c64stream.Base.Bools.{ltb, ◌==◌, if◌then◌else◌}
use c64stream.Base.Lists.{All, length}

-- The index `k` places behind `t`.
abbrev pub place : ℕ → ℕ → ℕ → ℕ
place cap t k = if ltb (t + k) cap then t + k else t + k - cap

pub place-lt : (cap t k : ℕ) → t < cap → k ≤ cap → place cap t k < cap
place-lt cap t k h l = ground arith

pub place-inj :
    (cap t i j : ℕ) → t < cap → i < cap → j < cap → i ≢ j → place cap t i ≢ place cap t j
place-inj cap t i j h hi hj ne = ground arith

pub next-place : (cap t k : ℕ) → t < cap → k < cap → (place cap t k + 1) % cap ≡ place cap t (suc k)
next-place cap t k h l = elim (dec_lt (place cap t k + 1) cap) [
  | yes p ↦ mod-eq_of_lt p ∙ ground arith
  | no p ↦
      ap (λ x. x % cap) (ground (arith, place-lt cap t k h (omega arith)))
      ∙ mod_self cap
      ∙ ground arith
]

pub place-place :
    (cap t j : ℕ) → t < cap → suc j < cap → place cap (place cap t 1) j ≡ place cap t (suc j)
place-place cap t j h l = ground arith

module _ {ℓ} {A : Type ℓ} where
  -- The `n` entries from `i` on.
  abbrev pub segment : (ℕ → A) → ℕ → ℕ → List A
  segment g i zero = []
  segment g i (suc n) = g i ∷ segment g (suc i) n

  pub length-segment : (g : ℕ → A) (i n : ℕ) → length (segment g i n) ≡ n
  length-segment g i zero = refl
  length-segment g i (suc n) = ap suc (length-segment g (suc i) n)

  -- Equal entries make equal segments, `d` places apart.
  pub segment-ext :
      (g h : ℕ → A) (d i n : ℕ)
      → ((j : ℕ) → i ≤ j → j < i + n → h (d + j) ≡ g j)
      → segment h (d + i) n ≡ segment g i n
  segment-ext g h d i zero e = refl
  segment-ext g h d i (suc n) e = ap₂ ◌∷◌ (e i (omega arith) (omega arith)) (
      ap (λ x. segment h x n) (omega arith)
      ∙ segment-ext g h d (suc i) n (λ j p q. e j (omega arith) (omega arith)))

  pub segment-cong :
      (g h : ℕ → A) (i n : ℕ)
      → ((j : ℕ) → i ≤ j → j < i + n → h j ≡ g j)
      → segment h i n ≡ segment g i n
  segment-cong g h i zero e = refl
  segment-cong g h i (suc n) e =
      ap₂ ◌∷◌ (e i (omega arith) (omega arith))
        (segment-cong g h (suc i) n (λ j p q. e j (omega arith) (omega arith)))

  pub segment-append :
      (g : ℕ → A) (i m n : ℕ) → segment g i (m + n) ≡ segment g i m ++ segment g (i + m) n
  segment-append g i zero n = ap₂ (segment g) (omega arith) (omega arith)
  segment-append g i (suc m) n =
      let count : suc m + n ≡ suc (m + n) = omega arith in
      let start : suc i + m ≡ i + suc m = omega arith in
      ap (segment g i) count
      ∙ ap (λ xs. g i ∷ xs)
          (segment-append g (suc i) m n ∙ ap (λ x. segment g (suc i) m ++ segment g x n) start)

  pub segment-snoc : (g : ℕ → A) (n : ℕ) → segment g 0 (suc n) ≡ segment g 0 n ++ g n ∷ []
  segment-snoc g n =
      let count : suc n ≡ n + 1 = omega arith in
      let start : 0 + n ≡ n = omega arith in
      ap (segment g 0) count ∙ segment-append g 0 n 1 ∙ ap (λ x. segment g 0 n ++ g x ∷ []) start

pub All-segment {ℓ κ} :
    {A : Type ℓ} (P : A → Type κ) (g : ℕ → A) (i n : ℕ)
    → ((j : ℕ) → i ≤ j → j < i + n → P (g j))
    → All P (segment g i n)
All-segment P g i zero h = tt
All-segment P g i (suc n) h = (
  h i (omega arith) (omega arith),
  All-segment P g (suc i) n (λ j p q. h j (omega arith) (omega arith)),
)

module _ {ℓ} {A : Type ℓ} where
  -- `a[i] = v`.
  unfoldable pub update : (ℕ → A) → ℕ → A → ℕ → A
  update a i v j = if j == i then v else a j

  pub update_self : (s : ℕ → A) (i : ℕ) (v : A) → update s i v i ≡ v
  unfolding update
  update_self s i v = ground arith

  pub update_ne : (s : ℕ → A) (i j : ℕ) (v : A) → i ≢ j → update s i v j ≡ s j
  unfolding update
  update_ne s i j v h = ground arith
