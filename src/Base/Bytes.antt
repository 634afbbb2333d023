-- ===== src/Base/Bytes.antt =====
-- Strings as the bytes before their terminating zero.
use Prim.Native.Nat.{ℕ, ◌-◌}
use mathlib.Core.Path.{◌≡◌, refl, ap₂}
use mathlib.Core.Bool.{Bool, true, false, false≢true, ◌&&◌}
use mathlib.Core.List.{List, [], ◌∷◌}
use c64stream.Base.Bools.{◌==◌, ==_iff, leb, if◌then◌else◌}

-- `!strcmp(a, b)`.
unfoldable pub same_text : List ℕ → List ℕ → Bool
same_text [] [] = true
same_text [] (y ∷ ys) = false
same_text (x ∷ xs) [] = false
same_text (x ∷ xs) (y ∷ ys) = x == y && same_text xs ys

pub same_text_refl : (xs : List ℕ) → same_text xs xs ≡ true
unfolding same_text
same_text_refl [] = refl
same_text_refl (x ∷ xs) = rw ((==_iff x x).1 refl, same_text_refl xs) refl

pub both-true : (a b : Bool) → (a && b) ≡ true → (a ≡ true) × (b ≡ true)
both-true true b e = (refl, e)
both-true false b e = absurd (false≢true e)

pub same_text-eq : (xs ys : List ℕ) → same_text xs ys ≡ true → xs ≡ ys
unfolding same_text
same_text-eq [] [] e = refl
same_text-eq [] (y ∷ ys) e = absurd (false≢true e)
same_text-eq (x ∷ xs) [] e = absurd (false≢true e)
same_text-eq (x ∷ xs) (y ∷ ys) e =
    let (h, t) = both-true (x == y) (same_text xs ys) e in
    ap₂ ◌∷◌ ((==_iff x y).0 h) (same_text-eq xs ys t)

-- `toupper` in the C locale.
abbrev pub to_upper : ℕ → ℕ
to_upper c = if leb 97 c && leb c 122 then c - 32 else c
