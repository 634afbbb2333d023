-- ===== src/Script/Compiler/Patches.antt =====
-- Labels, and patches of instructions that are not the newest.
use c64stream.Base.{
  zero, ℕ, suc, ◌<◌, ◌≤◌, ◌≡◌, ◌∙◌, sym, ap, subst, Bool, true, false, false≢true, Option, none,
  some, List, [], ◌∷◌, refl, arith, ◌^◌, ◌%◌,
}
use c64stream.Base.Bools.{◌==◌, if◌then◌else◌, if-split, if-either, if-eq_of_true, ==_iff}
use c64stream.Base.Bytes.{same_text, same_text-eq}
use c64stream.Base.Lists.{length, take}
use c64stream.Script.Opcode.{Opcode, Instruction}
use c64stream.Script.Compiler.{
  Label, Patch, truncated, or_else, get_label_address, set_operand, patch_one, patch_all,
}
use c64stream.Script.Compiler.Passes.{jump_before, plain_before}

-- Every label that one table has, another has too, at the same address.
abbrev pub Extends : List Label → List Label → Type 0
Extends ls more =
    (name : List ℕ) (a : ℕ)
    → get_label_address ls name ≡ some a
    → get_label_address more name ≡ some a

-- The names of the labels are as they are stored.
abbrev pub AreShort : List Label → Type 0
AreShort [] = Unit
AreShort (l ∷ ls) = (truncated l.name ≡ l.name) × AreShort ls

pub take-take : (n : ℕ) (xs : List ℕ) → take n (take n xs) ≡ take n xs
take-take zero xs = refl
take-take (suc n) [] = refl
take-take (suc n) (x ∷ xs) = ap (λ ys. x ∷ ys) (take-take n xs)

pub or_else-found : (o other : Option ℕ) (a : ℕ) → o ≡ some a → or_else o other ≡ some a
or_else-found o other a e = ap (λ p. or_else p other) e

abbrev is_given : Option ℕ → Bool
is_given none = false
is_given (some a) = true

pub found_name :
    (ls : List Label) (name : List ℕ) (a : ℕ)
    → AreShort ls
    → get_label_address ls name ≡ some a
    → truncated name ≡ name
unfolding get_label_address
found_name [] name a h e = absurd (false≢true (ap is_given e))
found_name (l ∷ ls) name a h e =
    by_first (get_label_address ls name) refl (λ b. found_name ls name b h.1) e
  where
    by_first :
        (o : Option ℕ)
        → get_label_address ls name ≡ o
        → ((b : ℕ) → get_label_address ls name ≡ some b → truncated name ≡ name)
        → or_else o (if same_text l.name name then some l.address else none) ≡ some a
        → truncated name ≡ name
    by_first (some b) found shorter = λ e. shorter b found
    by_first none found shorter =
        if-split (λ (o : Option ℕ). o ≡ some a → truncated name ≡ name) (same_text l.name name)
          (λ same _. subst (λ n. truncated n ≡ n) (same_text-eq l.name name same) h.0)
          (λ _ e. absurd (false≢true (ap is_given e)))

-- All patches are of instructions before the n-th.
abbrev pub IsBelow : ℕ → List Patch → Type 0
IsBelow n [] = Unit
IsBelow n (p ∷ ps) = (p.instruction_index < n) × IsBelow n ps

pub IsBelow-more : (n m : ℕ) (ps : List Patch) → n ≤ m → IsBelow n ps → IsBelow m ps
IsBelow-more n m [] le h = tt
IsBelow-more n m (p ∷ ps) le h = (omega (arith, le, h.0), IsBelow-more n m ps le h.1)

length-set_operand : (xs : List Instruction) (i a : ℕ) → length (set_operand xs i a) ≡ length xs
unfolding set_operand
length-set_operand [] i a = refl
length-set_operand (x ∷ xs) i a =
    if-either (λ ys. length {A = Instruction} ys ≡ suc (length xs)) (i == length xs) refl
      (ap suc (length-set_operand xs i a))

-- A result of `n` instructions, if any.
abbrev pub HasLength : ℕ → Option (List Instruction) → Type 0
HasLength n none = Unit
HasLength n (some xs) = length xs ≡ n

patch_one-HasLength :
    (a : Option ℕ) (i n : ℕ) (r : Option (List Instruction))
    → HasLength n r
    → HasLength n (patch_one a i r)
patch_one-HasLength a i n none h = tt
patch_one-HasLength none i n (some xs) h = tt
patch_one-HasLength (some a) i n (some xs) h = length-set_operand xs i (a % 2 ^ 32) ∙ h

pub patch_all-HasLength :
    (labels : List Label) (ps : List Patch) (xs : List Instruction)
    → HasLength (length xs) (patch_all labels ps xs)
unfolding patch_all
patch_all-HasLength labels [] xs = refl
patch_all-HasLength labels (p ∷ ps) xs =
    patch_one-HasLength (get_label_address labels p.label) p.instruction_index (length xs) _
      (patch_all-HasLength labels ps xs)

patch_one-plain_before :
    (x : Instruction) (a : Option ℕ) (i n : ℕ) (r : Option (List Instruction))
    → i < n
    → HasLength n r
    → patch_one a i (plain_before x r) ≡ plain_before x (patch_one a i r)
unfolding set_operand
patch_one-plain_before x a i n none lt h = refl
patch_one-plain_before x none i n (some xs) lt h = refl
patch_one-plain_before x (some a) i n (some xs) lt h =
    if-split (λ (ys : List Instruction). some ys ≡ some (x ∷ set_operand xs i (a % 2 ^ 32)))
      (i == length xs) (λ e. ground (arith, e, lt, h)) (λ _. refl)

pub patch_all-plain_before :
    (labels : List Label) (ps : List Patch) (x : Instruction) (xs : List Instruction)
    → IsBelow (length xs) ps
    → patch_all labels ps (x ∷ xs) ≡ plain_before x (patch_all labels ps xs)
unfolding patch_all
patch_all-plain_before labels [] x xs h = refl
patch_all-plain_before labels (p ∷ ps) x xs h =
    ap (patch_one (get_label_address labels p.label) p.instruction_index)
      (patch_all-plain_before labels ps x xs h.1)
    ∙ patch_one-plain_before x (get_label_address labels p.label) p.instruction_index (length xs) _
        h.0 (patch_all-HasLength labels ps xs)

pub jump_before-some :
    (op : Opcode) (line a : ℕ) (r : Option (List Instruction))
    → plain_before (record { opcode = op; operand = a % 2 ^ 32; source_line = line }) r
      ≡ jump_before op line (some a) r
jump_before-some op line a none = refl
jump_before-some op line a (some xs) = refl

pub patch_newest :
    (op : Opcode) (line n : ℕ) (a : Option ℕ) (r : Option (List Instruction))
    → HasLength n r
    → patch_one a n (plain_before (record { opcode = op; operand = 0; source_line = line }) r)
      ≡ jump_before op line a r
unfolding set_operand
patch_newest op line n a none h = refl
patch_newest op line n none (some xs) h = refl
patch_newest op line n (some a) (some xs) h =
    ap some (if-eq_of_true _ _ ((==_iff n (length xs)).1 (sym h)))
