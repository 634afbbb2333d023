-- ===== src/Video/Assemble/Counts.antt =====
-- The lines that are written, counted, and ranges of lines.
use c64stream.Base.{
  ℕ, zero, suc, ◌+◌, ◌*◌, ◌≤◌, ◌<◌, ◌≡◌, ◌∙◌, inl, inr, refl, ap, Bool, true, false, ◌&&◌, none,
  some, arith,
}
use c64stream.Base.Bools.{◌==◌, ltb, leb, if◌then◌else◌, Bool-cases, ltb→lt}
use c64stream.Base.Lists.{All}
use c64stream.Video.Color.{Pixels}
use c64stream.Video.Assemble.{FramePacket, Assembly, pixels_per_line, set_line}
use c64stream.Video.Assemble.Picture.{Line, pixel_or}

abbrev pub is_known : Line → Bool
is_known none = false
is_known (some line) = true

abbrev pub count_lines : (ℕ → Bool) → ℕ → ℕ
count_lines written zero = 0
count_lines written (suc n) = count_lines written n + (if written n then 1 else 0)

-- The bytes of a packet are bytes.
abbrev pub HasBytes : FramePacket → Type 0
HasBytes p = All (λ b. b < 256) p.packet_data

-- The buffer shows `lines`, and what it showed before elsewhere.
pub record Shows (height : ℕ) (old : Pixels) (lines : ℕ → Line) (s : Assembly) : Type 0 where
  pub written : (r : ℕ) → r < height → s.line_written r ≡ is_known (lines r)
  pub pixels :
      (r c : ℕ)
      → r < height
      → c < pixels_per_line
      → s.frame_buffer (r * pixels_per_line + c)
        ≡ pixel_or (lines r) (old (r * pixels_per_line + c)) c
  pub outside : (j : ℕ) → height * pixels_per_line ≤ j → s.frame_buffer j ≡ old j
  pub count : s.lines_written_count ≡ count_lines s.line_written height

abbrev pub put : (ℕ → Line) → ℕ → (ℕ → ℕ) → ℕ → Line
put lines row line r = if r == row then some line else lines r

pub count-set_line-above :
    (written : ℕ → Bool) (row n : ℕ)
    → n ≤ row
    → count_lines (set_line written row) n ≡ count_lines written n
count-set_line-above written row zero h = refl
count-set_line-above written row (suc n) h =
    ground (arith, count-set_line-above written row n (omega arith))

pub count-set_line :
    (written : ℕ → Bool) (row n : ℕ)
    → row < n
    → written row ≡ false
    → count_lines (set_line written row) n ≡ count_lines written n + 1
count-set_line written row zero h w = omega arith
count-set_line written row (suc n) h w = elim (Bool-cases (ltb row n)) [
  | inl l ↦ ground (arith, count-set_line written row n (ltb→lt row n l) w)
  | inr l ↦ grind (arith, count-set_line-above written row n (ground arith), w)
]

-- One more row in front of a range of rows.
pub range_step :
    {A : Type 0} (a b n r : ℕ) (x y z : A)
    → b ≡ a + 1
    → (r ≡ a → y ≡ x)
    → (if leb b r && ltb r (b + n) then x else if r == a then y else z)
      ≡ (if leb a r && ltb r (a + suc n) then x else z)
range_step a b n r x y z e h = grind (arith, h)

pub range_start :
    {A : Type 0} (b : Bool) (a n r : ℕ) (x z : A)
    → b ≡ true
    → (if leb (a + 0) r && ltb r (a + 0 + n) then x else z)
      ≡ (if b && (leb a r && ltb r (a + n)) then x else z)
range_start b a n r x z h = grind (arith, h)

pub merge :
    (o : Line) (b : Bool) (y : ℕ → ℕ) (d : Line)
    → elim o as (λ x. Line) [ some line ↦ some line | none ↦ if b then some y else d ]
      ≡ elim (elim o as (λ x. Line) [ some line ↦ some line | none ↦ if b then some y else none ])
          as (λ x. Line) [ some line ↦ some line | none ↦ d ]
merge (some line) b y d = refl
merge none true y d = refl
merge none false y d = refl

pub ==→eq : (a b : ℕ) → (a == b) ≡ true → a ≡ b
==→eq a b h = ground arith

pub keep : (o : Line) → elim o as (λ x. Line) [ some line ↦ some line | none ↦ none ] ≡ o
keep (some line) = refl
keep none = refl

pub count-none : (n : ℕ) → 0 ≡ count_lines (λ l. false) n
count-none zero = refl
count-none (suc n) = omega (arith, count-none n)

pub count-most : (written : ℕ → Bool) (n : ℕ) → count_lines written n ≤ n
count-most written zero = omega arith
count-most written (suc n) = ground (arith, count-most written n)

-- Where the count says that all lines are written, each is.
pub count-all :
    (written : ℕ → Bool) (n r : ℕ) → count_lines written n ≡ n → r < n → written r ≡ true
count-all written zero r e h = absurd (omega arith)
count-all written (suc n) r e h =
    let most = count-most written n in
    let here : written n ≡ true = ground (arith, most) in
    elim (Bool-cases (r == n)) [
      | inl q ↦ ap written (==→eq r n q) ∙ here
      | inr q ↦ count-all written n r (ground (arith, most)) (ground arith)
    ]
