-- ===== src/Video/Assemble/Interpolate.antt =====
-- The second pass, and both together.
use c64stream.Base.{
  ℕ, zero, suc, ◌+◌, ◌*◌, ◌≤◌, ◌<◌, ◌≡◌, ◌∙◌, ◌⊎◌, inl, inr, refl, ap, subst, sym, true, false,
  false≢true, ◌&&◌, Option, none, some, arith,
}
use c64stream.Base.Bools.{
  ◌==◌, ltb, leb, Bool-cases, Option-cases, if-split, if-eq_of_true, if-eq_of_false,
}
use c64stream.Video.Color.{Pixels}
use c64stream.Video.Assemble.{Assembly, pixels_per_line, copy_line, source_of, interpolate}
use c64stream.Video.Assemble.Picture.{Line, line_above, pixel_or}
use c64stream.Video.Assemble.Counts.{is_known, Shows, ==→eq}

-- What `last_valid_line` and `have_last_valid` say of the lines above `line`.
abbrev pub LastOf : (ℕ → Line) → ℕ → Option ℕ → Type 0
LastOf lines line none = line_above lines line ≡ none
LastOf lines line (some l) = (l < line) × (line_above lines (suc l) ≡ line_above lines line)

pub some≢none : {known : ℕ → ℕ} → ¬ (some known ≡ none)
some≢none e = false≢true (ap is_known (sym e))

pub line_above-known :
    (lines : ℕ → Line) (n : ℕ) (known : ℕ → ℕ)
    → lines n ≡ some known
    → line_above lines (suc n) ≡ some known
line_above-known lines n known e =
    ap (λ (o : Line). elim o as (λ x. Line) [ some line ↦ some line | none ↦ line_above lines n ]) e

pub line_above-missing :
    (lines : ℕ → Line) (n : ℕ) → lines n ≡ none → line_above lines (suc n) ≡ line_above lines n
line_above-missing lines n e =
    ap (λ (o : Line). elim o as (λ x. Line) [ some line ↦ some line | none ↦ line_above lines n ]) e

pub line_above-none :
    (lines : ℕ → Line) (n r : ℕ) → line_above lines n ≡ none → r < n → lines r ≡ none
line_above-none lines zero r e h = absurd (omega arith)
line_above-none lines (suc n) r e h = elim (Option-cases (lines n)) [
  | inl q ↦ elim (Bool-cases (r == n)) [
    | inl b ↦ ap lines (==→eq r n b) ∙ q
    | inr b ↦ line_above-none lines n r (sym (line_above-missing lines n q) ∙ e) (ground arith)
  ]
  | inr (known, q) ↦ absurd (some≢none (sym (line_above-known lines n known q) ∙ e))
]

pub add-suc : (n : ℕ) → n + 1 ≡ suc n
add-suc n = omega arith

pub known-some : (o : Line) → is_known o ≡ true → (known : ℕ → ℕ) × (o ≡ some known)
known-some none e = absurd (false≢true e)
known-some (some known) e = (known, refl)

pub unknown-none : (o : Line) → is_known o ≡ false → o ≡ none
unknown-none none e = refl
unknown-none (some known) e = absurd (false≢true (sym e))

pub none_at_top :
    (lines : ℕ → Line) (line : ℕ)
    → line_above lines line ≡ none
    → lines line ≡ none
    → lines 0 ≡ none
none_at_top lines zero q e = e
none_at_top lines (suc line) q e = line_above-none lines (suc line) 0 q (omega arith)

pub copy_line-to :
    (b : Pixels) (from to c : ℕ)
    → c < pixels_per_line
    → copy_line b from to (to * pixels_per_line + c) ≡ b (from * pixels_per_line + c)
unfolding copy_line
copy_line-to b from to c h =
    if-eq_of_true
      {b = leb (to * pixels_per_line) (to * pixels_per_line + c)
        && ltb (to * pixels_per_line + c) (to * pixels_per_line + pixels_per_line)}
      _ _ (ground arith)
    ∙ ap (λ x. b (from * pixels_per_line + x)) (omega arith)

pub copy_line-other :
    (b : Pixels) (from to j : ℕ)
    → j < to * pixels_per_line ⊎ to * pixels_per_line + pixels_per_line ≤ j
    → copy_line b from to j ≡ b j
unfolding copy_line
copy_line-other b from to j h =
    if-eq_of_false
      {b = leb (to * pixels_per_line) j && ltb j (to * pixels_per_line + pixels_per_line)} _ _
      (ground arith)

module _ (height : ℕ) (old : Pixels) (lines : ℕ → Line) (s : Assembly)
    (now : Shows height old lines s) where
  -- Behind the lines above `line`.
  pub record Filled (line : ℕ) (buffer : Pixels) : Type 0 where
    pub done :
        (r c : ℕ)
        → r < line
        → c < pixels_per_line
        → buffer (r * pixels_per_line + c) ≡ pixel_or (line_above lines (suc r)) (old c) c
    pub rest : (j : ℕ) → line * pixels_per_line ≤ j → buffer j ≡ s.frame_buffer j
    pub first : (c : ℕ) → c < pixels_per_line → buffer c ≡ pixel_or (lines 0) (old c) c

  -- The next line is there.
  pub keep-Filled :
      (line : ℕ) (buffer : Pixels) (known : ℕ → ℕ)
      → line < height
      → lines line ≡ some known
      → Filled line buffer
      → Filled (line + 1) buffer
  keep-Filled line buffer known h e f = record {
    done = λ r c l k. elim (Bool-cases (r == line)) [
      | inl b ↦
          let q = ==→eq r line b in
          ap (λ x. buffer (x * pixels_per_line + c)) q
          ∙ f.rest (line * pixels_per_line + c) (omega arith)
          ∙ now.pixels line c h k
          ∙ ap (λ x. pixel_or x (old (line * pixels_per_line + c)) c) e
          ∙ sym (
              ap (λ x. pixel_or x (old c) c)
                (ap (λ x. line_above lines (suc x)) q ∙ line_above-known lines line known e))
      | inr b ↦ f.done r c (ground arith) k
    ];
    rest = λ j l. f.rest j (omega arith);
    first = f.first;
  }

  -- The line that is copied.
  pub source-shown :
      (line : ℕ) (last : Option ℕ) (buffer : Pixels) (c : ℕ)
      → c < pixels_per_line
      → LastOf lines line last
      → lines line ≡ none
      → Filled line buffer
      → buffer (source_of last * pixels_per_line + c) ≡ pixel_or (line_above lines line) (old c) c
  source-shown line none buffer c k q e f =
      ap buffer (omega arith)
      ∙ f.first c k
      ∙ ap (λ x. pixel_or x (old c) c) (none_at_top lines line q e ∙ sym q)
  source-shown line (some l) buffer c k (h, q) e f =
      f.done l c h k ∙ ap (λ x. pixel_or x (old c) c) q

  pub first-kept :
      (line : ℕ) (last : Option ℕ) (buffer : Pixels) (c : ℕ)
      → c < pixels_per_line
      → LastOf lines line last
      → copy_line buffer (source_of last) line c ≡ buffer c
  first-kept zero none buffer c k q =
      ap (copy_line buffer 0 0) (omega arith)
      ∙ copy_line-to buffer 0 0 c k
      ∙ ap buffer (omega arith)
  first-kept zero (some l) buffer c k q = absurd (omega arith)
  first-kept (suc line) last buffer c k q =
      copy_line-other buffer (source_of last) (suc line) c (inl (omega arith))

  pub copy-Filled :
      (line : ℕ) (last : Option ℕ) (buffer : Pixels)
      → LastOf lines line last
      → lines line ≡ none
      → Filled line buffer
      → Filled (line + 1) (copy_line buffer (source_of last) line)
  copy-Filled line last buffer o e f =
      let from = source_of last in
      record {
        done = λ r c l k. elim (Bool-cases (r == line)) [
          | inl b ↦
              let q = ==→eq r line b in
              ap (λ x. copy_line buffer from line (x * pixels_per_line + c)) q
              ∙ copy_line-to buffer from line c k
              ∙ source-shown line last buffer c k o e f
              ∙ sym (
                  ap (λ x. pixel_or x (old c) c)
                    (ap (λ x. line_above lines (suc x)) q ∙ line_above-missing lines line e))
          | inr b ↦
              copy_line-other buffer from line (r * pixels_per_line + c) (ground arith)
              ∙ f.done r c (ground arith) k
        ];
        rest = λ j l. copy_line-other buffer from line j (ground arith) ∙ f.rest j (omega arith);
        first = λ c k. first-kept line last buffer c k o ∙ f.first c k;
      }

  pub LastOf-next :
      (line : ℕ) (last : Option ℕ)
      → lines line ≡ none
      → LastOf lines line last
      → LastOf lines (line + 1) last
  LastOf-next line none q o =
      ap (line_above lines) (add-suc line) ∙ line_above-missing lines line q ∙ o
  LastOf-next line (some l) q (h, o) = (
    omega arith,
    o ∙ sym (ap (line_above lines) (add-suc line) ∙ line_above-missing lines line q),
  )

  -- Behind the loop all lines are filled.
  pub interpolate-Filled :
      (n line : ℕ) (last : Option ℕ) (buffer : Pixels)
      → line + n ≡ height
      → LastOf lines line last
      → Filled line buffer
      → Filled height (interpolate s.line_written n line last buffer)
  unfolding interpolate
  interpolate-Filled zero line last buffer e o f = subst (λ x. Filled x buffer) (omega arith) f
  interpolate-Filled (suc n) line last buffer e o f =
      let h : line < height = omega arith in
      if-split (λ (b : Pixels). Filled height b) (s.line_written line)
        (λ w.
          let (known, q) = known-some (lines line) (sym (now.written line h) ∙ w) in
          interpolate-Filled n (line + 1) (some line) buffer (omega arith)
            (omega arith, ap (line_above lines) (sym (add-suc line)))
            (keep-Filled line buffer known h q f))
        (λ w.
          let q = unknown-none (lines line) (sym (now.written line h) ∙ w) in
          interpolate-Filled n (line + 1) last (copy_line buffer (source_of last) line)
            (omega arith) (LastOf-next line last q o) (copy-Filled line last buffer o q f))
