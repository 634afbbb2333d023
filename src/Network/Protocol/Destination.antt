-- ===== src/Network/Protocol/Destination.antt =====
-- The IPv4 test of the stream destination against a grammar of dotted texts.
use c64stream.Base.{
  ℕ, ◌+◌, ◌-◌, ◌*◌, ◌≤◌, ◌<◌, ◌≡◌, ◌≢◌, ◌∙◌, sym, ap, subst, ◌⊎◌, ◌↔◌, inl, inr, Bool, true, false,
  false≢true, ◌&&◌, List, [], ◌∷◌, ◌++◌, refl, arith,
}
use mathlib.Core.List.{append-nil}
use c64stream.Base.Bools.{leb, Bool-cases}
use c64stream.Base.Lists.{All}
use c64stream.Network.Protocol.{ipv4_scan, stream_dest_is_ipv4}

abbrev pub IsDigit : ℕ → Type 0
IsDigit ch = (b'0' ≤ ch) × (ch ≤ b'9')

-- The number that digits continue.
unfoldable pub value_from : ℕ → List ℕ → ℕ
value_from v [] = v
value_from v (d ∷ ds) = value_from (v * 10 + (d - b'0')) ds

-- One or more digits, leading zeros allowed, of value at most 255.
pub record IsOctet (ds : List ℕ) : Type 0 where
  pub some_digit : ds ≢ []
  pub digits : All IsDigit ds
  pub fits : value_from 0 ds ≤ 255

-- Four octets with dots between them.
abbrev pub IsDotted : List ℕ → Type 0
IsDotted s =
    (a b c d : List ℕ) × (s ≡ a ++ b'.' ∷ (b ++ b'.' ∷ (c ++ b'.' ∷ d)))
    × IsOctet a
    × IsOctet b
    × IsOctet c
    × IsOctet d

value_from-le : (v : ℕ) (ds : List ℕ) → v ≤ value_from v ds
unfolding value_from
value_from-le v [] = omega arith
value_from-le v (d ∷ ds) = omega (arith, value_from-le (v * 10 + (d - b'0')) ds)

-- Scanning the digits of an octet.
scan-digits :
    (ds rest : List ℕ) (o v : ℕ)
    → All IsDigit ds
    → value_from v ds ≤ 255
    → ipv4_scan (ds ++ rest) o v true ≡ ipv4_scan rest o (value_from v ds) true
unfolding ipv4_scan value_from
scan-digits [] rest o v h k = refl
scan-digits (d ∷ ds) rest o v h k = ground (
  arith,
  h.0,
  value_from-le (v * 10 + (d - b'0')) ds,
  scan-digits ds rest o (v * 10 + (d - b'0')) h.1 k,
)

scan-octet :
    (ds rest : List ℕ) (o : ℕ)
    → IsOctet ds
    → ipv4_scan (ds ++ rest) o 0 false ≡ ipv4_scan rest o (value_from 0 ds) true
unfolding ipv4_scan value_from
scan-octet [] rest o h = absurd (h.some_digit refl)
scan-octet (d ∷ ds) rest o h = ground (
  arith,
  h.digits.0,
  value_from-le (0 * 10 + (d - b'0')) ds,
  scan-digits ds rest o (0 * 10 + (d - b'0')) h.digits.1 h.fits,
)

scan-dot :
    (rest : List ℕ) (o v : ℕ) → ipv4_scan (b'.' ∷ rest) o v true ≡ ipv4_scan rest (o + 1) 0 false
unfolding ipv4_scan
scan-dot rest o v = refl

scan-end : (v : ℕ) → ipv4_scan [] 3 v true ≡ true
unfolding ipv4_scan
scan-end v = refl

-- After a fourth dot nothing is accepted.
scan-many : (s : List ℕ) (o v : ℕ) (b : Bool) → 4 ≤ o → ipv4_scan s o v b ≡ false
unfolding ipv4_scan
scan-many [] o v b h = ground arith
scan-many (ch ∷ s) o v b h =
    ground (
      arith,
      scan-many s o (v * 10 + (ch - b'0')) true h,
      scan-many s (o + 1) 0 false (omega arith),
    )

-- What follows an octet in a text that is accepted: the end after the fourth, or a dot.
abbrev Follows : ℕ → List ℕ → Type 0
Follows o rest =
    (rest ≡ []) × (o ≡ 3)
    ⊎ ((r : List ℕ) × (rest ≡ b'.' ∷ r) × (ipv4_scan r (o + 1) 0 false ≡ true))

record Split (s : List ℕ) (o v : ℕ) (b : Bool) : Type 0 where
  ds : List ℕ
  rest : List ℕ
  whole : s ≡ ds ++ rest
  digits : All IsDigit ds
  some_digit : b ≡ false → ds ≢ []
  fits : value_from v ds ≤ 255
  follows : Follows o rest

end-Split : (o v : ℕ) (b : Bool) → v ≤ 255 → ipv4_scan [] o v b ≡ true → Split [] o v b
unfolding ipv4_scan value_from
end-Split o v b k h = record {
  ds = [];
  rest = [];
  whole = refl;
  digits = tt;
  some_digit = λ e. ground arith;
  fits = k;
  follows = inl (refl, ground arith);
}

dot-Split :
    (ch : ℕ) (s : List ℕ) (o v : ℕ) (b : Bool)
    → v ≤ 255
    → (leb b'0' ch && leb ch b'9') ≡ false
    → ipv4_scan (ch ∷ s) o v b ≡ true
    → Split (ch ∷ s) o v b
unfolding ipv4_scan value_from
dot-Split ch s o v b k n h = record {
  ds = [];
  rest = ch ∷ s;
  whole = refl;
  digits = tt;
  some_digit = λ e. ground arith;
  fits = k;
  follows = inr (s, ground arith, ground arith);
}

digit-Split :
    (ch : ℕ) (s : List ℕ) (o v : ℕ) (b : Bool)
    → IsDigit ch
    → Split s o (v * 10 + (ch - b'0')) true
    → Split (ch ∷ s) o v b
unfolding value_from
digit-Split ch s o v b k p = record {
  ds = ch ∷ p.ds;
  rest = p.rest;
  whole = ap (λ t. ch ∷ t) p.whole;
  digits = (k, p.digits);
  some_digit = λ e f. cc;
  fits = p.fits;
  follows = p.follows;
}

scan-IsDigit :
    (ch : ℕ) (s : List ℕ) (o v : ℕ) (b : Bool)
    → (leb b'0' ch && leb ch b'9') ≡ true
    → ipv4_scan (ch ∷ s) o v b ≡ true
    → IsDigit ch × (v * 10 + (ch - b'0') ≤ 255) × (ipv4_scan s o (v * 10 + (ch - b'0')) true ≡ true)
unfolding ipv4_scan
scan-IsDigit ch s o v b n h = ground arith

scan-Split : (s : List ℕ) (o v : ℕ) (b : Bool) → v ≤ 255 → ipv4_scan s o v b ≡ true → Split s o v b
scan-Split [] o v b k h = end-Split o v b k h
scan-Split (ch ∷ s) o v b k h = elim (Bool-cases (leb b'0' ch && leb ch b'9')) [
  | inl d ↦
      let (i, j, t) = scan-IsDigit ch s o v b d h in
      digit-Split ch s o v b i (scan-Split s o (v * 10 + (ch - b'0')) true j t)
  | inr n ↦ dot-Split ch s o v b k n h
]

-- One octet off a text that is accepted, from its beginning.
first-IsOctet :
    (s : List ℕ) (o : ℕ)
    → ipv4_scan s o 0 false ≡ true
    → (ds rest : List ℕ) × (s ≡ ds ++ rest) × IsOctet ds × Follows o rest
first-IsOctet s o h =
    let p = scan-Split s o 0 false (omega arith) h in
    (
      p.ds,
      p.rest,
      p.whole,
      record { some_digit = p.some_digit refl; digits = p.digits; fits = p.fits },
      p.follows,
    )

next-IsOctet :
    (s : List ℕ) (o : ℕ)
    → o < 3
    → ipv4_scan s o 0 false ≡ true
    → (ds r : List ℕ) × (s ≡ ds ++ b'.' ∷ r) × IsOctet ds × (ipv4_scan r (o + 1) 0 false ≡ true)
next-IsOctet s o lt h =
    let (ds, rest, w, k, f) = first-IsOctet s o h in
    elim f [
      | inl (e, o3) ↦ absurd (omega arith)
      | inr (r, e, t) ↦ (ds, r, w ∙ ap (λ x. ds ++ x) e, k, t)
    ]

last-IsOctet : (s : List ℕ) → ipv4_scan s 3 0 false ≡ true → IsOctet s
last-IsOctet s h =
    let (ds, rest, w, k, f) = first-IsOctet s 3 h in
    elim f [
      | inl (e, o3) ↦ subst IsOctet (sym (w ∙ ap (λ x. ds ++ x) e ∙ append-nil ds)) k
      | inr (r, e, t) ↦ absurd (false≢true (sym (scan-many r 4 0 false (omega arith)) ∙ t))
    ]

scan-IsDotted : (s : List ℕ) → ipv4_scan s 0 0 false ≡ true → IsDotted s
scan-IsDotted s h =
    let (a, r, e, ka, h1) = next-IsOctet s 0 (omega arith) h in
    let (b, r', e', kb, h2) = next-IsOctet r 1 (omega arith) h1 in
    let (c, d, e'', kc, h3) = next-IsOctet r' 2 (omega arith) h2 in
    (
      a,
      b,
      c,
      d,
      e ∙ ap (λ x. a ++ b'.' ∷ x) (e' ∙ ap (λ x. b ++ b'.' ∷ x) e''),
      ka,
      kb,
      kc,
      last-IsOctet d h3,
    )

scan_dotted :
    (a b c d : List ℕ)
    → IsOctet a
    → IsOctet b
    → IsOctet c
    → IsOctet d
    → ipv4_scan (a ++ b'.' ∷ (b ++ b'.' ∷ (c ++ b'.' ∷ d))) 0 0 false ≡ true
scan_dotted a b c d ka kb kc kd =
    scan-octet a (b'.' ∷ (b ++ b'.' ∷ (c ++ b'.' ∷ d))) 0 ka
    ∙ scan-dot (b ++ b'.' ∷ (c ++ b'.' ∷ d)) 0 (value_from 0 a)
    ∙ scan-octet b (b'.' ∷ (c ++ b'.' ∷ d)) 1 kb
    ∙ scan-dot (c ++ b'.' ∷ d) 1 (value_from 0 b)
    ∙ scan-octet c (b'.' ∷ d) 2 kc
    ∙ scan-dot d 2 (value_from 0 c)
    ∙ sym (ap (λ x. ipv4_scan x 3 0 false) (append-nil d))
    ∙ scan-octet d [] 3 kd
    ∙ scan-end (value_from 0 d)

-- The destination test accepts exactly four octets joined by dots.
pub stream_dest_is_ipv4_iff : (s : List ℕ) → (stream_dest_is_ipv4 s ≡ true) ↔ IsDotted s
unfolding stream_dest_is_ipv4
stream_dest_is_ipv4_iff [] = (
  λ h. cc,
  λ (a, b, c, d, e, ka, kb, kc, kd).
      ap (λ x. ipv4_scan x 0 0 false) e ∙ scan_dotted a b c d ka kb kc kd,
)
stream_dest_is_ipv4_iff (ch ∷ s) = (
  scan-IsDotted (ch ∷ s),
  λ (a, b, c, d, e, ka, kb, kc, kd).
      ap (λ x. ipv4_scan x 0 0 false) e ∙ scan_dotted a b c d ka kb kc kd,
)
