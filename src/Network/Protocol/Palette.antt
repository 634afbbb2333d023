-- ===== src/Network/Protocol/Palette.antt =====
-- The runtime palette packet: its parser against the device's layout.
use c64stream.Base.{
  false, ◌↔◌, sym, ℕ, zero, suc, ◌+◌, ◌*◌, ◌/◌, ◌%◌, ◌^◌, ◌≤◌, ◌<◌, ◌≡◌, ◌∙◌, ap, ap₂, inl, inr,
  Bool, true, ◌&&◌, none, some, List, [], ◌∷◌, refl, arith,
}
use Prim.Native.Nat.add
use mathlib.Core.Option.{some-injective, none-ne-some}
use c64stream.Base.Bools.{◌==◌, Bool-cases}
use c64stream.Base.Lists.{All, drop, length, get_or}
use c64stream.Network.Protocol.{
  palette_packet_size, color_of, read_colors, has_palette_header, parse_palette_packet,
}

unfoldable pub payload : List (ℕ × ℕ × ℕ) → List ℕ
payload [] = []
payload ((r, g, b) ∷ cs) = r ∷ g ∷ b ∷ payload cs

-- A palette packet as the device lays it out: generation, two free bytes, marker, sixteen colors.
unfoldable pub encode : ℕ → ℕ → ℕ → List (ℕ × ℕ × ℕ) → List ℕ
unfolding payload
encode generation x y colors =
    generation % 256
    ∷ generation / 256
    ∷ x
    ∷ y
    ∷ 239
    ∷ 0
    ∷ 0x80
    ∷ 0x01
    ∷ 1
    ∷ 4
    ∷ 1
    ∷ 0
    ∷ payload colors

-- The words of colors: red is the lowest byte, then green and blue, and the highest byte is 255.
abbrev pub colors_of : List (ℕ × ℕ × ℕ) → List ℕ
colors_of [] = []
colors_of ((r, g, b) ∷ cs) = (0xFF * 2 ^ 24 + b * 2 ^ 16 + g * 2 ^ 8 + r) ∷ colors_of cs

length-payload : (cs : List (ℕ × ℕ × ℕ)) → length (payload cs) ≡ 3 * length cs
unfolding payload
length-payload [] = refl
length-payload ((r, g, b) ∷ cs) = omega (arith, length-payload cs)

read_colors-cons :
    (x : ℕ) (xs : List ℕ) (n at : ℕ) → read_colors (x ∷ xs) n (suc at) ≡ read_colors xs n at
unfolding read_colors
read_colors-cons x xs zero at = refl
read_colors-cons x xs (suc n) at = simp add.suc (rw (read_colors-cons x xs n (at + 3)))

color_of-eq : (r g b : ℕ) → color_of r g b ≡ 0xFF * 2 ^ 24 + b * 2 ^ 16 + g * 2 ^ 8 + r
unfolding color_of
color_of-eq r g b = omega arith

read_colors-payload :
    (cs : List (ℕ × ℕ × ℕ)) → read_colors (payload cs) (length cs) 0 ≡ colors_of cs
unfolding read_colors payload
read_colors-payload [] = refl
read_colors-payload ((r, g, b) ∷ cs) = ap₂ ◌∷◌ (color_of-eq r g b) (
    read_colors-cons r (g ∷ b ∷ payload cs) (length cs) 2
    ∙ read_colors-cons g (b ∷ payload cs) (length cs) 1
    ∙ read_colors-cons b (payload cs) (length cs) 0
    ∙ read_colors-payload cs)

read_colors-encode :
    (generation x y : ℕ) (cs : List (ℕ × ℕ × ℕ))
    → length cs ≡ 16
    → read_colors (encode generation x y cs) 16 12 ≡ colors_of cs
unfolding encode
read_colors-encode generation x y cs e =
    rw
      (
        read_colors-cons, read_colors-cons, read_colors-cons, read_colors-cons, read_colors-cons,
        read_colors-cons, read_colors-cons, read_colors-cons, read_colors-cons, read_colors-cons,
        read_colors-cons, read_colors-cons,
      )
      (rw (← e) (read_colors-payload cs))

parse-encode :
    (generation x y : ℕ) (colors : List (ℕ × ℕ × ℕ))
    → length colors ≡ 16
    → parse_palette_packet (encode generation x y colors) ≡ some (generation, colors_of colors)
unfolding parse_palette_packet encode
parse-encode generation x y colors e =
    ground (arith, e, length-payload colors, read_colors-encode generation x y colors e)

-- The fields that make a packet a palette packet.
record IsPalettePacket (packet : List ℕ) : Type 0 where
  size : length packet ≡ palette_packet_size
  pixels : (get_or packet 4 0 ≡ 239) × (get_or packet 5 0 ≡ 0)
  format : (get_or packet 6 0 ≡ 0x80) × (get_or packet 7 0 ≡ 0x01)
  shape : (get_or packet 8 0 ≡ 1) × (get_or packet 9 0 ≡ 4)
  version : (get_or packet 10 0 ≡ 1) × (get_or packet 11 0 ≡ 0)

is_palette_packet : List ℕ → Bool
unfolding has_palette_header
is_palette_packet packet = length packet == palette_packet_size && has_palette_header packet

IsPalettePacket-sound : (packet : List ℕ) → is_palette_packet packet ≡ true → IsPalettePacket packet
unfolding is_palette_packet
IsPalettePacket-sound packet h = ground arith

-- The `n` entries of a list from index `i` on, and then `r`.
entries : List ℕ → ℕ → ℕ → List ℕ → List ℕ
entries l zero i r = r
entries l (suc n) i r = get_or l i 0 ∷ entries l n (suc i) r

drop-cons : (l : List ℕ) (i : ℕ) → i < length l → drop i l ≡ get_or l i 0 ∷ drop (suc i) l
drop-cons [] i h = absurd (omega arith)
drop-cons (x ∷ l) zero h = refl
drop-cons (x ∷ l) (suc i) h = drop-cons l i (omega (arith, h))

drop-entries :
    (l : List ℕ) (n i j : ℕ) → i + n ≡ j → j ≤ length l → drop i l ≡ entries l n i (drop j l)
unfolding entries
drop-entries l zero i j e h = ap (λ k. drop k l) (omega (arith, e))
drop-entries l (suc n) i j e h =
    drop-cons l i (omega (arith, e, h))
    ∙ ap (λ r. get_or l i 0 ∷ r) (drop-entries l n (suc i) j (omega (arith, e)) h)

length-drop : (l : List ℕ) (i : ℕ) → i ≤ length l → i + length (drop i l) ≡ length l
length-drop l zero h = omega arith
length-drop [] (suc i) h = absurd (omega arith)
length-drop (x ∷ l) (suc i) h = omega (arith, length-drop l i (omega (arith, h)))

triples :
    (n : ℕ) (l : List ℕ)
    → length l ≡ 3 * n
    → (cs : List (ℕ × ℕ × ℕ)) × (l ≡ payload cs) × (length cs ≡ n)
unfolding payload
triples zero [] h = ([], refl, refl)
triples zero (x ∷ l) h = absurd (omega (arith, h))
triples (suc n) [] h = absurd (omega (arith, h))
triples (suc n) (x ∷ []) h = absurd (omega (arith, h))
triples (suc n) (x ∷ y ∷ []) h = absurd (omega (arith, h))
triples (suc n) (x ∷ y ∷ z ∷ l) h =
    let (cs, e, k) = triples n l (omega (arith, h)) in
    ((x, y, z) ∷ cs, ap (λ r. x ∷ y ∷ z ∷ r) e, ap suc k)

get_or-byte : (l : List ℕ) (i : ℕ) → All (λ b. b < 2 ^ 8) l → get_or l i 0 < 2 ^ 8
get_or-byte [] i a = omega arith
get_or-byte (x ∷ l) zero a = a.0
get_or-byte (x ∷ l) (suc i) a = get_or-byte l i a.1

-- What a packet was laid out from.
abbrev pub IsEncoded : List ℕ → ℕ → List ℕ → Type 0
IsEncoded packet generation p =
    (x y : ℕ) × (colors : List (ℕ × ℕ × ℕ)) × (length colors ≡ 16)
    × (packet ≡ encode generation x y colors)
    × (p ≡ colors_of colors)

refused : (packet : List ℕ) → is_palette_packet packet ≡ false → parse_palette_packet packet ≡ none
unfolding parse_palette_packet is_palette_packet
refused packet bad = rw bad refl

-- The generation of a packet.
abbrev generation_of : List ℕ → ℕ
generation_of packet = get_or packet 0 0 + get_or packet 1 0 * 2 ^ 8

entries-encode :
    (packet : List ℕ) (cs : List (ℕ × ℕ × ℕ))
    → get_or packet 0 0 < 2 ^ 8
    → IsPalettePacket packet
    → entries packet 12 0 (payload cs)
      ≡ encode (generation_of packet) (get_or packet 2 0) (get_or packet 3 0) cs
unfolding entries encode
entries-encode packet cs h k =
    let low : get_or packet 0 0 ≡ generation_of packet % 256 = omega (arith, h) in
    let high : get_or packet 1 0 ≡ generation_of packet / 256 = omega (arith, h) in
    let (p, p') = k.pixels in
    let (f, f') = k.format in let (s, s') = k.shape in let (v, v') = k.version in cc

laid_out :
    (packet : List ℕ)
    → All (λ b. b < 2 ^ 8) packet
    → IsPalettePacket packet
    → (x y : ℕ) × (colors : List (ℕ × ℕ × ℕ)) × (length colors ≡ 16)
      × (packet ≡ encode (generation_of packet) x y colors)
laid_out packet a k =
    let size = k.size in
    let (cs, e, n) =
      triples 16 (drop 12 packet)
        (omega (arith, size, length-drop packet 12 (omega (arith, size)))) in
    (
      get_or packet 2 0,
      get_or packet 3 0,
      cs,
      n,
      drop-entries packet 12 0 12 (omega arith) (omega (arith, size))
          ∙ ap (entries packet 12 0) e
          ∙ entries-encode packet cs (get_or-byte packet 0 a) k,
    )

-- A packet of bytes is taken for a palette packet exactly if it is one as the device lays them out,
-- and what is read is the generation and the sixteen colors, in order, that it was laid out from.
pub parse_palette_packet_iff :
    (packet : List ℕ) (generation : ℕ) (p : List ℕ)
    → All (λ b. b < 2 ^ 8) packet
    → (parse_palette_packet packet ≡ some (generation, p)) ↔ IsEncoded packet generation p
parse_palette_packet_iff packet generation p a = (
  λ e. elim (Bool-cases (is_palette_packet packet)) [
    | inl good ↦
        let (x, y, cs, n, l) = laid_out packet a (IsPalettePacket-sound packet good) in
        let found : some (generation_of packet, colors_of cs) ≡ some (generation, p) =
          sym (ap parse_palette_packet l ∙ parse-encode (generation_of packet) x y cs n) ∙ e in
        let pair = some-injective (generation_of packet, colors_of cs) (generation, p) found in
        (
          x,
          y,
          cs,
          n,
          l ∙ ap (λ (q : ℕ × List ℕ). encode q.0 x y cs) pair,
          sym (ap (λ (q : ℕ × List ℕ). q.1) pair),
        )
    | inr bad ↦ absurd (none-ne-some _ (sym (refused packet bad) ∙ e))
  ],
  λ (x, y, cs, n, l, q).
      ap parse_palette_packet l
      ∙ parse-encode generation x y cs n
      ∙ ap (λ c. some (generation, c)) (sym q),
)
