-- ===== src/Video/Frame/Slots.antt =====
-- The packets of a frame by their index.
use c64stream.Base.{
  ℕ, zero, suc, ◌+◌, ◌≤◌, ◌<◌, ◌≡◌, ◌∙◌, inl, inr, refl, ap, ap₂, sym, Bool, true, false,
  false≢true, false, Option, none, some, List, [], ◌∷◌, arith,
}
use c64stream.Base.Bools.{◌==◌, ==_iff, ==-ne, if◌then◌else◌, Bool-cases}
use c64stream.Base.Lists.{length, get_or, replicate}
use c64stream.Video.Assemble.{FramePacket}
use c64stream.Video.Render.{no_packet}
use c64stream.Video.Frame.{set_packet, packet_of, index_of}

-- For each index the packet that came first, if one did.
abbrev pub Slots : Type 0
Slots = ℕ → Option (List ℕ)

abbrev pub is_filled : Option (List ℕ) → Bool
is_filled none = false
is_filled (some packet) = true

abbrev pub slot_packet : Option (List ℕ) → FramePacket
slot_packet none = no_packet
slot_packet (some packet) = packet_of packet

abbrev pub fill_slot : Option (List ℕ) → Bool → List ℕ → Option (List ℕ)
fill_slot (some first) here packet = some first
fill_slot none here packet = if here then some packet else none

-- A further packet.
abbrev pub fill : Slots → List ℕ → Slots
fill slots packet i = fill_slot (slots i) (i == index_of packet) packet

abbrev pub bit : Bool → ℕ
bit true = 1
bit false = 0

abbrev pub count_slots : Slots → ℕ → ℕ
count_slots slots zero = 0
count_slots slots (suc n) = count_slots slots n + bit (is_filled (slots n))

pub slot_packet-received : (o : Option (List ℕ)) → (slot_packet o).received ≡ is_filled o
slot_packet-received none = refl
slot_packet-received (some packet) = refl

pub length-set_packet :
    (ps : List FramePacket) (i : ℕ) (p : FramePacket) → length (set_packet ps i p) ≡ length ps
unfolding set_packet
length-set_packet [] i p = refl
length-set_packet (q ∷ ps) zero p = refl
length-set_packet (q ∷ ps) (suc i) p = ap suc (length-set_packet ps i p)

pub set_packet-same :
    (ps : List FramePacket) (i : ℕ) (p : FramePacket)
    → i < length ps
    → get_or (set_packet ps i p) i no_packet ≡ p
unfolding set_packet
set_packet-same [] i p h = absurd (omega (arith, h))
set_packet-same (q ∷ ps) zero p h = refl
set_packet-same (q ∷ ps) (suc i) p h = set_packet-same ps i p (omega (arith, h))

pub set_packet-other :
    (ps : List FramePacket) (i j : ℕ) (p : FramePacket)
    → ¬ (j ≡ i)
    → get_or (set_packet ps i p) j no_packet ≡ get_or ps j no_packet
unfolding set_packet
set_packet-other [] i j p h = refl
set_packet-other (q ∷ ps) zero zero p h = absurd (h refl)
set_packet-other (q ∷ ps) zero (suc j) p h = refl
set_packet-other (q ∷ ps) (suc i) zero p h = refl
set_packet-other (q ∷ ps) (suc i) (suc j) p h = set_packet-other ps i j p (λ e. h (ap suc e))

pub length-replicate : (n : ℕ) (p : FramePacket) → length (replicate n p) ≡ n
length-replicate zero p = refl
length-replicate (suc n) p = ap suc (length-replicate n p)

pub replicate-at : (n i : ℕ) → get_or (replicate n no_packet) i no_packet ≡ no_packet
replicate-at zero i = refl
replicate-at (suc n) zero = refl
replicate-at (suc n) (suc i) = replicate-at n i

pub count_slots-most : (slots : Slots) (n : ℕ) → count_slots slots n ≤ n
count_slots-most slots zero = omega arith
count_slots-most slots (suc n) = ground (arith, count_slots-most slots n)

-- As many slots as the first `k`, if these are filled.
pub count_slots-least :
    (slots : Slots) (k n : ℕ)
    → k ≤ n
    → ((i : ℕ) → i < k → is_filled (slots i) ≡ true)
    → k ≤ count_slots slots n
count_slots-least slots k zero h f = omega arith
count_slots-least slots k (suc n) h f = elim (Bool-cases (k == suc n)) [
  | inl e ↦
      let more = count_slots-least slots n n (omega arith) (λ i l. f i (ground arith)) in
      let last = f n (ground arith) in ground (arith, more, last)
  | inr e ↦ ground (arith, count_slots-least slots k n (ground arith) f)
]

count_slots-same :
    (slots other : Slots) (n : ℕ)
    → ((i : ℕ) → i < n → slots i ≡ other i)
    → count_slots slots n ≡ count_slots other n
count_slots-same slots other zero h = refl
count_slots-same slots other (suc n) h =
    ap₂ ◌+◌ (count_slots-same slots other n (λ i l. h i (omega (arith, l))))
      (ap (λ x. bit (is_filled x)) (h n (omega arith)))

fill_slot-false : (packet : List ℕ) (o : Option (List ℕ)) → fill_slot o false packet ≡ o
fill_slot-false packet none = refl
fill_slot-false packet (some first) = refl

module _ (slots : Slots) (packet : List ℕ) where
  pub fill-filled : (i : ℕ) (first : List ℕ) → slots i ≡ some first → fill slots packet i ≡ slots i
  fill-filled i first e = ap (λ x. fill_slot x (i == index_of packet) packet) e ∙ sym e

  pub fill-index :
      slots (index_of packet) ≡ none → fill slots packet (index_of packet) ≡ some packet
  fill-index e =
      let here : (index_of packet == index_of packet) ≡ true = ground arith in
      ap₂ (λ x y. fill_slot x y packet) e here

  pub fill-other : (i : ℕ) → ¬ (i ≡ index_of packet) → fill slots packet i ≡ slots i
  fill-other i h =
      ap (λ x. fill_slot (slots i) x packet) (==-ne i (index_of packet) h)
      ∙ fill_slot-false packet (slots i)

  -- An index that was there already.
  pub fill-again :
      (first : List ℕ)
      → slots (index_of packet) ≡ some first
      → (i : ℕ) → slots i ≡ fill slots packet i
  fill-again first e i = elim (Bool-cases (i == index_of packet)) [
    | inl q ↦ let h = (==_iff i (index_of packet)).0 q in sym (fill-filled i first (ap slots h ∙ e))
    | inr q ↦ sym (fill-other i (λ h. false≢true (sym q ∙ (==_iff i (index_of packet)).1 h)))
  ]

  -- A new packet is one more.
  pub count_slots-fill :
      (n : ℕ)
      → index_of packet < n
      → slots (index_of packet) ≡ none
      → count_slots (fill slots packet) n ≡ count_slots slots n + 1
  count_slots-fill zero h e = absurd (omega arith)
  count_slots-fill (suc n) h e = elim (Bool-cases (index_of packet == n)) [
    | inl q ↦
        let i = (==_iff (index_of packet) n).0 q in
        let before =
          count_slots-same (fill slots packet) slots n
            (λ j l. fill-other j (λ f. absurd (omega (arith, f, i, l)))) in
        let filled = ap (λ x. bit (is_filled x)) (sym (ap (fill slots packet) i) ∙ fill-index e) in
        let empty = ap (λ x. bit (is_filled x)) (sym (ap slots i) ∙ e) in
        omega (arith, before, filled, empty)
    | inr q ↦
        let i : ¬ (n ≡ index_of packet) =
          λ f. false≢true (sym q ∙ (==_iff (index_of packet) n).1 (sym f)) in
        let less : index_of packet < n = omega (arith, i, h) in
        let same = ap (λ x. bit (is_filled x)) (fill-other n i) in
        omega (arith, same, count_slots-fill n less e)
  ]
