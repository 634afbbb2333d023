-- ===== src/Network/Protocol/Generation.antt =====
-- Which palette wins: the cyclic order of the 16-bit generations.
use c64stream.Base.{
  ℕ, ◌+◌, ◌%◌, ◌^◌, ◌≤◌, ◌<◌, ◌≡◌, ap, inl, inr, Bool, true, false, List, [], ◌∷◌, refl, arith,
}
use c64stream.Base.Bools.{ltb, if◌then◌else◌, Bool-cases, ltb→lt}
use c64stream.Network.Protocol.{PaletteState, palette_state_accept}

-- What the receiver's state is after a sequence of palette packets, each with the device's
-- generation counter as it would be without wrap-around.
pub accept_all : PaletteState → List (ℕ × List ℕ) → PaletteState
accept_all s [] = s
accept_all s ((g, p) ∷ ps) = accept_all (palette_state_accept s (g % 2 ^ 16) p).1 ps

-- The packet with the greatest counter, the first of several.
pub newest : ℕ × List ℕ → List (ℕ × List ℕ) → ℕ × List ℕ
newest m [] = m
newest m (q ∷ ps) = newest (if ltb m.0 q.0 then q else m) ps

-- Every counter is less than 2 ^ 15 away from the newest one before it.
abbrev pub IsNearby : ℕ → List (ℕ × List ℕ) → Type 0
IsNearby m [] = Unit
IsNearby m ((g, p) ∷ ps) =
    (g < m + 2 ^ 15) × (m < g + 2 ^ 15) × IsNearby (if ltb m g then g else m) ps

abbrev pub holding : ℕ × List ℕ → PaletteState
holding (g, p) = record {
  colors = p;
  generation = g % 2 ^ 16;
  colors_valid = true;
  ordering_valid = true;
}

accept-newer :
    (m g : ℕ) (q p : List ℕ)
    → m < g
    → g < m + 2 ^ 15
    → (palette_state_accept (holding (m, q)) (g % 2 ^ 16) p).1 ≡ holding (g, p)
unfolding palette_state_accept
accept-newer m g q p h k = ground arith

accept-older :
    (m g : ℕ) (q p : List ℕ)
    → g ≤ m
    → m < g + 2 ^ 15
    → (palette_state_accept (holding (m, q)) (g % 2 ^ 16) p).1 ≡ holding (m, q)
unfolding palette_state_accept
accept-older m g q p h k = ground arith

newest-cons :
    (m g : ℕ) (q p : List ℕ) (ps : List (ℕ × List ℕ)) {b : Bool}
    → ltb m g ≡ b
    → newest (m, q) ((g, p) ∷ ps) ≡ newest (if b then (g, p) else (m, q)) ps
unfolding newest
newest-cons m g q p ps e = ap (λ c. newest (if c then (g, p) else (m, q)) ps) e

accept_all-holding :
    (m : ℕ) (q : List ℕ) (ps : List (ℕ × List ℕ))
    → IsNearby m ps
    → accept_all (holding (m, q)) ps ≡ holding (newest (m, q) ps)
unfolding accept_all
accept_all-holding m q [] h = unfold newest in refl
accept_all-holding m q ((g, p) ∷ ps) h = elim (Bool-cases (ltb m g)) [
  | inl lt ↦
      rw (newest-cons m g q p ps lt, accept-newer m g q p (ltb→lt m g lt) h.0)
        (accept_all-holding g p ps (rw lt at (h.2)))
  | inr ge ↦
      rw (newest-cons m g q p ps ge, accept-older m g q p (ground arith) h.1)
        (accept_all-holding m q ps (rw ge at (h.2)))
]

-- However palette packets are reordered, repeated or lost on the way, the colors shown are those
-- of the newest one received since the ordering was reset, wrap-around of the 16-bit generation
-- included, if each is less than 2 ^ 15 generations away from the newest before it.
pub accept_all-newest :
    (s : PaletteState) (g : ℕ) (p : List ℕ) (ps : List (ℕ × List ℕ))
    → s.ordering_valid ≡ false
    → IsNearby g ps
    → accept_all s ((g, p) ∷ ps) ≡ holding (newest (g, p) ps)
unfolding accept_all palette_state_accept
accept_all-newest s g p ps fresh h = rw fresh (accept_all-holding g p ps h)
