-- ===== src/Device/StopQueue/Keys.antt =====
-- Hosts and ports as the keys of the queue.
use c64stream.Base.{
  ℕ, suc, ◌≡◌, inl, inr, ◌∙◌, sym, ap, ap₂, true, false, false≢true, List, [], ◌∷◌, ◌++◌, refl,
}
use c64stream.Base.Bools.{◌==◌, if-eq_of_true, if-eq_of_false, ==_iff, Bool-cases}
pub use c64stream.Base.Bytes.{same_text_refl, same_text-eq, both-true}
use c64stream.Base.Lists.{All, length}
use c64stream.Device.StopQueue.{Entry, same_text, matches, find, remove_at, write_at}

pub matches-eq :
    (host : List ℕ) (port : ℕ) (e : Entry)
    → matches host port e ≡ true
    → (e.host ≡ host) × (e.control_port ≡ port)
matches-eq host port e m =
    let (h, t) = both-true (same_text e.host host) (e.control_port == port) m in
    (same_text-eq e.host host h, (==_iff e.control_port port).0 t)

pub matches_self : (e : Entry) → matches e.host e.control_port e ≡ true
matches_self e = rw (same_text_refl e.host, (==_iff e.control_port e.control_port).1 refl) refl

pub matches_symmetric :
    (a b : Entry)
    → matches a.host a.control_port b ≡ false
    → matches b.host b.control_port a ≡ false
matches_symmetric a b m = elim (Bool-cases (matches b.host b.control_port a)) [
  | inr f ↦ f
  | inl t ↦
      let (h, p) = matches-eq b.host b.control_port a t in
      absurd (false≢true (sym m ∙ ap₂ (λ x y. matches x y b) h p ∙ matches_self b))
]

-- No entry has the key.
abbrev pub Absent : List ℕ → ℕ → List Entry → Type 0
Absent host port = All (λ e. matches host port e ≡ false)

-- Where the search ends.
pub data Found (host : List ℕ) (port : ℕ) (es : List Entry) (i : ℕ) : Type 0 where
  at :
      (early late : List Entry) (e : Entry)
      → es ≡ early ++ e ∷ late
      → i ≡ length early
      → Absent host port early
      → matches host port e ≡ true
      → Found host port es i
  nowhere : i ≡ length es → Absent host port es → Found host port es i

pub find-Found :
    (host : List ℕ) (port : ℕ) (es : List Entry) → Found host port es (find host port es)
unfolding find
find-Found host port [] = nowhere refl tt
find-Found host port (e ∷ es) = elim (Bool-cases (matches host port e)) [
  | inl t ↦ at [] es e refl (if-eq_of_true _ _ t) tt t
  | inr f ↦
      let further = if-eq_of_false _ _ f in
      elim (find-Found host port es) [
        | at early late x q i a m ↦
            at (e ∷ early) late x (ap (λ xs. e ∷ xs) q) (further ∙ ap suc i) (f, a) m
        | nowhere i a ↦ nowhere (further ∙ ap suc i) (f, a)
      ]
]

pub write_at-length : (es : List Entry) (new : Entry) → write_at es (length es) new ≡ es ++ new ∷ []
unfolding write_at
write_at-length [] new = refl
write_at-length (e ∷ es) new = ap (λ xs. e ∷ xs) (write_at-length es new)

pub write_at-at :
    (early late : List Entry) (e new : Entry)
    → write_at (early ++ e ∷ late) (length early) new ≡ early ++ new ∷ late
unfolding write_at
write_at-at [] late e new = refl
write_at-at (x ∷ early) late e new = ap (λ xs. x ∷ xs) (write_at-at early late e new)

pub remove_at-at :
    (early late : List Entry) (e : Entry)
    → remove_at (early ++ e ∷ late) (length early) ≡ early ++ late
unfolding remove_at
remove_at-at [] late e = refl
remove_at-at (x ∷ early) late e = ap (λ xs. x ∷ xs) (remove_at-at early late e)
