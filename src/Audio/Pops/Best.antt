-- ===== src/Audio/Pops/Best.antt =====
-- The search for the closest event.
use c64stream.Base.{
  ℕ, suc, ◌+◌, ◌≤◌, ◌<◌, ◌≡◌, ◌∙◌, ◌⊎◌, inl, inr, refl, ap, sym, subst, false, false≢true, Option,
  none, some, List, [], ◌∷◌, arith,
}
use c64stream.Base.Bools.{ltb, if-split, ltb→lt}
use c64stream.Base.Lists.{length, get_or}
use c64stream.Audio.Pops.{
  Event, no_event, abs_delta, match_window_ns, closer, consider, find_from, find_best_match,
}

abbrev pub event_at : List Event → ℕ → Event
event_at es i = get_or es i no_event

-- Event `j` can be matched.
abbrev pub IsNear : List Event → ℕ → ℕ → Type 0
IsNear es ts j = ((event_at es j).used ≡ false) × (abs_delta (event_at es j) ts ≤ match_window_ns)

-- What is found among the first `n` events: none where none can be matched, else the first of those
-- that are closest.
abbrev pub IsBestTo : List Event → ℕ → ℕ → Option (ℕ × ℕ) → Type 0
IsBestTo es ts n none = (j : ℕ) → j < n → ¬ IsNear es ts j
IsBestTo es ts n (some (i, d)) =
    (i < n)
    × IsNear es ts i
    × (d ≡ abs_delta (event_at es i) ts)
    × ((j : ℕ)
        → j < n
        → IsNear es ts j
        → (d ≤ abs_delta (event_at es j) ts) × (j < i → d < abs_delta (event_at es j) ts))

below_or_last : (j i : ℕ) → j < i + 1 → (j < i) ⊎ (j ≡ i)
below_or_last j i h = ground arith

same_event : (f : ℕ → ℕ) (i j : ℕ) → j ≡ i → (f i ≤ f j) × (j < i → f i < f j)
same_event f i j e = (omega (arith, ap f e), λ q. absurd (omega (arith, e, q)))

module _ (es : List Event) (ts i : ℕ) where
  -- Event `i` cannot be matched.
  skip-IsBestTo :
      (best : Option (ℕ × ℕ))
      → ¬ IsNear es ts i
      → IsBestTo es ts i best
      → IsBestTo es ts (i + 1) best
  skip-IsBestTo none h b =
      λ j l n. elim (below_or_last j i l) [ inl k ↦ b j k n | inr e ↦ h (subst (IsNear es ts) e n) ]
  skip-IsBestTo (some (k, d)) h (l, n, e, least) = (
    omega (arith, l),
    n,
    e,
    λ j m near. elim (below_or_last j i m) [
      | inl p ↦ least j p near
      | inr p ↦ absurd (h (subst (IsNear es ts) p near))
    ],
  )

  -- Event `i` is no closer.
  later-IsBestTo :
      (k d : ℕ)
      → ltb (abs_delta (event_at es i) ts) d ≡ false
      → IsBestTo es ts i (some (k, d))
      → IsBestTo es ts (i + 1) (some (k, d))
  later-IsBestTo k d h (l, n, e, least) = (
    omega (arith, l),
    n,
    e,
    λ j m near. elim (below_or_last j i m) [
      | inl p ↦ least j p near
      | inr p ↦
          subst
            (λ x. (d ≤ abs_delta (event_at es x) ts) × (x < k → d < abs_delta (event_at es x) ts))
            (sym p) (ground arith, λ q. absurd (omega (arith, q, l)))
    ],
  )

  first-IsBestTo :
      IsNear es ts i
      → IsBestTo es ts i none
      → IsBestTo es ts (i + 1) (some (i, abs_delta (event_at es i) ts))
  first-IsBestTo n b = (
    omega arith,
    n,
    refl,
    λ j m near. elim (below_or_last j i m) [
      | inl p ↦ absurd (b j p near)
      | inr p ↦ same_event (λ x. abs_delta (event_at es x) ts) i j p
    ],
  )

  closer-IsBestTo :
      (k d : ℕ)
      → IsNear es ts i
      → abs_delta (event_at es i) ts < d
      → IsBestTo es ts i (some (k, d))
      → IsBestTo es ts (i + 1) (some (i, abs_delta (event_at es i) ts))
  closer-IsBestTo k d n h (l, near', e, least) = (
    omega arith,
    n,
    refl,
    λ j m near. elim (below_or_last j i m) [
      | inl p ↦ let (le, lt) = least j p near in (omega (arith, le, h), λ q. omega (arith, le, h))
      | inr p ↦ same_event (λ x. abs_delta (event_at es x) ts) i j p
    ],
  )

not_beyond : (w d : ℕ) → ltb w d ≡ false → d ≤ w
not_beyond w d h = ground arith

near_turn :
    (es : List Event) (ts i : ℕ) (best : Option (ℕ × ℕ))
    → IsNear es ts i
    → IsBestTo es ts i best
    → IsBestTo es ts (i + 1) (closer best i (abs_delta (event_at es i) ts))
unfolding closer
near_turn es ts i none n b = first-IsBestTo es ts i n b
near_turn es ts i (some (k, d)) n b =
    if-split (λ (o : Option (ℕ × ℕ)). IsBestTo es ts (i + 1) o)
      (ltb (abs_delta (event_at es i) ts) d) (λ h. closer-IsBestTo es ts i k d n (ltb→lt _ _ h) b)
      (λ h. later-IsBestTo es ts i k d h b)

consider-IsBestTo :
    (es : List Event) (ts i : ℕ) (best : Option (ℕ × ℕ))
    → IsBestTo es ts i best
    → IsBestTo es ts (i + 1) (consider ts i best (event_at es i))
unfolding consider
consider-IsBestTo es ts i best b =
    let e = event_at es i in
    if-split (λ (o : Option (ℕ × ℕ)). IsBestTo es ts (i + 1) o) e.used
      (λ u. skip-IsBestTo es ts i best (λ n. false≢true (sym n.0 ∙ u)) b)
      (λ u.
        if-split (λ (o : Option (ℕ × ℕ)). IsBestTo es ts (i + 1) o)
          (ltb match_window_ns (abs_delta e ts))
          (λ w. skip-IsBestTo es ts i best (λ n. omega (arith, ltb→lt _ _ w, n.1)) b)
          (λ w. near_turn es ts i best (u, not_beyond match_window_ns (abs_delta e ts) w) b))

find_from-IsBestTo :
    (all : List Event) (ts : ℕ) (es : List Event) (i : ℕ) (best : Option (ℕ × ℕ))
    → ((k : ℕ) → event_at es k ≡ event_at all (i + k))
    → IsBestTo all ts i best
    → IsBestTo all ts (i + length es) (find_from es ts i best)
unfolding find_from
find_from-IsBestTo all ts [] i best s b = subst (λ n. IsBestTo all ts n best) (omega arith) b
find_from-IsBestTo all ts (e ∷ es) i best s b =
    let here : event_at all i ≡ e = ap (event_at all) (omega arith) ∙ sym (s 0) in
    subst (λ n. IsBestTo all ts n (find_from es ts (i + 1) (consider ts i best e))) (omega arith)
      (find_from-IsBestTo all ts es (i + 1) (consider ts i best e)
        (λ k. s (suc k) ∙ ap (event_at all) (omega arith))
        (subst (λ x. IsBestTo all ts (i + 1) (consider ts i best x)) here
          (consider-IsBestTo all ts i best b)))

-- The search finds the first of the closest events that can be matched, if there is one.
pub find_best_match-IsBest :
    (es : List Event) (ts : ℕ) → IsBestTo es ts (length es) (find_best_match es ts)
unfolding find_best_match
find_best_match-IsBest es ts =
    subst (λ n. IsBestTo es ts n (find_from es ts 0 none)) (omega arith)
      (find_from-IsBestTo es ts es 0 none (λ k. ap (event_at es) (omega arith))
        (λ j l. absurd (omega (arith, l))))
