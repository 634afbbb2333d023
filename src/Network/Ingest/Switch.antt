-- ===== src/Network/Ingest/Switch.antt =====
-- A device switch as the filter sees it: one call of it after another.
use c64stream.Base.{
  ℕ, ◌≡◌, ◌≢◌, ◌∙◌, sym, ap, subst, ◌⊎◌, inl, inr, Bool, true, false, false≢true, List, [], ◌∷◌,
  ◌++◌, refl, arith, not, ◌&&◌,
}
use c64stream.Base.Bools.{◌==◌, if-eq_of_true, if-eq_of_false, Bool-cases}
use native.Mathlib.Decide.{ℕ_discrete}
use c64stream.Base.Lists.{All}
use c64stream.Network.Ingest.{Source, note_rejected_peer, packet_admit, packet_from_expected_peer}

-- The senders that the source takes packets from.
abbrev pub IsExpected : Source → ℕ → Type 0
IsExpected c from =
    (c.expected_peer_ip_set ≡ false)
    ⊎ (from ≡ c.expected_peer_ip)
    ⊎ ((c.expected_peer_alt_ip_set ≡ true) × (from ≡ c.expected_peer_alt_ip))
    ⊎ ((c.learned_peer_ip_set ≡ true) × (from ≡ c.learned_peer_ip))

-- The answers to packets from the senders, and the source behind the last.
unfoldable pub admit_all : Source → List ℕ → List Bool × Source
admit_all c [] = ([], c)
admit_all c (from ∷ rest) =
    let (ok, next) = packet_admit c from in
    let (answers, last) = admit_all next rest in (ok ∷ answers, last)

-- Exactly the senders with the property are admitted.
abbrev pub Admits : (ℕ → Type 0) → List ℕ → List Bool → Type 0
Admits P [] [] = Unit
Admits P [] (b ∷ bs) = ⊥
Admits P (x ∷ xs) [] = ⊥
Admits P (x ∷ xs) (b ∷ bs) = (b ≡ true → P x) × (P x → b ≡ true) × Admits P xs bs

packet_from_expected_peer-IsExpected :
    (c : Source) (from : ℕ) → packet_from_expected_peer c from ≡ true → IsExpected c from
unfolding packet_from_expected_peer
packet_from_expected_peer-IsExpected c from e = ground (arith, e)

IsExpected-packet_from_expected_peer :
    (c : Source) (from : ℕ) → IsExpected c from → packet_from_expected_peer c from ≡ true
unfolding packet_from_expected_peer
IsExpected-packet_from_expected_peer c from h = ground (arith, h)

module _ (c : Source) (from : ℕ) where
  noted : Source
  noted = record c { rejected_peer_ip = from }

  admit-expected :
      packet_from_expected_peer c from ≡ true
      → (c.handover_peer_ip_set ≡ false)
      → packet_admit c from ≡ (true, c)
  unfolding packet_admit
  admit-expected e h =
      if-eq_of_true _ _ e
      ∙ ap (λ d. (true, d))
          (if-eq_of_false
            {b = c.handover_peer_ip_set
              && c.expected_peer_ip_set
              && not (from == c.handover_peer_ip)}
            _ _ (ground (arith, h)))

  admit-first :
      packet_from_expected_peer c from ≡ true
      → c.handover_peer_ip_set ≡ true
      → c.expected_peer_ip_set ≡ true
      → from ≢ c.handover_peer_ip
      → packet_admit c from
        ≡ (true, record c { handover_flush_pending = true; handover_peer_ip_set = false })
  unfolding packet_admit
  admit-first e h s ne =
      if-eq_of_true _ _ e
      ∙ ap (λ d. (true, d))
          (if-eq_of_true
            {b = c.handover_peer_ip_set
              && c.expected_peer_ip_set
              && not (from == c.handover_peer_ip)}
            _ _ (ground (arith, h, s, ne)))

  admit-old :
      c.handover_peer_ip_set ≡ true → from ≡ c.handover_peer_ip → packet_admit c from ≡ (true, c)
  unfolding packet_admit
  admit-old h o = elim (Bool-cases (packet_from_expected_peer c from)) [
    | inl e ↦
        if-eq_of_true _ _ e
        ∙ ap (λ d. (true, d))
            (if-eq_of_false
              {b = c.handover_peer_ip_set
                && c.expected_peer_ip_set
                && not (from == c.handover_peer_ip)}
              _ _ (ground (arith, h, o)))
    | inr e ↦
        if-eq_of_false _ _ e
        ∙ if-eq_of_true {b = c.handover_peer_ip_set && from == c.handover_peer_ip} _ _
            (ground (arith, h, o))
  ]

  admit-none :
      packet_from_expected_peer c from ≡ false
      → (c.handover_peer_ip_set ≡ false) ⊎ (from ≢ c.handover_peer_ip)
      → packet_admit c from ≡ (false, noted)
  unfolding packet_admit note_rejected_peer noted
  admit-none e h =
      if-eq_of_false _ _ e
      ∙ if-eq_of_false {b = c.handover_peer_ip_set && from == c.handover_peer_ip} _ _
          (ground (arith, h))

-- What holds of the answers and the source where the handover is closed.
abbrev IsSettled : Source → List ℕ → List Bool × Source → Type 0
IsSettled c xs r =
    Admits (IsExpected c) xs r.0
    × (r.1.handover_peer_ip_set ≡ false)
    × (r.1.handover_flush_pending ≡ c.handover_flush_pending)

admit_all-step :
    (P : List Bool × Source → Type 0) (c next : Source) (from : ℕ) (rest : List ℕ) (ok : Bool)
    → packet_admit c from ≡ (ok, next)
    → P (ok ∷ (admit_all next rest).0, (admit_all next rest).1)
    → P (admit_all c (from ∷ rest))
unfolding admit_all
admit_all-step P c next from rest ok e h =
    subst (λ p. P (p.0 ∷ (admit_all p.1 rest).0, (admit_all p.1 rest).1)) (sym e) h

admit_all-IsSettled :
    (c : Source) (xs : List ℕ) → c.handover_peer_ip_set ≡ false → IsSettled c xs (admit_all c xs)
unfolding admit_all noted
admit_all-IsSettled c [] h = (tt, h, refl)
admit_all-IsSettled c (x ∷ xs) h = elim (Bool-cases (packet_from_expected_peer c x)) [
  | inl e ↦
      let (a, b, d) = admit_all-IsSettled c xs h in
      admit_all-step (IsSettled c (x ∷ xs)) c c x xs true (admit-expected c x e h)
        (((λ _. packet_from_expected_peer-IsExpected c x e), (λ _. refl), a), b, d)
  | inr e ↦
      let (a, b, d) = admit_all-IsSettled (noted c x) xs h in
      admit_all-step (IsSettled c (x ∷ xs)) c (noted c x) x xs false (admit-none c x e (inl h)) (
        (
          (λ f. absurd (false≢true f)),
          (λ k. sym e ∙ IsExpected-packet_from_expected_peer c x k),
          a,
        ),
        b,
        d,
      )
]

-- What a switch from the old device does to the answers and to the source.
pub record SwitchesOver (old : ℕ) (Expected : ℕ → Type 0) (early : List ℕ) (late : List ℕ)
    (r : List Bool × Source) : Type 0 where
  pub before : List Bool
  pub after : List Bool
  pub answers : r.0 ≡ before ++ true ∷ after
  pub old_device : Admits (λ from. from ≡ old) early before
  pub new_device : Admits Expected late after
  pub closed : r.1.handover_peer_ip_set ≡ false
  pub flush_pending : r.1.handover_flush_pending ≡ true

-- While a handover is open and a sender is expected, what comes before the first packet of an
-- expected sender other than the old device is admitted exactly if it is of the old device. That
-- first packet is admitted, closes the handover for good and asks for the flush, and from then on
-- exactly the packets of expected senders are admitted, whatever arrives, where the calls follow
-- one another.
pub admit_all-SwitchesOver :
    (c : Source) (early : List ℕ) (new : ℕ) (late : List ℕ)
    → c.expected_peer_ip_set ≡ true
    → c.handover_peer_ip_set ≡ true
    → All (λ from. IsExpected c from → from ≡ c.handover_peer_ip) early
    → IsExpected c new
    → new ≢ c.handover_peer_ip
    → SwitchesOver c.handover_peer_ip (IsExpected c) early late (admit_all c (early ++ new ∷ late))
unfolding noted
admit_all-SwitchesOver c [] new late s h others is ne =
    let d = record c { handover_flush_pending = true; handover_peer_ip_set = false } in
    let (a, b, f) = admit_all-IsSettled d late refl in
    admit_all-step (SwitchesOver c.handover_peer_ip (IsExpected c) [] late) c d new late true
      (admit-first c new (IsExpected-packet_from_expected_peer c new is) h s ne)
      (record {
        before = [];
        after = (admit_all d late).0;
        answers = refl;
        old_device = tt;
        new_device = a;
        closed = b;
        flush_pending = f;
      })
admit_all-SwitchesOver c (x ∷ early) new late s h others is ne =
    elim (ℕ_discrete x c.handover_peer_ip) [
      | yes o ↦
          admit_all-step (SwitchesOver c.handover_peer_ip (IsExpected c) (x ∷ early) late) c c x _
            true (admit-old c x h o)
            (later true (λ _. o) (λ _. refl)
              (admit_all-SwitchesOver c early new late s h others.1 is ne))
      | no n ↦
          admit_all-step (SwitchesOver c.handover_peer_ip (IsExpected c) (x ∷ early) late) c
            (noted c x) x _ false (admit-none c x (unknown n) (inr n))
            (later false (λ f. absurd (false≢true f)) (λ o. absurd (n o))
              (admit_all-SwitchesOver (noted c x) early new late s h others.1 is ne))
    ]
  where
    unknown : x ≢ c.handover_peer_ip → packet_from_expected_peer c x ≡ false
    unknown n = elim (Bool-cases (packet_from_expected_peer c x)) [
      | inl e ↦ absurd (n (others.0 (packet_from_expected_peer-IsExpected c x e)))
      | inr e ↦ e
    ]

    later :
        (ok : Bool) {r : List Bool × Source}
        → (ok ≡ true → x ≡ c.handover_peer_ip)
        → (x ≡ c.handover_peer_ip → ok ≡ true)
        → SwitchesOver c.handover_peer_ip (IsExpected c) early late r
        → SwitchesOver c.handover_peer_ip (IsExpected c) (x ∷ early) late (ok ∷ r.0, r.1)
    later ok f g q = record {
      before = ok ∷ q.before;
      after = q.after;
      answers = ap (λ bs. ok ∷ bs) q.answers;
      old_device = (f, g, q.old_device);
      new_device = q.new_device;
      closed = q.closed;
      flush_pending = q.flush_pending;
    }
