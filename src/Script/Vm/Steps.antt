-- ===== src/Script/Vm/Steps.antt =====
-- How a call in two steps succeeds.
use c64stream.Base.{◌≡◌, ap, Bool, true, false, false≢true, refl}
use c64stream.Script.State.{Runtime, Outcome, M, done, failed, ◌>>=◌}

module _ {F : Type 0} where
  abbrev pub is_done : {A : Type 0} → Outcome F A → Bool
  is_done (done a s) = true
  is_done (failed s) = false

  abbrev pub answer : {A : Type 0} → A → Outcome F A → A
  answer d (done a s) = a
  answer d (failed s) = d

  -- How a call in two steps succeeds.
  abbrev pub Steps : {A B : Type 0} → Outcome F A → (A → M F B) → B → Runtime F → Type 0
  Steps {A} x f b t = (a : A) × (q : Runtime F) × (x ≡ done a q) × (f a q ≡ done b t)

  after_bind-Steps :
      {A B : Type 0} (f : A → M F B) (x : Outcome F A) (b : B) (t : Runtime F)
      → elim x [ done a s ↦ f a s | failed s ↦ failed s ] ≡ done b t
      → Steps x f b t
  after_bind-Steps f (done a s) b t e = (a, s, refl, e)
  after_bind-Steps f (failed s) b t e = absurd (false≢true (ap is_done e))

  pub bind-Steps :
      {A B : Type 0} (m : M F A) (f : A → M F B) (r : Runtime F) (b : B) (t : Runtime F)
      → (m >>= f) r ≡ done b t
      → Steps (m r) f b t
  bind-Steps m f r b t e = after_bind-Steps f (m r) b t e
