-- ===== src/Script/Vm/Calls.antt =====
-- GOSUB and RETURN.
use c64stream.Base.{ℕ, ◌≡◌, ◌∙◌, sym, ap, Bool, false, false≢true, List, [], ◌∷◌, refl}
use c64stream.Base.Bools.{if-split, leb, if◌then◌else◌}
use c64stream.Base.Lists.{length}
use c64stream.Script.Floats.{Floats}
use c64stream.Script.State.{Runtime, GosubState, Outcome, M, done, fail, pop, ◌>>=◌, gosub_overflow}
use c64stream.Script.Control.{
  param_count_of, take_params, gosub, clear_params, store_result, leave_gosub, return_from,
  return_op, max_gosub_depth,
}
use c64stream.Script.Vm.Stays.{
  control, state_of, Stays, take_params-Stays, param_count_of-Stays, pop-Stays,
}
use c64stream.Script.Vm.Steps.{is_done, bind-Steps}

-- GOSUB jumps to `address`, and has pushed the place behind it.
abbrev Enters : {F : Type 0} → ℕ → Runtime F → Runtime F → Type 0
Enters address r s =
    (s.ip ≡ address) × (g : GosubState) × (s.gosub_stack ≡ g ∷ r.gosub_stack) × (g.return_ip ≡ r.ip)

module _ {F : Type 0} where
  control_kept :
      {A : Type 0} (m : M F A) (r q : Runtime F) (a : A)
      → Stays m
      → m r ≡ done a q
      → control q ≡ control r
  control_kept m r q a h e = sym (ap (λ o. control (state_of o)) e) ∙ h r

  -- The end of `gosub`.
  abbrev push_return : ℕ → ℕ → M F (Unit {0})
  push_return address n r =
      if leb max_gosub_depth (length r.gosub_stack)
      then fail gosub_overflow r
      else done tt (record r {
        gosub_stack = record { return_ip = r.ip; param_count = n } ∷ r.gosub_stack;
        ip = address;
      })

  push_return-Enters :
      (address n : ℕ) (r s : Runtime F) → push_return address n r ≡ done tt s → Enters address r s
  push_return-Enters address n r s =
      if-split (λ (o : Outcome F (Unit {0})). o ≡ done tt s → Enters address r s)
        (leb max_gosub_depth (length r.gosub_stack)) (λ _ e. absurd (false≢true (ap is_done e)))
        (λ _ e. (
          sym (ap (λ o. (state_of o).ip) e),
          record { return_ip = r.ip; param_count = n },
          sym (ap (λ o. (state_of o).gosub_stack) e),
          refl,
        ))

module _ {F : Type 0} (N : Floats F) where
  gosub-Enters :
      (address : ℕ) (r s : Runtime F) → gosub N address r ≡ done tt s → Enters address r s
  unfolding gosub
  gosub-Enters address r s e =
      let (v, q, e1, h1) =
        bind-Steps pop
          (λ v. param_count_of N v >>= λ n. take_params N n >>= λ _. push_return address n) r tt s
          e in
      let (n, q2, e2, h2) =
        bind-Steps (param_count_of N v) (λ n. take_params N n >>= λ _. push_return address n) q tt s
          h1 in
      let (_, q3, e3, h3) = bind-Steps (take_params N n) (λ _. push_return address n) q2 tt s h2 in
      let kept : control q3 ≡ control r =
        control_kept (take_params N n) q2 q3 tt (take_params-Stays N n) e3
        ∙ control_kept (param_count_of N v) q q2 n (param_count_of-Stays N v) e2
        ∙ control_kept pop r q v pop-Stays e1 in
      let (at, g, pushed, back) = push_return-Enters address n q3 s h3 in
      (at, g, pushed ∙ ap (λ c. g ∷ c.1) kept, back ∙ ap (λ c. c.0) kept)

  leave_gosub-control :
      (g : GosubState) (gs : List GosubState) (b skip : Bool) (q t : Runtime F)
      → leave_gosub N g gs b q ≡ done skip t
      → (t.ip ≡ g.return_ip) × (t.gosub_stack ≡ gs)
  leave_gosub-control g gs b skip q t e =
      let (_, p, e1, h1) =
        bind-Steps (store_result N b)
          (λ _. clear_params N 1 g.param_count >>= λ _.
            λ r. done false (record r { gosub_stack = gs; ip = g.return_ip }))
          q skip t e in
      let (_, p2, e2, h2) =
        bind-Steps (clear_params N 1 g.param_count)
          (λ _. λ r. done false (record r { gosub_stack = gs; ip = g.return_ip })) p skip t h1 in
      (sym (ap (λ o. (state_of o).ip) h2), sym (ap (λ o. (state_of o).gosub_stack) h2))

  -- After a GOSUB, whatever the script does in between: as soon as no function is open and the
  -- stack of the GOSUBs is again as the GOSUB left it, a RETURN, with or without a value, that
  -- succeeds goes back behind the GOSUB and takes its entry off the stack.
  pub gosub-return_op :
      (address : ℕ) (b skip : Bool) (r s q t : Runtime F)
      → gosub N address r ≡ done tt s
      → q.scope_stack ≡ []
      → q.gosub_stack ≡ s.gosub_stack
      → return_op N b q ≡ done skip t
      → (s.ip ≡ address) × (t.ip ≡ r.ip) × (t.gosub_stack ≡ r.gosub_stack)
  unfolding return_op
  gosub-return_op address b skip r s q t e closed same h =
      let (at, g, pushed, back) = gosub-Enters address r s e in
      let (ip, gs) = leave_gosub-control g r.gosub_stack b skip q t (
        sym (
          ap (λ ss. return_from N ss q.gosub_stack b q) closed
          ∙ ap (λ gs. return_from N [] gs b q) (same ∙ pushed))
        ∙ h) in
      (at, ip ∙ back, gs)
