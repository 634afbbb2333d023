-- ===== src/Script/Vm/Functions.antt =====
-- Calls of functions and RETURN.
use mathlib.Core.List.{reverse}
use c64stream.Base.{
  ℕ, suc, ◌++◌, subst, ◌/◌, ◌%◌, ◌^◌, ◌≡◌, ◌<◌, ◌∙◌, sym, ap, ap₂, Bool, true, false, false≢true,
  not, Option, none, some, List, [], ◌∷◌, refl, arith,
}
use c64stream.Base.Bools.{if-split, leb, ◌==◌, if◌then◌else◌}
use c64stream.Base.Lists.{length}
use c64stream.Script.Floats.{Floats}
use c64stream.Script.Value.{Value, number}
use c64stream.Script.State.{
  Runtime, Variable, Scope, Function, Outcome, done, push, pop, pop_from, ◌>>=◌, max_stack_depth,
}
use c64stream.Script.Control.{
  function_at, bind_args, enter, call, call_function, leave_scope, return_from, return_op,
  max_scopes,
}
use c64stream.Script.Vm.Stays.{state_of}
use c64stream.Script.Vm.Steps.{is_done, answer, bind-Steps}

-- Each name with its value.
abbrev pub paired : {F : Type 0} → List (List ℕ) → List (Value F) → List (Variable F)
paired [] vs = []
paired (p ∷ ps) [] = []
paired (p ∷ ps) (v ∷ vs) = record { name = p; value = v } ∷ paired ps vs

-- As many arguments as there are names are on top of the stack, above `rest`.
abbrev pub Takes :
    {F : Type 0} → List (List ℕ) → List (Value F) → List (Variable F) → List (Value F) → Type 0
Takes {F} names stack locals rest =
    (args : List (Value F)) × (stack ≡ args ++ rest)
    × (length args ≡ length names)
    × (locals ≡ paired names args)

-- What a call of `f` makes of the state `r`: the arguments are off the value stack, and are the
-- local variables of a new scope that returns behind the call, the last parameter the topmost.
abbrev pub Opens : {F : Type 0} → Function → Runtime F → Runtime F → Type 0
Opens {F} f r s =
    (locals : List (Variable F)) × Takes (reverse f.param_names) r.stack locals s.stack
    × (s.scope_stack
        ≡ record { local_vars = locals; saved_var_count = length r.variables; return_ip = r.ip }
          ∷ r.scope_stack)
    × (s.ip ≡ f.bytecode_address)
    × (s.variables ≡ r.variables)

module _ {F : Type 0} where
  -- What is bound, if anything.
  abbrev Bound :
      List (List ℕ) → List (Value F) → Option (List (Variable F) × List (Value F)) → Type 0
  Bound names stack none = Unit
  Bound names stack (some (locals, rest)) = Takes names stack locals rest

  bind_args-Bound :
      (names : List (List ℕ)) (stack : List (Value F)) → Bound names stack (bind_args names stack)
  unfolding bind_args
  bind_args-Bound [] stack = ([], refl, refl, refl)
  bind_args-Bound (p ∷ ps) [] = tt
  bind_args-Bound (p ∷ ps) (v ∷ vs) = more (bind_args ps vs) (bind_args-Bound ps vs)
    where
      more :
          (o : Option (List (Variable F) × List (Value F)))
          → Bound ps vs o
          → Bound (p ∷ ps) (v ∷ vs) (elim o [
            | none ↦ none
            | some (locals, rest) ↦ some (record { name = p; value = v } ∷ locals, rest)
          ])
      more none h = tt
      more (some (locals, rest)) (args, e, n, l) = (
        v ∷ args,
        ap (λ xs. v ∷ xs) e,
        ap suc n,
        ap (λ xs. record { name = p; value = v } ∷ xs) l,
      )

  enter-Opens :
      (f : Function) (found : Option (List (Variable F) × List (Value F))) (r s : Runtime F)
      (b : Bool)
      → bind_args (reverse f.param_names) r.stack ≡ found
      → enter f found r ≡ done b s
      → Opens f r s
  enter-Opens f none r s b e h = absurd (false≢true (ap is_done h))
  enter-Opens f (some (locals, rest)) r s b e h = (
    locals,
    subst (λ rest'. Takes (reverse f.param_names) r.stack locals rest')
        (ap (λ o. (state_of o).stack) h)
        (subst (Bound (reverse f.param_names) r.stack) e
          (bind_args-Bound (reverse f.param_names) r.stack)),
    sym (ap (λ o. (state_of o).scope_stack) h),
    sym (ap (λ o. (state_of o).ip) h),
    sym (ap (λ o. (state_of o).variables) h),
  )

  call-Opens :
      (found : Option Function) (n : ℕ) (r s : Runtime F) (b : Bool)
      → call found n r ≡ done b s
      → (f : Function) × (found ≡ some f)
        × (length f.param_names ≡ n)
        × (length r.scope_stack < max_scopes)
        × Opens f r s
  call-Opens none n r s b = λ e. absurd (false≢true (ap is_done e))
  call-Opens (some f) n r s b =
      if-split (λ (o : Outcome F Bool). o ≡ done b s → Result) (not (n == length f.param_names))
        (λ _ e. absurd (false≢true (ap is_done e)))
        (λ same.
          if-split (λ (o : Outcome F Bool). o ≡ done b s → Result)
            (leb max_scopes (length r.scope_stack)) (λ _ e. absurd (false≢true (ap is_done e)))
            (λ room e.
              (f, refl, ground (arith, same), ground (arith, room), enter-Opens f _ r s b refl e)))
    where
      Result : Type 0
      Result =
          (g : Function) × (some f ≡ some g)
          × (length g.param_names ≡ n)
          × (length r.scope_stack < max_scopes)
          × Opens g r s

-- The scopes, the innermost one with other local variables.
abbrev pub with_locals : {F : Type 0} → List (Variable F) → List (Scope F) → List (Scope F)
with_locals locals [] = []
with_locals locals (c ∷ cs) = record c { local_vars = locals } ∷ cs

module _ {F : Type 0} (N : Floats F) where
  -- What the machine keeps when it leaves a function, and the value on the stack.
  abbrev Leaves : Bool → Scope F → List (Scope F) → Runtime F → Runtime F → Type 0
  Leaves has_value c cs q t =
      (t.ip ≡ c.return_ip)
      × (t.scope_stack ≡ cs)
      × (t.gosub_stack ≡ q.gosub_stack)
      × (t.variables ≡ q.variables)
      × (t.stack ≡ (if has_value then q.stack else number N.zero ∷ q.stack))

  push_done :
      (v : Value F) (r q : Runtime F) → push v r ≡ done tt q → q ≡ record r { stack = v ∷ r.stack }
  unfolding push
  push_done v r q =
      if-split (λ (o : Outcome F (Unit {0})). o ≡ done tt q → q ≡ record r { stack = v ∷ r.stack })
        (leb max_stack_depth (length r.stack)) (λ _ e. absurd (false≢true (ap is_done e)))
        (λ _ e. sym (ap state_of e))

  pop_from_done :
      (vs : List (Value F)) (r q : Runtime F) (v : Value F)
      → pop_from vs r ≡ done v q
      → (vs ≡ v ∷ q.stack) × (q ≡ record r { stack = q.stack })
  pop_from_done [] r q v e = absurd (false≢true (ap is_done e))
  pop_from_done (w ∷ ws) r q v e = (
    ap₂ ◌∷◌ (ap (answer w) e) (ap (λ o. (state_of o).stack) e),
    sym (ap state_of e) ∙ ap {B = Runtime F} (λ o. record r { stack = (state_of o).stack }) e,
  )

  pushed_value :
      (v : Value F) (ip : ℕ) (r t : Runtime F) (skip : Bool)
      → (push v >>= λ _. λ p. done true (record p { ip = ip })) r ≡ done skip t
      → t ≡ record r { stack = v ∷ r.stack; ip = ip }
  pushed_value v ip r t skip e =
      let (_, q, e1, h1) =
        bind-Steps (push v) (λ _. λ p. done true (record p { ip = ip })) r skip t e in
      sym (ap state_of h1)
      ∙ ap {A = Runtime F} {B = Runtime F} (λ q. record q { ip = ip }) (push_done v r q e1)

  leave_scope-Leaves :
      (c : Scope F) (cs : List (Scope F)) (has_value skip : Bool) (q t : Runtime F)
      → leave_scope N c cs has_value q ≡ done skip t
      → Leaves has_value c cs q t
  unfolding pop
  leave_scope-Leaves c cs true skip q t e =
      let (v, p, e1, h1) =
        bind-Steps pop
          (λ v. λ r.
            (push v >>= λ _. λ q. done true (record q { ip = c.return_ip }))
              (record r { scope_stack = cs }))
          q skip t e in
      let end : t ≡ record p { stack = v ∷ p.stack; ip = c.return_ip; scope_stack = cs } =
        pushed_value v c.return_ip (record p { scope_stack = cs }) t skip h1 in
      let (top, rest) = pop_from_done q.stack q p v e1 in
      (
        ap (λ o. o.ip) end,
        ap (λ o. o.scope_stack) end,
        ap (λ o. o.gosub_stack) end ∙ ap (λ o. o.gosub_stack) rest,
        ap (λ o. o.variables) end ∙ ap (λ o. o.variables) rest,
        ap (λ o. o.stack) end ∙ sym top,
      )
  leave_scope-Leaves c cs false skip q t e =
      let end : t
          ≡ record q { stack = number N.zero ∷ q.stack; ip = c.return_ip; scope_stack = cs } =
        pushed_value (number N.zero) c.return_ip (record q { scope_stack = cs }) t skip e in
      (
        ap (λ o. o.ip) end,
        ap (λ o. o.scope_stack) end,
        ap (λ o. o.gosub_stack) end,
        ap (λ o. o.variables) end,
        ap (λ o. o.stack) end,
      )

  -- A call of a function that succeeds takes as many arguments as the function has parameters off
  -- the stack, binds the last parameter to the topmost, and jumps to the function. Whatever the
  -- script does then: as soon as that scope is the innermost again, with whatever local variables, a
  -- RETURN that succeeds goes back behind the call and closes the scope. It leaves its value on the
  -- stack, or a zero if it has none, and touches neither the global variables nor the stack of the
  -- GOSUBs, those made inside the function included.
  pub call_function-return_op :
      (operand : ℕ) (b has_value skip : Bool) (r s q t : Runtime F) (locals : List (Variable F))
      → call_function operand r ≡ done b s
      → q.scope_stack ≡ with_locals locals s.scope_stack
      → return_op N has_value q ≡ done skip t
      → (f : Function) × (function_at r.functions (operand / 2 ^ 16) ≡ some f)
        × (length f.param_names ≡ operand % 2 ^ 16)
        × Opens f r s
        × ((t.ip ≡ r.ip)
            × (t.scope_stack ≡ r.scope_stack)
            × (t.gosub_stack ≡ q.gosub_stack)
            × (t.variables ≡ q.variables)
            × (t.stack ≡ (if has_value then q.stack else number N.zero ∷ q.stack)))
  unfolding call_function return_op
  call_function-return_op operand b has_value skip r s q t locals e same h =
      let (f, found, count, room, opened) =
        call-Opens (function_at r.functions (operand / 2 ^ 16)) (operand % 2 ^ 16) r s b e in
      let inner : q.scope_stack
          ≡ record { local_vars = locals; saved_var_count = length r.variables; return_ip = r.ip }
            ∷ r.scope_stack =
        same ∙ ap (with_locals locals) opened.2 in
      (
        f,
        found,
        count,
        opened,
        leave_scope-Leaves
            (record { local_vars = locals; saved_var_count = length r.variables; return_ip = r.ip })
            r.scope_stack has_value skip q t
            (sym (ap (λ ss. return_from N ss q.gosub_stack has_value q) inner) ∙ h),
      )
