-- ===== src/Script/Expression/Instructions.antt =====
-- What the instructions that expressions compile to do to the stack.
use c64stream.Base.{ℕ, ◌<◌, ◌≡◌, ◌∙◌, sym, ap, Bool, false, Option, none, some, List, ◌∷◌, refl}
use c64stream.Base.Bools.{if-eq_of_false, lt→leb-false}
use c64stream.Base.Lists.{length}
use c64stream.Script.Floats.{Floats}
use c64stream.Script.Value.{Value, number, string, array_get, map_get}
use c64stream.Script.Opcode.{Opcode, Instruction}
use c64stream.Script.State.{
  Runtime, Outcome, M, done, failed, pure, push, pop, ◌>>=◌, max_stack_depth,
}
use c64stream.Script.Runtime.{get_var}
use c64stream.Script.Compute.{unary, binary, negate, complement, require_number}
use c64stream.Script.Containers.{
  constant_at, constant_name, array_index, checked_index, elements_of, in_bounds, key_of,
  entries_of, array_get_op, map_get_op,
}
use c64stream.Script.Execute.{Devices, quiet, push_const, push_var, execute_instruction}
use c64stream.Script.Expression.{
  Operator, expr_add, expr_subtract, expr_multiply, expr_divide, expr_negate, expr_eq, expr_ne,
  expr_lt, expr_le, expr_gt, expr_ge, expr_not, expr_and, expr_xor, expr_or, binary_opcode,
}
use c64stream.Script.Expression.Meaning.{
  with_stack, Pushes, operation, ElementOf, EntryOf, run_code,
}

module _ {F : Type 0} (N : Floats F) (dev : Devices F) where
  push_room :
      (v : Value F) (r : Runtime F) (vs : List (Value F))
      → length vs < max_stack_depth
      → push v (with_stack r vs) ≡ done tt (with_stack r (v ∷ vs))
  unfolding push
  push_room v r vs lt = if-eq_of_false _ _ (lt→leb-false max_stack_depth (length vs) lt)

  pub run_step :
      (op : Opcode) (i line : ℕ) (b : Bool) (xs : List Instruction) (r s t : Runtime F)
      → run_code N dev xs r ≡ done tt s
      → execute_instruction N dev op i s ≡ done b t
      → run_code N dev (record { opcode = op; operand = i; source_line = line } ∷ xs) r ≡ done tt t
  run_step op i line b xs r s t h k =
      ap
        (λ (o : Outcome F (Unit {0})). elim o [
          | done a q ↦ (execute_instruction N dev op i >>= λ _. pure tt) q
          | failed q ↦ failed q
        ])
        h
      ∙ ap (λ (o : Outcome F Bool). elim o [ done a q ↦ done tt q | failed q ↦ failed q ]) k

  quiet_done :
      (m : M F (Unit {0})) (s t : Runtime F) → m s ≡ done tt t → quiet N dev m s ≡ done false t
  quiet_done m s t h =
      ap (λ (o : Outcome F (Unit {0})). elim o [ done a q ↦ done false q | failed q ↦ failed q ]) h

  pub run_push_const :
      (i : ℕ) (v : Value F) (r : Runtime F) (vs : List (Value F))
      → constant_at r.constants i ≡ some v
      → length vs < max_stack_depth
      → execute_instruction N dev Opcode.op_push_const i (with_stack r vs)
        ≡ done false (with_stack r (v ∷ vs))
  unfolding execute_instruction push_const
  run_push_const i v r vs e lt =
      quiet_done (push_const N dev i) (with_stack r vs) (with_stack r (v ∷ vs))
        (rw e (push_room v r vs lt))

  same_var :
      (name : List ℕ) (r : Runtime F) (vs : List (Value F))
      → get_var N name (with_stack r vs) ≡ get_var N name r
  unfolding get_var
  same_var name r vs = refl

  found_name :
      (i : ℕ) (name : List ℕ) (r : Runtime F) (vs : List (Value F))
      → constant_at r.constants i ≡ some (string name)
      → constant_name i (with_stack r vs) ≡ done name (with_stack r vs)
  unfolding constant_name
  found_name i name r vs e = rw e refl

  bind_at :
      {A B : Type 0} (m : M F A) (f : A → M F B) (s q : Runtime F) (a : A)
      → m s ≡ done a q
      → (m >>= f) s ≡ f a q
  bind_at {A} m f s q a h =
      ap (λ (o : Outcome F A). elim o [ done a q ↦ f a q | failed q ↦ failed q ]) h

  pub run_push_var :
      (i : ℕ) (name : List ℕ) (r : Runtime F) (vs : List (Value F))
      → constant_at r.constants i ≡ some (string name)
      → length vs < max_stack_depth
      → execute_instruction N dev Opcode.op_push_var i (with_stack r vs)
        ≡ done false (with_stack r (get_var N name r ∷ vs))
  unfolding execute_instruction push_var
  run_push_var i name r vs e lt =
      quiet_done (push_var N dev i) (with_stack r vs) (with_stack r (get_var N name r ∷ vs)) (
        bind_at (constant_name i) (λ name. λ r. push (get_var N name r) r) (with_stack r vs)
          (with_stack r vs) name (found_name i name r vs e)
        ∙ ap (λ w. push w (with_stack r vs)) (same_var name r vs)
        ∙ push_room (get_var N name r) r vs lt)

  -- The rest of `array_get_op` behind the index, the array and the element.
  abbrev from_element : Option (Value F) → M F (Unit {0})
  from_element o = in_bounds N o >>= λ x. push x

  abbrev from_array : ℕ → Value F → M F (Unit {0})
  from_array k w = elements_of N w >>= λ (t, us). from_element (array_get us k)

  abbrev from_index : List ℕ → Option ℕ → M F (Unit {0})
  from_index name o = checked_index N o >>= λ k. λ r. from_array k (get_var N name r) r

  pub run_array_get :
      (i : ℕ) (name : List ℕ) (a v : Value F) (r : Runtime F) (vs : List (Value F))
      → constant_at r.constants i ≡ some (string name)
      → ElementOf N name a r v
      → length vs < max_stack_depth
      → execute_instruction N dev Opcode.op_array_get i (with_stack r (a ∷ vs))
        ≡ done false (with_stack r (v ∷ vs))
  unfolding execute_instruction array_get_op pop
  run_array_get i name a v r vs e (x, k, t, us, e0, e1, e2, e3) lt =
      quiet_done (array_get_op N i) (with_stack r (a ∷ vs)) (with_stack r (v ∷ vs)) (
        bind_at (constant_name i)
          (λ name. pop >>= λ w. array_index N w >>= λ k. λ r. from_array k (get_var N name r) r)
          (with_stack r (a ∷ vs)) (with_stack r (a ∷ vs)) name (found_name i name r (a ∷ vs) e)
        ∙ ap
            (λ w.
              (array_index N w >>= λ k. λ r. from_array k (get_var N name r) r) (with_stack r vs))
            e0
        ∙ ap (λ o. from_index name o (with_stack r vs)) e1
        ∙ ap (λ w. from_array k w (with_stack r vs)) (same_var name r vs ∙ e2)
        ∙ ap (λ o. from_element o (with_stack r vs)) e3
        ∙ push_room v r vs lt)

  abbrev from_map : List ℕ → Value F → M F (Unit {0})
  from_map key w = entries_of N w >>= λ (t, es). push (map_get N t es key)

  pub run_map_get :
      (i : ℕ) (name : List ℕ) (a v : Value F) (r : Runtime F) (vs : List (Value F))
      → constant_at r.constants i ≡ some (string name)
      → EntryOf N name a r v
      → length vs < max_stack_depth
      → execute_instruction N dev Opcode.op_map_get i (with_stack r (a ∷ vs))
        ≡ done false (with_stack r (v ∷ vs))
  unfolding execute_instruction map_get_op pop
  run_map_get i name a v r vs e (key, t, es, e0, e1, e2) lt =
      quiet_done (map_get_op N i) (with_stack r (a ∷ vs)) (with_stack r (v ∷ vs)) (
        bind_at (constant_name i)
          (λ name. pop >>= λ w. key_of N w >>= λ key. λ r. from_map key (get_var N name r) r)
          (with_stack r (a ∷ vs)) (with_stack r (a ∷ vs)) name (found_name i name r (a ∷ vs) e)
        ∙ ap (λ w. (key_of N w >>= λ key. λ r. from_map key (get_var N name r) r) (with_stack r vs))
            e0
        ∙ ap (λ w. from_map key w (with_stack r vs)) (same_var name r vs ∙ e1)
        ∙ ap (λ w. push w (with_stack r vs)) (sym e2)
        ∙ push_room v r vs lt)

  binary_done :
      (f : Value F → Value F → M F (Unit {0})) (a b v : Value F) (r : Runtime F)
      (vs : List (Value F))
      → Pushes (f a b) r v
      → length vs < max_stack_depth
      → quiet N dev (binary f) (with_stack r (b ∷ a ∷ vs)) ≡ done false (with_stack r (v ∷ vs))
  unfolding binary pop
  binary_done f a b v r vs h lt =
      quiet_done (binary f) (with_stack r (b ∷ a ∷ vs)) (with_stack r (v ∷ vs)) (h vs lt)

  unary_done :
      (f : Value F → M F (Unit {0})) (a v : Value F) (r : Runtime F) (vs : List (Value F))
      → Pushes (f a) r v
      → length vs < max_stack_depth
      → quiet N dev (unary f) (with_stack r (a ∷ vs)) ≡ done false (with_stack r (v ∷ vs))
  unfolding unary pop
  unary_done f a v r vs h lt =
      quiet_done (unary f) (with_stack r (a ∷ vs)) (with_stack r (v ∷ vs)) (h vs lt)

  pub run_negate :
      (x : F) (r : Runtime F) (vs : List (Value F))
      → length vs < max_stack_depth
      → execute_instruction N dev Opcode.op_negate 0 (with_stack r (number x ∷ vs))
        ≡ done false (with_stack r (number (N.neg x) ∷ vs))
  unfolding execute_instruction negate require_number
  run_negate x r vs lt =
      unary_done (negate N) (number x) (number (N.neg x)) r vs
        (λ us room. push_room (number (N.neg x)) r us room) lt

  pub run_not :
      (a v : Value F) (r : Runtime F) (vs : List (Value F))
      → Pushes (complement N a) r v
      → length vs < max_stack_depth
      → execute_instruction N dev Opcode.op_not 0 (with_stack r (a ∷ vs))
        ≡ done false (with_stack r (v ∷ vs))
  unfolding execute_instruction
  run_not a v r vs h lt = unary_done (complement N) a v r vs h lt

  -- The instruction of a binary operator, if it has one, is its operation.
  abbrev pub RunsBinary :
      Option Opcode → Value F → Value F → Value F → Runtime F → List (Value F) → Type 0
  RunsBinary none a b v r vs = Unit
  RunsBinary (some op) a b v r vs =
      execute_instruction N dev op 0 (with_stack r (b ∷ a ∷ vs))
      ≡ done false (with_stack r (v ∷ vs))

  pub run_binary :
      (op : Operator) (a b v : Value F) (r : Runtime F) (vs : List (Value F))
      → Pushes (operation N op a b) r v
      → length vs < max_stack_depth
      → RunsBinary (binary_opcode N op) a b v r vs
  unfolding execute_instruction
  run_binary expr_add a b v r vs h lt = binary_done (operation N expr_add) a b v r vs h lt
  run_binary expr_subtract a b v r vs h lt = binary_done (operation N expr_subtract) a b v r vs h lt
  run_binary expr_multiply a b v r vs h lt = binary_done (operation N expr_multiply) a b v r vs h lt
  run_binary expr_divide a b v r vs h lt = binary_done (operation N expr_divide) a b v r vs h lt
  run_binary expr_eq a b v r vs h lt = binary_done (operation N expr_eq) a b v r vs h lt
  run_binary expr_ne a b v r vs h lt = binary_done (operation N expr_ne) a b v r vs h lt
  run_binary expr_lt a b v r vs h lt = binary_done (operation N expr_lt) a b v r vs h lt
  run_binary expr_le a b v r vs h lt = binary_done (operation N expr_le) a b v r vs h lt
  run_binary expr_gt a b v r vs h lt = binary_done (operation N expr_gt) a b v r vs h lt
  run_binary expr_ge a b v r vs h lt = binary_done (operation N expr_ge) a b v r vs h lt
  run_binary expr_and a b v r vs h lt = binary_done (operation N expr_and) a b v r vs h lt
  run_binary expr_xor a b v r vs h lt = binary_done (operation N expr_xor) a b v r vs h lt
  run_binary expr_or a b v r vs h lt = binary_done (operation N expr_or) a b v r vs h lt
  run_binary expr_negate a b v r vs h lt = tt
  run_binary expr_not a b v r vs h lt = tt
