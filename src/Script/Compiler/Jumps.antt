-- ===== src/Script/Compiler/Jumps.antt =====
-- One pass that patches the jumps forward gives the same code as two passes, of which the first
-- places the labels.
use c64stream.Base.{
  inl, inr, ℕ, suc, ◌<◌, ◌≡◌, ◌∙◌, fun_ext, sym, ap, ap₂, subst, false≢true, Option, none, some,
  List, [], ◌∷◌, refl, arith, ◌^◌, ◌%◌,
}
use c64stream.Base.Bools.{
  if-eq_of_true, if-eq_of_false, Bool-cases, if◌then◌else◌, ltb, if-split, lt→ltb,
}
use c64stream.Base.Bytes.{same_text, same_text_refl, same_text-eq}
use c64stream.Base.Lists.{length}
use c64stream.Script.Opcode.{Opcode}
use c64stream.Script.Compiler.{
  max_labels, or_else, Label, CompilerContext, emit, truncated, get_label_address, add_label,
  define_label, add_patch, emit_jump_to, emit_jump, patch_one, patch_all, patch_jumps,
}
use c64stream.Script.Compiler.Passes.{
  Action, plain, jump_to, label_here, then_act, assemble, count, positions, jump_before, place_of,
  dec_text, plain_before, resolve, address_if,
}
use c64stream.Script.Compiler.Patches.{
  Extends, AreShort, take-take, or_else-found, found_name, IsBelow, IsBelow-more,
  patch_all-HasLength, patch_all-plain_before, jump_before-some, patch_newest,
}

address_if-eq :
    (a : ℕ) (xs ys : List ℕ) (d : Dec (xs ≡ ys))
    → (if same_text xs ys then some a else none) ≡ address_if a d
address_if-eq a xs ys (yes e) = if-eq_of_true _ _ (ap (same_text xs) (sym e) ∙ same_text_refl xs)
address_if-eq a xs ys (no n) = elim (Bool-cases (same_text xs ys)) [
  | inl t ↦ absurd (n (same_text-eq xs ys t))
  | inr f ↦ if-eq_of_false _ _ f
]

get_label_address-place_of :
    (ls : List Label) (name : List ℕ) → get_label_address ls name ≡ place_of ls name
unfolding get_label_address
get_label_address-place_of [] name = refl
get_label_address-place_of (l ∷ ls) name =
    ap (λ o. or_else o (if same_text l.name name then some l.address else none))
      (get_label_address-place_of ls name)
    ∙ last (place_of ls name)
  where
    last :
        (o : Option ℕ)
        → or_else o (if same_text l.name name then some l.address else none) ≡ elim o [
          | some a ↦ some a
          | none ↦ elim (dec_text l.name name) [ yes e ↦ some l.address | no n ↦ none ]
        ]
    last (some a) = refl
    last none = address_if-eq l.address l.name name (dec_text l.name name)

-- What holds of the compiler after some actions.
record IsAssembly (rest : List Action) (ctx : CompilerContext) : Type 0 where
  placed : ctx.labels ≡ positions rest
  counted : length ctx.instructions ≡ count rest
  below : IsBelow (length ctx.instructions) ctx.patches
  short : AreShort ctx.labels
  resolved :
      (more : List Label)
      → Extends ctx.labels more
      → length ctx.patches < max_labels
      → patch_all more ctx.patches ctx.instructions ≡ resolve (get_label_address more) rest

abbrev Good : List Action → Option CompilerContext → Type 0
Good rest none = Unit
Good rest (some ctx) = IsAssembly rest ctx

plain-IsAssembly :
    (op : Opcode) (i line : ℕ) (rest : List Action) (ctx : CompilerContext)
    → IsAssembly rest ctx
    → IsAssembly (plain op i line ∷ rest) (emit op i line ctx)
unfolding resolve
plain-IsAssembly op i line rest ctx h = record {
  placed = h.placed;
  counted = ap suc h.counted;
  below = IsBelow-more _ _ ctx.patches (omega arith) h.below;
  short = h.short;
  resolved = λ more e lt.
      patch_all-plain_before more ctx.patches _ ctx.instructions h.below
      ∙ ap (plain_before _) (h.resolved more e lt);
}

found-IsAssembly :
    (op : Opcode) (name : List ℕ) (line a : ℕ) (rest : List Action) (ctx : CompilerContext)
    → IsAssembly rest ctx
    → get_label_address ctx.labels name ≡ some a
    → IsAssembly (jump_to op name line ∷ rest) (emit op (a % 2 ^ 32) line ctx)
unfolding resolve
found-IsAssembly op name line a rest ctx h found = record {
  placed = h.placed;
  counted = ap suc h.counted;
  below = IsBelow-more _ _ ctx.patches (omega arith) h.below;
  short = h.short;
  resolved = λ more e lt.
      patch_all-plain_before more ctx.patches _ ctx.instructions h.below
      ∙ ap (plain_before _) (h.resolved more e lt)
      ∙ jump_before-some op line a (resolve (get_label_address more) rest)
      ∙ ap (λ b. jump_before op line b (resolve (get_label_address more) rest))
          (sym (
            ap (get_label_address more) (found_name ctx.labels name a h.short found)
            ∙ e name a found));
}

open-IsAssembly :
    (op : Opcode) (name : List ℕ) (line : ℕ) (rest : List Action) (ctx : CompilerContext)
    → IsAssembly rest ctx
    → IsAssembly (jump_to op name line ∷ rest) (emit op 0 line (add_patch name ctx))
unfolding resolve patch_all
open-IsAssembly op name line rest ctx h =
    if-split (λ c. IsAssembly (jump_to op name line ∷ rest) (emit op 0 line c))
      (ltb (length ctx.patches) max_labels)
      (λ room. record {
        placed = h.placed;
        counted = ap suc h.counted;
        below = (omega arith, IsBelow-more _ _ ctx.patches (omega arith) h.below);
        short = h.short;
        resolved = λ more e lt.
            ap (patch_one (get_label_address more (truncated name)) (length ctx.instructions))
              (patch_all-plain_before more ctx.patches _ ctx.instructions h.below)
            ∙ patch_newest op line (length ctx.instructions)
                (get_label_address more (truncated name)) _
                (patch_all-HasLength more ctx.patches ctx.instructions)
            ∙ ap (jump_before op line (get_label_address more (truncated name)))
                (h.resolved more e (omega (arith, lt)));
      })
      (λ full. record {
        placed = h.placed;
        counted = ap suc h.counted;
        below = IsBelow-more _ _ ctx.patches (omega arith) h.below;
        short = h.short;
        resolved = λ more e lt. absurd (false≢true (sym full ∙ lt→ltb _ _ lt));
      })

jump-IsAssembly :
    (op : Opcode) (name : List ℕ) (line : ℕ) (rest : List Action) (ctx : CompilerContext)
    → IsAssembly rest ctx
    → IsAssembly (jump_to op name line ∷ rest) (emit_jump op name line ctx)
unfolding emit_jump
jump-IsAssembly op name line rest ctx h = by_address (get_label_address ctx.labels name) refl
  where
    by_address :
        (o : Option ℕ)
        → get_label_address ctx.labels name ≡ o
        → IsAssembly (jump_to op name line ∷ rest) (emit_jump_to o op name line ctx)
    by_address none e = open-IsAssembly op name line rest ctx h
    by_address (some a) e = found-IsAssembly op name line a rest ctx h e

label-Good :
    (name : List ℕ) (rest : List Action) (ctx : CompilerContext)
    → IsAssembly rest ctx
    → Good (label_here name ∷ rest) (define_label name ctx)
unfolding define_label resolve get_label_address
label-Good name rest ctx h = by_address (get_label_address ctx.labels name)
  where
    by_address : (o : Option ℕ) → Good (label_here name ∷ rest) (add_label name o ctx)
    by_address (some a) = tt
    by_address none =
        if-split (Good (label_here name ∷ rest)) (ltb (length ctx.labels) max_labels)
          (λ _. record {
            placed =
                ap₂ (λ n ls. record { name = truncated name; address = n } ∷ ls) h.counted h.placed;
            counted = h.counted;
            below = h.below;
            short = (take-take 63 name, h.short);
            resolved = λ more e lt.
                h.resolved more
                  (λ n a f. e n a (or_else-found (get_label_address ctx.labels n) _ a f)) lt;
          })
          (λ _. tt)

act-Good :
    (a : Action) (rest : List Action) (o : Option CompilerContext)
    → Good rest o
    → Good (a ∷ rest) (then_act a o)
act-Good a rest none h = tt
act-Good (plain op i line) rest (some ctx) h = plain-IsAssembly op i line rest ctx h
act-Good (jump_to op name line) rest (some ctx) h = jump-IsAssembly op name line rest ctx h
act-Good (label_here name) rest (some ctx) h = label-Good name rest ctx h

assemble-Good : (actions : List Action) → Good actions (assemble actions)
unfolding resolve patch_all
assemble-Good [] = record {
  placed = refl;
  counted = refl;
  below = tt;
  short = tt;
  resolved = λ more e lt. refl;
}
assemble-Good (a ∷ rest) = act-Good a rest (assemble rest) (assemble-Good rest)

-- Whatever instructions, jumps and labels are compiled, in any order: if every label could be
-- defined and fewer than 256 jumps went forward, then the patched code is the code of an assembler
-- with two passes, the first of which places the labels while the second gives each jump the
-- address of its label, of which 63 bytes count; and both fail alike where a label is undefined.
pub patch_jumps-resolve :
    (actions : List Action) (ctx : CompilerContext)
    → assemble actions ≡ some ctx
    → length ctx.patches < max_labels
    → patch_jumps ctx ≡ resolve (place_of (positions actions)) actions
unfolding patch_jumps
patch_jumps-resolve actions ctx e few =
    let h : IsAssembly actions ctx = subst (Good actions) e (assemble-Good actions) in
    h.resolved ctx.labels (λ n a f. f) few
    ∙ ap (λ ls. resolve (get_label_address ls) actions) h.placed
    ∙ ap (λ f. resolve f actions) (fun_ext (get_label_address-place_of (positions actions)))
