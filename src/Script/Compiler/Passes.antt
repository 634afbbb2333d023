-- ===== src/Script/Compiler/Passes.antt =====
-- What is compiled, as a list of actions, and an assembler with two passes.
use c64stream.Base.{
  inl, inr, sym, ap, ◌∙◌, ◌≡◌, false≢true, ℕ, suc, Option, none, some, List, [], ◌∷◌, ◌^◌, ◌%◌,
}
use c64stream.Base.Bools.{Bool-cases}
use c64stream.Base.Bytes.{same_text, same_text-eq, same_text_refl}
use c64stream.Script.Opcode.{Opcode, Instruction}
use c64stream.Script.Compiler.{Label, CompilerContext, emit, truncated, define_label, emit_jump}

-- What the compiler asks for: an instruction, a jump, a label.
pub data Action : Type 0 where
  plain : Opcode → ℕ → ℕ → Action
  jump_to : Opcode → List ℕ → ℕ → Action
  label_here : List ℕ → Action

abbrev pub no_context : CompilerContext
no_context = record { instructions = []; labels = []; patches = [] }

abbrev pub act : Action → CompilerContext → Option CompilerContext
act (plain op i line) ctx = some (emit op i line ctx)
act (jump_to op name line) ctx = some (emit_jump op name line ctx)
act (label_here name) ctx = define_label name ctx

abbrev pub then_act : Action → Option CompilerContext → Option CompilerContext
then_act a none = none
then_act a (some ctx) = act a ctx

-- The actions in the order of time, the newest first in the list.
abbrev pub assemble : List Action → Option CompilerContext
assemble [] = some no_context
assemble (a ∷ rest) = then_act a (assemble rest)

-- The first pass: how many instructions there are, and where the labels are.
abbrev pub count : List Action → ℕ
count [] = 0
count (plain op i line ∷ rest) = suc (count rest)
count (jump_to op name line ∷ rest) = suc (count rest)
count (label_here name ∷ rest) = count rest

abbrev pub positions : List Action → List Label
positions [] = []
positions (plain op i line ∷ rest) = positions rest
positions (jump_to op name line ∷ rest) = positions rest
positions (label_here name ∷ rest) =
    record { name = truncated name; address = count rest } ∷ positions rest

-- The address of a label that is found, if its name is the one.
abbrev pub address_if : {xs ys : List ℕ} → ℕ → Dec (xs ≡ ys) → Option ℕ
address_if a (yes e) = some a
address_if a (no n) = none

pub dec_text : (xs ys : List ℕ) → Dec (xs ≡ ys)
dec_text xs ys = elim (Bool-cases (same_text xs ys)) [
  | inl t ↦ yes (same_text-eq xs ys t)
  | inr f ↦ no (λ e. false≢true (sym f ∙ ap (same_text xs) (sym e) ∙ same_text_refl xs))
]

abbrev pub jump_before :
    Opcode → ℕ → Option ℕ → Option (List Instruction) → Option (List Instruction)
jump_before op line a none = none
jump_before op line none (some xs) = none
jump_before op line (some a) (some xs) =
    some (record { opcode = op; operand = a % 2 ^ 32; source_line = line } ∷ xs)

abbrev pub plain_before : Instruction → Option (List Instruction) → Option (List Instruction)
plain_before x none = none
plain_before x (some xs) = some (x ∷ xs)

-- The position of the oldest of the labels with this very name.
abbrev pub place_of : List Label → List ℕ → Option ℕ
place_of [] name = none
place_of (l ∷ ls) name = elim (place_of ls name) [
  | some a ↦ some a
  | none ↦ address_if l.address (dec_text l.name name)
]

-- The second pass: every jump has the address of its label.
unfoldable pub resolve : (List ℕ → Option ℕ) → List Action → Option (List Instruction)
resolve address_of [] = some []
resolve address_of (plain op i line ∷ rest) =
    plain_before (record { opcode = op; operand = i; source_line = line }) (resolve address_of rest)
resolve address_of (jump_to op name line ∷ rest) =
    jump_before op line (address_of (truncated name)) (resolve address_of rest)
resolve address_of (label_here name ∷ rest) = resolve address_of rest
