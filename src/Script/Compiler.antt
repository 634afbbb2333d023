-- ===== src/Script/Compiler.antt =====
-- src/script/vm/c64-script-bytecode.c: instructions, labels, and the patching of jumps. The arrays
-- that are filled from their start are lists with the newest element first; the lack of memory is
-- not modelled. An address of SIZE_MAX, which means that there is none, is `none`.
pub mod Passes
pub mod Patches
pub mod Jumps
mod Tests
use c64stream.Base.{ℕ, ◌^◌, ◌%◌, Bool, true, false, Option, none, some, List, [], ◌∷◌}
use c64stream.Base.Bools.{◌==◌, ltb, if◌then◌else◌}
use c64stream.Base.Bytes.{same_text}
use c64stream.Base.Lists.{length, take}
use c64stream.Script.Opcode.{Opcode, Instruction}

-- C64SCRIPT_MAX_LABELS.
abbrev pub max_labels : ℕ
max_labels = 256

pub record Label : Type 0 where
  pub name : List ℕ
  pub address : ℕ

pub record Patch : Type 0 where
  pub instruction_index : ℕ
  pub label : List ℕ

-- What compiler_context_t has for instructions and jumps.
pub record CompilerContext : Type 0 where
  pub instructions : List Instruction
  pub labels : List Label
  pub patches : List Patch

abbrev pub emit : Opcode → ℕ → ℕ → CompilerContext → CompilerContext
emit opcode operand source_line ctx = record ctx {
  instructions =
      record { opcode = opcode; operand = operand; source_line = source_line } ∷ ctx.instructions;
}

-- A label holds 63 bytes.
abbrev pub truncated : List ℕ → List ℕ
truncated name = take 63 name

abbrev pub or_else : Option ℕ → Option ℕ → Option ℕ
or_else (some a) other = some a
or_else none other = other

-- The loop from the first label on.
unfoldable pub get_label_address : List Label → List ℕ → Option ℕ
get_label_address [] name = none
get_label_address (l ∷ ls) name =
    or_else (get_label_address ls name) (if same_text l.name name then some l.address else none)

abbrev pub add_label : List ℕ → Option ℕ → CompilerContext → Option CompilerContext
add_label name (some a) ctx = none
add_label name none ctx =
    if ltb (length ctx.labels) max_labels
    then some (record ctx {
      labels = record { name = truncated name; address = length ctx.instructions } ∷ ctx.labels;
    })
    else none

-- `none` is a duplicate, or one too many.
unfoldable pub define_label : List ℕ → CompilerContext → Option CompilerContext
define_label name ctx = add_label name (get_label_address ctx.labels name) ctx

abbrev pub add_patch : List ℕ → CompilerContext → CompilerContext
add_patch label ctx =
    if ltb (length ctx.patches) max_labels
    then record ctx {
      patches =
          record { instruction_index = length ctx.instructions; label = truncated label }
          ∷ ctx.patches;
    }
    else ctx

abbrev pub emit_jump_to : Option ℕ → Opcode → List ℕ → ℕ → CompilerContext → CompilerContext
emit_jump_to none opcode label source_line ctx = emit opcode 0 source_line (add_patch label ctx)
emit_jump_to (some a) opcode label source_line ctx = emit opcode (a % 2 ^ 32) source_line ctx

unfoldable pub emit_jump : Opcode → List ℕ → ℕ → CompilerContext → CompilerContext
emit_jump opcode label source_line ctx =
    emit_jump_to (get_label_address ctx.labels label) opcode label source_line ctx

-- ctx->instructions[i].operand = addr
unfoldable pub set_operand : List Instruction → ℕ → ℕ → List Instruction
set_operand [] i addr = []
set_operand (x ∷ xs) i addr =
    if i == length xs then record x { operand = addr } ∷ xs else x ∷ set_operand xs i addr

abbrev pub patch_one : Option ℕ → ℕ → Option (List Instruction) → Option (List Instruction)
patch_one a i none = none
patch_one none i (some xs) = none
patch_one (some a) i (some xs) = some (set_operand xs i (a % 2 ^ 32))

-- The loop from the first patch on.
unfoldable pub patch_all : List Label → List Patch → List Instruction → Option (List Instruction)
patch_all labels [] xs = some xs
patch_all labels (p ∷ ps) xs =
    patch_one (get_label_address labels p.label) p.instruction_index (patch_all labels ps xs)

-- The patched instructions; `none` is an undefined label.
unfoldable pub patch_jumps : CompilerContext → Option (List Instruction)
unfolding patch_all
patch_jumps ctx = patch_all ctx.labels ctx.patches ctx.instructions
