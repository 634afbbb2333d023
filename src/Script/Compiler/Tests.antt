-- ===== src/Script/Compiler/Tests.antt =====
-- A loop with a jump forward and one back.
use c64stream.Base.{ℕ, ◌≡◌, ◌<◌, Option, some, none, List, [], ◌∷◌, refl, arith}
use c64stream.Base.Bytes.{same_text}
use c64stream.Base.Lists.{length}
use c64stream.Script.Opcode
use c64stream.Script.Opcode.{Instruction}
use c64stream.Script.Compiler.{
  CompilerContext, patch_jumps, get_label_address, define_label, emit_jump, set_operand,
}
use c64stream.Script.Compiler.Passes.{
  Action, plain, jump_to, label_here, no_context, assemble, positions, resolve, place_of,
}
use c64stream.Script.Compiler.Jumps.{patch_jumps-resolve}

abbrev start_label : List ℕ
start_label = 83 ∷ []

abbrev end_label : List ℕ
end_label = 69 ∷ []

-- The newest action first.
abbrev while_loop : List Action
while_loop =
    label_here end_label
    ∷ jump_to Opcode.op_jump start_label 30
    ∷ jump_to Opcode.op_while_check end_label 10
    ∷ plain Opcode.op_push_num 1 10
    ∷ label_here start_label
    ∷ []

abbrev context_of : Option CompilerContext → CompilerContext
context_of none = no_context
context_of (some ctx) = ctx

abbrev compiled : CompilerContext
compiled = context_of (assemble while_loop)

assembled : assemble while_loop ≡ some compiled
unfolding define_label get_label_address emit_jump same_text
assembled = refl

few : length compiled.patches < 256
unfolding define_label get_label_address emit_jump same_text
few = omega arith

patch_jumps-resolve_example :
    patch_jumps compiled ≡ resolve (place_of (positions while_loop)) while_loop
patch_jumps-resolve_example = patch_jumps-resolve while_loop compiled assembled few

abbrev code : List Instruction
code =
    record { opcode = Opcode.op_jump; operand = 0; source_line = 30 }
    ∷ record { opcode = Opcode.op_while_check; operand = 3; source_line = 10 }
    ∷ record { opcode = Opcode.op_push_num; operand = 1; source_line = 10 }
    ∷ []

loop_test : patch_jumps compiled ≡ some code
unfolding define_label get_label_address emit_jump same_text patch_jumps set_operand
loop_test = refl
