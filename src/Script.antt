-- ===== src/Script.antt =====
-- src/script: the script language of the plugin, its values, its runtime, its machine.
pub mod Floats
pub mod Value
pub mod Opcode
pub mod State
pub mod Runtime
pub mod Compute
pub mod Containers
pub mod Control
pub mod Execute
pub mod Vm
pub mod Samples
pub mod Compiler
pub mod Expression
