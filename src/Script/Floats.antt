-- ===== src/Script/Floats.antt =====
-- The numbers of the scripts, IEEE doubles: an interface of what the code asks of them.
use c64stream.Base.{ℕ, Bool, Option, List}
use c64stream.Base.Int.{ℤ}

-- `F` stands for double. `trunc` is what is left of the fraction, or nothing if that is not finite;
-- `text` is c64script_builtin_str, a call of `snprintf` that has room for every number.
pub record Floats (F : Type 0) : Type 0 where
  pub zero : F
  pub one : F
  pub sum : F → F → F
  pub sub : F → F → F
  pub mul : F → F → F
  pub div : F → F → F
  pub neg : F → F
  pub less : F → F → Bool
  pub less_eq : F → F → Bool
  pub is_zero : F → Bool
  pub same : F → F → Bool
  pub from_int : ℤ → F
  pub trunc : F → Option ℤ
  pub text : F → List ℕ
