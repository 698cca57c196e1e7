-- ===== src/Cbp/Defs.antt =====
-- cbp.hpp: the constants, and the floating point operations that the controllers use.
use cloud_project.Prelude.{ℕ, ◌-◌, ◌^◌, Bool}
use cloud_project.Prelude.Int.{ℤ}

abbrev pub num_classes : ℕ
num_classes = 64

abbrev pub class_mask : ℕ
class_mask = num_classes - 1

abbrev pub window : ℕ
window = 2 ^ 12

abbrev pub min_log : ℕ
min_log = 1

abbrev pub max_log : ℕ
max_log = 14

abbrev pub default_log : ℕ
default_log = 5

abbrev pub sample_mask : ℕ
sample_mask = 7

abbrev pub v4_flush : ℕ
v4_flush = 2 ^ 12

abbrev pub num_decision_epochs : ℕ
num_decision_epochs = 8

-- `float` and `double` as the code uses them. `decimal m e` is the literal m · 10^-e. No law is
-- asked for here; a theorem that needs one names it.
pub record FloatOps : Type 1 where
  pub F : Type 0
  pub of_nat : ℕ → F
  pub decimal : ℕ → ℕ → F
  pub add : F → F → F
  pub sub : F → F → F
  pub mul : F → F → F
  pub div : F → F → F
  pub abs : F → F
  pub less : F → F → Bool
  pub equal : F → F → Bool
  pub to_int32 : F → ℤ
