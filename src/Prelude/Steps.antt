-- ===== src/Prelude/Steps.antt =====
-- The chain of steps of code that may fail an assertion or run out of rounds.

use mathlib.Core.Bool.{Bool, true, false}
use mathlib.Core.Path.{◌≡◌, ap}
use cloud_project.Prelude.Runs.{Run, done, aborted, out_of_rounds}

infixl 5 ◌>>=◌ ◌>>◌
abbrev pub ◌>>=◌ {ℓ κ} : {A : Type ℓ} {B : Type κ} → Run A → (A → Run B) → Run B
done a >>= f = f a
aborted >>= f = aborted
out_of_rounds >>= f = out_of_rounds

abbrev pub ◌>>◌ {ℓ} : {B : Type ℓ} → Run (Unit {0}) → Run B → Run B
m >> k = m >>= λ _. k

abbrev pub check : Bool → Run (Unit {0})
check true = done tt
check false = aborted

abbrev result_or {ℓ} : {A : Type ℓ} → A → Run A → A
result_or x (done y) = y
result_or x aborted = x
result_or x out_of_rounds = x

pub done_injective {ℓ} : {A : Type ℓ} (x y : A) → done x ≡ done y → x ≡ y
done_injective x y e = ap (result_or x) e
