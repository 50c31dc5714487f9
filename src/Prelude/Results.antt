-- ===== src/Prelude/Results.antt =====
-- A Go result with an error, and the chain of fallible steps.
use mathlib.Core.Path.{◌≡◌}
use mathlib.Core.Logic.{◌≢◌}

pub data Result (E A : Type 0) : Type 0 where
  ok : A → Result E A
  err : E → Result E A

pub ok_eq : {E : Type 0} {A : Type 0} (a b : A) → ◌≡◌ {A = Result E A} (ok a) (ok b) → a ≡ b
ok_eq a b h = cc

pub err_not_ok : {E : Type 0} {A : Type 0} (e : E) (a : A) → err e ≢ ok a
err_not_ok e a h = cc
