-- ===== src/Prelude/Decimal.antt =====
-- `str(n)` of a Python integer that is not negative.
use Prim.Native.Nat.{ℕ, zero, suc, ◌+◌, ◌-◌, ◌*◌, ◌/◌, ◌%◌, ◌≤◌, ◌<◌}
use mathlib.Core.Path.{◌≡◌, sym, ap, ◌∙◌}
use mathlib.Core.List.{[], ◌∷◌}
use native.Mathlib.Omega.{arith}
use fastapi_polyrepo_templat.Prelude.Tests.{ltb, if◌then◌else◌}
use fastapi_polyrepo_templat.Prelude.Lists.{All}
use fastapi_polyrepo_templat.Prelude.Texts.{Text}

-- The digits of `n` in front of `out`. A quotient by ten is smaller, so fuel `suc n` is enough.
decimal_from : ℕ → ℕ → Text → Text
decimal_from zero n out = out
decimal_from (suc f) n out =
    let rest = decimal_from f (n / 10) ((b'0' + n % 10) ∷ out) in
    if ltb n 10 then (b'0' + n) ∷ out else rest

unfoldable pub str : ℕ → Text
unfolding decimal_from
str n = decimal_from (suc n) n []

abbrev pub IsDigit : ℕ → Type 0
IsDigit c = (b'0' ≤ c) × (c ≤ b'9')

decimal_from-IsDigit : (f n : ℕ) (out : Text) → All IsDigit out → All IsDigit (decimal_from f n out)
unfolding decimal_from
decimal_from-IsDigit zero n out h = h
decimal_from-IsDigit (suc f) n out h =
    ground (arith, decimal_from-IsDigit f (n / 10) ((b'0' + n % 10) ∷ out))

pub str-IsDigit : (n : ℕ) → All IsDigit (str n)
unfolding str
str-IsDigit n = decimal_from-IsDigit (suc n) n [] tt

-- The number that digits spell behind `n`.
value : ℕ → Text → ℕ
value n [] = n
value n (c ∷ s) = value (n * 10 + (c - b'0')) s

value-decimal_from : (f n : ℕ) (out : Text) → n < f → value 0 (decimal_from f n out) ≡ value n out
unfolding decimal_from value
value-decimal_from zero n out h = absurd (omega arith)
value-decimal_from (suc f) n out h =
    ground (arith, value-decimal_from f (n / 10) ((b'0' + n % 10) ∷ out))

-- Two numbers with one print are the same.
pub str-injective : (m n : ℕ) → str m ≡ str n → m ≡ n
unfolding str value
str-injective m n e =
    sym (value-decimal_from (suc m) m [] (omega arith))
    ∙ ap (value 0) e
    ∙ value-decimal_from (suc n) n [] (omega arith)
