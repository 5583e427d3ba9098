-- ===== src/Prelude/Decimal.antt =====
-- The decimal print of a number, as an f-string makes it, and that it tells numbers apart.
use Prim.Native.Char.{Char, char, code, IsScalar}
use Prim.Native.Nat.{ℕ, zero, suc, ◌+◌, ◌-◌, ◌*◌, ◌/◌, ◌%◌, ◌≤◌, ◌<◌}
use Prim.Native.String.{String, [], ◌∷◌}
use mathlib.Core.Path.{◌≡◌, refl, sym, ap, ◌∙◌}
use mathlib.Core.Bool.{false}
use native.Mathlib.Omega.{arith}
use mister_pilot_proxy.Prelude.Tests.{eqb, if◌then◌else◌}

digit-IsScalar : (d : ℕ) → d < 10 → IsScalar (48 + d)
digit-IsScalar d h = ground arith

digit : ℕ → Char
unfolding digit-IsScalar
digit n = char (48 + n % 10) (digit-IsScalar (n % 10) (omega arith))

-- As many rounds as the number is large are enough: each divides it by ten.
emit : ℕ → ℕ → String → String
unfolding digit
emit zero n out = out
emit (suc rounds) n out =
    let more = emit rounds (n / 10) (digit n ∷ out) in if eqb n 0 then out else more

unfoldable pub decimal : ℕ → String
unfolding emit digit
decimal n = if eqb n 0 then digit 0 ∷ [] else emit n n []

-- The number that the digits say, after those already read.
scan : ℕ → String → ℕ
scan n [] = n
scan n (c ∷ s) = scan (n * 10 + (code c - 48)) s

scan-emit : (rounds n : ℕ) (out : String) → n ≤ rounds → scan 0 (emit rounds n out) ≡ scan n out
unfolding emit scan digit
scan-emit zero n out h = ground arith
scan-emit (suc rounds) n out h = ground (arith, scan-emit rounds (n / 10) (digit n ∷ out))

scan-decimal : (n : ℕ) → scan 0 (decimal n) ≡ n
unfolding decimal scan digit
scan-decimal zero = refl
scan-decimal (suc n) =
    let test : eqb (suc n) 0 ≡ false = ground arith in
    let e = scan-emit (suc n) (suc n) [] (omega arith) in rw test (rw test at e)

pub decimal_inj : (n m : ℕ) → decimal n ≡ decimal m → n ≡ m
decimal_inj n m e = sym (scan-decimal n) ∙ ap (scan 0) e ∙ scan-decimal m
