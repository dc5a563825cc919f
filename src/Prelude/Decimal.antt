-- ===== src/Prelude/Decimal.antt =====
-- `Display` of the integer types: the decimal print that `format!` puts into ids and reasons.
use Prim.Native.Char.{Char, code}
use Prim.Native.Nat.{ℕ, zero, suc, ◌+◌, ◌-◌, ◌*◌, ◌/◌, ◌%◌, ◌<◌}
use Prim.Native.String.{String, ◌++◌}
use mathlib.Core.Path.{◌≡◌, refl, ap, sym, ◌∙◌}
use mathlib.Core.Logic.{inl, inr}
use native.Mathlib.Omega.{arith}
use faultforge.Prelude.Tests.{ltb, ◌==◌, if◌then◌else◌, Bool-cases}
use faultforge.Prelude.Int.{ℤ, pos, negsuc}
use faultforge.Prelude.Text.{is_digit, all_bytes}
use mathlib.Core.Bool.{true}

digit : ℕ → Char
digit d =
    if d == 0
    then "0"
    else if d == 1
    then "1"
    else if d == 2
    then "2"
    else if d == 3
    then "3"
    else if d == 4
    then "4"
    else if d == 5
    then "5"
    else if d == 6
    then "6"
    else if d == 7
    then "7"
    else if d == 8
    then "8"
    else "9"

-- The digits of `n` in front of `out`; each round takes one digit off, so fuel above `n` is enough.
digits : ℕ → ℕ → String → String
digits zero n out = out
digits (suc fuel) n out =
    let next = String.◌∷◌ (digit (n % 10)) out in
    let rest = digits fuel (n / 10) next in if ltb n 10 then next else rest

unfoldable pub show : ℕ → String
unfolding digits digit
show n = digits (suc n) n ""

unfoldable pub show_ℤ : ℤ → String
show_ℤ (pos n) = show n
show_ℤ (negsuc n) = "-" ++ show (suc n)

-- Reading decimal digits back.
value_from : ℕ → String → ℕ
value_from v String.[] = v
value_from v (String.◌∷◌ c s) = value_from (v * 10 + (code c - 48)) s

code-digit : (d : ℕ) → d < 10 → code (digit d) ≡ d + 48
unfolding digit
code-digit zero h = refl
code-digit (suc zero) h = refl
code-digit (suc (suc zero)) h = refl
code-digit (suc (suc (suc zero))) h = refl
code-digit (suc (suc (suc (suc zero)))) h = refl
code-digit (suc (suc (suc (suc (suc zero))))) h = refl
code-digit (suc (suc (suc (suc (suc (suc zero)))))) h = refl
code-digit (suc (suc (suc (suc (suc (suc (suc zero))))))) h = refl
code-digit (suc (suc (suc (suc (suc (suc (suc (suc zero)))))))) h = refl
code-digit (suc (suc (suc (suc (suc (suc (suc (suc (suc zero))))))))) h = refl
code-digit (suc (suc (suc (suc (suc (suc (suc (suc (suc (suc d)))))))))) h = absurd (omega arith)

value-digits :
    (fuel n : ℕ) (out : String) → n < fuel → value_from 0 (digits fuel n out) ≡ value_from n out
unfolding digits value_from
value-digits zero n out h = absurd (omega arith)
value-digits (suc fuel) n out h = elim (Bool-cases (ltb n 10)) [
  | inl small ↦ rw small (ap (λ v. value_from v out) (ground (arith, code-digit (n % 10))))
  | inr large ↦ rw large (
      value-digits fuel (n / 10) _ (ground arith)
      ∙ ap (λ v. value_from v out) (ground (arith, code-digit (n % 10))))
]

-- Different numbers print differently.
pub show-injective : (m n : ℕ) → show m ≡ show n → m ≡ n
unfolding show value_from
show-injective m n e =
    sym (value-digits (suc m) m "" (omega arith))
    ∙ (ap (value_from 0) e ∙ value-digits (suc n) n "" (omega arith))

show_1203 : show 1203 ≡ "1203"
unfolding show
show_1203 = refl

is_digit-digit : (d : ℕ) → d < 10 → is_digit (code (digit d)) ≡ true
is_digit-digit d h = ground (arith, code-digit d h)

digits_bytes :
    (fuel n : ℕ) (out : String)
    → all_bytes is_digit out ≡ true
    → all_bytes is_digit (digits fuel n out) ≡ true
unfolding digits
digits_bytes zero n out h = h
digits_bytes (suc fuel) n out h =
    ground
      (arith, is_digit-digit (n % 10), digits_bytes fuel (n / 10) (String.◌∷◌ (digit (n % 10)) out))

-- A number prints as digits alone.
pub show_bytes : (n : ℕ) → all_bytes is_digit (show n) ≡ true
unfolding show
show_bytes n = digits_bytes (suc n) n "" refl
