-- ===== src/Base/Digits.antt =====
-- The decimal digits of a number can be read back.
use Prim.Native.Nat.{ℕ, zero, suc, ◌+◌, ◌-◌, ◌*◌, ◌/◌, ◌%◌, ◌≤◌, ◌<◌}
use mathlib.Core.Path.{◌≡◌, sym, ap, ◌∙◌}
use mathlib.Core.Logic.{inl, inr}
use mathlib.Core.Bool.{false}
use mathlib.Core.List.{[], ◌∷◌}
use native.Mathlib.Omega.{arith}
use stack_migrate.Base.Tests.{ltb, Bool-cases}
use stack_migrate.Base.Texts.{Text, digits_from, show}

not_below : (a b : ℕ) → ltb a b ≡ false → b ≤ a
not_below a b h = ground arith

-- The number that some digits add to a number already read.
unfoldable pub read_digits : ℕ → Text → ℕ
read_digits n [] = n
read_digits n (c ∷ s) = read_digits (n * 10 + (c - b'0')) s

read-digits_from :
    (fuel n : ℕ) (out : Text)
    → n < fuel
    → read_digits 0 (digits_from fuel n out) ≡ read_digits n out
unfolding read_digits digits_from
read-digits_from zero n out h = absurd (omega arith)
read-digits_from (suc f) n out h = elim (Bool-cases (ltb n 10)) [
  | inl e ↦ rw e (ap (λ m. read_digits m out) (omega arith))
  | inr e ↦ rw e (
      read-digits_from f (n / 10) ((b'0' + n % 10) ∷ out) (omega (arith, not_below n 10 e))
      ∙ ap (λ m. read_digits m out) (omega arith))
]

-- A number is read back from its digits.
pub read-show : (n : ℕ) → read_digits 0 (show n) ≡ n
unfolding show read_digits
read-show n = read-digits_from (suc n) n [] (omega arith)

pub show_inj : (m n : ℕ) → show m ≡ show n → m ≡ n
show_inj m n e = sym (read-show m) ∙ ap (read_digits 0) e ∙ read-show n
