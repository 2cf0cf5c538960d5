-- ===== src/Base/Texts.antt =====
-- Text as its list of code points, with a decision of equality that computes.
use Prim.Native.Nat.{ℕ, zero, suc, ◌+◌, ◌/◌, ◌%◌}
use Prim.Native.Char.{code}
use Prim.Native.String.{String}
use mathlib.Core.Path.{◌≡◌, refl}
use mathlib.Core.Logic.{ite, if_pos}
use mathlib.Core.Bool.{Bool, true, false, ◌&&◌, ◌||◌}
use mathlib.Core.List.{List, [], ◌∷◌, ◌++◌, Memᴰ}
use native.Mathlib.Omega.{arith}
use native.Mathlib.Decide.{ℕ_discrete}
use stack_migrate.Base.Tests.{ltb, ◌==◌, if◌then◌else◌}

abbrev pub Text : Type 0
Text = List ℕ

-- The code points of a literal. `String` has its own `[]` and `∷`.
abbrev pub codes : String → Text
codes String.[] = []
codes (String.◌∷◌ c s) = code c ∷ codes s

unfoldable pub text_discrete : Discrete Text
unfolding ℕ_discrete
text_discrete [] [] = yes refl
text_discrete [] (y ∷ ys) = no (λ e. cc)
text_discrete (x ∷ xs) [] = no (λ e. cc)
text_discrete (x ∷ xs) (y ∷ ys) = elim (ℕ_discrete x y) [
  | yes p ↦ elim (text_discrete xs ys) [ yes q ↦ yes (cc) | no n ↦ no (λ e. n (cc)) ]
  | no n ↦ no (λ e. n (cc))
]

-- `t in ts`
unfoldable pub contains : Text → List Text → Bool
contains t [] = false
contains t (u ∷ us) = ite (text_discrete t u) true (contains t us)

-- `s.startswith(p)`
unfoldable pub starts_with : Text → Text → Bool
starts_with [] s = true
starts_with (c ∷ p) [] = false
starts_with (c ∷ p) (d ∷ s) = c == d && starts_with p s

-- `t in s`
unfoldable pub occurs_in : Text → Text → Bool
occurs_in t [] = starts_with t []
occurs_in t (c ∷ s) = starts_with t (c ∷ s) || occurs_in t s

-- `s.endswith(t)`
unfoldable pub ends_with : Text → Text → Bool
ends_with t [] = starts_with t []
ends_with t (c ∷ s) = ite (text_discrete t (c ∷ s)) true (ends_with t s)

-- `s.split(sep)` for a one-character separator: never empty.
unfoldable pub split_on : ℕ → Text → Text × List Text
split_on sep [] = ([], [])
split_on sep (c ∷ s) =
    let (first, rest) = split_on sep s in if c == sep then ([], first ∷ rest) else (c ∷ first, rest)

unfoldable pub last_of : Text → List Text → Text
last_of t [] = t
last_of t (u ∷ us) = last_of u us

-- `sep.join(ts)`
unfoldable pub join : Text → List Text → Text
join sep [] = []
join sep (t ∷ []) = t
join sep (t ∷ u ∷ us) = t ++ sep ++ join sep (u ∷ us)

-- The decimal digits of a number, with fuel above their count.
unfoldable pub digits_from : ℕ → ℕ → Text → Text
digits_from zero n out = out
digits_from (suc f) n out =
    let more = digits_from f (n / 10) ((b'0' + n % 10) ∷ out) in
    if ltb n 10 then (b'0' + n) ∷ out else more

unfoldable pub show : ℕ → Text
show n = digits_from (suc n) n []

pub contains-mem : (t : Text) (ts : List Text) → contains t ts ≡ true → Memᴰ t ts
unfolding contains
contains-mem t [] e = absurd (cc)
contains-mem t (u ∷ us) e = elim (text_discrete t u) [
  | yes p ↦ Memᴰ.head p
  | no p ↦ Memᴰ.tail (contains-mem t us (ground arith))
]

pub mem-contains : (t : Text) (ts : List Text) → Memᴰ t ts → contains t ts ≡ true
unfolding contains
mem-contains t [] m = elim m [ ]
mem-contains t (u ∷ us) (Memᴰ.head p) = if_pos (text_discrete t u) p _ _
mem-contains t (u ∷ us) (Memᴰ.tail m) = ground (arith, mem-contains t us m)
