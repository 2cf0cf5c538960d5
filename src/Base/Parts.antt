-- ===== src/Base/Parts.antt =====
-- When one text occurs in another.
use Prim.Native.Nat.{ℕ}
use mathlib.Core.Path.{◌≡◌, refl, sym, ap, ◌∙◌}
use mathlib.Core.Logic.{inl, inr}
use mathlib.Core.Bool.{Bool, true}
use mathlib.Core.List.{List, [], ◌∷◌, ◌++◌, Memᴰ}
use native.Mathlib.Omega.{arith}
use stack_migrate.Base.Tests.{◌==◌, Bool-cases}
use stack_migrate.Base.Lists.{any_of}
use stack_migrate.Base.Texts.{Text, starts_with, occurs_in}

-- The text stands somewhere in the other.
abbrev pub IsPartOf : Text → Text → Type 0
IsPartOf t s = (before after : Text) × (s ≡ before ++ t ++ after)

same_code : (c d : ℕ) → (c == d) ≡ true → c ≡ d
same_code c d h = ground arith

of_starts_with : (p s : Text) → starts_with p s ≡ true → (after : Text) × (s ≡ p ++ after)
unfolding starts_with
of_starts_with [] s h = (s, refl)
of_starts_with (c ∷ p) [] h = absurd (cc h)
of_starts_with (c ∷ p) (d ∷ s) h = elim (Bool-cases (c == d)) [
  | inl e ↦
      let (after, k) = of_starts_with p s (rw e at h) in
      (after, ap (λ x. x ∷ s) (sym (same_code c d e)) ∙ ap (λ x. c ∷ x) k)
  | inr e ↦ absurd (cc (rw e at h))
]

to_starts_with : (p after : Text) → starts_with p (p ++ after) ≡ true
unfolding starts_with
to_starts_with [] after = refl
to_starts_with (c ∷ p) after = ground (arith, to_starts_with p after)

pub of_occurs_in : (t s : Text) → occurs_in t s ≡ true → IsPartOf t s
unfolding occurs_in
of_occurs_in t [] h = let (after, e) = of_starts_with t [] h in ([], after, e)
of_occurs_in t (c ∷ s) h = elim (Bool-cases (starts_with t (c ∷ s))) [
  | inl e ↦ let (after, k) = of_starts_with t (c ∷ s) e in ([], after, k)
  | inr e ↦
      let (before, after, k) = of_occurs_in t s (rw e at h) in
      (c ∷ before, after, ap (λ x. c ∷ x) k)
]

-- A text that starts another occurs in it.
start-occurs_in : (t s : Text) → starts_with t s ≡ true → occurs_in t s ≡ true
unfolding occurs_in
start-occurs_in t [] h = h
start-occurs_in t (c ∷ s) h = rw h refl

pub to_occurs_in : (t before after : Text) → occurs_in t (before ++ t ++ after) ≡ true
unfolding occurs_in
to_occurs_in t [] after = start-occurs_in t (t ++ after) (to_starts_with t after)
to_occurs_in t (c ∷ before) after = ground (arith, to_occurs_in t before after)

module _ {ℓ} {A : Type ℓ} (p : A → Bool) where
  pub of_any_of : (xs : List A) → any_of p xs ≡ true → (x : A) × Memᴰ x xs × (p x ≡ true)
  unfolding any_of
  of_any_of [] h = absurd (cc h)
  of_any_of (x ∷ xs) h = elim (Bool-cases (p x)) [
    | inl e ↦ (x, Memᴰ.head refl, e)
    | inr e ↦ let (y, m, k) = of_any_of xs (rw e at h) in (y, Memᴰ.tail m, k)
  ]

  pub to_any_of : (x : A) (xs : List A) → Memᴰ x xs → p x ≡ true → any_of p xs ≡ true
  unfolding any_of
  to_any_of x [] m h = elim m [ ]
  to_any_of x (y ∷ ys) (Memᴰ.head e) h = rw (sym (ap p e) ∙ h) refl
  to_any_of x (y ∷ ys) (Memᴰ.tail m) h = ground (arith, to_any_of x ys m h)
