-- ===== src/Core/SlugChars.antt =====
-- The characters of a slug.
use stack_migrate.Base.{
  ℕ, ◌≡◌, refl, inl, inr, Bool, true, false, ◌&&◌, ◌||◌, [], ◌∷◌, map, Text, All, Bool-cases, leb,
  ◌==◌, arith,
}
use stack_migrate.Core.Slug.{
  is_alnum, underscore, break_camel, collapse, strip_left, snoc_stripped, strip_right, lower_ascii,
  slugify,
}

-- An ASCII digit, a lower-case ASCII letter, or an underscore.
abbrev pub is_slug_char : ℕ → Bool
is_slug_char c = leb b'0' c && leb c b'9' || leb b'a' c && leb c b'z' || c == underscore

abbrev IsKept : ℕ → Type 0
IsKept c = is_alnum c || c == underscore ≡ true

collapse-IsKept : (in_run : Bool) (s : Text) → All IsKept (collapse in_run s)
unfolding collapse
collapse-IsKept in_run [] = tt
collapse-IsKept true (c ∷ s) = elim (Bool-cases (is_alnum c)) [
  | inl e ↦ rw e (ground arith, collapse-IsKept false s)
  | inr e ↦ rw e (collapse-IsKept true s)
]
collapse-IsKept false (c ∷ s) = elim (Bool-cases (is_alnum c)) [
  | inl e ↦ rw e (ground arith, collapse-IsKept false s)
  | inr e ↦ rw e (refl, collapse-IsKept true s)
]

strip_left-All : (P : ℕ → Type 0) (s : Text) → All P s → All P (strip_left s)
unfolding strip_left
strip_left-All P [] h = tt
strip_left-All P (c ∷ s) h = elim (Bool-cases (c == underscore)) [
  | inl e ↦ rw e (strip_left-All P s h.1)
  | inr e ↦ rw e h
]

snoc_stripped-All : (P : ℕ → Type 0) (c : ℕ) (s : Text) → P c → All P s → All P (snoc_stripped c s)
unfolding snoc_stripped
snoc_stripped-All P c [] p h = elim (Bool-cases (c == underscore)) [
  | inl e ↦ rw e tt
  | inr e ↦ rw e (p, tt)
]
snoc_stripped-All P c (d ∷ s) p h = (p, h)

strip_right-All : (P : ℕ → Type 0) (s : Text) → All P s → All P (strip_right s)
unfolding strip_right
strip_right-All P [] h = tt
strip_right-All P (c ∷ s) h = snoc_stripped-All P c (strip_right s) h.0 (strip_right-All P s h.1)

lower_slug_char : (c : ℕ) → IsKept c → is_slug_char (lower_ascii c) ≡ true
unfolding lower_ascii
lower_slug_char c h = ground arith

map_lower : (s : Text) → All IsKept s → All (λ c. is_slug_char c ≡ true) (map lower_ascii s)
map_lower [] h = tt
map_lower (c ∷ s) h = (lower_slug_char c h.0, map_lower s h.1)

-- Every character of a slug is an ASCII digit, a lower-case ASCII letter or an underscore, whatever the
-- name is.
pub slugify-All : (name : Text) → All (λ c. is_slug_char c ≡ true) (slugify name)
unfolding slugify
slugify-All name =
    map_lower (strip_right (strip_left (collapse false (break_camel name)))) (
      strip_right-All IsKept _ (strip_left-All IsKept _ (collapse-IsKept false (break_camel name))))
