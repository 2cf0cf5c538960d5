-- ===== src/Core/Slug.antt =====
-- `slugify` of app/core/text.py. Its character classes are ASCII ranges, so it is exact on any text.
use stack_migrate.Base.{
  ℕ, ◌+◌, Bool, true, false, ◌&&◌, ◌||◌, [], ◌∷◌, map, Text, leb, ◌==◌, if◌then◌else◌,
}

abbrev pub is_upper : ℕ → Bool
is_upper c = leb b'A' c && leb c b'Z'

abbrev pub is_alnum : ℕ → Bool
is_alnum c = leb b'0' c && leb c b'9' || is_upper c || leb b'a' c && leb c b'z'

abbrev pub underscore : ℕ
underscore = b'_'

-- `re.sub(r"(?<!^)(?=[A-Z])", "_", s)`, behind the first character.
unfoldable pub break_rest : Text → Text
break_rest [] = []
break_rest (c ∷ s) = if is_upper c then underscore ∷ c ∷ break_rest s else c ∷ break_rest s

unfoldable pub break_camel : Text → Text
break_camel [] = []
break_camel (c ∷ s) = c ∷ break_rest s

-- `re.sub(r"[^A-Za-z0-9]+", "_", s)`; the flag says that a run has been replaced already.
unfoldable pub collapse : Bool → Text → Text
collapse in_run [] = []
collapse in_run (c ∷ s) =
    let run = collapse true s in
    let kept = collapse false s in
    if is_alnum c then c ∷ kept else if in_run then run else underscore ∷ run

unfoldable pub strip_left : Text → Text
strip_left [] = []
strip_left (c ∷ s) = if c == underscore then strip_left s else c ∷ s

unfoldable pub snoc_stripped : ℕ → Text → Text
snoc_stripped c [] = if c == underscore then [] else c ∷ []
snoc_stripped c (d ∷ s) = c ∷ d ∷ s

unfoldable pub strip_right : Text → Text
strip_right [] = []
strip_right (c ∷ s) = snoc_stripped c (strip_right s)

-- `lower`, on the ASCII characters that are left.
unfoldable pub lower_ascii : ℕ → ℕ
lower_ascii c = if is_upper c then c + 32 else c

unfoldable pub slugify : Text → Text
slugify name = map lower_ascii (strip_right (strip_left (collapse false (break_camel name))))
