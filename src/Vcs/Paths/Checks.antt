-- ===== src/Vcs/Paths/Checks.antt =====
-- The check of app/vcs/paths.py.
use stack_migrate.Base.{
  ℕ, ◌+◌, Bool, true, false, not, ◌&&◌, ◌||◌, List, [], ◌∷◌, Option, none, some, Text, codes,
  contains, split_on, last_of, any_of, all_of, ltb, leb, ◌==◌, if◌then◌else◌, map,
}

pub record Unicode : Type 0 where
  pub is_word : ℕ → Bool
  pub lower : Text → Text

pub data PathProblem : Type 0 where
  empty_or_absolute unsafe_characters bad_segment git_directory git_file : PathProblem

abbrev pub is_upper_ascii : ℕ → Bool
is_upper_ascii c = leb b'A' c && leb c b'Z'

abbrev pub is_alnum_ascii : ℕ → Bool
is_alnum_ascii c = leb b'0' c && leb c b'9' || is_upper_ascii c || leb b'a' c && leb c b'z'

abbrev pub newline : ℕ
newline = 10

abbrev pub slash : ℕ
slash = b'/'

-- `_FORBIDDEN_SEGMENTS` and `_FORBIDDEN_FILES`
abbrev pub forbidden_segments : List Text
forbidden_segments = codes ".git" ∷ codes ".github" ∷ []

abbrev pub forbidden_files : List Text
forbidden_files = codes ".gitmodules" ∷ codes ".gitattributes" ∷ []

abbrev pub dot_segments : List Text
dot_segments = [] ∷ codes "." ∷ codes ".." ∷ []

abbrev pub begins_with_slash : Text → Bool
begins_with_slash [] = false
begins_with_slash (c ∷ s) = c == slash

abbrev is_nil : Text → Bool
is_nil [] = true
is_nil (c ∷ s) = false

unfoldable pub lower_char : ℕ → ℕ
lower_char c = if is_upper_ascii c then c + 32 else c

module _ (unicode : Unicode) where
  -- `s.lower()`: of an ASCII text character by character; of any other the tables' answer for the whole
  -- text, since a character may depend on its neighbours.
  unfoldable pub lower : Text → Text
  lower s = if all_of (λ c. ltb c 128) s then map lower_char s else unicode.lower s

  -- `[\w./-]`
  unfoldable pub is_safe_char : ℕ → Bool
  is_safe_char c =
      is_alnum_ascii c
      || c == b'_'
      || c == b'.'
      || c == b'/'
      || c == b'-'
      || (leb 128 c && unicode.is_word c)

  -- The rest of `^[\w./-]+$` after a first safe character: `$` also matches before a final newline.
  unfoldable pub matches_rest : Text → Bool
  matches_rest [] = true
  matches_rest (c ∷ []) = is_safe_char c || c == newline
  matches_rest (c ∷ d ∷ s) = is_safe_char c && matches_rest (d ∷ s)

  -- `_SAFE_CHARS.match(path)`
  unfoldable pub matches_safe_chars : Text → Bool
  matches_safe_chars [] = false
  matches_safe_chars (c ∷ s) = is_safe_char c && matches_rest s

  unfoldable pub publishable_path_problem : Text → Option PathProblem
  publishable_path_problem path =
      let (first, rest) = split_on slash path in
      if is_nil path || begins_with_slash path || any_of (λ c. c == b'\\') path
      then some empty_or_absolute
      else if not (matches_safe_chars path)
      then some unsafe_characters
      else if any_of (λ seg. contains seg dot_segments) (first ∷ rest)
      then some bad_segment
      else if any_of (λ seg. contains (lower seg) forbidden_segments) (first ∷ rest)
      then some git_directory
      else if contains (last_of (lower first) (map lower rest)) forbidden_files
      then some git_file
      else none
