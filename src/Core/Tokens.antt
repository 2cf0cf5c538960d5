-- ===== src/Core/Tokens.antt =====
-- `find_capitalized_tokens` of app/core/text.py. A match starts and ends at a word boundary and holds
-- word characters only, so it is a whole maximal run of word characters.
use stack_migrate.Base.{
  ℕ, Bool, false, ◌&&◌, ◌||◌, List, [], ◌∷◌, Text, keep, all_of, length, leb, ◌==◌, if◌then◌else◌,
}
use stack_migrate.Core.Slug.{is_upper, is_alnum, underscore}
use stack_migrate.Vcs.Paths.{Unicode}

-- `[A-Z][A-Za-z0-9]{2,}`, of a whole word.
unfoldable pub is_capitalized_token : Text → Bool
is_capitalized_token [] = false
is_capitalized_token (c ∷ s) = is_upper c && all_of is_alnum s && leb 2 (length s)

module _ (unicode : Unicode) where
  -- `\w`
  unfoldable pub is_word_char : ℕ → Bool
  is_word_char c = is_alnum c || c == underscore || leb 128 c && unicode.is_word c

  -- The maximal runs of word characters: the run that the text begins with, and the later ones.
  unfoldable pub words_from : Text → Text × List Text
  words_from [] = ([], [])
  words_from (c ∷ s) =
      let (first, rest) = words_from s in
      if is_word_char c then (c ∷ first, rest) else ([], first ∷ rest)

  unfoldable pub find_capitalized_tokens : Text → List Text
  find_capitalized_tokens s =
      let (first, rest) = words_from s in keep is_capitalized_token (first ∷ rest)
