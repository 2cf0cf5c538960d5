-- ===== src/Adapters/Springboot/Scope.antt =====
-- Which files are kept.
use stack_migrate.Base.{◌≡◌, ◌⊎◌, true, List, [], some, Text, codes, contains, Memᴰ, IsPartOf}
use stack_migrate.Vcs.Paths.{Unicode, lower}
use stack_migrate.Core.Tokens.{find_capitalized_tokens}
use stack_migrate.Adapters.Source.{DiscoveredFile}
use stack_migrate.Adapters.Springboot.{
  Directory, Candidate, dirname, child_path, matches_scope, discovered_file, java_root,
}
use stack_migrate.Adapters.Springboot.Discovery.{HasFile}

module _ (unicode : Unicode) where
  -- No term restricts the scope, or a file in the same directory has a path that contains one.
  abbrev IsSelected : List Text → List Candidate → Candidate → Type 0
  IsSelected terms cs c =
      (terms ≡ [])
      ⊎ ((a : Candidate) × Memᴰ a cs
          × (dirname c.full_path ≡ dirname a.full_path)
          × (matches_scope unicode a.relative_path terms ≡ true))

-- Where a discovered file comes from.
abbrev IsRead : List Text → List Candidate → DiscoveredFile → Type 0
IsRead selected cs f =
    (c : Candidate) × (content : Text) × Memᴰ c cs
    × (contains c.full_path selected ≡ true)
    × (c.content ≡ some content)
    × (f ≡ discovered_file c content)

module _ (unicode : Unicode) (repo_root scope : Text) (d : Directory) where
  -- A Java file below `src/main/java`, under no skipped directory.
  abbrev pub IsCandidate : Candidate → Type 0
  IsCandidate c = HasFile unicode (java_root repo_root) (codes "src/main/java") d c

  -- A term of the scope stands in the text, in any case.
  abbrev pub IsMentioned : Text → Type 0
  IsMentioned t =
      (term : Text) × Memᴰ term (find_capitalized_tokens unicode scope)
      × IsPartOf (lower unicode term) (lower unicode t)

  -- The scope has no term, or a candidate of the same directory has this property.
  abbrev pub HasSibling : (Candidate → Type 0) → Candidate → Type 0
  HasSibling P c =
      (find_capitalized_tokens unicode scope ≡ [])
      ⊎ ((a : Candidate) × IsCandidate a × (dirname c.full_path ≡ dirname a.full_path) × P a)

  -- The file's own name mentions a term.
  abbrev pub IsAnchor : Candidate → Type 0
  IsAnchor a = (dir name : Text) × (a.relative_path ≡ child_path dir name) × IsMentioned name

  -- What is read of a candidate that can be read and has such a sibling.
  abbrev pub IsFound : (Candidate → Type 0) → DiscoveredFile → Type 0
  IsFound P f =
      (c : Candidate) × (content : Text) × IsCandidate c
      × HasSibling P c
      × (c.content ≡ some content)
      × (f ≡ discovered_file c content)
