-- ===== src/Adapters/Springboot.antt =====
-- The discovery of app/adapters/springboot/source_adapter.py. The file system below `src/main/java` is a
-- tree of directories in the order in which `os.walk` lists them; a file that cannot be read, or not
-- as UTF-8, has no content. The root of the repository is a normalized path.
pub mod Discovery
pub mod Scope
pub mod Prompt
use stack_migrate.Base.{
  Bool, true, false, List, [], ◌∷◌, ◌++◌, map, Option, none, some, Text, codes, keep, any_of,
  contains, occurs_in, ends_with, split_on, join, if◌then◌else◌,
}
use stack_migrate.State.{SemanticUnitKind}
use stack_migrate.Vcs.Paths.{Unicode, lower, slash}
use stack_migrate.Core.Tokens.{find_capitalized_tokens}
use stack_migrate.Adapters.Source.{DiscoveredFile}
use stack_migrate.Adapters.Fastapi.{before_last}

mutual
  pub data Directory : Type 0 where
    directory : (files : List (Text × Option Text)) → Subdirectories → Directory

  pub data Subdirectories : Type 0 where
    end : Subdirectories
    subdirectory : (name : Text) → Directory → Subdirectories → Subdirectories

-- `_ANNOTATION_TO_KIND`, in its order
abbrev pub annotation_to_kind : List (Text × SemanticUnitKind)
annotation_to_kind =
    (codes "@RestController", SemanticUnitKind.endpoint)
    ∷ (codes "@Controller", SemanticUnitKind.endpoint)
    ∷ (codes "@Service", SemanticUnitKind.service)
    ∷ (codes "@Component", SemanticUnitKind.service)
    ∷ (codes "@Repository", SemanticUnitKind.repository)
    ∷ (codes "@Entity", SemanticUnitKind.data_model)
    ∷ (codes "@Embeddable", SemanticUnitKind.data_model)
    ∷ (codes "@ConfigurationProperties", SemanticUnitKind.config)
    ∷ (codes "@Configuration", SemanticUnitKind.config)
    ∷ (codes "@Aspect", SemanticUnitKind.middleware)
    ∷ (codes "@Interceptor", SemanticUnitKind.middleware)
    ∷ []

-- `_SKIP_DIR_NAMES`
abbrev pub skip_dir_names : List Text
skip_dir_names =
    codes "target"
    ∷ codes "build"
    ∷ codes ".git"
    ∷ codes "node_modules"
    ∷ codes "test"
    ∷ codes "tests"
    ∷ []

unfoldable pub first_kind : List (Text × SemanticUnitKind) → Text → Option SemanticUnitKind
first_kind [] content = none
first_kind ((annotation, kind) ∷ more) content =
    if occurs_in annotation content then some kind else first_kind more content

unfoldable pub guess_kind : Text → Option SemanticUnitKind
guess_kind content = first_kind annotation_to_kind content

-- A file of the walk; its content is read later, if it is kept.
pub record Candidate : Type 0 where
  pub full_path : Text
  pub relative_path : Text
  pub content : Option Text

-- `os.path.join` of a directory and a plain name.
abbrev pub child_path : Text → Text → Text
child_path dir name = dir ++ codes "/" ++ name

-- `os.path.dirname` of such a path.
abbrev pub dirname : Text → Text
dirname path = before_last slash path

unfoldable pub is_java : Text → Bool
is_java name = ends_with (codes ".java") name

abbrev pub candidate : Text → Text → Text → Option Text → Candidate
candidate full rel name content = record {
  full_path = child_path full name;
  relative_path = child_path rel name;
  content = content;
}

unfoldable pub java_files : List (Text × Option Text) → Text → Text → List Candidate
java_files [] full rel = []
java_files ((name, content) ∷ files) full rel =
    if is_java name
    then candidate full rel name content ∷ java_files files full rel
    else java_files files full rel

module _ (unicode : Unicode) where
  unfoldable pub is_skipped : Text → Bool
  is_skipped name = contains (lower unicode name) skip_dir_names

  -- The candidates below a directory, with its path and its path from the root of the repository.
  unfoldable mutual
    pub walk : Directory → Text → Text → List Candidate
    walk (directory files subs) full rel = java_files files full rel ++ walk_subs subs full rel

    pub walk_subs : Subdirectories → Text → Text → List Candidate
    walk_subs end full rel = []
    walk_subs (subdirectory name d more) full rel =
        let rest = walk_subs more full rel in
        if is_skipped name
        then rest
        else walk d (child_path full name) (child_path rel name) ++ rest

  unfoldable pub matches_scope : Text → List Text → Bool
  matches_scope relative_path scope_terms =
      any_of (λ term. occurs_in (lower unicode term) (lower unicode relative_path)) scope_terms

  -- The directories of the files that match.
  unfoldable pub anchor_dirs : List Text → List Candidate → List Text
  anchor_dirs terms candidates =
      map (λ c. dirname c.full_path) (keep (λ c. matches_scope c.relative_path terms) candidates)

  unfoldable pub selected_paths : List Text → List Candidate → List Text
  selected_paths [] candidates = map (λ c. c.full_path) candidates
  selected_paths (t ∷ ts) candidates =
      map (λ c. c.full_path)
        (keep (λ c. contains (dirname c.full_path) (anchor_dirs (t ∷ ts) candidates)) candidates)

abbrev pub discovered_file : Candidate → Text → DiscoveredFile
discovered_file c content = record {
  path = c.full_path;
  relative_path = c.relative_path;
  likely_kind = guess_kind content;
  content = content;
}

-- What is read of a selected file.
abbrev pub read_file : Candidate → Option Text → List DiscoveredFile
read_file c none = []
read_file c (some content) = discovered_file c content ∷ []

unfoldable pub read_selected : List Text → List Candidate → List DiscoveredFile
read_selected selected [] = []
read_selected selected (c ∷ cs) =
    if contains c.full_path selected
    then read_file c c.content ++ read_selected selected cs
    else read_selected selected cs

abbrev pub java_root : Text → Text
java_root repo_root = repo_root ++ codes "/src/main/java"

abbrev pub candidates_of : Unicode → Text → Directory → List Candidate
candidates_of unicode repo_root d = walk unicode d (java_root repo_root) (codes "src/main/java")

-- `discover_files`, on the tree below `src/main/java`, if that is a directory.
unfoldable pub discover_files : Unicode → Text → Text → Option Directory → List DiscoveredFile
discover_files unicode repo_root scope_description none = []
discover_files unicode repo_root scope_description (some d) =
    read_selected
      (selected_paths unicode (find_capitalized_tokens unicode scope_description)
        (candidates_of unicode repo_root d))
      (candidates_of unicode repo_root d)
