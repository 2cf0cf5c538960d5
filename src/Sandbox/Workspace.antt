-- ===== src/Sandbox/Workspace.antt =====
-- app/sandbox/workspace.py. The functions of `os.path` are parameters; what is written is a dict from
-- the resolved path to the content. Directories are not modelled, and neither is an I/O error.
use stack_migrate.Base.{
  Bool, true, List, [], ◌∷◌, ◌++◌, map, none, some, Text, text_discrete, codes, lookup, set_item,
  starts_with, ite, if◌then◌else◌,
}
use stack_migrate.State.{FileDiff}

-- `os.path`: `realpath` follows the symbolic links of the file system.
pub record OsPath : Type 0 where
  pub isabs : Text → Bool
  pub realpath : Text → Text
  pub join : Text → Text → Text

-- A result, or an `UnsafeDiffPathError` about this path.
pub data Safe {ℓ} (A : Type ℓ) : Type ℓ where
  safe : A → Safe A
  unsafe : Text → Safe A

abbrev pub Files : Type 0
Files = List (Text × Text)

abbrev pub sep : Text
sep = codes "/"

-- `d.pop(path, None)`
unfoldable pub remove_item : Text → Files → Files
remove_item p [] = []
remove_item p ((q, content) ∷ files) =
    ite (text_discrete p q) files ((q, content) ∷ remove_item p files)

module _ (os : OsPath) (root : Text) where
  -- The second test of `_resolve_safe_path`, of a resolved candidate.
  unfoldable pub is_inside : Text → Bool
  is_inside candidate =
      ite (text_discrete candidate (os.realpath root)) true
        (starts_with (os.realpath root ++ sep) candidate)

  unfoldable pub resolve_safe_path : Text → Safe Text
  resolve_safe_path path =
      let candidate = os.realpath (os.join (os.realpath root) path) in
      if os.isabs path
      then unsafe path
      else if is_inside candidate
      then safe candidate
      else unsafe path

  -- `[(key(x), _resolve_safe_path(root, path(x))) for x in xs]`: the first unsafe path raises.
  unfoldable pub resolve_all {ℓ} : {A : Type ℓ} → (A → Text) → List A → Safe (List (Text × A))
  resolve_all path_of [] = safe []
  resolve_all path_of (x ∷ xs) = elim (resolve_safe_path (path_of x)) [
    | unsafe p ↦ unsafe p
    | safe full ↦ elim (resolve_all path_of xs) [
      | unsafe p ↦ unsafe p
      | safe rest ↦ safe ((full, x) ∷ rest)
    ]
  ]

  unfoldable pub write_all : List (Text × FileDiff) → Files → Files
  write_all [] files = files
  write_all ((full, d) ∷ rest) files = write_all rest (set_item text_discrete full d.content files)

  -- The loop of `remove_paths`: the files that are left, and the relative paths that it removed.
  unfoldable pub remove_all : List (Text × Text) → Files → Files × List Text
  remove_all [] files = (files, [])
  remove_all ((full, rel) ∷ rest) files = elim (lookup text_discrete full files) [
    | none ↦ remove_all rest files
    | some content ↦
        let (files', removed) = remove_all rest (remove_item full files) in (files', rel ∷ removed)
  ]

  unfoldable pub remove_paths : List Text → Files → Safe (Files × List Text)
  remove_paths paths files = elim (resolve_all (λ p. p) paths) [
    | unsafe p ↦ unsafe p
    | safe resolved ↦ safe (remove_all resolved files)
  ]

  -- The files after it, and the paths that it returns.
  unfoldable pub apply_diffs : List FileDiff → Files → Safe (Files × List Text)
  apply_diffs diffs files = elim (resolve_all (λ d. d.path) diffs) [
    | unsafe p ↦ unsafe p
    | safe resolved ↦ safe (write_all resolved files, map (λ d. d.path) diffs)
  ]
