-- ===== src/Sandbox/Confined.antt =====
-- No write and no removal outside the workspace.
use stack_migrate.Base.{
  ◌≡◌, ◌≢◌, refl, sym, ◌∙◌, ap, inl, inr, ◌⊎◌, true, false, List, [], ◌∷◌, Option, none, some, Text,
  text_discrete, lookup, lookup-set_item, ite, if_pos, if_neg, All, Bool-cases, map,
}
use stack_migrate.State.{FileDiff}
use stack_migrate.Sandbox.Workspace.{
  OsPath, Safe, safe, unsafe, Files, remove_item, is_inside, resolve_safe_path, resolve_all,
  write_all, remove_all, remove_paths, apply_diffs,
}

module _ (os : OsPath) (root : Text) where
  -- The outcome of the resolution of one path, with its reason.
  abbrev pub IsResolved : Text → Safe Text → Type 0
  IsResolved path (safe full) =
      (os.isabs path ≡ false)
      × (full ≡ os.realpath (os.join (os.realpath root) path))
      × (is_inside os root full ≡ true)
  IsResolved path (unsafe p) =
      (p ≡ path)
      × ((os.isabs path ≡ true)
          ⊎ (is_inside os root (os.realpath (os.join (os.realpath root) path)) ≡ false))

  pub resolve_safe_path-IsResolved :
      (path : Text) → IsResolved path (resolve_safe_path os root path)
  unfolding resolve_safe_path
  resolve_safe_path-IsResolved path = elim (Bool-cases (os.isabs path)) [
    | inl e ↦ rw e (refl, inl e)
    | inr e ↦
        elim (Bool-cases (is_inside os root (os.realpath (os.join (os.realpath root) path)))) [
          | inl e' ↦ rw (e, e') (e, refl, e')
          | inr e' ↦ rw (e, e') (refl, inr e')
        ]
  ]

  -- A list of resolved paths, each inside; or the first path that is refused.
  abbrev pub AllResolved {ℓ} : {A : Type ℓ} → Safe (List (Text × A)) → Type 0
  AllResolved (safe resolved) = All (λ e. is_inside os root e.0 ≡ true) resolved
  AllResolved (unsafe p) = Unit

  resolve_all-AllResolved {ℓ} :
      {A : Type ℓ} (path_of : A → Text) (xs : List A) → AllResolved (resolve_all os root path_of xs)
  unfolding resolve_all
  resolve_all-AllResolved path_of [] = tt
  resolve_all-AllResolved path_of (x ∷ xs) =
      go (resolve_safe_path os root (path_of x)) (resolve_all os root path_of xs)
        (resolve_safe_path-IsResolved (path_of x)) (resolve_all-AllResolved path_of xs)
    where
      go :
          (r : Safe Text) (rest : Safe (List (Text × _)))
          → IsResolved (path_of x) r
          → AllResolved rest
          → AllResolved (elim r [
            | unsafe p ↦ unsafe p
            | safe full ↦ elim rest [ unsafe p ↦ unsafe p | safe more ↦ safe ((full, x) ∷ more) ]
          ])
      go (unsafe p) rest h k = tt
      go (safe full) (unsafe p) h k = tt
      go (safe full) (safe more) h k = (h.2, k)

  -- Two workspaces that agree on every path outside the root.
  abbrev pub SameOutside : Files → Files → Type 0
  SameOutside files files' =
      (q : Text)
      → is_inside os root q ≡ false
      → lookup text_discrete q files' ≡ lookup text_discrete q files

  outside-ne : (p q : Text) → is_inside os root p ≡ true → is_inside os root q ≡ false → q ≢ p
  outside-ne p q h k e = absurd (cc)

  write_all-SameOutside :
      (resolved : List (Text × FileDiff)) (files : Files)
      → All (λ e. is_inside os root e.0 ≡ true) resolved
      → SameOutside files (write_all os root resolved files)
  unfolding write_all
  write_all-SameOutside [] files h q k = refl
  write_all-SameOutside ((full, d) ∷ rest) files h q k =
      write_all-SameOutside rest _ h.1 q k
      ∙ lookup-set_item text_discrete full q d.content files
      ∙ if_neg (text_discrete q full) (outside-ne full q h.0 k) _ _

  remove_item-SameOutside :
      (p : Text) (files : Files)
      → is_inside os root p ≡ true
      → SameOutside files (remove_item p files)
  unfolding remove_item lookup
  remove_item-SameOutside p [] h q k = refl
  remove_item-SameOutside p ((r, c) ∷ files) h q k = elim (text_discrete p r) [
    | yes e ↦
        rw (if_pos (text_discrete p r) e)
          (sym (if_neg (text_discrete q r) (λ e'. outside-ne p q h k (e' ∙ sym e)) _ _))
    | no e ↦
        rw (if_neg (text_discrete p r) e)
          (ap (λ o. ite (text_discrete q r) (some c) o) (remove_item-SameOutside p files h q k))
  ]

  -- One turn of the loop, on what the workspace holds at the path.
  one_removed-SameOutside :
      (full rel : Text) (rest : List (Text × Text)) (files : Files) (o : Option Text)
      → lookup text_discrete full files ≡ o
      → is_inside os root full ≡ true
      → SameOutside files (remove_all os root rest files).0
      → SameOutside (remove_item full files) (remove_all os root rest (remove_item full files)).0
      → SameOutside files (remove_all os root ((full, rel) ∷ rest) files).0
  unfolding remove_all
  one_removed-SameOutside full rel rest files none e h a b q k = rw (e, remove_all) (a q k)
  one_removed-SameOutside full rel rest files (some content) e h a b q k =
      rw (e, remove_all) (b q k ∙ remove_item-SameOutside full files h q k)

  remove_all-SameOutside :
      (resolved : List (Text × Text)) (files : Files)
      → All (λ e. is_inside os root e.0 ≡ true) resolved
      → SameOutside files (remove_all os root resolved files).0
  unfolding remove_all
  remove_all-SameOutside [] files h q k = refl
  remove_all-SameOutside ((full, rel) ∷ rest) files h q k =
      one_removed-SameOutside full rel rest files (lookup text_discrete full files) refl h.0
        (remove_all-SameOutside rest files h.1)
        (remove_all-SameOutside rest (remove_item full files) h.1) q k

  -- What a workspace operation leaves: with its answer, no path outside the root has changed.
  abbrev pub Confined : Files → Safe (Files × List Text) → Type 0
  Confined files (safe (files', listed)) = SameOutside files files'
  Confined files (unsafe p) = Unit

  -- Where `apply_diffs` does not refuse a path, every path outside the workspace keeps its content, or
  -- its absence, whatever the paths of the diffs are and wherever links lead.
  pub apply_diffs-Confined :
      (diffs : List FileDiff) (files : Files) → Confined files (apply_diffs os root diffs files)
  unfolding apply_diffs
  apply_diffs-Confined diffs files =
      go (resolve_all os root (λ d. d.path) diffs) (resolve_all-AllResolved (λ d. d.path) diffs)
    where
      go :
          (r : Safe (List (Text × FileDiff)))
          → AllResolved r
          → Confined files (elim r [
            | unsafe p ↦ unsafe p
            | safe resolved ↦ safe (write_all os root resolved files, map (λ d. d.path) diffs)
          ])
      go (unsafe p) h = tt
      go (safe resolved) h = write_all-SameOutside resolved files h

  -- Where `remove_paths` does not refuse a path, every path outside the workspace keeps its content,
  -- or its absence.
  pub remove_paths-Confined :
      (paths : List Text) (files : Files) → Confined files (remove_paths os root paths files)
  unfolding remove_paths
  remove_paths-Confined paths files =
      go (resolve_all os root (λ p. p) paths) (resolve_all-AllResolved (λ p. p) paths)
    where
      go :
          (r : Safe (List (Text × Text)))
          → AllResolved r
          → Confined files (elim r [
            | unsafe p ↦ unsafe p
            | safe resolved ↦ safe (remove_all os root resolved files)
          ])
      go (unsafe p) h = tt
      go (safe resolved) h = remove_all-SameOutside resolved files h
