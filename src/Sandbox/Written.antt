-- ===== src/Sandbox/Written.antt =====
-- What the workspace holds after its diffs are written.
use stack_migrate.Base.{
  ◌≡◌, ◌≢◌, refl, sym, ◌∙◌, ap, ◌⊎◌, true, false, List, [], ◌∷◌, ◌++◌, map, Option, some, Text,
  text_discrete, lookup, lookup-set_item, ite, if_pos, if_neg, All, All-weaken, subst, Distinct,
}
use stack_migrate.State.{FileDiff}
use stack_migrate.Sandbox.Workspace.{
  OsPath, Safe, safe, unsafe, Files, is_inside, resolve_safe_path, resolve_all, write_all,
  apply_diffs,
}
use stack_migrate.Sandbox.Confined.{IsResolved, resolve_safe_path-IsResolved}

module _ (os : OsPath) (root : Text) where
  -- Where a relative path leads.
  abbrev pub resolved_path : Text → Text
  resolved_path path = os.realpath (os.join (os.realpath root) path)

  -- The content of the last diff that leads to a path, or what was there.
  unfoldable pub last_content : Text → List FileDiff → Option Text → Option Text
  last_content q [] o = o
  last_content q (d ∷ ds) o =
      last_content q ds (ite (text_discrete q (resolved_path d.path)) (some d.content) o)

  -- The path is absolute or leads outside the workspace.
  abbrev pub IsUnsafe : Text → Type 0
  IsUnsafe path = (os.isabs path ≡ true) ⊎ (is_inside os root (resolved_path path) ≡ false)

  -- Each path holds the last content that was written to it; or one of the diffs has an unsafe path.
  abbrev pub IsWritten : List FileDiff → Files → Safe (Files × List Text) → Type 0
  IsWritten diffs files (safe (files', written)) =
      ((q : Text)
        → lookup text_discrete q files' ≡ last_content q diffs (lookup text_discrete q files))
      × (written ≡ map (λ d. d.path) diffs)
  IsWritten diffs files (unsafe p) =
      (before : List FileDiff) × (d : FileDiff) × (after : List FileDiff) × (diffs
        ≡ before ++ d ∷ after)
      × (d.path ≡ p)
      × IsUnsafe p

  -- Each diff with the path that it leads to; or the first unsafe one.
  abbrev AllLed : List FileDiff → Safe (List (Text × FileDiff)) → Type 0
  AllLed diffs (safe resolved) = resolved ≡ map (λ d. (resolved_path d.path, d)) diffs
  AllLed diffs (unsafe p) =
      (before : List FileDiff) × (d : FileDiff) × (after : List FileDiff) × (diffs
        ≡ before ++ d ∷ after)
      × (d.path ≡ p)
      × IsUnsafe p

  resolve_all-AllLed :
      (diffs : List FileDiff) → AllLed diffs (resolve_all os root (λ d. d.path) diffs)
  unfolding resolve_all
  resolve_all-AllLed [] = refl
  resolve_all-AllLed (x ∷ xs) =
      go (resolve_safe_path os root x.path) (resolve_all os root (λ d. d.path) xs)
        (resolve_safe_path-IsResolved os root x.path) (resolve_all-AllLed xs)
    where
      go :
          (r : Safe Text) (rest : Safe (List (Text × FileDiff)))
          → IsResolved os root x.path r
          → AllLed xs rest
          → AllLed (x ∷ xs) (elim r [
            | unsafe p ↦ unsafe p
            | safe full ↦ elim rest [ unsafe p ↦ unsafe p | safe more ↦ safe ((full, x) ∷ more) ]
          ])
      go (unsafe p) rest h k = ([], x, xs, refl, sym h.0, subst IsUnsafe (sym h.0) h.1)
      go (safe full) (unsafe p) h k =
          let (before, d, after, e, named, why) = k in
          (x ∷ before, d, after, ap (λ ds. x ∷ ds) e, named, why)
      go (safe full) (safe more) h k =
          ap (λ p. (p, x) ∷ more) h.1 ∙ ap (λ ds. (resolved_path x.path, x) ∷ ds) k

  lookup-write_all :
      (diffs : List FileDiff) (files : Files) (q : Text)
      → lookup text_discrete q
          (write_all os root (map (λ d. (resolved_path d.path, d)) diffs) files)
        ≡ last_content q diffs (lookup text_discrete q files)
  unfolding write_all last_content
  lookup-write_all [] files q = refl
  lookup-write_all (d ∷ ds) files q =
      lookup-write_all ds _ q
      ∙ ap (last_content q ds)
          (lookup-set_item text_discrete (resolved_path d.path) q d.content files)

  -- Where `apply_diffs` accepts its diffs, every path then holds the content of the last diff that
  -- leads to it, or, if none does, what it held before, and the written paths are returned in order.
  -- Where it refuses, the path that it names belongs to a diff, and is absolute or leads outside the
  -- workspace.
  pub apply_diffs-IsWritten :
      (diffs : List FileDiff) (files : Files)
      → IsWritten diffs files (apply_diffs os root diffs files)
  unfolding apply_diffs
  apply_diffs-IsWritten diffs files =
      go (resolve_all os root (λ d. d.path) diffs) (resolve_all-AllLed diffs)
    where
      go :
          (r : Safe (List (Text × FileDiff)))
          → AllLed diffs r
          → IsWritten diffs files (elim r [
            | unsafe p ↦ unsafe p
            | safe resolved ↦ safe (write_all os root resolved files, map (λ d. d.path) diffs)
          ])
      go (unsafe p) h = h
      go (safe resolved) h = (
        λ q.
            ap (λ r. lookup text_discrete q (write_all os root r files)) h
            ∙ lookup-write_all diffs files q,
        refl,
      )

  last_content-other :
      (q : Text) (ds : List FileDiff) (o : Option Text)
      → All (λ p. p ≢ q) (map (λ d. resolved_path d.path) ds)
      → last_content q ds o ≡ o
  unfolding last_content
  last_content-other q [] o h = refl
  last_content-other q (d ∷ ds) o h =
      last_content-other q ds _ h.1
      ∙ if_neg (text_discrete q (resolved_path d.path)) (λ e. h.0 (sym e)) _ _

  last_content-own :
      (ds : List FileDiff) (before : Text → Option Text)
      → Distinct (map (λ d. resolved_path d.path) ds)
      → All
          (λ d.
            last_content (resolved_path d.path) ds (before (resolved_path d.path)) ≡ some d.content)
          ds
  unfolding last_content
  last_content-own [] before h = tt
  last_content-own (d ∷ ds) before h = (
    rw (if_pos (text_discrete (resolved_path d.path) (resolved_path d.path)) refl)
        (last_content-other (resolved_path d.path) ds (some d.content) h.0),
    last_content-own ds
        (λ q. ite (text_discrete q (resolved_path d.path)) (some d.content) (before q)) h.1,
  )

  -- Let the paths of the diffs lead to different places, and `apply_diffs` accept them. What is then
  -- read at the place of each diff is the content of the diff.
  pub read-apply_diffs :
      (diffs : List FileDiff) (files files' : Files) (written : List Text)
      → Distinct (map (λ d. resolved_path d.path) diffs)
      → apply_diffs os root diffs files ≡ safe (files', written)
      → All (λ d. lookup text_discrete (resolved_path d.path) files' ≡ some d.content) diffs
  read-apply_diffs diffs files files' written h e =
      let w = subst (IsWritten diffs files) e (apply_diffs-IsWritten diffs files) in
      All-weaken _ (λ d. lookup text_discrete (resolved_path d.path) files' ≡ some d.content) diffs
        (λ d own. w.0 (resolved_path d.path) ∙ own)
        (last_content-own diffs (λ q. lookup text_discrete q files) h)
