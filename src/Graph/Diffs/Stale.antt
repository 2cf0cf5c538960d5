-- ===== src/Graph/Diffs/Stale.antt =====
-- `stale_paths` of app/graph/diffs.py.
use stack_migrate.Base.{
  Bool, true, false, not, ◌&&◌, ◌||◌, List, [], ◌∷◌, map, Text, keep, contains, ltb, ◌==◌,
  if◌then◌else◌,
}
use stack_migrate.State.{MigrationTask, EditorResult, FileDiff}
use stack_migrate.Graph.Diffs.Effective.{all_diffs, effective_diffs}

-- The order of Python on texts.
unfoldable pub text_leb : Text → Text → Bool
text_leb [] t = true
text_leb (c ∷ s) [] = false
text_leb (c ∷ s) (d ∷ t) = ltb c d || c == d && text_leb s t

-- One more element of a sorted list that stands for a set.
unfoldable pub insert_sorted : Text → List Text → List Text
insert_sorted t [] = t ∷ []
insert_sorted t (u ∷ us) =
    if text_leb u t then if text_leb t u then u ∷ us else u ∷ insert_sorted t us else t ∷ u ∷ us

-- `sorted(set(ts))`
unfoldable pub sorted_set : List Text → List Text
sorted_set [] = []
sorted_set (t ∷ ts) = insert_sorted t (sorted_set ts)

abbrev pub paths : List FileDiff → List Text
paths ds = map (λ d. d.path) ds

unfoldable pub stale_paths : List EditorResult → List MigrationTask → List Text
stale_paths results tasks = sorted_set (
    keep (λ p. not (contains p (paths (effective_diffs results tasks))))
      (paths (all_diffs results)))
