-- ===== src/Graph/Nodes/Prompts/Room.antt =====
-- The size of the prompt of the error analysis.
use stack_migrate.Base.{
  ℕ, ◌+◌, ◌≤◌, ◌≡◌, true, List, [], ◌∷◌, ◌++◌, Text, length, length-append, length-take-le, codes,
  leb, take, inl, inr, Bool-cases, arith,
}
use stack_migrate.State.{MigrationTask, FileDiff, EditorResult, TestOutcome, TestResult}
use stack_migrate.Graph.Nodes.Prompts.{
  preview, truncated, file_preview, file_previews, diffs_of_task, section_head, task_sections,
  failing_lines, analysis_prompt, outcome_value, intro, failing_title, output_title,
  candidates_title, request,
}

-- The characters that the previews of some files may take: at most 3,000 of each content, 16 for the
-- mark, 13 for the frame, and the path.
unfoldable pub previews_room : List FileDiff → ℕ
previews_room [] = 0
previews_room (d ∷ ds) = length d.path + 3029 + previews_room ds

unfoldable pub sections_room : List EditorResult → List MigrationTask → ℕ
sections_room results [] = 0
sections_room results (t ∷ ts) =
    length (section_head t) + previews_room (diffs_of_task results t) + sections_room results ts

leb-le : (a b : ℕ) → leb a b ≡ true → a ≤ b
leb-le a b e = ground arith

pub preview-length : (limit : ℕ) (t : Text) → length (preview limit t) ≤ limit + 16
unfolding preview
preview-length limit t = elim (Bool-cases (leb (length t) limit)) [
  | inl e ↦ rw e (omega (arith, leb-le (length t) limit e))
  | inr e ↦ rw e (omega (arith, length-append (take limit t) truncated, length-take-le limit t))
]

length-append3 :
    {A : Type 0} (a b c : List A) → length (a ++ b ++ c) ≡ length a + (length b + length c)
length-append3 a b c = omega (arith, length-append (a ++ b) c, length-append a b)

file_preview-length : (d : FileDiff) → length (file_preview d) ≤ length d.path + 3029
unfolding file_preview
file_preview-length d = omega (
  arith,
  length-append3 (d.path ++ codes " ---\n") (preview 3000 d.content) (codes "\n"),
  length-append d.path (codes " ---\n"),
  preview-length 3000 d.content,
)

file_previews-length : (ds : List FileDiff) → length (file_previews ds) ≤ previews_room ds
unfolding file_previews previews_room
file_previews-length [] = omega arith
file_previews-length (d ∷ ds) = omega (
  arith,
  length-append (file_preview d) (file_previews ds),
  file_preview-length d,
  file_previews-length ds,
)

task_sections-length :
    (results : List EditorResult) (ts : List MigrationTask)
    → length (task_sections results ts) ≤ sections_room results ts
unfolding task_sections sections_room
task_sections-length results [] = omega arith
task_sections-length results (t ∷ ts) = omega (
  arith,
  length-append3 (section_head t) (file_previews (diffs_of_task results t))
      (task_sections results ts),
  file_previews-length (diffs_of_task results t),
  task_sections-length results ts,
)

outcome_value-length : (o : TestOutcome) → length (outcome_value o) ≤ 7
outcome_value-length TestOutcome.passed = omega arith
outcome_value-length TestOutcome.failed = omega arith
outcome_value-length TestOutcome.error = omega arith
outcome_value-length TestOutcome.timeout = omega arith
outcome_value-length TestOutcome.not_run = omega arith

-- The prompt of the error analysis has no more characters than a bound in which the texts of the
-- failing tests, the ids and paths of the candidate tasks and the paths of their files count, and of
-- the contents of the files and of the output of the tests only 3,000 and 8,000 characters each.
pub analysis_prompt-bounded :
    (r : TestResult) (candidates : List MigrationTask) (results : List EditorResult)
    → length (analysis_prompt r candidates results)
      ≤ length (failing_lines r.failing_tests) + sections_room results candidates + 9000
unfolding analysis_prompt
analysis_prompt-bounded r candidates results = omega (
  arith,
  length-append3 (intro ++ outcome_value r.outcome ++ failing_title) (failing_lines r.failing_tests)
      output_title,
  length-append3 intro (outcome_value r.outcome) failing_title,
  length-append3
      (intro
        ++ outcome_value r.outcome
        ++ failing_title
        ++ failing_lines r.failing_tests
        ++ output_title)
      (preview 8000 r.raw_output) candidates_title,
  length-append3
      (intro
        ++ outcome_value r.outcome
        ++ failing_title
        ++ failing_lines r.failing_tests
        ++ output_title
        ++ preview 8000 r.raw_output
        ++ candidates_title)
      (task_sections results candidates) request,
  outcome_value-length r.outcome,
  preview-length 8000 r.raw_output,
  task_sections-length results candidates,
)
