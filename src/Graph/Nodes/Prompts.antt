-- ===== src/Graph/Nodes/Prompts.antt =====
-- The prompts of app/graph/nodes/editor.py and app/graph/nodes/error_analysis.py.
pub mod Room
use stack_migrate.Base.{
  ℕ, ◌+◌, List, [], ◌∷◌, ◌++◌, map, Option, none, some, Text, text_discrete, codes, show, join,
  lookup, length, take, set_items, leb, ltb, if◌then◌else◌,
}
use stack_migrate.State.{
  MigrationTask, TargetFileSpec, FileDiff, EditorResult, TestOutcome, TestResult,
}

abbrev newline : Text
newline = codes "\n"

unfoldable pub file_line : TargetFileSpec → Text
file_line tf = codes "- " ++ tf.path ++ codes ": " ++ tf.purpose

unfoldable pub retry_context : ℕ → Text
retry_context retry_count =
    if ltb 0 retry_count
    then codes "\nNOTE: this is retry attempt "
      ++ show retry_count
      ++ codes " for this task. "
      ++ codes "A previous attempt failed — pay close attention to the instructions below "
      ++ codes "and avoid repeating whatever caused the prior failure.\n"
    else []

abbrev editor_intro : Text
editor_intro =
    codes "You are migrating code to a target tech stack. Generate COMPLETE, working file\n"
    ++ codes
        "content for the file(s) below — no placeholders, no \"// TODO: implement\", no markdown\n"
    ++ codes "code fences in the content field (it must be the literal raw file content).\n\n"
    ++ codes "Target file(s) to produce:\n"

-- `_build_editor_prompt`
unfoldable pub editor_prompt : MigrationTask → Text
editor_prompt task =
    editor_intro
    ++ join newline (map file_line task.target_files)
    ++ newline
    ++ retry_context task.retry_count
    ++ codes "\nInstructions:\n"
    ++ task.synthesis_instructions
    ++ newline

-- `outcome.value`
abbrev pub outcome_value : TestOutcome → Text
outcome_value TestOutcome.passed = codes "passed"
outcome_value TestOutcome.failed = codes "failed"
outcome_value TestOutcome.error = codes "error"
outcome_value TestOutcome.timeout = codes "timeout"
outcome_value TestOutcome.not_run = codes "not_run"

abbrev pub truncated : Text
truncated = codes "\n... [truncated]"

-- A text of at most `limit` characters, or its start with a mark.
unfoldable pub preview : ℕ → Text → Text
preview limit t = if leb (length t) limit then t else take limit t ++ truncated

unfoldable pub file_preview : FileDiff → Text
file_preview d = codes "\n  --- " ++ d.path ++ codes " ---\n" ++ preview 3000 d.content ++ newline

unfoldable pub file_previews : List FileDiff → Text
file_previews [] = []
file_previews (d ∷ ds) = file_preview d ++ file_previews ds

abbrev diffs_found : Option EditorResult → List FileDiff
diffs_found none = []
diffs_found (some r) = r.diffs

-- `diffs_by_task.get(task.id)`: of several results of a task the last counts.
unfoldable pub diffs_of_task : List EditorResult → MigrationTask → List FileDiff
diffs_of_task results task =
    diffs_found (lookup text_discrete task.id (set_items text_discrete (λ r. r.task_id) results []))

unfoldable pub section_head : MigrationTask → Text
section_head task =
    codes "Task '"
    ++ task.id
    ++ codes "' (attempt "
    ++ show (task.retry_count + 1)
    ++ codes ", target file(s): "
    ++ join (codes ", ") (map (λ tf. tf.path) task.target_files)
    ++ codes "):"

-- `"".join(task_sections)`
unfoldable pub task_sections : List EditorResult → List MigrationTask → Text
task_sections results [] = []
task_sections results (t ∷ ts) =
    section_head t ++ file_previews (diffs_of_task results t) ++ task_sections results ts

unfoldable pub failing_lines : List Text → Text
failing_lines [] = codes "(none listed individually)"
failing_lines (t ∷ ts) = join newline (map (λ u. codes "- " ++ u) (t ∷ ts))

abbrev pub intro : Text
intro = codes "A migrated codebase's test suite just ran with outcome: "

abbrev pub failing_title : Text
failing_title = codes ".\n\nFailing tests:\n"

abbrev pub output_title : Text
output_title = codes "\n\nFull test runner output:\n"

abbrev pub candidates_title : Text
candidates_title =
    codes
      "\n\nBelow are the migration tasks whose generated code is present in this test run (only these\n"
    ++ codes "are candidates — nothing else was recently changed):\n"

abbrev pub request : Text
request =
    codes
      "\n\nFor each task you can confidently implicate in the failure, provide a root cause, whether\n"
    ++ codes
        "it's worth retrying (a clear, fixable code issue) vs. not (e.g. the failure reveals a\n"
    ++ codes
        "fundamental misunderstanding of requirements that a retry won't fix), and concrete fix\n"
    ++ codes
        "instructions to feed into the next generation attempt. If you cannot confidently attribute\n"
    ++ codes "the failure to any specific task above, leave `analyses` empty and explain why in\n"
    ++ codes "`unattributable_summary` instead of guessing.\n"

-- `_build_analysis_prompt`
unfoldable pub analysis_prompt : TestResult → List MigrationTask → List EditorResult → Text
analysis_prompt r candidates results =
    intro
    ++ outcome_value r.outcome
    ++ failing_title
    ++ failing_lines r.failing_tests
    ++ output_title
    ++ preview 8000 r.raw_output
    ++ candidates_title
    ++ task_sections results candidates
    ++ request
