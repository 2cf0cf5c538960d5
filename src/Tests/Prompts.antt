-- ===== src/Tests/Prompts.antt =====
-- The properties of the prompts, at a suite that failed.
use stack_migrate.Base.{◌+◌, ◌≡◌, ◌≤◌, refl, [], ◌∷◌, ◌++◌, Option, some, none, codes, length}
use stack_migrate.State.{MigrationTask, TaskStatus, EditorResult, TestResult, TestOutcome}
use stack_migrate.Graph.Nodes.Prompts.{
  editor_prompt, file_line, retry_context, analysis_prompt, failing_lines,
}
use stack_migrate.Graph.Nodes.Prompts.Room.{sections_room, analysis_prompt-bounded}
use stack_migrate.Core.Llm.{
  default_rates, answer_of_raw, FileExtractionResult, Usage, RawAnswer, call_cost, usage_of,
  get_tokens,
}
use stack_migrate.Tests.Samples.{program, foo_diff}

abbrev written_task : MigrationTask
written_task = record {
  id = codes "a";
  source_unit_ids = [];
  target_files = record { path = codes "a.py"; purpose = codes "p" } ∷ [];
  depends_on_task_ids = [];
  synthesis_instructions = codes "write it";
  status = TaskStatus.succeeded;
  retry_count = 1;
  max_retries = 3;
}

abbrev written_result : EditorResult
written_result = record {
  task_id = codes "a";
  diffs = foo_diff ∷ [];
  editor_notes = [];
  tokens_used = 0;
  produced_at = 0;
}

abbrev failed_result : TestResult
failed_result = record {
  task_id = none;
  outcome = TestOutcome.failed;
  raw_output = codes "E  NameError";
  failing_tests = codes "test_a" ∷ [];
  duration_seconds = 1;
}

abbrev sample_usage : Usage
sample_usage = record { input_tokens = some 2; output_tokens = some 2 }

abbrev no_answer : Option Usage → RawAnswer FileExtractionResult
no_answer u = record { parsed = none; usage_metadata = u }

editor_prompt_run :
    editor_prompt written_task
    ≡ codes "You are migrating code to a target tech stack. Generate COMPLETE, working file\n"
      ++ codes "content for the file(s) below "
      ++ codes "— no placeholders, no \"// TODO: implement\", no markdown\n"
      ++ codes "code fences in the content field (it must be the literal raw file content).\n"
      ++ codes "\n"
      ++ codes "Target file(s) to produce:\n"
      ++ codes "- a.py: p\n"
      ++ codes "\n"
      ++ codes "NOTE: this is retry attempt 1 for this task. "
      ++ codes "A previous attempt failed — pay close attention to the instructions below "
      ++ codes "and avoid repeating whatever caused the prior failure.\n"
      ++ codes "\n"
      ++ codes "Instructions:\n"
      ++ codes "write it\n"
unfolding program editor_prompt file_line retry_context
editor_prompt_run = refl

analysis_prompt-bounded_example :
    length (analysis_prompt failed_result (written_task ∷ []) (written_result ∷ []))
    ≤ length (failing_lines (codes "test_a" ∷ []))
      + sections_room (written_result ∷ []) (written_task ∷ [])
      + 9000
analysis_prompt-bounded_example =
    analysis_prompt-bounded failed_result (written_task ∷ []) (written_result ∷ [])

-- An answer that does not parse, without usage, is charged nothing; any other is charged its tokens.
answer_of_raw_run :
    ((answer_of_raw default_rates (no_answer none)).cost_usd ≡ 0)
    × ((answer_of_raw default_rates (no_answer (some sample_usage))).cost_usd ≡ 36_000)
unfolding answer_of_raw call_cost usage_of get_tokens
answer_of_raw_run = (refl, refl)
