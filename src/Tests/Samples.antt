-- ===== src/Tests/Samples.antt =====
-- One service in one file is migrated to one FastAPI module, tested, approved and published.
use stack_migrate.Base.{
  map, ◌≡◌, refl, true, false, [], ◌∷◌, ◌++◌, none, some, codes, set_item, set_items, lookup,
  text_discrete, keep, all_of, any_of, contains, starts_with, split_on, last_of, join, show,
  digits_from, ℕ_discrete, find, occurs_in, ends_with, put, puts,
}
use stack_migrate.State.{
  TestOutcome, TestResult, FileDiff, SemanticUnitKind, service_payload, MigrationRunConfig,
  merge_task_lists, apply_update, apply_updates,
}
use stack_migrate.State.Budget.{
  remaining_usd, wall_clock_exceeded, exhausted_reason, is_exhausted, record_call, call_reserve,
  affordable_calls,
}
use stack_migrate.Core.Slug.{
  slugify, strip_right, strip_left, snoc_stripped, lower_ascii, collapse, break_camel, break_rest,
}
use stack_migrate.Core.Describe.{describe_unit, describe_payload}
use stack_migrate.Vcs.Paths.{
  Unicode, publishable_path_problem, lower, lower_char, is_safe_char, matches_rest,
  matches_safe_chars,
}
use stack_migrate.Sandbox.Workspace.{
  OsPath, remove_item, is_inside, resolve_safe_path, resolve_all, write_all, remove_all,
  remove_paths, apply_diffs,
}
use stack_migrate.Adapters.Fastapi.{
  TargetSynthesisAdapter, fastapi_target_path, module_name_for, drop_controller, before_last,
  after_last, payload_name, kind_to_dir,
}
use stack_migrate.Graph.Diffs.Effective.{
  latest_results_by_task, succeeded_ids, effective_results, all_diffs, effective_diffs,
}
use stack_migrate.Graph.Diffs.Stale.{text_leb, insert_sorted, sorted_set, stale_paths}
use stack_migrate.Graph.Routing.{
  has_succeeded, is_ready, get_ready_tasks, route_to_editors, route_after_sandbox,
  route_after_comprehension, needs_human_approval, route_after_aggregate, route_after_approval,
}
use stack_migrate.Graph.Nodes.Comprehension.{
  Extracted, suffixed, next_free, assign_id, add_units, after_extract, index_of, stop_at,
  extract_files, tokens_of, referenced_names, name_table, resolve_refs, resolve_unit, resolve_units,
  run_comprehension, comprehension_node,
}
use stack_migrate.Graph.Nodes.Synthesis.{
  build_instructions, task_id_of, group_units, unit_to_task_id, known_tasks, all_dependencies,
  task_of_group, tasks_of_groups, run_synthesis, synthesis_node,
}
use stack_migrate.Graph.Nodes.Budget.{
  record_calls, budget_reconcile_node, skip_all, budget_abort_node,
}
use stack_migrate.Graph.Nodes.Editor.{Generated, status_after_failure, after_generate, editor_node}
use stack_migrate.Graph.Nodes.ErrorAnalysis.{
  Analyzed, round_cap_hit, candidate_tasks, escalate_all, retry_or_escalate, updated_tasks,
  after_analyze, error_analysis_node,
}
use stack_migrate.Graph.Nodes.SandboxTest.{finished, after_run, sandbox_test_node}
use stack_migrate.Graph.Nodes.Aggregate.{
  purpose_of, file_lines, result_lines, ambiguity_lines, pr_title, build_pr_draft, path_problems,
  aggregate_node,
}
use stack_migrate.Graph.Nodes.Approval.{
  Decision, Flag, request_approval_node, is_approved, approval_gate_node,
}
use stack_migrate.Graph.Nodes.Publish.{Published, publication, publish_approved_pr, pr_publish_node}
use stack_migrate.Graph.Build.Machine.{
  Point, Env, Machine, follow, dispatch_from, after_comprehension, after_sandbox, after_aggregate,
  after_approval, wave_updates, step_at, step, run, resume,
}
use stack_migrate.Core.Tokens.{
  is_capitalized_token, is_word_char, words_from, find_capitalized_tokens,
}
use stack_migrate.Core.Observability.{budget_snapshot, observed_node, configure_logging, run_config}
use stack_migrate.Vcs.Github.{check_paths, publish_to, publish}
use stack_migrate.Adapters.Source.{DiscoveredFile}
use stack_migrate.Adapters.Springboot.{
  first_kind, guess_kind, is_java, java_files, is_skipped, walk, walk_subs, matches_scope,
  anchor_dirs, selected_paths, read_selected, discover_files,
}
use stack_migrate.Api.{MigrationLimits, submitted, decide}
use stack_migrate.Services.RepoPrep.{prepare_source, prepare_target, clone, write_scaffold}
use stack_migrate.Worker.{run_migration, config_of}
use stack_migrate.Api.Auth.{load_api_key, require_api_key}
use stack_migrate.Api.Routes.{route, handle}
use stack_migrate.Api.Status.{state_to_status_response, get_migration_status}

-- Opens every definition of the program, for the tests.
unfoldable pub program : Unit {0}
unfolding set_item set_items lookup text_discrete ℕ_discrete keep all_of any_of contains starts_with
    split_on last_of join show digits_from find put puts merge_task_lists apply_update apply_updates
    remaining_usd wall_clock_exceeded exhausted_reason is_exhausted record_call call_reserve
    affordable_calls slugify strip_right strip_left snoc_stripped lower_ascii collapse break_camel
    break_rest describe_unit describe_payload publishable_path_problem lower lower_char is_safe_char
    matches_rest matches_safe_chars remove_item is_inside resolve_safe_path resolve_all write_all
    remove_all remove_paths apply_diffs fastapi_target_path module_name_for drop_controller
    before_last after_last payload_name kind_to_dir latest_results_by_task succeeded_ids
    effective_results all_diffs effective_diffs text_leb insert_sorted sorted_set stale_paths
    has_succeeded is_ready get_ready_tasks route_to_editors route_after_sandbox
    route_after_comprehension needs_human_approval route_after_aggregate route_after_approval
    suffixed next_free assign_id add_units after_extract index_of stop_at extract_files tokens_of
    referenced_names name_table resolve_refs resolve_unit resolve_units run_comprehension
    comprehension_node build_instructions task_id_of group_units unit_to_task_id known_tasks
    all_dependencies task_of_group tasks_of_groups run_synthesis synthesis_node record_calls
    budget_reconcile_node skip_all budget_abort_node status_after_failure after_generate editor_node
    round_cap_hit candidate_tasks escalate_all retry_or_escalate updated_tasks after_analyze
    error_analysis_node after_run sandbox_test_node purpose_of file_lines result_lines
    ambiguity_lines pr_title build_pr_draft path_problems aggregate_node request_approval_node
    is_approved approval_gate_node publication publish_approved_pr pr_publish_node follow
    dispatch_from after_comprehension after_sandbox after_aggregate after_approval wave_updates
    step_at step run resume decide occurs_in ends_with is_capitalized_token is_word_char words_from
    find_capitalized_tokens budget_snapshot observed_node configure_logging run_config check_paths
    publish_to publish first_kind guess_kind is_java java_files is_skipped walk walk_subs
    matches_scope anchor_dirs selected_paths read_selected discover_files load_api_key run_migration
    config_of prepare_source prepare_target clone write_scaffold require_api_key route handle
    state_to_status_response get_migration_status
program = tt

abbrev pub ascii : Unicode
ascii = record { is_word = λ c. false; lower = map lower_char }

-- Paths without links: a join with a slash, and everything resolved already.
abbrev pub plain_paths : OsPath
plain_paths = record {
  isabs = λ p. starts_with (codes "/") p;
  realpath = λ p. p;
  join = λ root p. root ++ codes "/" ++ p;
}

abbrev pub source_file : DiscoveredFile
source_file = record {
  path = codes "/src/Foo.java";
  relative_path = codes "Foo.java";
  likely_kind = none;
  content = codes "class Foo {}";
}

abbrev pub foo_service : Extracted
foo_service = Extracted.response (record {
  units =
      record {
        kind = SemanticUnitKind.service;
        name = codes "Foo";
        payload = service_payload (record {
          name = codes "Foo";
          description = codes "d";
          depends_on = [];
          business_logic_summary = codes "b";
        });
        stack_specific_hints = [];
      }
      ∷ [];
  ambiguities = [];
  cost_usd = 10;
  input_tokens = 1;
  output_tokens = 1;
})

abbrev pub fastapi_sample : TargetSynthesisAdapter
fastapi_sample = record { suggest_target_path = fastapi_target_path; convention_notes = λ k. [] }

abbrev pub foo_diff : FileDiff
foo_diff = record { path = codes "app/services/foo.py"; content = codes "pass"; is_new_file = true }

abbrev pub generated : Generated
generated = Generated.response (record {
  files = foo_diff ∷ [];
  notes = [];
  cost_usd = 20;
  input_tokens = 2;
  output_tokens = 3;
})

abbrev pub passed_result : TestResult
passed_result = record {
  task_id = none;
  outcome = TestOutcome.passed;
  raw_output = [];
  failing_tests = [];
  duration_seconds = 1;
}

abbrev pub sample_env : Env
sample_env = record {
  unicode = ascii;
  os = plain_paths;
  clock = λ n. n;
  later = λ n. n;
  analysis_clock = λ n. n;
  discovered = source_file ∷ [];
  extract = λ f. foo_service;
  synthesis_adapter = fastapi_sample;
  branch_clock = λ n t. record { test = n; message = n; produced = n };
  generate = λ n t. generated;
  analyze = λ n. Analyzed.raised (codes "no analyzer");
  run_sandbox = λ n files. finished passed_result;
  publisher = λ p.
      Published.opened (record {
        url = codes "http://pr/1";
        branch_name = p.branch_name;
        commit_sha = codes "c0";
      });
}

abbrev pub sample_config : MigrationRunConfig
sample_config = record {
  run_id = codes "r1";
  source_repo_url = codes "u";
  source_ref = codes "main";
  source_stack = codes "springboot";
  target_stack = codes "fastapi";
  scope_description = codes "Foo";
  github_target_repo = some (codes "o/r");
  require_human_approval_before_pr = true;
  local_checkout_path = codes "/src";
  target_workspace_path = codes "/ws";
}

abbrev pub sample_limits : MigrationLimits
sample_limits = record {
  max_usd = 1_000_000_000;
  max_llm_calls = 10;
  max_wall_clock_seconds = 3600;
  max_retry_rounds = 0;
}

abbrev pub started : Machine
started = submitted sample_config sample_limits 0 []

abbrev pub approve : Decision
approve = Decision.dict Flag.is_true none

abbrev pub reject : Decision
reject = Decision.dict Flag.not_true none

-- After seven supersteps the run waits at the gate, with the file in the workspace and no call made.
pub started_waits :
    ((run sample_env 7 started).point ≡ Point.approval_gate)
    × ((run sample_env 7 started).files ≡ (codes "/ws/app/services/foo.py", codes "pass") ∷ [])
    × ((run sample_env 7 started).published ≡ [])
unfolding program
started_waits = (refl, refl, refl)
