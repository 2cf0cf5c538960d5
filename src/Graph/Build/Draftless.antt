-- ===== src/Graph/Build/Draftless.antt =====
-- Only the aggregate node writes the draft of the pull request and the list of its files.
use stack_migrate.Base.{
  ◌≡◌, refl, inl, inr, Bool, List, [], ◌∷◌, Option, none, some, Bool-cases, ℕ, Text,
}
use stack_migrate.State.{
  MigrationTask, EditorResult, MigrationRunConfig, ComprehensionResult, FileDiff, SemanticUnit,
  GraphState, Update, BudgetState, TestResult, apply_update,
}
use stack_migrate.State.Budget.{is_exhausted}
use stack_migrate.Vcs.Paths.{Unicode}
use stack_migrate.Sandbox.Workspace.{OsPath, Files, Safe, safe, unsafe, remove_paths, apply_diffs}
use stack_migrate.Adapters.Fastapi.{TargetSynthesisAdapter}
use stack_migrate.Graph.Diffs.Effective.{effective_diffs}
use stack_migrate.Graph.Nodes.Budget.{budget_reconcile_node}
use stack_migrate.Graph.Nodes.Editor.{Clock, Generated, after_generate, editor_node}
use stack_migrate.Graph.Nodes.ErrorAnalysis.{
  Analyzed, after_analyze, analyze_candidates, error_analysis_node,
}
use stack_migrate.Graph.Nodes.SandboxTest.{
  SandboxRun, finished, Runner, NodeResult, returned, after_run, after_apply, after_remove,
  with_diffs, sandbox_test_node,
}
use stack_migrate.Graph.Nodes.Synthesis.{plan, synthesis_node}
use stack_migrate.Graph.Nodes.Comprehension.{DiscoveredFile, Extracted, comprehension_node}

-- The update writes neither the draft nor the list of its files.
abbrev pub IsDraftless : Update → Type 0
IsDraftless u = (u.pr_draft ≡ none) × (u.aggregated_diff_paths ≡ none)

pub comprehension_node-IsDraftless :
    (unicode : Unicode) (config : MigrationRunConfig) (b : BudgetState) (now : ℕ)
    (files : List DiscoveredFile) (extract : DiscoveredFile → Extracted)
    → IsDraftless (comprehension_node unicode config b now files extract)
unfolding comprehension_node
comprehension_node-IsDraftless unicode config b now files extract =
    elim (Bool-cases (is_exhausted b now)) [ inl e ↦ rw e (refl, refl) | inr e ↦ rw e (refl, refl) ]

plan-IsDraftless :
    (adapter : TargetSynthesisAdapter) (units : List SemanticUnit)
    → IsDraftless (plan adapter units)
plan-IsDraftless adapter [] = (refl, refl)
plan-IsDraftless adapter (u ∷ us) = (refl, refl)

pub synthesis_node-IsDraftless :
    (adapter : TargetSynthesisAdapter) (c : Option ComprehensionResult)
    → IsDraftless (synthesis_node adapter c)
unfolding synthesis_node
synthesis_node-IsDraftless adapter none = (refl, refl)
synthesis_node-IsDraftless adapter (some c) = plan-IsDraftless adapter c.units

after_generate-IsDraftless :
    (t : MigrationTask) (now : ℕ) (g : Generated) → IsDraftless (after_generate t now g)
unfolding after_generate
after_generate-IsDraftless t now (Generated.response r) = (refl, refl)
after_generate-IsDraftless t now (Generated.raised exc) = (refl, refl)

pub editor_node-IsDraftless :
    (t : MigrationTask) (b : BudgetState) (c : Clock) (g : Generated)
    → IsDraftless (editor_node t b c g)
unfolding editor_node
editor_node-IsDraftless t b c g = elim (Bool-cases (is_exhausted b c.test)) [
  | inl e ↦ rw e (refl, refl)
  | inr e ↦ rw e (after_generate-IsDraftless t c.produced g)
]

pub budget_reconcile_node-IsDraftless :
    (deltas : List ℕ) (consumed : ℕ) (b : BudgetState)
    → IsDraftless (budget_reconcile_node deltas consumed b)
unfolding budget_reconcile_node
budget_reconcile_node-IsDraftless deltas consumed b = (refl, refl)

after_analyze-IsDraftless :
    (b : BudgetState) (round : ℕ) (capped : Bool) (candidates : List MigrationTask)
    (answer : Analyzed)
    → IsDraftless (after_analyze b round capped candidates answer)
unfolding after_analyze
after_analyze-IsDraftless b round capped candidates (Analyzed.response r) = (refl, refl)
after_analyze-IsDraftless b round capped candidates (Analyzed.raised exc) = (refl, refl)

analyze_candidates-IsDraftless :
    (candidates : List MigrationTask) (b : BudgetState) (round : ℕ) (capped : Bool) (now : ℕ)
    (answer : Analyzed)
    → IsDraftless (analyze_candidates b round capped now answer candidates)
analyze_candidates-IsDraftless [] b round capped now answer = (refl, refl)
analyze_candidates-IsDraftless (t ∷ ts) b round capped now answer =
    elim (Bool-cases (is_exhausted b now)) [
      | inl e ↦ rw e (refl, refl)
      | inr e ↦ rw e (after_analyze-IsDraftless b round capped (t ∷ ts) answer)
    ]

pub error_analysis_node-IsDraftless :
    (result : Option TestResult) (tasks : List MigrationTask) (results : List EditorResult)
    (b : BudgetState) (round rounds now : ℕ) (answer : Analyzed)
    → IsDraftless (error_analysis_node result tasks results b round rounds now answer)
unfolding error_analysis_node
error_analysis_node-IsDraftless none tasks results b round rounds now answer = (refl, refl)
error_analysis_node-IsDraftless (some r) tasks results b round rounds now answer =
    analyze_candidates-IsDraftless _ b round _ now answer

-- What the sandbox node returns, where it returns.
abbrev pub IsDraftlessResult : Files × NodeResult → Type 0
IsDraftlessResult (files, returned u) = IsDraftless u
IsDraftlessResult (files, NodeResult.raised exc) = Unit

after_run-IsDraftless : (files : Files) (r : SandboxRun) → IsDraftlessResult (files, after_run r)
unfolding after_run
after_run-IsDraftless files (finished r) = (refl, refl)
after_run-IsDraftless files (SandboxRun.raised exc) = tt

after_apply-IsDraftless :
    (runner : Runner) (files : Files) (r : Safe (Files × List Text))
    → IsDraftlessResult (after_apply runner files r)
after_apply-IsDraftless runner files (unsafe p) = (refl, refl)
after_apply-IsDraftless runner files (safe (files', written)) =
    after_run-IsDraftless files' (runner files')

after_remove-IsDraftless :
    (os : OsPath) (root : Text) (diffs : List FileDiff) (runner : Runner) (files : Files)
    (r : Safe (Files × List Text))
    → IsDraftlessResult (after_remove os root diffs runner files r)
after_remove-IsDraftless os root diffs runner files (unsafe p) = (refl, refl)
after_remove-IsDraftless os root diffs runner files (safe (files', removed)) =
    after_apply-IsDraftless runner files' (apply_diffs os root diffs files')

with_diffs-IsDraftless :
    (os : OsPath) (root : Text) (stale : List Text) (runner : Runner) (files : Files)
    (diffs : List FileDiff)
    → IsDraftlessResult (with_diffs os root stale runner files diffs)
with_diffs-IsDraftless os root stale runner files [] = (refl, refl)
with_diffs-IsDraftless os root stale runner files (d ∷ ds) =
    after_remove-IsDraftless os root (d ∷ ds) runner files (remove_paths os root stale files)

pub sandbox_test_node-IsDraftless :
    (os : OsPath) (config : MigrationRunConfig) (results : List EditorResult)
    (tasks : List MigrationTask) (runner : Runner) (files : Files)
    → IsDraftlessResult (sandbox_test_node os config results tasks runner files)
unfolding sandbox_test_node
sandbox_test_node-IsDraftless os config results tasks runner files =
    with_diffs-IsDraftless os config.target_workspace_path _ runner files
      (effective_diffs results tasks)

-- The draft stays absent.
pub draftless-apply_update :
    (s : GraphState) (u : Update)
    → IsDraftless u
    → s.pr_draft ≡ none
    → (apply_update s u).pr_draft ≡ none
unfolding apply_update
draftless-apply_update s u q h = rw (q.0, h) refl
