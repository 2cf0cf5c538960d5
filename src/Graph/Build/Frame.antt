-- ===== src/Graph/Build/Frame.antt =====
-- Which keys of the state a node leaves alone.
use stack_migrate.Base.{
  ◌≡◌, refl, inl, inr, Bool, not, ◌&&◌, List, [], ◌∷◌, Option, none, some, Bool-cases, ℕ,
}
use stack_migrate.State.{
  MigrationTask, EditorResult, MigrationRunConfig, ComprehensionResult, FileDiff, PrDraft, LogEntry,
  SemanticUnit, GraphState, Update, BudgetState, TestResult,
}
use stack_migrate.State.Budget.{is_exhausted}
use stack_migrate.Vcs.Paths.{Unicode}
use stack_migrate.Adapters.Fastapi.{TargetSynthesisAdapter}
use stack_migrate.Graph.Routing.{needs_human_approval, is_truthy}
use stack_migrate.Graph.Nodes.Budget.{budget_reconcile_node, budget_abort_node}
use stack_migrate.Graph.Nodes.Editor.{Clock, Generated, after_generate, editor_node}
use stack_migrate.Graph.Nodes.ErrorAnalysis.{
  Analyzed, after_analyze, analyze_candidates, error_analysis_node,
}
use stack_migrate.Graph.Nodes.Approval.{request_approval_node}
use stack_migrate.Graph.Nodes.Publish.{
  Publisher, is_recorded, with_draft, after_publish, Published, publication, opened,
  publish_approved_pr, pr_publish_node,
}
use stack_migrate.Graph.Nodes.Aggregate.{checked, of_diffs, path_problems, aggregate_node}
use stack_migrate.Graph.Nodes.Synthesis.{plan, synthesis_node}
use stack_migrate.Graph.Nodes.Comprehension.{DiscoveredFile, Extracted, comprehension_node}

-- The node records no decision and no test result.
abbrev pub IsSilent : Update → Type 0
IsSilent u = (u.approval_status ≡ none) × (u.full_suite_result ≡ none)

-- Nor does it touch the tasks or the generated files.
abbrev pub IsStill : Update → Type 0
IsStill u = IsSilent u × (u.tasks ≡ []) × (u.editor_results ≡ [])

pub comprehension_node-IsSilent :
    (unicode : Unicode) (config : MigrationRunConfig) (b : BudgetState) (now : ℕ)
    (files : List DiscoveredFile) (extract : DiscoveredFile → Extracted)
    → IsSilent (comprehension_node unicode config b now files extract)
unfolding comprehension_node
comprehension_node-IsSilent unicode config b now files extract =
    elim (Bool-cases (is_exhausted b now)) [ inl e ↦ rw e (refl, refl) | inr e ↦ rw e (refl, refl) ]

pub comprehension_node-no_tasks :
    (unicode : Unicode) (config : MigrationRunConfig) (b : BudgetState) (now : ℕ)
    (files : List DiscoveredFile) (extract : DiscoveredFile → Extracted)
    → (comprehension_node unicode config b now files extract).tasks ≡ []
unfolding comprehension_node
comprehension_node-no_tasks unicode config b now files extract =
    elim (Bool-cases (is_exhausted b now)) [ inl e ↦ rw e refl | inr e ↦ rw e refl ]

plan-IsSilent :
    (adapter : TargetSynthesisAdapter) (units : List SemanticUnit) → IsSilent (plan adapter units)
plan-IsSilent adapter [] = (refl, refl)
plan-IsSilent adapter (u ∷ us) = (refl, refl)

pub synthesis_node-IsSilent :
    (adapter : TargetSynthesisAdapter) (c : Option ComprehensionResult)
    → IsSilent (synthesis_node adapter c)
unfolding synthesis_node
synthesis_node-IsSilent adapter none = (refl, refl)
synthesis_node-IsSilent adapter (some c) = plan-IsSilent adapter c.units

after_generate-IsSilent :
    (t : MigrationTask) (now : ℕ) (g : Generated) → IsSilent (after_generate t now g)
unfolding after_generate
after_generate-IsSilent t now (Generated.response r) = (refl, refl)
after_generate-IsSilent t now (Generated.raised exc) = (refl, refl)

pub editor_node-IsSilent :
    (t : MigrationTask) (b : BudgetState) (c : Clock) (g : Generated)
    → IsSilent (editor_node t b c g)
unfolding editor_node
editor_node-IsSilent t b c g = elim (Bool-cases (is_exhausted b c.test)) [
  | inl e ↦ rw e (refl, refl)
  | inr e ↦ rw e (after_generate-IsSilent t c.produced g)
]

pub budget_reconcile_node-IsStill :
    (deltas : List ℕ) (consumed : ℕ) (b : BudgetState)
    → IsStill (budget_reconcile_node deltas consumed b)
unfolding budget_reconcile_node
budget_reconcile_node-IsStill deltas consumed b = ((refl, refl), refl, refl)

pub budget_abort_node-IsSilent :
    (tasks : List MigrationTask) (b : BudgetState) (now : ℕ)
    → IsSilent (budget_abort_node tasks b now)
unfolding budget_abort_node
budget_abort_node-IsSilent tasks b now = (refl, refl)

after_analyze-IsSilent :
    (b : BudgetState) (round : ℕ) (capped : Bool) (candidates : List MigrationTask)
    (answer : Analyzed)
    → IsSilent (after_analyze b round capped candidates answer)
unfolding after_analyze
after_analyze-IsSilent b round capped candidates (Analyzed.response r) = (refl, refl)
after_analyze-IsSilent b round capped candidates (Analyzed.raised exc) = (refl, refl)

analyze_candidates-IsSilent :
    (candidates : List MigrationTask) (b : BudgetState) (round : ℕ) (capped : Bool) (now : ℕ)
    (answer : Analyzed)
    → IsSilent (analyze_candidates b round capped now answer candidates)
analyze_candidates-IsSilent [] b round capped now answer = (refl, refl)
analyze_candidates-IsSilent (t ∷ ts) b round capped now answer =
    elim (Bool-cases (is_exhausted b now)) [
      | inl e ↦ rw e (refl, refl)
      | inr e ↦ rw e (after_analyze-IsSilent b round capped (t ∷ ts) answer)
    ]

pub error_analysis_node-IsSilent :
    (result : Option TestResult) (tasks : List MigrationTask) (results : List EditorResult)
    (b : BudgetState) (round rounds now : ℕ) (answer : Analyzed)
    → IsSilent (error_analysis_node result tasks results b round rounds now answer)
unfolding error_analysis_node
error_analysis_node-IsSilent none tasks results b round rounds now answer = (refl, refl)
error_analysis_node-IsSilent (some r) tasks results b round rounds now answer =
    analyze_candidates-IsSilent _ b round _ now answer

checked-IsStill :
    (ds : List FileDiff) (p : PrDraft) (es : List LogEntry) → IsStill (checked ds p es)
checked-IsStill ds p [] = ((refl, refl), refl, refl)
checked-IsStill ds p (e ∷ es) = ((refl, refl), refl, refl)

of_diffs-IsStill :
    (unicode : Unicode) (p : PrDraft) (ds : List FileDiff) → IsStill (of_diffs unicode p ds)
of_diffs-IsStill unicode p [] = ((refl, refl), refl, refl)
of_diffs-IsStill unicode p (d ∷ ds) = checked-IsStill (d ∷ ds) p (path_problems unicode (d ∷ ds))

pub aggregate_node-IsStill :
    (unicode : Unicode) (config : MigrationRunConfig) (results : List EditorResult)
    (tasks : List MigrationTask) (c : Option ComprehensionResult)
    → IsStill (aggregate_node unicode config results tasks c)
unfolding aggregate_node
aggregate_node-IsStill unicode config results tasks c = of_diffs-IsStill unicode _ _

pub request_approval_node-IsStill : IsStill request_approval_node
unfolding request_approval_node
request_approval_node-IsStill = ((refl, refl), refl, refl)

after_publish-IsStill : (r : Published) → IsStill (after_publish r)
after_publish-IsStill (opened pr) = ((refl, refl), refl, refl)
after_publish-IsStill (Published.raised exc) = ((refl, refl), refl, refl)

with_draft-IsStill :
    (s : GraphState) (publisher : Publisher) (p : Option PrDraft)
    → IsStill (with_draft s publisher p).0
unfolding publish_approved_pr
with_draft-IsStill s publisher none = ((refl, refl), refl, refl)
with_draft-IsStill s publisher (some draft) =
    elim (Bool-cases (not (is_truthy s.config.github_target_repo))) [
      | inl e ↦ rw e ((refl, refl), refl, refl)
      | inr e ↦
          elim (Bool-cases (needs_human_approval s.config && not (is_recorded s.approval_status))) [
            | inl e' ↦ rw (e, e') ((refl, refl), refl, refl)
            | inr e' ↦ rw (e, e') (after_publish-IsStill (publisher (publication s draft)))
          ]
    ]

pub pr_publish_node-IsStill :
    (s : GraphState) (publisher : Publisher) → IsStill (pr_publish_node s publisher).0
unfolding pr_publish_node
pr_publish_node-IsStill s publisher = with_draft-IsStill s publisher s.pr_draft
