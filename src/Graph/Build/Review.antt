-- ===== src/Graph/Build/Review.antt =====
-- What a run has written of its draft at each of its points.
use stack_migrate.Base.{
  ℕ, ◌≡◌, refl, sym, subst, ◌⊎◌, inl, inr, List, [], ◌∷◌, map, Option, none, some, Text, All,
  Distinct, Option-cases,
}
use stack_migrate.State.{
  GraphState, Update, apply_update, apply_updates, MigrationTask, FileDiff, LogEntry, PrDraft,
  EditorResult, MigrationRunConfig, ComprehensionResult,
}
use stack_migrate.State.Merge.{ids}
use stack_migrate.Vcs.Paths.{Unicode, publishable_path_problem}
use stack_migrate.Graph.Diffs.Effective.{effective_diffs}
use stack_migrate.Graph.Routing.{
  Route, sends, no_ready_tasks, zero_division, AfterAggregate, approval_required, publish, finish,
  route_after_aggregate,
}
use stack_migrate.Graph.Nodes.Aggregate.{checked, of_diffs, path_problems, aggregate_node}
use stack_migrate.Graph.Nodes.Editor.{editor_node}
use stack_migrate.Graph.Nodes.Publish.{Publication}
use stack_migrate.Graph.Build.Draftless.{
  IsDraftless, editor_node-IsDraftless, draftless-apply_update,
}
use stack_migrate.Graph.Build.Frame.{IsStill}
use stack_migrate.Graph.Build.Machine.{
  Point, request_approval, approval_gate, pr_publish, budget_abort, ended, crashed, Env, Machine,
  wave_updates, move, follow, dispatch_from, after_aggregate,
}
use stack_migrate.Graph.Build.Measure.{Distinct-apply_update}
use stack_migrate.Graph.Build.Shipping.{effective_diffs_still}

-- The paths of some diffs, each of which is accepted.
abbrev pub Accepted : Unicode → List FileDiff → Type 0
Accepted unicode ds = All (λ d. publishable_path_problem unicode d.path ≡ none) ds

abbrev pub ReviewOf : Unicode → List Text → List FileDiff → Type 0
ReviewOf unicode paths ds = (paths ≡ map (λ d. d.path) ds) × Accepted unicode ds

abbrev pub HasDraft : Option PrDraft → Type 0
HasDraft o = (d : PrDraft) × (o ≡ some d)

path_problems-Accepted :
    (unicode : Unicode) (ds : List FileDiff) → path_problems unicode ds ≡ [] → Accepted unicode ds
unfolding path_problems
path_problems-Accepted unicode [] e = tt
path_problems-Accepted unicode (d ∷ ds) e =
    elim (Option-cases (publishable_path_problem unicode d.path)) [
      | inl h ↦ (h, path_problems-Accepted unicode ds (cc (e, h)))
      | inr (problem, h) ↦ absurd (cc (e, h))
    ]

-- Either no draft is written, or one with the paths of all the diffs, each accepted.
abbrev AggregateResult : Unicode → List FileDiff → Update → Type 0
AggregateResult unicode ds u =
    (u.pr_draft ≡ none)
    ⊎ (HasDraft u.pr_draft
        × (u.aggregated_diff_paths ≡ some (map (λ d. d.path) ds))
        × Accepted unicode ds)

checked-AggregateResult :
    (unicode : Unicode) (ds : List FileDiff) (p : PrDraft) (es : List LogEntry)
    → path_problems unicode ds ≡ es
    → AggregateResult unicode ds (checked ds p es)
checked-AggregateResult unicode ds p [] e =
    inr ((p, refl), refl, path_problems-Accepted unicode ds e)
checked-AggregateResult unicode ds p (x ∷ es) e = inl refl

of_diffs-AggregateResult :
    (unicode : Unicode) (p : PrDraft) (ds : List FileDiff)
    → AggregateResult unicode ds (of_diffs unicode p ds)
of_diffs-AggregateResult unicode p [] = inl refl
of_diffs-AggregateResult unicode p (d ∷ ds) = checked-AggregateResult unicode (d ∷ ds) p _ refl

pub aggregate_node-AggregateResult :
    (unicode : Unicode) (config : MigrationRunConfig) (results : List EditorResult)
    (tasks : List MigrationTask) (c : Option ComprehensionResult)
    → AggregateResult unicode
        (effective_diffs results tasks)
        (aggregate_node unicode config results tasks c)
unfolding aggregate_node
aggregate_node-AggregateResult unicode config results tasks c = of_diffs-AggregateResult unicode _ _

abbrev pub Review : Unicode → GraphState → Type 0
Review unicode s =
    HasDraft s.pr_draft
    × ReviewOf unicode s.aggregated_diff_paths (effective_diffs s.editor_results s.tasks)

-- Before the aggregate node there is no draft; behind it the reviewed paths are the effective ones.
abbrev pub PointReviewed : Unicode → GraphState → Point → Type 0
PointReviewed unicode s request_approval = Review unicode s
PointReviewed unicode s approval_gate = Review unicode s
PointReviewed unicode s pr_publish = Review unicode s
PointReviewed unicode s budget_abort = Unit
PointReviewed unicode s ended = Unit
PointReviewed unicode s (crashed exc) = Unit
PointReviewed unicode s _ = s.pr_draft ≡ none

-- Every path of a call is accepted.
abbrev pub Deliverable : Unicode → Publication → Type 0
Deliverable unicode p = Accepted unicode p.files

module _ (env : Env) where
  pub record IsReviewed (m : Machine) : Type 0 where
    pub distinct : Distinct (ids m.state.tasks)
    pub review : PointReviewed env.unicode m.state m.point
    pub deliverable : All (Deliverable env.unicode) m.published

  pub move-IsReviewed :
      (m : Machine) (u : Update) (edge : GraphState → Point)
      → IsReviewed m
      → PointReviewed env.unicode (apply_update m.state u) (edge (apply_update m.state u))
      → IsReviewed (move env m u edge)
  move-IsReviewed m u edge h r = record {
    distinct = Distinct-apply_update m.state u;
    review = r;
    deliverable = h.deliverable;
  }

  pub dispatch_from-PointReviewed :
      (s : GraphState) (idle : Point) (n : ℕ)
      → s.pr_draft ≡ none
      → PointReviewed env.unicode s idle
      → PointReviewed env.unicode s (dispatch_from env idle s n)
  unfolding dispatch_from follow
  dispatch_from-PointReviewed s idle n h i = go _
    where
      go : (r : Route) → PointReviewed env.unicode s (follow env idle r)
      go no_ready_tasks = i
      go Route.budget_exhausted = tt
      go zero_division = tt
      go (sends []) = tt
      go (sends (t ∷ ts)) = h

  pub still-Review :
      (s : GraphState) (u : Update)
      → Distinct (ids s.tasks)
      → u.tasks ≡ []
      → u.editor_results ≡ []
      → IsDraftless u
      → Review env.unicode s
      → Review env.unicode (apply_update s u)
  unfolding apply_update
  still-Review s u d t r q h = (
    rw q.0 h.0,
    subst (ReviewOf env.unicode (apply_update s u).aggregated_diff_paths)
        (sym (effective_diffs_still env s u d t r)) (rw q.1 h.1),
  )

  pub wave-draftless :
      (s0 s : GraphState) (n : ℕ) (ts : List MigrationTask)
      → s.pr_draft ≡ none
      → (apply_updates s (wave_updates env s0 n ts)).pr_draft ≡ none
  unfolding apply_updates wave_updates
  wave-draftless s0 s n [] h = h
  wave-draftless s0 s n (t ∷ ts) h =
      let u = editor_node t s0.budget (env.branch_clock n t) (env.generate n t) in
      wave-draftless s0 (apply_update s u) n ts
        (draftless-apply_update s u (editor_node-IsDraftless t s0.budget _ _) h)

  pub after_aggregate-PointReviewed :
      (s : GraphState) (config : MigrationRunConfig)
      → (s.pr_draft ≡ none) ⊎ Review env.unicode s
      → PointReviewed env.unicode s (after_aggregate env (route_after_aggregate config s.pr_draft))
  unfolding after_aggregate route_after_aggregate
  after_aggregate-PointReviewed s config (inl e) = rw e tt
  after_aggregate-PointReviewed s config (inr r) = go _
    where
      go : (a : AfterAggregate) → PointReviewed env.unicode s (after_aggregate env a)
      go approval_required = r
      go publish = r
      go finish = tt

  pub written-Review :
      (s : GraphState) (u : Update)
      → Distinct (ids s.tasks)
      → IsStill u
      → s.pr_draft ≡ none
      → AggregateResult env.unicode (effective_diffs s.editor_results s.tasks) u
      → ((apply_update s u).pr_draft ≡ none) ⊎ Review env.unicode (apply_update s u)
  unfolding apply_update
  written-Review s u d q e (inl h) = inl (rw (h, e) refl)
  written-Review s u d q e (inr (draft, paths, accepted)) = inr (
    (draft.0, rw draft.1 refl),
    subst (ReviewOf env.unicode (apply_update s u).aggregated_diff_paths)
        (sym (effective_diffs_still env s u d q.1 q.2)) (rw paths (refl, accepted)),
  )
