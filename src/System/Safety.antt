-- ===== src/System/Safety.antt =====
-- What holds of every run that the system serves.
use stack_migrate.Base.{
  ℕ, ◌+◌, ◌≢◌, arith, ◌≤◌, ◌≡◌, refl, sym, ◌∙◌, subst, true, false, Option, none, some, inl, inr,
  Text, lookup, text_discrete, lookup-set_item, if_pos, if_neg, All, length, if◌then◌else◌, Bool,
  Bool-cases,
}
use stack_migrate.Sandbox.Workspace.{OsPath, Files}
use stack_migrate.Services.RepoPrep.{
  Git, Prepared, prepared, git_error, no_scaffold, prepare_source,
}
use stack_migrate.Graph.Nodes.Approval.{Decision}
use stack_migrate.Graph.Build.Machine.{Point, Machine, step}
use stack_migrate.Graph.Build.Reach.{Reaches, at_once, stepped, decided, Reaches-run}
use stack_migrate.Graph.Build.Shipping.{Shipped}
use stack_migrate.Graph.Build.Shipped.{reached_ships_tested}
use stack_migrate.Graph.Build.Lifecycle.{call_bound, call_bound-le}
use stack_migrate.Graph.Build.Refinement.{
  stage_of, reached_publishes_at_most_once, reached_publishes_once_more,
}
use stack_migrate.Api.{
  decide, MigrationLimits, submitted, invoked, resumed, is_awaiting_approval, resume_value,
}
use stack_migrate.State.{MigrationRunConfig}
use stack_migrate.Api.Review.{IsFresh, HasSafePaths, reached_publishes_safe_paths}
use stack_migrate.Api.Routes.{
  MigrationRequest, Request, healthz, submit_migration, get_status, approve_migration,
  reject_migration, unauthorized, App, find_run, store_run, route, is_open, handle,
}
use stack_migrate.Api.Auth.{require_api_key}
use stack_migrate.Worker.{config_of, run_migration, after_source, after_target}
use stack_migrate.System.{
  checkpoint, empty_app, Deployment, Happens, requested, started, advanced, Becomes, unchanged,
  after, starts, starts_in, counted,
}

some_inj : {A : Type 0} {a b : A} → some a ≡ some b → a ≡ b
some_inj e = cc e

submitted-IsFresh :
    (config : MigrationRunConfig) (limits : MigrationLimits) (now : ℕ) (files : Files)
    → IsFresh (submitted config limits now files)
submitted-IsFresh config limits now files = record {
  point = refl;
  tasks = refl;
  result = refl;
  draft = refl;
  calls = refl;
}

-- What a worker starts: a fresh run where the thread has no checkpoint, and otherwise the run of the
-- checkpoint at its first node, with the calls of the publisher that it had made.
abbrev StartsFrom : Option Machine → Machine → Type 0
StartsFrom none m = IsFresh m
StartsFrom (some old) m = (m.point ≡ Point.comprehension) × (m.published ≡ old.published)

invoked-StartsFrom :
    (saved : Option Machine) (config : MigrationRunConfig) (limits : MigrationLimits) (now : ℕ)
    (files : Files)
    → StartsFrom saved (invoked saved config limits now files)
invoked-StartsFrom none config limits now files = submitted-IsFresh config limits now files
invoked-StartsFrom (some old) config limits now files = (refl, refl)

run_migration-StartsFrom :
    (os : OsPath) (git : Git) (base_dir : Text) (saved : Option Machine) (run_id : Text)
    (payload : MigrationRequest) (now : ℕ) (files : Files) (m : Machine)
    → run_migration os git base_dir saved run_id payload now files ≡ some m
    → StartsFrom saved m
unfolding run_migration
run_migration-StartsFrom os git base_dir saved run_id payload now files m e =
    go_source
      (prepare_source os git base_dir payload.source_repo_url payload.source_ref run_id files) e
  where
    go_target :
        (checkout : Text) (p : Prepared)
        → after_target saved run_id payload now checkout p ≡ some m
        → StartsFrom saved m
    go_target checkout (prepared workspace fs) h = subst (StartsFrom saved) (some_inj h) (
        invoked-StartsFrom saved (config_of run_id payload checkout workspace) payload.limits now
          fs)
    go_target checkout (git_error exc) h = absurd (cc h)
    go_target checkout (no_scaffold stack) h = absurd (cc h)

    go_source :
        (p : Prepared)
        → after_source os git base_dir saved run_id payload now p ≡ some m
        → StartsFrom saved m
    go_source (prepared checkout fs) h = go_target checkout _ h
    go_source (git_error exc) h = absurd (cc h)
    go_source (no_scaffold stack) h = absurd (cc h)

module _ (d : Deployment) where
  -- Where a run comes from that was started so often: from its last start, before which it had made
  -- fewer calls of the publisher than there were starts, and which was fresh if there was no other.
  pub record IsReached (n : ℕ) (q : Text) (m : Machine) : Type 0 where
    pub start : Machine
    pub point : start.point ≡ Point.comprehension
    pub before : length start.published + 1 ≤ n
    pub fresh : n ≡ 1 → IsFresh start
    pub reached : Reaches (d.env q) start m

  -- Every run of the store is reached so, for the number of its starts.
  abbrev pub RunsReached : (Text → ℕ) → App → Type 0
  RunsReached counts app =
      (q : Text) (m : Machine) → find_run q app ≡ some m → IsReached (counts q) q m

  checkpoint-RunsReached :
      (counts : Text → ℕ) (run_id : Text) (m : Machine) (app : App)
      → IsReached (counts run_id) run_id m
      → ((q : Text) (n : Machine) → q ≢ run_id → find_run q app ≡ some n → IsReached (counts q) q n)
      → RunsReached counts (checkpoint run_id m app)
  checkpoint-RunsReached counts run_id m app r h q n e = elim (text_discrete q run_id) [
    | yes p ↦
        let found = sym (lookup-set_item text_discrete run_id q m app.runs) ∙ e in
        let same = sym (if_pos (text_discrete q run_id) p (some m) (find_run q app)) ∙ found in
        subst (IsReached (counts q) q) (some_inj same)
          (subst (λ id. IsReached (counts id) id m) (sym p) r)
    | no p ↦
        let found = sym (lookup-set_item text_discrete run_id q m app.runs) ∙ e in
        h q n p (sym (if_neg (text_discrete q run_id) p (some m) (find_run q app)) ∙ found)
  ]

  decided-IsReached :
      (k : ℕ) (q : Text) (m : Machine) (decision : Decision)
      → m.point ≡ Point.approval_gate
      → IsReached k q m
      → IsReached k q (resumed (d.env q) decision m)
  decided-IsReached k q m decision at r = record {
    start = r.start;
    point = r.point;
    before = r.before;
    fresh = r.fresh;
    reached = Reaches-run (d.env q) 1 (decided decision r.reached at);
  }

  stepped-IsReached :
      (k : ℕ) (q : Text) (m : Machine) → IsReached k q m → IsReached k q (step (d.env q) m)
  stepped-IsReached k q m r = record {
    start = r.start;
    point = r.point;
    before = r.before;
    fresh = r.fresh;
    reached = stepped r.reached;
  }

  restarted-IsReached :
      (k : ℕ) (q : Text) (saved : Option Machine) (m : Machine)
      → StartsFrom saved m
      → ((old : Machine) → saved ≡ some old → IsReached k q old)
      → IsReached (1 + k) q m
  unfolding call_bound stage_of
  restarted-IsReached k q none m f h = record {
    start = m;
    point = f.point;
    before = subst (λ calls. length calls + 1 ≤ 1 + k) (sym f.calls) (omega arith);
    fresh = λ e. f;
    reached = at_once;
  }
  restarted-IsReached k q (some old) m (at, kept) h =
      let r = h old refl in
      let bound = reached_publishes_once_more (d.env q) r.point r.reached in
      let few = call_bound-le (stage_of old.point) in
      record {
        start = m;
        point = at;
        before =
            subst (λ calls. length calls + 1 ≤ 1 + k) (sym kept)
              (omega (arith, bound, few, r.before));
        fresh = λ e. absurd (omega (arith, r.before, e));
        reached = at_once;
      }

  waits-point : (p : Point) → is_awaiting_approval p ≡ true → p ≡ Point.approval_gate
  waits-point Point.approval_gate e = refl
  waits-point p e = absurd (cc e)

  store-RunsReached :
      (counts : Text → ℕ) (run_id : Text) (approved : Bool) (feedback : Option Text) (app : App)
      (o : Option Machine)
      → find_run run_id app ≡ o
      → RunsReached counts app
      → RunsReached counts (store_run run_id (decide (d.env run_id) approved feedback o) app).1
  unfolding decide
  store-RunsReached counts run_id approved feedback app none e h = h
  store-RunsReached counts run_id approved feedback app (some m) e h =
      elim (Bool-cases (is_awaiting_approval m.point)) [
        | inl waits ↦ rw waits (
            checkpoint-RunsReached counts run_id
              (resumed (d.env run_id) (resume_value approved feedback) m) app
              (decided-IsReached (counts run_id) run_id m (resume_value approved feedback)
                (waits-point m.point waits) (h run_id m e))
              (λ q n other. h q n))
        | inr busy ↦
            rw busy (checkpoint-RunsReached counts run_id m app (h run_id m e) (λ q n other. h q n))
      ]

  route-RunsReached :
      (counts : Text → ℕ) (fresh_id : Text) (request : Request) (app : App)
      → RunsReached counts app
      → RunsReached counts (route d.env fresh_id request app).1
  unfolding route
  route-RunsReached counts fresh_id healthz app h = h
  route-RunsReached counts fresh_id (submit_migration payload) app h = h
  route-RunsReached counts fresh_id (get_status run_id) app h = h
  route-RunsReached counts fresh_id (approve_migration run_id feedback) app h =
      store-RunsReached counts run_id true feedback app (find_run run_id app) refl h
  route-RunsReached counts fresh_id (reject_migration run_id feedback) app h =
      store-RunsReached counts run_id false feedback app (find_run run_id app) refl h

  handle-RunsReached :
      (counts : Text → ℕ) (fresh_id : Text) (header : Option Text) (request : Request) (app : App)
      → RunsReached counts app
      → RunsReached counts (handle d.env fresh_id d.key header request app).1
  unfolding handle
  handle-RunsReached counts fresh_id header request app h =
      go (is_open d.env fresh_id request) (require_api_key d.key header)
    where
      go :
          (a b : Bool)
          → RunsReached counts
              (if a
                then route d.env fresh_id request app
                else if b
                then route d.env fresh_id request app
                else (unauthorized, app)).1
      go true b = route-RunsReached counts fresh_id request app h
      go false true = route-RunsReached counts fresh_id request app h
      go false false = h

  -- A task that is taken up counts for its own run and for no other.
  own_start : (run_id : Text) → counted run_id run_id ≡ 1
  own_start run_id = if_pos (text_discrete run_id run_id) refl 1 0

  other_start : (q run_id : Text) → q ≢ run_id → counted q run_id ≡ 0
  other_start q run_id other = if_neg (text_discrete q run_id) other 1 0

  Happens-RunsReached :
      (counts : Text → ℕ) {a b : App} (e : Happens d a b)
      → RunsReached counts a
      → RunsReached (λ q. starts_in d q e + counts q) b
  Happens-RunsReached counts {a = app} (requested fresh_id header request) h =
      handle-RunsReached (λ q. 0 + counts q) fresh_id header request app
        (λ q m e. subst (λ n. IsReached n q m) (omega arith) (h q m e))
  Happens-RunsReached counts {a = app} (started run_id payload now files m task e) h =
      checkpoint-RunsReached (λ q. counted q run_id + counts q) run_id m app
        (subst (λ n. IsReached (n + counts run_id) run_id m) (sym (own_start run_id))
          (restarted-IsReached (counts run_id) run_id (find_run run_id app) m
            (run_migration-StartsFrom d.os d.git d.base_dir (find_run run_id app) run_id payload now
              files m e)
            (h run_id)))
        (λ q n other found.
          subst (λ k. IsReached k q n) (omega (arith, other_start q run_id other)) (h q n found))
  Happens-RunsReached counts {a = app} (advanced run_id m e) h =
      checkpoint-RunsReached (λ q. 0 + counts q) run_id (step (d.env run_id) m) app
        (subst (λ n. IsReached n run_id (step (d.env run_id) m)) (omega arith)
          (stepped-IsReached (counts run_id) run_id m (h run_id m e)))
        (λ q n other found. subst (λ k. IsReached k q n) (omega arith) (h q n found))

  -- Whatever happens, in any order, every run that the store then holds comes by supersteps and by
  -- decisions at the gate from its last start.
  Becomes-RunsReached : {b : App} (w : Becomes d empty_app b) → RunsReached (λ q. starts d q w) b
  unfolding lookup starts
  Becomes-RunsReached unchanged q m e = absurd (cc e)
  Becomes-RunsReached (after w e) q m found =
      Happens-RunsReached (λ q'. starts d q' w) e (Becomes-RunsReached w) q m found

  -- Let the API start without any run or task, and requests, workers and supersteps come in any order,
  -- where a task may be taken up again. Every run that the store holds has made no more calls of the
  -- publisher than a worker has taken it up, and fewer unless it is over.
  pub served_runs_publish_once_a_start :
      {app : App} (q : Text) (m : Machine) (w : Becomes d empty_app app)
      → find_run q app ≡ some m
      → length m.published + 1 ≤ starts d q w + call_bound (stage_of m.point)
  served_runs_publish_once_a_start q m w e =
      let r = Becomes-RunsReached w q m e in
      omega (arith, r.before, reached_publishes_once_more (d.env q) r.point r.reached)

  -- Let the API start without any run or task, and requests, workers and supersteps come in any order.
  -- A run of the store that a worker has taken up only once has made at most one call of the
  -- publisher, and none unless it is over; and every call carried files at publishable paths that
  -- were written to the workspace, whose content at that time passed the suite.
  pub served_runs_are_safe :
      {app : App} (q : Text) (m : Machine) (w : Becomes d empty_app app)
      → find_run q app ≡ some m
      → starts d q w ≡ 1
      → (length m.published ≤ call_bound (stage_of m.point))
        × All (HasSafePaths (d.env q)) m.published
        × All (Shipped (d.env q) m.state.config.target_workspace_path) m.published
  served_runs_are_safe q m w e once =
      let r = Becomes-RunsReached w q m e in
      let f = r.fresh once in
      (
        reached_publishes_at_most_once (d.env q) f.point f.calls r.reached,
        reached_publishes_safe_paths (d.env q) f r.reached,
        reached_ships_tested (d.env q) f.point f.tasks f.result f.calls r.reached,
      )
