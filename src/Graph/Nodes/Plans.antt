-- ===== src/Graph/Nodes/Plans.antt =====
-- The task graph that synthesis plans.
use stack_migrate.Base.{
  ◌≡◌, ◌≢◌, refl, sym, ◌∙◌, ap, subst, ◌⊎◌, inl, inr, List, [], ◌∷◌, ◌++◌, Option, none, some, Text,
  text_discrete, lookup, if_pos, if_neg, set_item, lookup-set_item, All, All-mem, All-of_mem, Memᴰ,
}
use stack_migrate.State.{SemanticUnit, MigrationTask}
use stack_migrate.State.Merge.{ids}
use stack_migrate.Adapters.Fastapi.{TargetSynthesisAdapter}
use stack_migrate.Graph.Diffs.Stale.{sorted_set}
use stack_migrate.Graph.Diffs.Removal.{sorted_set_mem}
use stack_migrate.Graph.Nodes.Synthesis.{
  Groups, or_empty, task_id_of, group_units, unit_to_task_id, with_owner, known_tasks,
  all_dependencies, task_of_group, tasks_of_groups, run_synthesis,
}

module _ (adapter : TargetSynthesisAdapter) where
  -- The groups have one, which is not empty, for this path.
  abbrev HasGroup : Groups → Text → Type 0
  HasGroup groups path =
      (v : SemanticUnit) × (vs : List SemanticUnit) × (lookup text_discrete path groups
        ≡ some (v ∷ vs))

  snoc_not_nil :
      (us : List SemanticUnit) (u : SemanticUnit)
      → (v : SemanticUnit) × (vs : List SemanticUnit) × (us ++ u ∷ [] ≡ v ∷ vs)
  snoc_not_nil [] u = (u, [], refl)
  snoc_not_nil (w ∷ us) u = (w, us ++ u ∷ [], refl)

  set_item-HasGroup :
      (path q : Text) (us : List SemanticUnit) (u : SemanticUnit) (groups : Groups)
      → (q ≡ path) ⊎ HasGroup groups q
      → HasGroup (set_item text_discrete path (us ++ u ∷ []) groups) q
  set_item-HasGroup path q us u groups h = elim (text_discrete q path) [
    | yes p ↦
        let (v, vs, e) = snoc_not_nil us u in
        (
          v,
          vs,
          lookup-set_item text_discrete path q (us ++ u ∷ []) groups
              ∙ if_pos (text_discrete q path) p _ _
              ∙ ap some e,
        )
    | no p ↦ elim h [
      | inl e ↦ absurd (p e)
      | inr (v, vs, e) ↦ (
        v,
        vs,
        lookup-set_item text_discrete path q (us ++ u ∷ []) groups
            ∙ if_neg (text_discrete q path) p _ _
            ∙ e,
      )
    ]
  ]

  group_units-keeps :
      (q : Text) (us : List SemanticUnit) (groups : Groups)
      → HasGroup groups q
      → HasGroup (group_units adapter us groups) q
  unfolding group_units
  group_units-keeps q [] groups h = h
  group_units-keeps q (u ∷ us) groups h = group_units-keeps q us _ (
      set_item-HasGroup (adapter.suggest_target_path u) q
        (or_empty (lookup text_discrete (adapter.suggest_target_path u) groups)) u groups (inr h))

  -- Every unit's target path has a group.
  group_units-HasGroup :
      (us : List SemanticUnit) (groups : Groups)
      → All (λ u. HasGroup (group_units adapter us groups) (adapter.suggest_target_path u)) us
  unfolding group_units
  group_units-HasGroup [] groups = tt
  group_units-HasGroup (u ∷ us) groups = (
    group_units-keeps (adapter.suggest_target_path u) us _ (
        set_item-HasGroup (adapter.suggest_target_path u) (adapter.suggest_target_path u)
          (or_empty (lookup text_discrete (adapter.suggest_target_path u) groups)) u groups
          (inl refl)),
    group_units-HasGroup us _,
  )

  -- The path of a group has its task.
  tasks_of_groups-mem :
      (owners : List (Text × Text)) (q : Text) (groups : Groups)
      → HasGroup groups q
      → Memᴰ (task_id_of q) (ids (tasks_of_groups adapter owners groups))
  unfolding tasks_of_groups task_of_group lookup
  tasks_of_groups-mem owners q [] (v, vs, e) = absurd (cc)
  tasks_of_groups-mem owners q ((path, []) ∷ groups) (v, vs, e) = elim (text_discrete q path) [
    | yes p ↦
        let f : some [] ≡ some (v ∷ vs) =
          sym (if_pos (text_discrete q path) p (some []) (lookup text_discrete q groups)) ∙ e in
        absurd (cc)
    | no p ↦
        tasks_of_groups-mem owners q groups (
          v,
          vs,
          sym (if_neg (text_discrete q path) p (some []) (lookup text_discrete q groups)) ∙ e,
        )
  ]
  tasks_of_groups-mem owners q ((path, u ∷ us) ∷ groups) (v, vs, e) = elim (text_discrete q path) [
    | yes p ↦ Memᴰ.head (ap task_id_of p)
    | no p ↦ Memᴰ.tail (
        tasks_of_groups-mem owners q groups (
          v,
          vs,
          sym (if_neg (text_discrete q path) p (some (u ∷ us)) (lookup text_discrete q groups)) ∙ e,
        ))
  ]

  -- The id is that of the task for the target path of some unit.
  abbrev OwnedBy : List SemanticUnit → Text → Type 0
  OwnedBy us id = (u : SemanticUnit) × Memᴰ u us × (id ≡ task_id_of (adapter.suggest_target_path u))

  unit_to_task_id-OwnedBy :
      (us : List SemanticUnit) (d : List (Text × Text)) (k id : Text)
      → lookup text_discrete k (unit_to_task_id adapter us d) ≡ some id
      → (lookup text_discrete k d ≡ some id) ⊎ OwnedBy us id
  unfolding unit_to_task_id
  unit_to_task_id-OwnedBy [] d k id e = inl e
  unit_to_task_id-OwnedBy (u ∷ us) d k id e = elim (unit_to_task_id-OwnedBy us _ k id e) [
    | inr (w, m, same) ↦ inr (w, Memᴰ.tail m, same)
    | inl h ↦ elim (text_discrete k u.id) [
      | yes p ↦
          let f : some (task_id_of (adapter.suggest_target_path u)) ≡ some id =
            sym (if_pos (text_discrete k u.id) p _ (lookup text_discrete k d))
            ∙ sym (lookup-set_item text_discrete u.id k _ d)
            ∙ h in
          inr (u, Memᴰ.head refl, cc)
      | no p ↦ inl (
          sym (if_neg (text_discrete k u.id) p _ (lookup text_discrete k d))
          ∙ sym (lookup-set_item text_discrete u.id k _ d)
          ∙ h)
    ]
  ]

  -- A dependency that is kept is another task's id, and some unit's.
  abbrev Kept : List SemanticUnit → Text → Text → Type 0
  Kept us task_id dep = (dep ≢ task_id) × OwnedBy us dep

  with_owner-Kept :
      (us : List SemanticUnit) (task_id : Text) (o : Option Text) (rest : List Text)
      → ((id : Text) → o ≡ some id → OwnedBy us id)
      → All (Kept us task_id) rest
      → All (Kept us task_id) (with_owner adapter task_id o rest)
  with_owner-Kept us task_id none rest k h = h
  with_owner-Kept us task_id (some owner) rest k h = elim (text_discrete owner task_id) [
    | yes p ↦ rw (if_pos (text_discrete owner task_id) p rest (owner ∷ rest)) h
    | no p ↦ rw (if_neg (text_discrete owner task_id) p rest (owner ∷ rest)) ((p, k owner refl), h)
  ]

  known_tasks-Kept :
      (us : List SemanticUnit) (task_id : Text) (deps : List Text)
      → All (Kept us task_id) (known_tasks adapter (unit_to_task_id adapter us []) task_id deps)
  unfolding known_tasks lookup
  known_tasks-Kept us task_id [] = tt
  known_tasks-Kept us task_id (dep ∷ deps) =
      with_owner-Kept us task_id _ _
        (λ id e. elim (unit_to_task_id-OwnedBy us [] dep id e) [ inl h ↦ absurd (cc) | inr o ↦ o ])
        (known_tasks-Kept us task_id deps)

  sorted_set-All {κ} : (P : Text → Type κ) (ts : List Text) → All P ts → All P (sorted_set ts)
  sorted_set-All P ts h =
      All-of_mem P (sorted_set ts) (λ t m. All-mem P t ts ((sorted_set_mem t ts).0 m) h)

  tasks_of_groups-Kept :
      (us : List SemanticUnit) (groups : Groups)
      → All
          (λ t. All (Kept us t.id) t.depends_on_task_ids)
          (tasks_of_groups adapter (unit_to_task_id adapter us []) groups)
  unfolding tasks_of_groups task_of_group
  tasks_of_groups-Kept us [] = tt
  tasks_of_groups-Kept us ((path, []) ∷ groups) = tasks_of_groups-Kept us groups
  tasks_of_groups-Kept us ((path, u ∷ more) ∷ groups) = (
    sorted_set-All (Kept us (task_id_of path)) _
        (known_tasks-Kept us (task_id_of path) (all_dependencies adapter (u ∷ more))),
    tasks_of_groups-Kept us groups,
  )

  -- Each dependency of the task is the id of a task of the list, and not its own.
  abbrev pub IsClosed : List MigrationTask → MigrationTask → Type 0
  IsClosed tasks t = All (λ dep. (dep ≢ t.id) × Memᴰ dep (ids tasks)) t.depends_on_task_ids

  unit_has_task :
      (us : List SemanticUnit) (id : Text)
      → OwnedBy us id
      → Memᴰ id (ids (run_synthesis adapter us))
  unfolding run_synthesis
  unit_has_task us id (u, m, e) =
      subst
        (λ i. Memᴰ i (
          ids
            (tasks_of_groups adapter (unit_to_task_id adapter us []) (group_units adapter us []))))
        (sym e)
        (tasks_of_groups-mem (unit_to_task_id adapter us []) (adapter.suggest_target_path u)
          (group_units adapter us [])
          (All-mem (λ u. HasGroup (group_units adapter us []) (adapter.suggest_target_path u)) u us
            m (group_units-HasGroup us [])))

  deps-known_tasks :
      (us : List SemanticUnit) (task_id : Text) (deps : List Text)
      → All (Kept us task_id) deps
      → All (λ dep. (dep ≢ task_id) × Memᴰ dep (ids (run_synthesis adapter us))) deps
  deps-known_tasks us task_id [] h = tt
  deps-known_tasks us task_id (d ∷ ds) h =
      ((h.0.0, unit_has_task us d h.0.1), deps-known_tasks us task_id ds h.1)

  tasks-IsClosed :
      (us : List SemanticUnit) (ts : List MigrationTask)
      → All (λ t. All (Kept us t.id) t.depends_on_task_ids) ts
      → All (IsClosed (run_synthesis adapter us)) ts
  tasks-IsClosed us [] h = tt
  tasks-IsClosed us (t ∷ ts) h =
      (deps-known_tasks us t.id t.depends_on_task_ids h.0, tasks-IsClosed us ts h.1)

  -- Let synthesis plan any units with any adapter. Each unit has the task of its target path in the
  -- plan, and every dependency of a task is the id of a task of the plan, and not the task's own.
  pub run_synthesis-IsClosed :
      (us : List SemanticUnit)
      → All
          (λ u. Memᴰ (task_id_of (adapter.suggest_target_path u)) (ids (run_synthesis adapter us)))
          us
        × All (IsClosed (run_synthesis adapter us)) (run_synthesis adapter us)
  unfolding run_synthesis
  run_synthesis-IsClosed us = (
    All-of_mem _ us
        (λ u m. unit_has_task us (task_id_of (adapter.suggest_target_path u)) (u, m, refl)),
    tasks-IsClosed us _ (tasks_of_groups-Kept us (group_units adapter us [])),
  )
