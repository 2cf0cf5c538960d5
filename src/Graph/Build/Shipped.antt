-- ===== src/Graph/Build/Shipped.antt =====
-- What is published has been tested, in all that a run reaches.
use stack_migrate.Base.{◌≡◌, [], none, All}
use stack_migrate.Graph.Build.Machine.{comprehension, Env, Machine}
use stack_migrate.Graph.Build.Reach.{Reaches, Reaches-keeps}
use stack_migrate.Graph.Build.Shipping.{Shipped, IsSound}
use stack_migrate.Graph.Build.Soundness.{step-IsSound, resume-IsSound, start-IsSound}

module _ (env : Env) where
  -- Let a run start at the comprehension node with no task, no test result and no publisher call.
  -- Whatever it reaches, by supersteps and by decisions at the gate: every call of the publisher
  -- carries files that were written to the workspace, whose content at that time passed the suite.
  pub reached_ships_tested :
      {m a : Machine}
      → m.point ≡ comprehension
      → m.state.tasks ≡ []
      → m.state.full_suite_result ≡ none
      → m.published ≡ []
      → Reaches env m a
      → All (Shipped env a.state.config.target_workspace_path) a.published
  reached_ships_tested at tasks result calls w =
      (Reaches-keeps env (IsSound env) (step-IsSound env) (resume-IsSound env) w
        (start-IsSound env _ at tasks result calls)).shipped
