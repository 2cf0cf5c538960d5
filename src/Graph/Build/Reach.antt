-- ===== src/Graph/Build/Reach.antt =====
-- The runs as a relation: supersteps, and a decision where a run is paused at the gate.
use stack_migrate.Base.{ℕ, zero, suc, ◌≡◌}
use stack_migrate.Graph.Nodes.Approval.{Decision}
use stack_migrate.Graph.Build.Machine.{approval_gate, Env, Machine, step, run, resume}

-- What can become of a run, in any number of supersteps and with any decisions at the gate.
pub data Reaches (env : Env) (m : Machine) : Machine → Type 0 where
  at_once : Reaches env m m
  stepped : {a : Machine} → Reaches env m a → Reaches env m (step env a)
  decided :
      {a : Machine} (d : Decision)
      → Reaches env m a
      → a.point ≡ approval_gate
      → Reaches env m (resume env d a)

module _ (env : Env) where
  -- What every superstep and every decision keeps holds of all that is reached.
  pub Reaches-keeps {κ} :
      (P : Machine → Type κ)
      → ((a : Machine) → P a → P (step env a))
      → ((d : Decision) (a : Machine) → a.point ≡ approval_gate → P a → P (resume env d a))
      → {m a : Machine} → Reaches env m a
      → P m
      → P a
  Reaches-keeps P s r at_once h = h
  Reaches-keeps P s r (stepped w) h = s _ (Reaches-keeps P s r w h)
  Reaches-keeps P s r (decided d w e) h = r d _ e (Reaches-keeps P s r w h)

  pub Reaches-run :
      {m : Machine} (n : ℕ) {a : Machine} → Reaches env m a → Reaches env m (run env n a)
  unfolding run
  Reaches-run zero w = w
  Reaches-run (suc n) {a = a} w = Reaches-run n {a = step env a} (stepped w)
