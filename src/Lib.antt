-- ===== src/Lib.antt =====
-- Verification of StackMigrate: the migration pipeline under app/.
--
-- A migration run is a graph of nodes over one shared state. The comprehension node turns the
-- discovered source files into semantic units, the synthesis node groups the units into tasks,
-- waves of editor branches generate the files of the ready tasks, the budget reconcile node charges
-- their costs, the sandbox node writes the effective files to the workspace and runs the suite, the
-- error analysis node marks tasks for a retry or for a human, the aggregate node drafts the pull
-- request, the approval nodes wait for a decision, and the publish node calls the publisher. The
-- budget abort node ends a run that cannot pay for its work.
--
-- The files:
--   Base            shared names, lists, texts as code points, dicts in insertion order
--   State           app/graph/state: enums, tasks, units, budget, the state, its reducers, and an
--                   update for what a node returns; a key that a node leaves out is none or empty
--   Core            app/core/text.py and app/core/ir_describe.py; Observability is
--                   app/core/observability.py, Llm the clients of app/core/llm.py
--   Vcs.Paths       app/vcs/paths.py
--   Vcs.Github      app/vcs/github_publisher.py, behind the interface in Vcs.Interface
--   Sandbox         app/sandbox/workspace.py, and app/sandbox/docker_runner.py in Sandbox.Docker
--   Adapters        the target adapters for FastAPI, app/adapters/fastapi_target, the discovery and
--                   the prompt of app/adapters/springboot in Adapters.Springboot, and the registries
--   Graph.Routing   app/graph/routing.py
--   Graph.Diffs     app/graph/diffs.py
--   Graph.Nodes     app/graph/nodes, a module for each node, named as its file; Prompts has the
--                   prompts of the editor and of the error analysis
--   Graph.Build     app/graph/build.py: Machine is the wiring, the other modules are the properties
--                   of whole runs. Reach is the relation of what a run can reach, Lifecycle an
--                   abstract machine for it, and Refinement the proof that runs implement it
--   Services        app/services/repo_prep.py
--   Api             the state of a started run and the decision on it; Status, Auth and Routes are the
--                   other parts of app/api
--   Worker          app/worker/tasks.py
--   System          requests, workers and supersteps side by side, in any order
--   Tests           a sample run, and the properties at concrete inputs
--
-- A node is a function from what it reads of the state, the readings of the clock and the answer of
-- its collaborator to its update. A superstep of Graph.Build.Machine runs the node at the point,
-- applies its update through the reducers, and follows the edge from the new state; the branches of
-- a wave all run on the state before it. What lies outside the repository is the record Env, of
-- which nothing is assumed: the Unicode tables, os.path, the clock, the discovered files, the
-- answers of the models, the sandbox and the publisher.
--
-- Money is counted in nano-dollars and time in nanoseconds, as natural numbers. Three loops have
-- fuel: the search for a free unit id makes one round more than there are used ids at most, the
-- digits of a number need one step more than the number, and a resumed run makes one superstep,
-- since behind the gate there is one node at most. A run makes as many supersteps as it is asked
-- for, and the results below say how many are enough.
--
-- A task that the queue delivers again restarts its run: the graph library passes the initial state
-- through the reducers to the thread's state, and begins at the first node.
--
-- Not modelled: two workers on one run at the same time, negative limits of a request, the texts of
-- log messages and of most exceptions (a log entry keeps the values that its message prints), the
-- rounding of floating-point numbers, I/O errors and directories of the workspace, the database
-- of the checkpoints, the queue, the JSON text of a log line, the calls of the language model,
-- and the cloning of repositories. In the nodes the language model's answers are
-- taken to parse.
mod Base
pub mod Core
pub mod Vcs
pub mod State
pub mod Sandbox
pub mod Adapters
pub mod Graph
pub mod Services
pub mod Api
pub mod Worker
pub mod System
mod Tests
