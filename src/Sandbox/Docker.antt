-- ===== src/Sandbox/Docker.antt =====
-- app/sandbox/docker_runner.py. The Docker daemon is a parameter: what becomes of a container that is
-- started so and waited for so long. Beside its result, a run lists the containers that it started.
pub mod Isolation
use stack_migrate.Base.{
  ℕ, ◌≤◌, Bool, true, false, List, [], ◌∷◌, ◌++◌, Option, none, some, Text, codes, length, take,
  leb, show, if◌then◌else◌,
}
use stack_migrate.State.{TestResult, TestOutcome}
use stack_migrate.Adapters.FastapiTests.{TargetTestAdapter, code_is}

abbrev pub max_captured_output_chars : ℕ
max_captured_output_chars = 20_000

abbrev pub truncated_mark : Text
truncated_mark = codes "\n... [truncated]"

pub record SandboxLimits : Type 0 where
  pub memory_limit : Text
  pub nano_cpus : ℕ
  pub pids_limit : ℕ
  pub install_timeout_seconds : ℕ
  pub test_timeout_seconds : ℕ

unfoldable pub truncate : Text → Text
truncate output =
    if leb (length output) max_captured_output_chars
    then output
    else take max_captured_output_chars output ++ truncated_mark

-- The arguments of `containers.run`; a volume is its host path, its mount point and its mode.
pub record ContainerKwargs : Type 0 where
  pub image : Text
  pub command : List Text
  pub working_dir : Text
  pub volumes : List (Text × Text × Text)
  pub network_disabled : Bool
  pub mem_limit : Text
  pub nano_cpus : ℕ
  pub pids_limit : ℕ
  pub user : Text
  pub cap_drop : List Text
  pub security_opt : List Text
  pub read_only : Bool
  pub tmpfs : List (Text × Text)
  pub detach : Bool
  pub stdout : Bool
  pub stderr : Bool

-- The container exits, is still running when the wait expires, or the daemon raises an exception.
pub data ContainerRun : Type 0 where
  exited : (output : Text) (exit_code : Option ℕ) (duration : ℕ) → ContainerRun
  wait_expired : ContainerRun
  raised : Text → ContainerRun

pub record SandboxRunResult : Type 0 where
  pub test_result : TestResult
  pub setup_output : Text
  pub setup_succeeded : Bool

pub data RunOutcome : Type 0 where
  completed : SandboxRunResult → RunOutcome
  raised : Text → RunOutcome

abbrev pub timeout_message : ℕ → Text
timeout_message seconds = codes "Sandbox container exceeded " ++ show seconds ++ codes "s timeout"

-- The result of a run without test output.
abbrev pub without_tests : Option Text → TestOutcome → Text → ℕ → Text → Bool → RunOutcome
without_tests task_id outcome output duration setup succeeded = RunOutcome.completed (record {
  test_result = record {
    task_id = task_id;
    outcome = outcome;
    raw_output = output;
    failing_tests = [];
    duration_seconds = duration;
  };
  setup_output = setup;
  setup_succeeded = succeeded;
})

module _ (realpath : Text → Text) (limits : SandboxLimits) where
  unfoldable pub build_container_kwargs : Text → Text → List Text → Bool → ContainerKwargs
  build_container_kwargs workspace_root image command network_disabled = record {
    image = image;
    command = command;
    working_dir = codes "/workspace";
    volumes = (realpath workspace_root, codes "/workspace", codes "rw") ∷ [];
    network_disabled = network_disabled;
    mem_limit = limits.memory_limit;
    nano_cpus = limits.nano_cpus;
    pids_limit = limits.pids_limit;
    user = codes "1000:1000";
    cap_drop = codes "ALL" ∷ [];
    security_opt = codes "no-new-privileges" ∷ [];
    read_only = true;
    tmpfs = (codes "/tmp", codes "rw,size=256m") ∷ [];
    detach = true;
    stdout = true;
    stderr = true;
  }

  module _ (docker : ContainerKwargs → ℕ → ContainerRun) (root : Text) (adapter : TargetTestAdapter)
      (task_id : Option Text) where
    unfoldable pub install_kwargs : ContainerKwargs
    install_kwargs =
        build_container_kwargs root adapter.base_docker_image adapter.install_command false

    unfoldable pub test_kwargs : ContainerKwargs
    test_kwargs = build_container_kwargs root adapter.base_docker_image adapter.test_command true

    abbrev pub after_test : Text → ContainerRun → RunOutcome
    after_test setup (ContainerRun.raised exc) = RunOutcome.raised exc
    after_test setup wait_expired =
        without_tests task_id TestOutcome.timeout (timeout_message limits.test_timeout_seconds) 0
          setup true
    after_test setup (exited output exit_code duration) =
        let (outcome, failing) = adapter.parse_test_output (truncate output) exit_code in
        RunOutcome.completed (record {
          test_result = record {
            task_id = task_id;
            outcome = outcome;
            raw_output = truncate output;
            failing_tests = failing;
            duration_seconds = duration;
          };
          setup_output = setup;
          setup_succeeded = true;
        })

    abbrev pub after_install : ContainerRun → RunOutcome × List ContainerKwargs
    after_install (ContainerRun.raised exc) = (RunOutcome.raised exc, install_kwargs ∷ [])
    after_install wait_expired = (
      without_tests task_id TestOutcome.timeout (timeout_message limits.install_timeout_seconds) 0
          [] false,
      install_kwargs ∷ [],
    )
    after_install (exited output exit_code duration) =
        if code_is 0 exit_code
        then (
          after_test (truncate output) (docker test_kwargs limits.test_timeout_seconds),
          install_kwargs ∷ test_kwargs ∷ [],
        )
        else (
          without_tests task_id TestOutcome.error (truncate output) duration (truncate output)
              false,
          install_kwargs ∷ [],
        )

    -- `DockerSandboxRunner.run`
    unfoldable pub run_in_containers : RunOutcome × List ContainerKwargs
    run_in_containers = after_install (docker install_kwargs limits.install_timeout_seconds)
