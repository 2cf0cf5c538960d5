-- ===== src/Sandbox/Docker/Isolation.antt =====
-- How the generated code is kept apart, and what a passed run means.
use stack_migrate.Base.{
  ℕ, ◌≡◌, refl, ap, ◌∙◌, ◌⊎◌, inl, inr, true, [], ◌∷◌, Option, none, some, Text, codes, All, arith,
  Bool-cases,
}
use stack_migrate.State.{is_passed}
use stack_migrate.Adapters.FastapiTests.{TargetTestAdapter, code_is}
use stack_migrate.Sandbox.Docker.{
  SandboxLimits, ContainerKwargs, ContainerRun, exited, wait_expired, RunOutcome, completed,
  build_container_kwargs, install_kwargs, test_kwargs, after_test, after_install, run_in_containers,
  truncate,
}

-- A container without privileges, on a read-only root with the workspace and a scratch `/tmp` in memory
-- as its writable places, and with network only where it runs the install command.
pub record IsIsolated (realpath : Text → Text) (root : Text) (limits : SandboxLimits)
    (adapter : TargetTestAdapter) (k : ContainerKwargs) : Type 0 where
  pub user : k.user ≡ codes "1000:1000"
  pub no_capabilities : k.cap_drop ≡ codes "ALL" ∷ []
  pub no_new_privileges : k.security_opt ≡ codes "no-new-privileges" ∷ []
  pub read_only : k.read_only ≡ true
  pub mounts : k.volumes ≡ (realpath root, codes "/workspace", codes "rw") ∷ []
  pub scratch : k.tmpfs ≡ (codes "/tmp", codes "rw,size=256m") ∷ []
  pub bounded :
      (k.mem_limit ≡ limits.memory_limit)
      × (k.nano_cpus ≡ limits.nano_cpus)
      × (k.pids_limit ≡ limits.pids_limit)
  pub network : (k.network_disabled ≡ true) ⊎ (k.command ≡ adapter.install_command)

code_is-some : (n : ℕ) (code : Option ℕ) → code_is n code ≡ true → code ≡ some n
code_is-some n none h = absurd (cc)
code_is-some n (some c) h = ground arith

module _ (realpath : Text → Text) (limits : SandboxLimits)
    (docker : ContainerKwargs → ℕ → ContainerRun) (root : Text) (adapter : TargetTestAdapter)
    (task_id : Option Text) where
  install-IsIsolated :
      IsIsolated realpath root limits adapter
        (install_kwargs realpath limits docker root adapter task_id)
  unfolding install_kwargs build_container_kwargs
  install-IsIsolated = record {
    user = refl;
    no_capabilities = refl;
    no_new_privileges = refl;
    read_only = refl;
    mounts = refl;
    scratch = refl;
    bounded = (refl, refl, refl);
    network = inr refl;
  }

  test-IsIsolated :
      IsIsolated realpath root limits adapter
        (test_kwargs realpath limits docker root adapter task_id)
  unfolding test_kwargs build_container_kwargs
  test-IsIsolated = record {
    user = refl;
    no_capabilities = refl;
    no_new_privileges = refl;
    read_only = refl;
    mounts = refl;
    scratch = refl;
    bounded = (refl, refl, refl);
    network = inl refl;
  }

  after_install-IsIsolated :
      (r : ContainerRun)
      → All
          (IsIsolated realpath root limits adapter)
          (after_install realpath limits docker root adapter task_id r).1
  after_install-IsIsolated (ContainerRun.raised exc) = (install-IsIsolated, tt)
  after_install-IsIsolated wait_expired = (install-IsIsolated, tt)
  after_install-IsIsolated (exited output exit_code duration) =
      elim (Bool-cases (code_is 0 exit_code)) [
        | inl e ↦ rw e (install-IsIsolated, (test-IsIsolated, tt))
        | inr e ↦ rw e (install-IsIsolated, tt)
      ]

  -- Every container that a sandbox run starts is isolated: not root, no capability, no new
  -- privilege, a read-only root on which the workspace and a `/tmp` in memory are the only writable
  -- places, the configured limits; and it has network only if it runs the install command, so the test suite never has.
  pub run_in_containers-IsIsolated :
      All
        (IsIsolated realpath root limits adapter)
        (run_in_containers realpath limits docker root adapter task_id).1
  unfolding run_in_containers
  run_in_containers-IsIsolated = after_install-IsIsolated (
      docker (install_kwargs realpath limits docker root adapter task_id)
        limits.install_timeout_seconds)

  -- Both containers ran to their end: the first with exit code 0, and the adapter reads the other's
  -- captured output and exit code as a pass.
  abbrev pub BothPassed : Type 0
  BothPassed =
      ((output : Text) × (duration : ℕ) × (docker
            (install_kwargs realpath limits docker root adapter task_id)
            limits.install_timeout_seconds
          ≡ exited output (some 0) duration))
      × (output : Text) × (code : Option ℕ) × (duration : ℕ) × (docker
            (test_kwargs realpath limits docker root adapter task_id) limits.test_timeout_seconds
          ≡ exited output code duration)
      × (is_passed (adapter.parse_test_output (truncate output) code).0 ≡ true)

  -- A run passed only if both containers passed.
  abbrev pub PassedOnlyIf : RunOutcome → Type 0
  PassedOnlyIf (completed r) = is_passed r.test_result.outcome ≡ true → BothPassed
  PassedOnlyIf (RunOutcome.raised exc) = Unit

  after_test-PassedOnlyIf :
      (setup output : Text) (duration : ℕ) (r : ContainerRun)
      → docker
          (install_kwargs realpath limits docker root adapter task_id)
          limits.install_timeout_seconds
        ≡ exited output (some 0) duration
      → docker (test_kwargs realpath limits docker root adapter task_id) limits.test_timeout_seconds
        ≡ r
      → PassedOnlyIf (after_test realpath limits docker root adapter task_id setup r)
  after_test-PassedOnlyIf setup output duration (ContainerRun.raised exc) a b = tt
  after_test-PassedOnlyIf setup output duration wait_expired a b = λ p. absurd (cc)
  after_test-PassedOnlyIf setup output duration (exited out code d) a b =
      λ p. ((output, duration, a), out, code, d, b, p)

  after_install-PassedOnlyIf :
      (r : ContainerRun)
      → docker
          (install_kwargs realpath limits docker root adapter task_id)
          limits.install_timeout_seconds
        ≡ r
      → PassedOnlyIf (after_install realpath limits docker root adapter task_id r).0
  after_install-PassedOnlyIf (ContainerRun.raised exc) a = tt
  after_install-PassedOnlyIf wait_expired a = λ p. absurd (cc)
  after_install-PassedOnlyIf (exited output code duration) a = elim (Bool-cases (code_is 0 code)) [
    | inl e ↦ rw e (
        after_test-PassedOnlyIf (truncate output) output duration _
          (a ∙ ap (λ c. exited output c duration) (code_is-some 0 code e)) refl)
    | inr e ↦ rw e (λ p. absurd (cc))
  ]

  -- A sandbox run reports PASSED only if the install container exited with code 0 and, after it, the
  -- test container exited with output and a code that the adapter reads as a pass. A timeout or a
  -- failed install is never a pass.
  pub run_in_containers-PassedOnlyIf :
      PassedOnlyIf (run_in_containers realpath limits docker root adapter task_id).0
  unfolding run_in_containers
  run_in_containers-PassedOnlyIf = after_install-PassedOnlyIf _ refl
