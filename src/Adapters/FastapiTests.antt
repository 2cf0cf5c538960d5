-- ===== src/Adapters/FastapiTests.antt =====
-- app/adapters/target_test_base.py and app/adapters/fastapi_target/test_adapter.py. Which characters
-- are white space is a parameter. An exit code that the container does not report (-1) is `none`.
use stack_migrate.Base.{
  ℕ, Bool, false, ◌||◌, ◌==◌, List, [], ◌∷◌, Option, none, some, Text, codes, split_on, starts_with,
  drop, if◌then◌else◌, length,
}
use stack_migrate.State.{TestOutcome}

pub record TargetTestAdapter : Type 0 where
  pub base_docker_image : Text
  pub install_command : List Text
  pub test_command : List Text
  pub parse_test_output : Text → Option ℕ → TestOutcome × List Text

abbrev failed_prefix : Text
failed_prefix = codes "FAILED "

abbrev newline : ℕ
newline = 10

-- `exit_code == n`
abbrev pub code_is : ℕ → Option ℕ → Bool
code_is n none = false
code_is n (some code) = code == n

module _ (is_space : ℕ → Bool) where
  -- `\S+`, as far as it goes.
  unfoldable pub nonspace_run : Text → Text
  nonspace_run [] = []
  nonspace_run (c ∷ s) = if is_space c then [] else c ∷ nonspace_run s

  abbrev with_name : Text → List Text → List Text
  with_name [] names = names
  with_name (c ∷ name) names = (c ∷ name) ∷ names

  -- The matches of `^FAILED (\S+)` in these lines.
  unfoldable pub failed_in : List Text → List Text
  failed_in [] = []
  failed_in (line ∷ lines) =
      if starts_with failed_prefix line
      then with_name (nonspace_run (drop (length failed_prefix) line)) (failed_in lines)
      else failed_in lines

  unfoldable pub failing_tests : Text → List Text
  failing_tests stdout = let (first, rest) = split_on newline stdout in failed_in (first ∷ rest)

  unfoldable pub parse_test_output : Text → Option ℕ → TestOutcome × List Text
  parse_test_output stdout exit_code =
      if code_is 0 exit_code
      then (TestOutcome.passed, [])
      else if code_is 5 exit_code
      then (TestOutcome.error, [])
      else if code_is 2 exit_code || code_is 3 exit_code || code_is 4 exit_code
      then (TestOutcome.error, failing_tests stdout)
      else (TestOutcome.failed, failing_tests stdout)

  abbrev pub fastapi_target_adapter : TargetTestAdapter
  fastapi_target_adapter = record {
    base_docker_image = codes "python:3.12-slim";
    install_command =
        codes "pip"
        ∷ codes "install"
        ∷ codes "--no-cache-dir"
        ∷ codes "-r"
        ∷ codes "requirements.txt"
        ∷ [];
    test_command = codes "pytest" ∷ codes "-q" ∷ codes "--tb=short" ∷ [];
    parse_test_output = parse_test_output;
  }
