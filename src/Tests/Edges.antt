-- ===== src/Tests/Edges.antt =====
-- The properties of what stands around the graph, at concrete inputs.
use stack_migrate.Base.{
  ◌≡◌, ◌≢◌, refl, true, [], ◌∷◌, none, some, Option, Text, codes, All, length, List, lookup,
  text_discrete,
}
use stack_migrate.State.{FileDiff}
use stack_migrate.Vcs.Interface.{Publication}
use stack_migrate.Vcs.Paths.{PathProblem}
use stack_migrate.Vcs.Github.{ok, raised, Repository, Github, unpublishable_path, publish}
use stack_migrate.Vcs.Github.Calls.{publish-refuses}
use stack_migrate.Sandbox.Written.{resolved_path, read-apply_diffs}
use stack_migrate.Core.Observability.Reports.{Reports}
use stack_migrate.Adapters.Source.{DiscoveredFile}
use stack_migrate.Adapters.Springboot.{Directory, directory, end, subdirectory, discover_files}
use stack_migrate.Api.Routes.{approve_migration, App, find_run, handle, unauthorized}
use stack_migrate.Api.Access.{startup_fails_closed, handle-find}
use stack_migrate.Tests.Samples.{program, started, sample_env, ascii, plain_paths, foo_diff}

abbrev pub sample_repository : Repository
sample_repository = record {
  get_git_ref = λ ref. ok (codes "b0");
  get_git_commit = λ sha. ok (record { sha = sha; tree = codes "t0" });
  create_git_tree = λ elements base. ok (codes "t1");
  create_git_commit = λ message tree parents. ok (record { sha = codes "c1"; tree = tree });
  create_git_ref = λ ref sha. ok tt;
  create_pull = λ title body head base. ok (codes "http://pr/1");
}

abbrev pub sample_github : Github
sample_github = record { get_repo = λ token name. ok sample_repository }

abbrev publication_of : List FileDiff → Publication
publication_of files = record {
  repo_full_name = some (codes "o/r");
  base_branch = codes "main";
  branch_name = codes "stackmigrate/r1";
  commit_message = codes "m";
  pr_title = codes "t";
  pr_body = codes "b";
  files = files;
}

abbrev pub sample_publication : Publication
sample_publication = publication_of (foo_diff ∷ [])

abbrev sample_token : Option Text
sample_token = some (codes "k")

-- Seven calls, and the pull request.
publish_sample : length (publish ascii sample_github sample_token sample_publication).0 ≡ 7
unfolding program
publish_sample = refl

abbrev git_diff : FileDiff
git_diff = record { path = codes ".git/config"; content = []; is_new_file = true }

publish-refuses_example :
    publish ascii sample_github none (publication_of (foo_diff ∷ git_diff ∷ []))
    ≡ ([], raised (unpublishable_path (codes ".git/config") PathProblem.git_directory))
unfolding program
publish-refuses_example =
    publish-refuses ascii sample_github none (publication_of (foo_diff ∷ git_diff ∷ []))
      (foo_diff ∷ []) [] git_diff PathProblem.git_directory refl (refl, tt) refl

read-apply_diffs_example :
    All
      (λ d.
        lookup text_discrete
          (resolved_path plain_paths (codes "/ws") d.path)
          ((codes "/ws/app/services/foo.py", codes "pass") ∷ [])
        ≡ some d.content)
      (foo_diff ∷ [])
unfolding program
read-apply_diffs_example =
    read-apply_diffs plain_paths (codes "/ws") (foo_diff ∷ []) []
      ((codes "/ws/app/services/foo.py", codes "pass") ∷ []) (codes "app/services/foo.py" ∷ [])
      (tt, tt) refl

abbrev sample_tree : Directory
sample_tree = directory [] (
    subdirectory (codes "test") (directory ((codes "FooTest.java", some []) ∷ []) end) (
      subdirectory (codes "foo")
        (directory
          ((codes "Foo.java", some (codes "@Service class Foo {}"))
            ∷ (codes "Bar.java", some [])
            ∷ (codes "Baz.java", none)
            ∷ [])
          end)
        end))

-- The files beside `Foo.java` are discovered, but for the one that cannot be read.
discovered_two :
    length (discover_files ascii (codes "/src") (codes "only Foo") (some sample_tree)) ≡ 2
unfolding program
discovered_two = refl

abbrev bar_file : DiscoveredFile
bar_file = record {
  path = codes "/src/src/main/java/foo/Bar.java";
  relative_path = codes "src/main/java/foo/Bar.java";
  likely_kind = none;
  content = [];
}

abbrev sample_environ : List (Text × Text)
sample_environ = (codes "STACKMIGRATE_API_KEY", codes "secret") ∷ []

abbrev sample_app : App
sample_app = record { runs = (codes "r1", started) ∷ (codes "run-2", started) ∷ []; tasks = [] }

startup_fails_closed_example :
    (handle
        (λ id. sample_env)
        (codes "r3")
        (some (codes "secret"))
        none
        (approve_migration (codes "r1") none)
        sample_app
      ≡ (unauthorized, sample_app))
    × ((k : Text) × (some (codes "secret") ≡ some k) × (k ≢ []))
unfolding program
startup_fails_closed_example =
    startup_fails_closed (λ id. sample_env) (codes "r3") sample_environ (some (codes "secret")) none
      (approve_migration (codes "r1") none) sample_app refl (λ e. cc e) refl (λ e. cc e)

handle-find_example :
    find_run
      (codes "run-2")
      (handle
        (λ id. sample_env)
        (codes "r3")
        (some (codes "secret"))
        (some (codes "secret"))
        (approve_migration (codes "r1") none)
        sample_app).1
    ≡ find_run (codes "run-2") sample_app
handle-find_example =
    handle-find (λ id. sample_env) (codes "r3") (some (codes "secret")) (some (codes "secret"))
      (approve_migration (codes "r1") none) sample_app (codes "run-2") (λ e. cc e)
