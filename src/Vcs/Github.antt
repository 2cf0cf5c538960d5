-- ===== src/Vcs/Github.antt =====
-- app/vcs/github_publisher.py. The GitHub client library is a parameter: what each of its calls
-- answers. A publication returns the calls that it made, in order, and its result; an exception of the
-- library is the text of its `repr`.
pub mod Calls
pub mod Contents
use stack_migrate.Base.{
  Bool, true, false, List, [], ◌∷◌, ◌++◌, map, Option, none, some, Text, codes,
}
use stack_migrate.State.{FileDiff}
use stack_migrate.Vcs.Paths.{Unicode, PathProblem, publishable_path_problem}
use stack_migrate.Vcs.Interface.{Publication, PublishedPr}

pub record InputGitTreeElement : Type 0 where
  pub path : Text
  pub mode : Text
  pub kind : Text
  pub content : Text

pub record GitCommit : Type 0 where
  pub sha : Text
  pub tree : Text

pub data PublishError : Type 0 where
  unpublishable_path : (path : Text) (problem : PathProblem) → PublishError
  token_not_set : PublishError
  github_exception : Text → PublishError

pub data Reply {ℓ} (A : Type ℓ) : Type ℓ where
  ok : A → Reply A
  raised : PublishError → Reply A

-- The repository object of the library: what its methods answer.
pub record Repository : Type 0 where
  pub get_git_ref : Text → Reply Text
  pub get_git_commit : Text → Reply GitCommit
  pub create_git_tree : List InputGitTreeElement → Text → Reply Text
  pub create_git_commit : Text → Text → List Text → Reply GitCommit
  pub create_git_ref : Text → Text → Reply (Unit {0})
  pub create_pull : Text → Text → Text → Text → Reply Text

-- `Github(token).get_repo`
pub record Github : Type 0 where
  pub get_repo : Text → Option Text → Reply Repository

pub data ApiCall : Type 0 where
  get_repo : (repo_full_name : Option Text) → ApiCall
  get_git_ref : (ref : Text) → ApiCall
  get_git_commit : (sha : Text) → ApiCall
  create_git_tree : (elements : List InputGitTreeElement) (base_tree : Text) → ApiCall
  create_git_commit : (message tree : Text) (parents : List Text) → ApiCall
  create_git_ref : (ref sha : Text) → ApiCall
  create_pull : (title body head base : Text) → ApiCall

-- A chain of calls, with the calls made so far.
abbrev pub Traced : Type 0 → Type 0
Traced A = List ApiCall × Reply A

infixl 5 ◌>>=◌ ◌>>◌
abbrev pub ◌>>=◌ : {A B : Type 0} → Traced A → (A → Traced B) → Traced B
◌>>=◌ (calls, ok a) f = let (more, r) = f a in (calls ++ more, r)
◌>>=◌ (calls, raised e) f = (calls, raised e)

abbrev pub ◌>>◌ : {B : Type 0} → Traced (Unit {0}) → Traced B → Traced B
m >> k = m >>= λ _. k

abbrev pub pure : {A : Type 0} → A → Traced A
pure a = ([], ok a)

abbrev pub call : {A : Type 0} → ApiCall → Reply A → Traced A
call c r = (c ∷ [], r)

abbrev pub refuse : {A : Type 0} → PublishError → Traced A
refuse e = ([], raised e)

abbrev pub tree_element : FileDiff → InputGitTreeElement
tree_element f = record {
  path = f.path;
  mode = codes "100644";
  kind = codes "blob";
  content = f.content;
}

abbrev pub after_check : Text → Option PathProblem → Traced (Unit {0}) → Traced (Unit {0})
after_check path none rest = rest
after_check path (some problem) rest = refuse (unpublishable_path path problem)

-- The first path that must not be published is refused.
unfoldable pub check_paths : Unicode → List FileDiff → Traced (Unit {0})
check_paths unicode [] = pure tt
check_paths unicode (f ∷ fs) =
    after_check f.path (publishable_path_problem unicode f.path) (check_paths unicode fs)

-- `token or os.environ.get("GITHUB_TOKEN")`
abbrev pub token_of : Option Text → Option Text → Option Text
token_of (some (c ∷ s)) environ = some (c ∷ s)
token_of _ environ = environ

-- `_get_client`: without a token, or with an empty one, there is no client.
abbrev pub get_client : Option Text → Traced Text
get_client (some (c ∷ token)) = pure (c ∷ token)
get_client _ = refuse token_not_set

module _ (unicode : Unicode) (github : Github) (token : Option Text) where
  -- From the repository to the opened pull request.
  unfoldable pub publish_to : Repository → Publication → Traced PublishedPr
  publish_to repo p = do
    sha ←
        call (get_git_ref (codes "heads/" ++ p.base_branch))
          (repo.get_git_ref (codes "heads/" ++ p.base_branch))
    base ← call (get_git_commit sha) (repo.get_git_commit sha)
    tree ←
        call (create_git_tree (map tree_element p.files) base.tree)
          (repo.create_git_tree (map tree_element p.files) base.tree)
    commit ←
        call (create_git_commit p.commit_message tree (base.sha ∷ []))
          (repo.create_git_commit p.commit_message tree (base.sha ∷ []))
    call (create_git_ref (codes "refs/heads/" ++ p.branch_name) commit.sha)
        (repo.create_git_ref (codes "refs/heads/" ++ p.branch_name) commit.sha)
    url ←
        call (create_pull p.pr_title p.pr_body p.branch_name p.base_branch)
          (repo.create_pull p.pr_title p.pr_body p.branch_name p.base_branch)
    pure (record { url = url; branch_name = p.branch_name; commit_sha = commit.sha })

  unfoldable pub publish : Publication → Traced PublishedPr
  publish p = do
    check_paths unicode p.files
    client ← get_client token
    repo ← call (get_repo p.repo_full_name) (github.get_repo client p.repo_full_name)
    publish_to repo p
