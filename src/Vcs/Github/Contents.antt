-- ===== src/Vcs/Github/Contents.antt =====
-- What a published pull request contains.
use stack_migrate.Base.{◌≡◌, List, ◌++◌, map, Option, some, Text, codes, All, Distinct, Memᴰ}
use stack_migrate.Vcs.Paths.{Unicode}
use stack_migrate.Vcs.Interface.{Publication, PublishedPr}
use stack_migrate.Vcs.Github.{
  InputGitTreeElement, GitCommit, ok, Repository, Github, ApiCall, get_repo, create_git_ref,
  create_pull,
}

-- What GitHub documents of the git data of a repository: what is at a path of a tree, as its mode and its
-- content, for a tree that was made of elements with different paths on top of another; and that a
-- new commit has the tree that it was made with.
pub record GitData (repo : Repository) : Type 0 where
  pub reads : Text → Text → Option (Text × Text)
  pub has_blob :
      (elements : List InputGitTreeElement) (base tree : Text) (e : InputGitTreeElement)
      → repo.create_git_tree elements base ≡ ok tree
      → Distinct (map (λ x. x.path) elements)
      → Memᴰ e elements
      → e.kind ≡ codes "blob"
      → reads tree e.path ≡ some (e.mode, e.content)
  pub keeps_others :
      (elements : List InputGitTreeElement) (base tree q : Text)
      → repo.create_git_tree elements base ≡ ok tree
      → ¬ Memᴰ q (map (λ x. x.path) elements)
      → reads tree q ≡ reads base q
  pub has_tree :
      (message tree : Text) (parents : List Text) (commit : GitCommit)
      → repo.create_git_commit message tree parents ≡ ok commit
      → commit.tree ≡ tree

module _ (unicode : Unicode) (github : Github) (token : Option Text)
    (data_of : (client : Text) (name : Option Text) (repo : Repository)
      → github.get_repo client name ≡ ok repo
      → GitData repo) where
  -- What the pull request brings: its branch points to a commit in which each file is a regular file with
  -- its content, and every other path is as at the head of the base branch.
  pub record Delivers (p : Publication) (calls : List ApiCall) (pr : PublishedPr) : Type 0 where
    pub client : Text
    pub repo : Repository
    pub found : github.get_repo client p.repo_full_name ≡ ok repo
    pub head : Text
    pub at_head : repo.get_git_ref (codes "heads/" ++ p.base_branch) ≡ ok head
    pub base : GitCommit
    pub base_commit : repo.get_git_commit head ≡ ok base
    pub commit : GitCommit
    pub is_commit : pr.commit_sha ≡ commit.sha
    pub points : Memᴰ (create_git_ref (codes "refs/heads/" ++ p.branch_name) pr.commit_sha) calls
    pub asks : Memᴰ (create_pull p.pr_title p.pr_body p.branch_name p.base_branch) calls
    pub files :
        All
          (λ f.
            (data_of client p.repo_full_name repo found).reads commit.tree f.path
            ≡ some (codes "100644", f.content))
          p.files
    pub others :
        (q : Text)
        → ¬ Memᴰ q (map (λ f. f.path) p.files)
        → (data_of client p.repo_full_name repo found).reads commit.tree q
          ≡ (data_of client p.repo_full_name repo found).reads base.tree q

-- GitHub answers every call on the repository.
pub record Answers (repo : Repository) : Type 0 where
  pub ref : (ref : Text) → (sha : Text) × (repo.get_git_ref ref ≡ ok sha)
  pub commit : (sha : Text) → (c : GitCommit) × (repo.get_git_commit sha ≡ ok c)
  pub new_tree :
      (elements : List InputGitTreeElement) (base : Text)
      → (sha : Text) × (repo.create_git_tree elements base ≡ ok sha)
  pub new_commit :
      (message tree : Text) (parents : List Text)
      → (c : GitCommit) × (repo.create_git_commit message tree parents ≡ ok c)
  pub new_ref : (ref sha : Text) → repo.create_git_ref ref sha ≡ ok tt
  pub pull :
      (title body head base : Text)
      → (url : Text) × (repo.create_pull title body head base ≡ ok url)
