-- ===== src/Vcs/Github/Calls.antt =====
-- Which calls a publication makes.
use stack_migrate.Base.{
  ◌≡◌, refl, sym, ap, ◌∙◌, List, [], ◌∷◌, ◌++◌, map, Option, none, some, Text, codes, All,
}
use stack_migrate.State.{FileDiff}
use stack_migrate.Vcs.Paths.{Unicode, PathProblem, publishable_path_problem}
use stack_migrate.Vcs.Interface.{Publication, PublishedPr}
use stack_migrate.Vcs.Github.{
  GitCommit, unpublishable_path, Reply, ok, raised, Repository, Github, ApiCall, get_repo,
  get_git_ref, get_git_commit, create_git_tree, create_git_commit, create_git_ref, create_pull,
  Traced, ◌>>=◌, call, tree_element, after_check, check_paths, get_client, publish_to, publish,
}

-- What follows from a chain that succeeds, given what follows from its parts' successes.
>>=-ok :
    {A B C : Type 0} (m : Traced A) (f : A → Traced B) (calls : List ApiCall) (b : B)
    → (m >>= f) ≡ (calls, ok b)
    → ((a : A) (first more : List ApiCall)
        → m ≡ (first, ok a)
        → f a ≡ (more, ok b)
        → calls ≡ first ++ more
        → C)
    → C
>>=-ok (first, ok a) f calls b e then =
    then a first (f a).0 refl (ap (λ r. ((f a).0, r.1)) e) (ap (λ r. r.0) (sym e))
>>=-ok (first, raised err) f calls b e then = absurd (cc e)

-- The same where the first part is a call.
call-ok :
    {A B C : Type 0} (c : ApiCall) (r : Reply A) (f : A → Traced B) (calls : List ApiCall) (b : B)
    → (call c r >>= f) ≡ (calls, ok b)
    → ((a : A) (more : List ApiCall) → r ≡ ok a → f a ≡ (more, ok b) → calls ≡ c ∷ more → C)
    → C
call-ok c r f calls b e then = >>=-ok (call c r) f calls b e (λ a first more h rest made.
    then a more (ap (λ t. t.1) h) rest (made ∙ ap (λ t. t.0 ++ more) (sym h)))

under : {c : ApiCall} {cs ds : List ApiCall} → cs ≡ ds → c ∷ cs ≡ c ∷ ds
under {c = c} e = ap (λ more. c ∷ more) e

ok_inj : {A : Type 0} {a b : A} → ok a ≡ ok b → a ≡ b
ok_inj e = cc e

-- Every path may be published.
abbrev pub AllPublishable : Unicode → List FileDiff → Type 0
AllPublishable unicode fs = All (λ f. publishable_path_problem unicode f.path ≡ none) fs

check_paths-ok :
    (unicode : Unicode) (fs : List FileDiff) (first : List ApiCall)
    → check_paths unicode fs ≡ (first, ok tt)
    → AllPublishable unicode fs × (first ≡ [])
unfolding check_paths
check_paths-ok unicode [] first e = (tt, ap (λ t. t.0) (sym e))
check_paths-ok unicode (f ∷ fs) first e =
    go (publishable_path_problem unicode f.path) refl e (check_paths-ok unicode fs first)
  where
    go :
        (o : Option PathProblem)
        → publishable_path_problem unicode f.path ≡ o
        → after_check f.path o (check_paths unicode fs) ≡ (first, ok tt)
        → (check_paths unicode fs ≡ (first, ok tt) → AllPublishable unicode fs × (first ≡ []))
        → AllPublishable unicode (f ∷ fs) × (first ≡ [])
    go none h e' rest = let (all, made) = rest e' in ((h, all), made)
    go (some problem) h e' rest = absurd (cc e')

get_client-ok :
    (token : Option Text) (first : List ApiCall) (client : Text)
    → get_client token ≡ (first, ok client)
    → (token ≡ some client) × (first ≡ [])
get_client-ok none first client e = absurd (cc e)
get_client-ok (some []) first client e = absurd (cc e)
get_client-ok (some (c ∷ token)) first client e = (cc (ap (λ t. t.1) e), ap (λ t. t.0) (sym e))

module _ (unicode : Unicode) (github : Github) (token : Option Text) where
  check_paths-refuses :
      (before after : List FileDiff) (f : FileDiff) (problem : PathProblem)
      → AllPublishable unicode before
      → publishable_path_problem unicode f.path ≡ some problem
      → check_paths unicode (before ++ f ∷ after) ≡ ([], raised (unpublishable_path f.path problem))
  unfolding check_paths
  check_paths-refuses [] after f problem h bad = rw bad refl
  check_paths-refuses (g ∷ before) after f problem h bad =
      rw (h.0, check_paths-refuses before after f problem h.1 bad) refl

  -- How a successful publication to a repository went: on the base branch's commit, a tree with
  -- exactly the files, a commit of it, the new branch at that commit, and the pull request from it,
  -- in this order.
  pub record IsOpenedIn (repo : Repository) (p : Publication) (calls : List ApiCall)
      (pr : PublishedPr) : Type 0 where
    pub sha : Text
    pub head : repo.get_git_ref (codes "heads/" ++ p.base_branch) ≡ ok sha
    pub base : GitCommit
    pub base_commit : repo.get_git_commit sha ≡ ok base
    pub tree : Text
    pub new_tree : repo.create_git_tree (map tree_element p.files) base.tree ≡ ok tree
    pub commit : GitCommit
    pub new_commit : repo.create_git_commit p.commit_message tree (base.sha ∷ []) ≡ ok commit
    pub branch : repo.create_git_ref (codes "refs/heads/" ++ p.branch_name) commit.sha ≡ ok tt
    pub url : Text
    pub pull : repo.create_pull p.pr_title p.pr_body p.branch_name p.base_branch ≡ ok url
    pub made :
        calls
        ≡ get_git_ref (codes "heads/" ++ p.base_branch)
          ∷ get_git_commit sha
          ∷ create_git_tree (map tree_element p.files) base.tree
          ∷ create_git_commit p.commit_message tree (base.sha ∷ [])
          ∷ create_git_ref (codes "refs/heads/" ++ p.branch_name) commit.sha
          ∷ create_pull p.pr_title p.pr_body p.branch_name p.base_branch
          ∷ []
    pub result : pr ≡ record { url = url; branch_name = p.branch_name; commit_sha = commit.sha }

  publish_to-IsOpenedIn :
      (repo : Repository) (p : Publication) (calls : List ApiCall) (pr : PublishedPr)
      → publish_to unicode github token repo p ≡ (calls, ok pr)
      → IsOpenedIn repo p calls pr
  unfolding publish_to
  publish_to-IsOpenedIn repo p calls pr e = call-ok _ _ _ calls pr e (λ sha m3 head e3 k3.
      call-ok _ _ _ m3 pr e3 (λ base m4 base_commit e4 k4.
        call-ok _ _ _ m4 pr e4 (λ tree m5 new_tree e5 k5.
          call-ok _ _ _ m5 pr e5 (λ commit m6 new_commit e6 k6.
            call-ok _ _ _ m6 pr e6 (λ _ m7 branch e7 k7.
              call-ok _ _ _ m7 pr e7 (λ url m8 pull e8 k8. record {
                sha = sha;
                head = head;
                base = base;
                base_commit = base_commit;
                tree = tree;
                new_tree = new_tree;
                commit = commit;
                new_commit = new_commit;
                branch = branch;
                url = url;
                pull = pull;
                made =
                    k3
                    ∙ under (
                        k4
                        ∙ under (
                            k5
                            ∙ under
                                (k6 ∙ under (k7 ∙ under (k8 ∙ under (ap (λ t. t.0) (sym e8)))))));
                result = ok_inj (ap (λ t. t.1) (sym e8));
              }))))))

  -- The paths may be published, a token is set, the repository is found, and then the pull request is
  -- opened in it.
  pub record IsOpened (p : Publication) (calls : List ApiCall) (pr : PublishedPr) : Type 0 where
    pub files : AllPublishable unicode p.files
    pub client : Text
    pub set : token ≡ some client
    pub repo : Repository
    pub found : github.get_repo client p.repo_full_name ≡ ok repo
    pub more : List ApiCall
    pub opened : IsOpenedIn repo p more pr
    pub made : calls ≡ get_repo p.repo_full_name ∷ more

  -- Where `publish` returns a pull request, all paths may be published and a token is set, and its
  -- calls are these seven: the repository, the head of the base branch, its commit, a tree with
  -- exactly the files on top of that commit's tree, a commit of it with that parent, the new branch
  -- at this commit, and the pull request from the branch into the base branch.
  pub publish-IsOpened :
      (p : Publication) (calls : List ApiCall) (pr : PublishedPr)
      → publish unicode github token p ≡ (calls, ok pr)
      → IsOpened p calls pr
  unfolding publish publish_to
  publish-IsOpened p calls pr e =
      >>=-ok (check_paths unicode p.files) _ calls pr e (λ _ c0 m0 checked e0 k0.
        let (files, nothing) = check_paths-ok unicode p.files c0 checked in
        >>=-ok (get_client token) _ m0 pr e0 (λ client c1 m1 had e1 k1.
          let (set, none_made) = get_client-ok token c1 client had in
          call-ok _ _ _ m1 pr e1 (λ repo m2 found e2 k2. record {
            files = files;
            client = client;
            set = set;
            repo = repo;
            found = found;
            more = m2;
            opened = publish_to-IsOpenedIn repo p m2 pr e2;
            made = k0 ∙ ap (λ c. c ++ m0) nothing ∙ k1 ∙ ap (λ c. c ++ m1) none_made ∙ k2;
          })))

  -- Where some path must not be published, `publish` makes no call at all: it raises the error that
  -- names the first such path and its problem, whether or not a token is set.
  pub publish-refuses :
      (p : Publication) (before after : List FileDiff) (f : FileDiff) (problem : PathProblem)
      → p.files ≡ before ++ f ∷ after
      → AllPublishable unicode before
      → publishable_path_problem unicode f.path ≡ some problem
      → publish unicode github token p ≡ ([], raised (unpublishable_path f.path problem))
  unfolding publish
  publish-refuses p before after f problem e ok_before bad =
      rw (e, check_paths-refuses before after f problem ok_before bad) refl
