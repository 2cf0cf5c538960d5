-- ===== src/Tests/Github.antt =====
-- A pull request in a repository that keeps its data.
use stack_migrate.Base.{
  ◌≡◌, ◌≢◌, refl, sym, ◌∙◌, subst, List, [], ◌∷◌, map, ite, if_pos, if_neg, Option, none, some,
  Text, text_discrete, codes, Memᴰ,
}
use stack_migrate.Vcs.Interface.{PublishedPr}
use stack_migrate.Vcs.Github.{
  InputGitTreeElement, GitCommit, token_not_set, Reply, ok, raised, Repository, Github,
}
use stack_migrate.Vcs.Github.Contents.{GitData}
use stack_migrate.Tests.Samples.{foo_diff}
use stack_migrate.Tests.Edges.{sample_repository}

abbrev guarded : {P : Type 0} → Dec P → Reply Text → Reply Text
guarded (yes p) r = r
guarded (no n) r = raised token_not_set

guarded-ok :
    {P : Type 0} (d : Dec P) (r : Reply Text) (t : Text) → guarded d r ≡ ok t → P × (r ≡ ok t)
guarded-ok (yes p) r t e = (p, e)
guarded-ok (no n) r t e = absurd (cc e)

-- Trees with the one file, on top of the tree `t0`, which is empty.
abbrev one_file : List InputGitTreeElement → Text → Reply Text
one_file (e ∷ []) base = guarded (text_discrete e.path foo_diff.path) (
    guarded (text_discrete e.content foo_diff.content) (
      guarded (text_discrete e.mode (codes "100644"))
        (guarded (text_discrete base (codes "t0")) (ok (codes "tree1")))))
one_file _ base = raised token_not_set

abbrev in_tree : Text → Text → Option (Text × Text)
in_tree tree q =
    ite (text_discrete tree (codes "tree1"))
      (ite (text_discrete q foo_diff.path) (some (codes "100644", foo_diff.content)) none) none

abbrev keeping_repository : Repository
keeping_repository = record sample_repository { create_git_tree = one_file }

abbrev keeping_github : Github
keeping_github = record { get_repo = λ token name. ok keeping_repository }

-- What holds of an answered call for a tree.
one_file-ok :
    (e : InputGitTreeElement) (base tree : Text)
    → one_file (e ∷ []) base ≡ ok tree
    → (e.path ≡ foo_diff.path)
      × (e.content ≡ foo_diff.content)
      × (e.mode ≡ codes "100644")
      × (base ≡ codes "t0")
      × (tree ≡ codes "tree1")
one_file-ok e base tree h =
    let (a, h1) = guarded-ok (text_discrete e.path foo_diff.path) _ tree h in
    let (b, h2) = guarded-ok (text_discrete e.content foo_diff.content) _ tree h1 in
    let (c, h3) = guarded-ok (text_discrete e.mode (codes "100644")) _ tree h2 in
    let (d, h4) = guarded-ok (text_discrete base (codes "t0")) _ tree h3 in (a, b, c, d, cc h4)

in_tree1 :
    (q : Text)
    → in_tree (codes "tree1") q
      ≡ ite (text_discrete q foo_diff.path) (some (codes "100644", foo_diff.content)) none
in_tree1 q = if_pos (text_discrete (codes "tree1") (codes "tree1")) refl _ _

in_other : (tree q : Text) → tree ≢ codes "tree1" → in_tree tree q ≡ none
in_other tree q n = if_neg (text_discrete tree (codes "tree1")) n _ _

keeps_blob :
    (elements : List InputGitTreeElement) (base tree : Text) (e : InputGitTreeElement)
    → one_file elements base ≡ ok tree
    → Memᴰ e elements
    → in_tree tree e.path ≡ some (e.mode, e.content)
keeps_blob (x ∷ []) base tree e h (Memᴰ.head same) =
    let (a, b, c, d, t) = one_file-ok x base tree h in
    subst (λ y. in_tree tree y.path ≡ some (y.mode, y.content)) (sym same)
      (rw (t, a, b, c)
        (in_tree1 foo_diff.path ∙ if_pos (text_discrete foo_diff.path foo_diff.path) refl _ _))
keeps_blob (x ∷ []) base tree e h (Memᴰ.tail m) = elim m [ ]
keeps_blob [] base tree e h m = absurd (cc h)
keeps_blob (x ∷ y ∷ more) base tree e h m = absurd (cc h)

keeps_rest :
    (elements : List InputGitTreeElement) (base tree q : Text)
    → one_file elements base ≡ ok tree
    → ¬ Memᴰ q (map (λ x. x.path) elements)
    → in_tree tree q ≡ in_tree base q
keeps_rest (x ∷ []) base tree q h n =
    let (a, b, c, d, t) = one_file-ok x base tree h in
    rw (t, d)
      (in_tree1 q
        ∙ if_neg (text_discrete q foo_diff.path) (λ e. n (Memᴰ.head (e ∙ sym a))) _ _
        ∙ sym (in_other (codes "t0") q (λ e. cc e)))
keeps_rest [] base tree q h n = absurd (cc h)
keeps_rest (x ∷ y ∷ more) base tree q h n = absurd (cc h)

keeps_tree :
    (message tree : Text) (parents : List Text) (commit : GitCommit)
    → keeping_repository.create_git_commit message tree parents ≡ ok commit
    → commit.tree ≡ tree
keeps_tree message tree parents commit h = cc h

abbrev kept : GitData keeping_repository
kept = record {
  reads = in_tree;
  has_blob = λ elements base tree e h distinct m blob. keeps_blob elements base tree e h m;
  keeps_others = keeps_rest;
  has_tree = keeps_tree;
}

abbrev opened : PublishedPr
opened = record {
  url = codes "http://pr/1";
  branch_name = codes "stackmigrate/r1";
  commit_sha = codes "c1";
}
