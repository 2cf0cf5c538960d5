-- ===== src/Services/RepoPrep.antt =====
-- app/services/repo_prep.py. What a clone leaves in the file system is a parameter; directories are not
-- modelled.
use stack_migrate.Base.{
  List, [], ◌∷◌, Option, none, some, Text, codes, lookup, text_discrete, set_item,
}
use stack_migrate.Sandbox.Workspace.{OsPath, Files}

-- The outcome of `git.Repo.clone_from`.
pub data Cloned : Type 0 where
  cloned : Files → Cloned
  clone_failed : Text → Cloned

-- `git.Repo.clone_from(url, dest, depth=1, branch=branch)`, on the files before it.
abbrev pub Git : Type 0
Git = (url : Text) → (branch : Option Text) → (dest : Text) → Files → Cloned

-- A prepared path and the files that are there then, or the exception.
pub data Prepared : Type 0 where
  prepared : (path : Text) (files : Files) → Prepared
  git_error : Text → Prepared
  no_scaffold : (target_stack : Text) → Prepared

-- `_TARGET_SCAFFOLDS`
abbrev pub target_scaffolds : List (Text × List (Text × Text))
target_scaffolds =
    (
      codes "fastapi",
      (
        codes "requirements.txt",
        codes
            "fastapi>=0.115.0\nuvicorn[standard]>=0.32.0\npydantic>=2.9.0\npytest>=8.3.0\nhttpx>=0.27.0\n",
      )
          ∷ (codes "app/__init__.py", [])
          ∷ (
            codes "app/main.py",
            codes
                "from fastapi import FastAPI\n\napp = FastAPI()\n\n\n@app.get(\"/health\")\nasync def health():\n    return {\"status\": \"ok\"}\n",
          )
          ∷ (codes "tests/__init__.py", [])
          ∷ (
            codes "tests/test_health.py",
            codes
                "from fastapi.testclient import TestClient\n\nfrom app.main import app\n\nclient = TestClient(app)\n\n\ndef test_health():\n    response = client.get(\"/health\")\n    assert response.status_code == 200\n",
          )
          ∷ [],
    )
    ∷ []

-- An empty text is no branch and no URL.
abbrev pub given : Option Text → Option Text
given (some (c ∷ s)) = some (c ∷ s)
given _ = none

abbrev pub after_clone : Text → Cloned → Prepared
after_clone dest (cloned files) = prepared dest files
after_clone dest (clone_failed exc) = git_error exc

module _ (os : OsPath) (git : Git) (base_dir : Text) where
  -- `os.path.join(base_dir, run_id, name)`
  abbrev pub run_dir : Text → Text → Text
  run_dir run_id name = os.join (os.join base_dir run_id) name

  unfoldable pub clone : Text → Option Text → Text → Files → Prepared
  clone repo_url ref dest files = after_clone dest (git repo_url (given ref) dest files)

  unfoldable pub prepare_source : Text → Text → Text → Files → Prepared
  prepare_source repo_url ref run_id files =
      clone repo_url (some ref) (run_dir run_id (codes "source")) files

  unfoldable pub write_scaffold : Text → List (Text × Text) → Files → Files
  write_scaffold dest [] files = files
  write_scaffold dest ((path, content) ∷ more) files =
      write_scaffold dest more (set_item text_discrete (os.join dest path) content files)

  abbrev pub from_scaffold : Text → Text → Option (List (Text × Text)) → Files → Prepared
  from_scaffold dest target_stack none files = no_scaffold target_stack
  from_scaffold dest target_stack (some scaffold) files =
      prepared dest (write_scaffold dest scaffold files)

  abbrev pub target_of : Text → Text → Option Text → Files → Prepared
  target_of dest target_stack none files =
      from_scaffold dest target_stack (lookup text_discrete target_stack target_scaffolds) files
  target_of dest target_stack (some repo_url) files = clone repo_url none dest files

  unfoldable pub prepare_target : Option Text → Text → Text → Files → Prepared
  prepare_target repo_url target_stack run_id files =
      target_of (run_dir run_id (codes "target")) target_stack (given repo_url) files
