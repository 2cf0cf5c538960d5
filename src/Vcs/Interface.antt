-- ===== src/Vcs/Interface.antt =====
-- app/vcs/interface.py
use stack_migrate.Base.{List, Option, Text}
use stack_migrate.State.{FileDiff}

-- The arguments of `PRPublisher.publish`.
pub record Publication : Type 0 where
  pub repo_full_name : Option Text
  pub base_branch : Text
  pub branch_name : Text
  pub commit_message : Text
  pub pr_title : Text
  pub pr_body : Text
  pub files : List FileDiff

pub record PublishedPr : Type 0 where
  pub url : Text
  pub branch_name : Text
  pub commit_sha : Text
