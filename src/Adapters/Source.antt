-- ===== src/Adapters/Source.antt =====
-- app/adapters/base.py
use stack_migrate.Base.{Option, Text}
use stack_migrate.State.{SemanticUnitKind}

-- One source file that the adapter has found to be relevant.
pub record DiscoveredFile : Type 0 where
  pub path : Text
  pub relative_path : Text
  pub likely_kind : Option SemanticUnitKind
  pub content : Text
