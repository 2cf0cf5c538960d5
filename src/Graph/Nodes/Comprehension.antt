-- ===== src/Graph/Nodes/Comprehension.antt =====
-- app/graph/nodes/comprehension.py. The files that the source adapter discovered are an argument, and
-- so is the extractor's answer for each file.
mod Ids
mod Extract
mod Resolve
unfoldable pub use Ids.*
unfoldable pub use Extract.*
unfoldable pub use Resolve.*
use stack_migrate.Base.{
  ℕ, Bool, true, false, List, [], ◌∷◌, ◌++◌, Option, none, some, Text, codes, if◌then◌else◌,
}
use stack_migrate.State.{
  ComprehensionResult, SemanticUnit, MigrationPhase, MigrationRunConfig, BudgetState, LogEntry,
  Update, no_update, comprehension_skipped,
}
use stack_migrate.State.Budget.{is_exhausted, remaining_usd, record_call}
use stack_migrate.Vcs.Paths.{Unicode}

abbrev pub no_files : Text → Text → List DiscoveredFile → List Text
no_files scope stack (f ∷ fs) = []
no_files scope stack [] =
    (codes "No source files discovered under scope '"
      ++ scope
      ++ codes "' for stack '"
      ++ stack
      ++ codes
          "'. Check that local_checkout_path is correct and the scope description matches real file/class names.")
    ∷ []

abbrev pub fresh : List Text → Progress
fresh ambiguities = record {
  total_cost = 0;
  error_log = [];
  ambiguities = ambiguities;
  pending = [];
  used_ids = [];
}

-- The result, the cost of its calls and the entries for the log.
unfoldable pub run_comprehension :
    Unicode
    → (repo_root scope stack : Text) → (remaining : ℕ) → List DiscoveredFile
    → (DiscoveredFile → Extracted)
    → ComprehensionResult × ℕ × List LogEntry
run_comprehension unicode repo_root scope stack remaining files extract =
    let p = extract_files extract remaining files files (fresh (no_files scope stack files)) in
    let (units, ambiguities) = resolve_units unicode (name_table unicode p.pending []) p.pending in
    (
      record {
        source_stack = stack;
        repo_root = repo_root;
        units = units;
        global_notes = [];
        unresolved_ambiguities = p.ambiguities ++ ambiguities;
      },
      p.total_cost,
      p.error_log,
    )

abbrev pub phase_of_units : List SemanticUnit → MigrationPhase
phase_of_units [] = MigrationPhase.failed
phase_of_units (u ∷ us) = MigrationPhase.synthesis_planning

unfoldable pub comprehension_node :
    Unicode
    → MigrationRunConfig
    → BudgetState
    → (now : ℕ) → List DiscoveredFile
    → (DiscoveredFile → Extracted)
    → Update
comprehension_node unicode config budget now files extract =
    let (result, cost, errors) =
      run_comprehension unicode config.local_checkout_path config.scope_description
        config.source_stack (remaining_usd budget) files extract in
    if is_exhausted budget now
    then record no_update {
      phase = some MigrationPhase.aborted_budget;
      error_log = comprehension_skipped ∷ [];
    }
    else record no_update {
      comprehension = some result;
      phase = some (phase_of_units result.units);
      budget = some (record_call budget cost false);
      error_log = errors;
    }
