-- ===== src/Graph/Nodes/Comprehension/Extract.antt =====
-- The extraction pass of app/graph/nodes/comprehension.py, file by file.
use stack_migrate.Base.{
  ℕ, suc, ◌+◌, ◌-◌, List, [], ◌∷◌, ◌++◌, map, Text, codes, text_discrete, length, leb,
  if◌then◌else◌, ite,
}
pub use stack_migrate.Adapters.Source.{DiscoveredFile}
use stack_migrate.State.{SemanticUnitKind, Payload, LogEntry, extraction_budget, extraction_failed}
use stack_migrate.Graph.Nodes.Synthesis.{kind_value}
use stack_migrate.Graph.Nodes.Comprehension.Ids.{assign_id}

-- A payload of a raw unit is one of the five models, never a dict.
pub record RawExtractedUnit : Type 0 where
  pub kind : SemanticUnitKind
  pub name : Text
  pub payload : Payload
  pub stack_specific_hints : Text

pub record ExtractionResponse : Type 0 where
  pub units : List RawExtractedUnit
  pub ambiguities : List Text
  pub cost_usd : ℕ
  pub input_tokens : ℕ
  pub output_tokens : ℕ

-- `extract` returns, or raises an exception with this `repr`.
pub data Extracted : Type 0 where
  response : ExtractionResponse → Extracted
  raised : Text → Extracted

pub record PendingUnit : Type 0 where
  pub raw : RawExtractedUnit
  pub source_relative_path : Text
  pub assigned_id : Text

-- The variables of the loop over the files.
pub record Progress : Type 0 where
  pub total_cost : ℕ
  pub error_log : List LogEntry
  pub ambiguities : List Text
  pub pending : List PendingUnit
  pub used_ids : List Text

-- The loop over the units of one file.
unfoldable pub add_units : Text → List RawExtractedUnit → Progress → Progress
add_units path [] p = p
add_units path (raw ∷ raws) p =
    let unit_id = assign_id (kind_value raw.kind) raw.name p.used_ids in
    add_units path raws (record p {
      used_ids = unit_id ∷ p.used_ids;
      pending =
          p.pending
          ++ record { raw = raw; source_relative_path = path; assigned_id = unit_id } ∷ [];
    })

unfoldable pub after_extract : DiscoveredFile → Extracted → Progress → Progress
after_extract file (raised exc) p = record p {
  error_log = p.error_log ++ extraction_failed file.relative_path exc ∷ [];
  ambiguities =
      p.ambiguities
      ++ (codes "'"
          ++ file.relative_path
          ++ codes "' could not be analyzed due to an extraction error.")
        ∷ [];
}
after_extract file (response r) p = add_units file.relative_path r.units (record p {
  total_cost = p.total_cost + r.cost_usd;
  ambiguities = p.ambiguities ++ map (λ a. file.relative_path ++ codes ": " ++ a) r.ambiguities;
})

-- `files.index(file)`: the files have different paths.
unfoldable pub index_of : DiscoveredFile → List DiscoveredFile → ℕ
index_of file [] = 0
index_of file (f ∷ fs) = ite (text_discrete file.path f.path) 0 (suc (index_of file fs))

unfoldable pub stop_at : DiscoveredFile → List DiscoveredFile → Progress → Progress
stop_at file all p = record p {
  error_log =
      p.error_log ++ extraction_budget file.relative_path (length all - index_of file all) ∷ [];
  ambiguities =
      p.ambiguities
      ++ (codes "'" ++ file.relative_path ++ codes "' was not analyzed: budget exhausted.") ∷ [];
}

-- The loop over the files; `all` is the whole list.
unfoldable pub extract_files :
    (DiscoveredFile → Extracted)
    → (remaining : ℕ) → (all files : List DiscoveredFile) → Progress
    → Progress
extract_files extract remaining all [] p = p
extract_files extract remaining all (file ∷ files) p =
    let next = extract_files extract remaining all files (after_extract file (extract file) p) in
    if leb remaining p.total_cost then stop_at file all p else next
