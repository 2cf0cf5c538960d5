-- ===== src/Graph/Nodes/Comprehension/Resolve.antt =====
-- The resolution of references of app/graph/nodes/comprehension.py.
use stack_migrate.Base.{
  List, [], ◌∷◌, ◌++◌, Option, none, some, Text, codes, text_discrete, lookup, ite, set_item,
}
use stack_migrate.State.{
  Payload, endpoint_payload, service_payload, data_model_payload, repository_payload,
  middleware_payload, dict_payload, SemanticUnit,
}
use stack_migrate.Vcs.Paths.{Unicode, lower}
use stack_migrate.Core.Tokens.{find_capitalized_tokens}
use stack_migrate.Graph.Nodes.Comprehension.Extract.{PendingUnit}

-- `[name] if name else []`
abbrev if_given : Option Text → List Text
if_given none = []
if_given (some []) = []
if_given (some (c ∷ s)) = (c ∷ s) ∷ []

module _ (unicode : Unicode) where
  unfoldable pub tokens_of : List Text → List Text
  tokens_of [] = []
  tokens_of (r ∷ rs) = find_capitalized_tokens unicode r ++ tokens_of rs

  unfoldable pub referenced_names : Payload → List Text
  referenced_names (endpoint_payload p) =
      p.calls_services ++ if_given p.request_body_model ++ if_given p.response_model
  referenced_names (service_payload p) = p.depends_on
  referenced_names (repository_payload p) = p.target_data_model ∷ []
  referenced_names (data_model_payload p) = tokens_of p.relationships
  referenced_names (middleware_payload p) = []
  referenced_names (dict_payload t) = []

  -- `if key not in name_to_id: name_to_id[key] = id`, from what the table has for the key.
  abbrev pub entered : Option Text → Text → Text → List (Text × Text) → List (Text × Text)
  entered none key id d = set_item text_discrete key id d
  entered (some old) key id d = d

  -- `name_to_id`: the first unit of a name keeps it.
  unfoldable pub name_table : List PendingUnit → List (Text × Text) → List (Text × Text)
  name_table [] d = d
  name_table (p ∷ ps) d =
      let key = lower unicode p.raw.name in
      name_table ps (entered (lookup text_discrete key d) key p.assigned_id d)

  abbrev pub not_found : Text → Text → List Text
  not_found unit [] = []
  not_found unit (c ∷ ref) =
      (codes "'"
        ++ unit
        ++ codes "' references '"
        ++ c ∷ ref
        ++ codes
            "', which was not found among analyzed units (likely outside the migration scope, or a built-in/library type).")
      ∷ []

  -- One reference, from what the table has for it, before what the later ones give.
  abbrev pub resolve_ref : Option Text → Text → Text → List Text × List Text → List Text × List Text
  resolve_ref none unit ref (deps, notes) = (deps, not_found unit ref ++ notes)
  resolve_ref (some id) unit ref (deps, notes) =
      ite (text_discrete id unit) (deps, not_found unit ref ++ notes) (id ∷ deps, notes)

  -- The dependencies of a unit, and the references that are no unit's.
  unfoldable pub resolve_refs : List (Text × Text) → Text → List Text → List Text × List Text
  resolve_refs table unit [] = ([], [])
  resolve_refs table unit (ref ∷ refs) =
      resolve_ref (lookup text_discrete (lower unicode ref) table) unit ref
        (resolve_refs table unit refs)

  unfoldable pub resolve_unit : List (Text × Text) → PendingUnit → SemanticUnit
  resolve_unit table p = record {
    id = p.assigned_id;
    kind = p.raw.kind;
    source_files = p.source_relative_path ∷ [];
    depends_on_unit_ids = (resolve_refs table p.assigned_id (referenced_names p.raw.payload)).0;
    payload = p.raw.payload;
    stack_specific_hints = p.raw.stack_specific_hints;
  }

  unfoldable pub resolve_units :
      List (Text × Text) → List PendingUnit → List SemanticUnit × List Text
  resolve_units table [] = ([], [])
  resolve_units table (p ∷ ps) =
      let (units, notes) = resolve_units table ps in
      (
        resolve_unit table p ∷ units,
        (resolve_refs table p.assigned_id (referenced_names p.raw.payload)).1 ++ notes,
      )
