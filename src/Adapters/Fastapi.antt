-- ===== src/Adapters/Fastapi.antt =====
-- app/adapters/target_synthesis_base.py and the path convention of
-- app/adapters/fastapi_target/synthesis_adapter.py.
use stack_migrate.Base.{
  ℕ, Bool, true, false, List, [], ◌∷◌, ◌++◌, Option, none, some, Text, codes, split_on, last_of,
  join, ite, text_discrete, if◌then◌else◌,
}
use stack_migrate.State.{
  SemanticUnit, SemanticUnitKind, Payload, endpoint_payload, service_payload, data_model_payload,
  repository_payload, middleware_payload, dict_payload,
}
use stack_migrate.Core.Slug.{slugify}

-- The interface of a target stack: where a unit goes, and the notes for its kind.
pub record TargetSynthesisAdapter : Type 0 where
  pub suggest_target_path : SemanticUnit → Text
  pub convention_notes : SemanticUnitKind → Text

-- `_KIND_TO_DIR`
unfoldable pub kind_to_dir : SemanticUnitKind → Text
kind_to_dir SemanticUnitKind.endpoint = codes "app/routers"
kind_to_dir SemanticUnitKind.service = codes "app/services"
kind_to_dir SemanticUnitKind.repository = codes "app/repositories"
kind_to_dir SemanticUnitKind.data_model = codes "app/schemas"
kind_to_dir SemanticUnitKind.middleware = codes "app/middleware"
kind_to_dir SemanticUnitKind.config = codes "app/core"
kind_to_dir SemanticUnitKind.utility = codes "app/utils"

-- `getattr(payload, "name", default)`: a dict has no such attribute.
unfoldable pub payload_name : Payload → Option Text
payload_name (endpoint_payload p) = some p.name
payload_name (service_payload p) = some p.name
payload_name (data_model_payload p) = some p.name
payload_name (repository_payload p) = some p.name
payload_name (middleware_payload p) = some p.name
payload_name (dict_payload t) = none

-- `s.rsplit(sep, 1)[-1]`
unfoldable pub after_last : ℕ → Text → Text
after_last sep s = let (first, rest) = split_on sep s in last_of first rest

abbrev butlast : Text → List Text → List Text
butlast t [] = []
butlast t (u ∷ us) = t ∷ butlast u us

abbrev joined_or : Text → ℕ → List Text → Text
joined_or s sep [] = s
joined_or s sep (t ∷ ts) = join (sep ∷ []) (t ∷ ts)

-- `s.rsplit(sep, 1)[0]`: all of a text without a separator.
unfoldable pub before_last : ℕ → Text → Text
before_last sep s = let (first, rest) = split_on sep s in joined_or s sep (butlast first rest)

-- The text without its last `len("Controller")` characters, if it ends so.
unfoldable pub drop_controller : Text → Text
drop_controller [] = []
drop_controller (c ∷ s) =
    ite (text_discrete (c ∷ s) (codes "Controller")) [] (c ∷ drop_controller s)

abbrev or_else : Text → Text → Text
or_else [] d = d
or_else (c ∷ s) d = c ∷ s

abbrev is_endpoint : SemanticUnitKind → Bool
is_endpoint SemanticUnitKind.endpoint = true
is_endpoint _ = false

abbrev router_name : Text → List Text → Text
router_name name [] = slugify name
router_name name (f ∷ fs) =
    or_else (slugify (drop_controller (before_last b'.' (after_last b'/' f)))) (codes "router")

unfoldable pub module_name_for : SemanticUnit → Text → Text
module_name_for unit name =
    if is_endpoint unit.kind then router_name name unit.source_files else slugify name

abbrev name_or : Option Text → Text → Text
name_or none d = d
name_or (some n) d = or_else n d

unfoldable pub fastapi_target_path : SemanticUnit → Text
fastapi_target_path unit =
    kind_to_dir unit.kind
    ++ codes "/"
    ++ module_name_for unit (name_or (payload_name unit.payload) unit.id)
    ++ codes ".py"
