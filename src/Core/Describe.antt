-- ===== src/Core/Describe.antt =====
-- app/core/ir_describe.py. A dict payload stands for its own text.
use stack_migrate.Base.{List, [], ◌∷◌, ◌++◌, map, Option, none, some, Text, codes, join}
use stack_migrate.State.{
  SemanticUnit, Payload, endpoint_payload, service_payload, data_model_payload, repository_payload,
  middleware_payload, dict_payload, ParameterSpec, FieldSpec,
}

-- `text or "none"`
abbrev or_none : Text → Text
or_none [] = codes "none"
or_none (c ∷ s) = c ∷ s

abbrev opt_or_none : Option Text → Text
opt_or_none none = codes "none"
opt_or_none (some t) = or_none t

abbrev comma : Text
comma = codes ", "

abbrev semicolon : Text
semicolon = codes "; "

unfoldable pub describe_parameter : ParameterSpec → Text
describe_parameter p =
    p.name ++ codes " (" ++ p.type_description ++ comma ++ p.source_location ++ codes ")"

abbrev constraints_suffix : List Text → Text
constraints_suffix [] = []
constraints_suffix (c ∷ cs) = codes " [" ++ join comma (c ∷ cs) ++ codes "]"

unfoldable pub describe_field : FieldSpec → Text
describe_field f = f.name ++ codes ": " ++ f.type_description ++ constraints_suffix f.constraints

unfoldable pub describe_payload : Payload → Text
describe_payload (endpoint_payload p) =
    p.http_method
    ++ codes " "
    ++ p.path
    ++ codes " — "
    ++ p.description
    ++ codes "\n    Parameters: "
    ++ or_none (join comma (map describe_parameter p.parameters))
    ++ codes "\n    Request body: "
    ++ opt_or_none p.request_body_model
    ++ codes "; Response: "
    ++ opt_or_none p.response_model
    ++ codes "\n    Auth: "
    ++ opt_or_none p.auth_requirement
    ++ codes "\n    Logic: "
    ++ p.business_logic_summary
describe_payload (service_payload p) =
    codes "Service '"
    ++ p.name
    ++ codes "' — "
    ++ p.description
    ++ codes "\n    Depends on: "
    ++ or_none (join comma p.depends_on)
    ++ codes "\n    Logic: "
    ++ p.business_logic_summary
describe_payload (repository_payload p) =
    codes "Repository '"
    ++ p.name
    ++ codes "' for '"
    ++ p.target_data_model
    ++ codes "' — "
    ++ p.description
    ++ codes "\n    Operations: "
    ++ or_none (join semicolon p.operations)
describe_payload (data_model_payload p) =
    codes "Data model '"
    ++ p.name
    ++ codes "' — "
    ++ p.description
    ++ codes "\n    Fields: "
    ++ or_none (join semicolon (map describe_field p.fields))
    ++ codes "\n    Relationships: "
    ++ or_none (join semicolon p.relationships)
describe_payload (middleware_payload p) =
    codes "Middleware '"
    ++ p.name
    ++ codes "' (scope: "
    ++ p.trigger_scope
    ++ codes ") — "
    ++ p.behavior_summary
describe_payload (dict_payload t) = t

unfoldable pub describe_unit : SemanticUnit → Text
describe_unit unit = codes "[" ++ unit.id ++ codes "] " ++ describe_payload unit.payload
