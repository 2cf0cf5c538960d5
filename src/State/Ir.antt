-- ===== src/State/Ir.antt =====
-- app/graph/state/ir.py. A payload of a unit is one of the five models or a free-form dict, which
-- the pipeline only hands on: it is kept as the text that describes it. `stack_specific_hints` is
-- kept the same way.
use stack_migrate.Base.{List, Option, Text}
use stack_migrate.State.Enums.{SemanticUnitKind}

pub record ParameterSpec : Type 0 where
  pub name : Text
  pub type_description : Text
  pub source_location : Text

pub record FieldSpec : Type 0 where
  pub name : Text
  pub type_description : Text
  pub constraints : List Text

pub record DataModelUnit : Type 0 where
  pub name : Text
  pub description : Text
  pub fields : List FieldSpec
  pub relationships : List Text

pub record EndpointUnit : Type 0 where
  pub name : Text
  pub http_method : Text
  pub path : Text
  pub description : Text
  pub parameters : List ParameterSpec
  pub request_body_model : Option Text
  pub response_model : Option Text
  pub auth_requirement : Option Text
  pub calls_services : List Text
  pub business_logic_summary : Text

pub record ServiceUnit : Type 0 where
  pub name : Text
  pub description : Text
  pub depends_on : List Text
  pub business_logic_summary : Text

pub record RepositoryUnit : Type 0 where
  pub name : Text
  pub description : Text
  pub target_data_model : Text
  pub operations : List Text

pub record MiddlewareUnit : Type 0 where
  pub name : Text
  pub description : Text
  pub trigger_scope : Text
  pub behavior_summary : Text

pub data Payload : Type 0 where
  endpoint_payload : EndpointUnit → Payload
  service_payload : ServiceUnit → Payload
  data_model_payload : DataModelUnit → Payload
  repository_payload : RepositoryUnit → Payload
  middleware_payload : MiddlewareUnit → Payload
  dict_payload : Text → Payload

pub record SemanticUnit : Type 0 where
  pub id : Text
  pub kind : SemanticUnitKind
  pub source_files : List Text
  pub depends_on_unit_ids : List Text
  pub payload : Payload
  pub stack_specific_hints : Text

pub record ComprehensionResult : Type 0 where
  pub source_stack : Text
  pub repo_root : Text
  pub units : List SemanticUnit
  pub global_notes : List Text
  pub unresolved_ambiguities : List Text
