-- ===== src/Adapters/Notes.antt =====
-- The notes of app/adapters/fastapi_target/synthesis_adapter.py for the editor, by kind of unit, and
-- the adapter as a whole.
use stack_migrate.Base.{◌++◌, Text, codes}
use stack_migrate.State.{SemanticUnitKind}
use stack_migrate.Adapters.Fastapi.{TargetSynthesisAdapter, fastapi_target_path}

-- `_CONVENTION_NOTES`: every kind has an entry, so the default of `convention_notes` is never used.
unfoldable pub fastapi_notes : SemanticUnitKind → Text
fastapi_notes SemanticUnitKind.endpoint =
    codes
      "- Define an `APIRouter` (or add to the module's existing one) with a sensible `prefix`.\n"
    ++ codes "- Handlers are `async def`, take request data via Pydantic models (body) or typed\n"
    ++ codes "  function parameters (path/query params), and return a Pydantic response model or\n"
    ++ codes "  a plain serializable type.\n"
    ++ codes
        "- Auth requirements become a `Depends(...)` dependency (e.g. `Depends(require_role(\"ADMIN\"))`),\n"
    ++ codes "  never inline logic in the handler body.\n"
    ++ codes "- Raise `HTTPException` for error responses; don't invent a custom error envelope\n"
    ++ codes "  unless the IR's `global_notes` says the source app has one worth preserving."
fastapi_notes SemanticUnitKind.service =
    codes "- A plain async (or sync, if no I/O) function or a small class with injected\n"
    ++ codes "  dependencies passed as constructor/function arguments — not a framework-managed\n"
    ++ codes "  singleton the way Spring `@Service` beans are. FastAPI has no DI container of its\n"
    ++ codes "  own; dependencies are threaded through via `Depends(...)` at the router layer."
fastapi_notes SemanticUnitKind.repository =
    codes "- A function-per-operation module (or small class) using SQLAlchemy (async session)\n"
    ++ codes "  for data access. Each `operations` entry in the IR becomes one function, named\n"
    ++ codes
        "  descriptively (e.g. \"find by email and active true\" -> `find_by_email_and_active`)."
fastapi_notes SemanticUnitKind.data_model =
    codes "- A Pydantic `BaseModel` subclass. Use `Field(...)` for constraints (max length,\n"
    ++ codes
        "  required/optional) rather than custom validators where a Field constraint suffices.\n"
    ++ codes "  Relationships described in plain language become typed references to other schema\n"
    ++ codes "  classes (e.g. \"has many OrderItem\" -> `items: list[OrderItemSchema]`)."
fastapi_notes SemanticUnitKind.middleware =
    codes "- Prefer a FastAPI dependency (`Depends(...)`) over raw ASGI middleware when the\n"
    ++ codes "  behavior is scoped to specific routes (this covers most Spring interceptor/filter\n"
    ++ codes "  cases). Only use actual ASGI middleware for behavior that must apply globally\n"
    ++ codes "  before routing even happens."
fastapi_notes SemanticUnitKind.config =
    codes "- A `pydantic-settings` `BaseSettings` subclass for environment-driven config,\n"
    ++ codes "  or a small module of constructor functions for wiring (FastAPI has no DI\n"
    ++ codes "  container/config-class equivalent to Spring `@Configuration`)."
fastapi_notes SemanticUnitKind.utility =
    codes "- A plain module-level function. No framework coupling expected or desired here."

-- `FastAPITargetSynthesisAdapter`
abbrev pub fastapi_synthesis_adapter : TargetSynthesisAdapter
fastapi_synthesis_adapter = record {
  suggest_target_path = fastapi_target_path;
  convention_notes = fastapi_notes;
}
