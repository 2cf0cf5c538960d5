-- ===== src/Adapters/Registry.antt =====
-- app/adapters/base.py, app/adapters/registry.py and app/adapters/target_registry.py. A registry is a
-- dict by the key of the stack; each has one entry, so the sorted keys are the keys.
use stack_migrate.Base.{
  ℕ, Bool, List, [], ◌∷◌, ◌++◌, Option, none, some, Text, text_discrete, codes, join, lookup, keys,
}
use stack_migrate.Vcs.Paths.{Unicode}
use stack_migrate.Adapters.Source.{DiscoveredFile}
use stack_migrate.Adapters.Springboot.{Directory, discover_files}
use stack_migrate.Adapters.Springboot.Prompt.{extraction_prompt}
use stack_migrate.Adapters.Fastapi.{TargetSynthesisAdapter}
use stack_migrate.Adapters.Notes.{fastapi_synthesis_adapter}
use stack_migrate.Adapters.FastapiTests.{TargetTestAdapter, fastapi_target_adapter}

-- The interface of a source stack, as far as the comprehension node uses it.
pub record SourceAdapter : Type 0 where
  pub discover : Text → Text → Option Directory → List DiscoveredFile
  pub build_extraction_prompt : DiscoveredFile → Text

-- The adapter of a stack, or a ValueError with its text.
pub data Found (A : Type 0) : Type 0 where
  found : A → Found A
  value_error : Text → Found A

abbrev available : List Text → Text
available [] = codes "(none registered)"
available (k ∷ ks) = join (codes ", ") (k ∷ ks)

abbrev or_raise : {A : Type 0} → Text → Text → List Text → Option A → Found A
or_raise what stack_key registered none = value_error (
    codes "No "
    ++ what
    ++ codes " adapter registered for stack '"
    ++ stack_key
    ++ codes "'. Available: "
    ++ available registered)
or_raise what stack_key registered (some a) = found a

-- The body that the three functions share.
unfoldable pub get_adapter : {A : Type 0} → Text → List (Text × A) → Text → Found A
get_adapter what registry stack_key =
    or_raise what stack_key (keys registry) (lookup text_discrete stack_key registry)

abbrev pub springboot_source_adapter : Unicode → SourceAdapter
springboot_source_adapter unicode = record {
  discover = discover_files unicode;
  build_extraction_prompt = extraction_prompt;
}

-- `SOURCE_ADAPTERS`
abbrev pub source_adapters : Unicode → List (Text × SourceAdapter)
source_adapters unicode = (codes "springboot", springboot_source_adapter unicode) ∷ []

-- `TARGET_SYNTHESIS_ADAPTERS`
abbrev pub target_synthesis_adapters : List (Text × TargetSynthesisAdapter)
target_synthesis_adapters = (codes "fastapi", fastapi_synthesis_adapter) ∷ []

unfoldable pub get_source_adapter : Unicode → Text → Found SourceAdapter
get_source_adapter unicode = get_adapter (codes "source") (source_adapters unicode)

unfoldable pub get_target_synthesis_adapter : Text → Found TargetSynthesisAdapter
get_target_synthesis_adapter = get_adapter (codes "target synthesis") target_synthesis_adapters

-- `TARGET_TEST_ADAPTERS`
abbrev pub target_test_adapters : (ℕ → Bool) → List (Text × TargetTestAdapter)
target_test_adapters is_space = (codes "fastapi", fastapi_target_adapter is_space) ∷ []

unfoldable pub get_target_test_adapter : (ℕ → Bool) → Text → Found TargetTestAdapter
get_target_test_adapter is_space = get_adapter (codes "target test") (target_test_adapters is_space)
