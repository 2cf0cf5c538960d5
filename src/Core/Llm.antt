-- ===== src/Core/Llm.antt =====
-- The clients of app/core/llm.py. What the model library returns is an argument: `include_raw` gives a
-- dict with the parsed answer, which is absent where the answer does not parse, and the raw message,
-- whose usage may be absent. A rate of 3.00 dollars for a million tokens is 3,000 nano-dollars for
-- one, so the division by a million is in the unit. An answer without a result is returned like any
-- other; the node that reads its result then raises an AttributeError, and has no update.
use stack_migrate.Base.{ℕ, ◌+◌, ◌*◌, List, Option, none, some, Text}
use stack_migrate.State.{FileDiff, ErrorAnalysis}
use stack_migrate.Graph.Nodes.Editor.{EditorResponse}
use stack_migrate.Graph.Nodes.ErrorAnalysis.{AnalysisResponse}
use stack_migrate.Graph.Nodes.Comprehension.{RawExtractedUnit, ExtractionResponse}

-- Nano-dollars for a token.
pub record Rates : Type 0 where
  pub input_cost : ℕ
  pub output_cost : ℕ

abbrev pub default_rates : Rates
default_rates = record { input_cost = 3_000; output_cost = 15_000 }

-- `usage_metadata`, with the two keys that are read.
pub record Usage : Type 0 where
  pub input_tokens : Option ℕ
  pub output_tokens : Option ℕ

pub record RawAnswer (R : Type 0) : Type 0 where
  pub parsed : Option R
  pub usage_metadata : Option Usage

-- The three response classes have these fields.
pub record Answer (R : Type 0) : Type 0 where
  pub result : Option R
  pub cost_usd : ℕ
  pub input_tokens : ℕ
  pub output_tokens : ℕ

pub record FileExtractionResult : Type 0 where
  pub units : List RawExtractedUnit
  pub ambiguities : List Text

pub record EditorGenerationResult : Type 0 where
  pub files : List FileDiff
  pub notes : Text

pub record ErrorAnalysisResult : Type 0 where
  pub analyses : List ErrorAnalysis
  pub unattributable_summary : Text

-- `usage.get(key, 0)`
unfoldable pub get_tokens : Option ℕ → ℕ
get_tokens none = 0
get_tokens (some n) = n

-- `usage_metadata or {}`
unfoldable pub usage_of : Option Usage → Usage
usage_of none = record { input_tokens = none; output_tokens = none }
usage_of (some u) = u

unfoldable pub call_cost : Rates → (input_tokens output_tokens : ℕ) → ℕ
call_cost rates i o = i * rates.input_cost + o * rates.output_cost

-- The body that `extract`, `generate` and `analyze` share, after the call.
unfoldable pub answer_of_raw : {R : Type 0} → Rates → RawAnswer R → Answer R
answer_of_raw rates raw =
    let usage = usage_of raw.usage_metadata in
    let i = get_tokens usage.input_tokens in
    let o = get_tokens usage.output_tokens in
    record {
      result = raw.parsed;
      cost_usd = call_cost rates i o;
      input_tokens = i;
      output_tokens = o;
    }

abbrev with_units :
    Answer FileExtractionResult → Option FileExtractionResult → Option ExtractionResponse
with_units a none = none
with_units a (some r) = some (record {
  units = r.units;
  ambiguities = r.ambiguities;
  cost_usd = a.cost_usd;
  input_tokens = a.input_tokens;
  output_tokens = a.output_tokens;
})

-- `ExtractionClient.extract`, as far as the comprehension node can read it.
unfoldable pub extract : Rates → RawAnswer FileExtractionResult → Option ExtractionResponse
extract rates raw = with_units (answer_of_raw rates raw) raw.parsed

abbrev with_files :
    Answer EditorGenerationResult → Option EditorGenerationResult → Option EditorResponse
with_files a none = none
with_files a (some r) = some (record {
  files = r.files;
  notes = r.notes;
  cost_usd = a.cost_usd;
  input_tokens = a.input_tokens;
  output_tokens = a.output_tokens;
})

-- `EditorClient.generate`, as far as the editor node can read it.
unfoldable pub generate : Rates → RawAnswer EditorGenerationResult → Option EditorResponse
generate rates raw = with_files (answer_of_raw rates raw) raw.parsed

abbrev with_analyses :
    Answer ErrorAnalysisResult → Option ErrorAnalysisResult → Option AnalysisResponse
with_analyses a none = none
with_analyses a (some r) = some (record {
  analyses = r.analyses;
  unattributable_summary = r.unattributable_summary;
  cost_usd = a.cost_usd;
  input_tokens = a.input_tokens;
  output_tokens = a.output_tokens;
})

-- `ErrorAnalysisClient.analyze`, as far as the error analysis node can read it.
unfoldable pub analyze : Rates → RawAnswer ErrorAnalysisResult → Option AnalysisResponse
analyze rates raw = with_analyses (answer_of_raw rates raw) raw.parsed
