-- ===== src/Execution/Tools/Results.antt =====
-- The bounds and the stored form of a tool's result: `clipToolOutput`, `boundErrorMessage`,
-- `encodeToolResult` and `decodeToolResult` of backend/domain/toolruntime/runtime.go.
use Prim.Native.String.{◌++◌ as ◌<>◌}
use magi_system.Prelude.{
  ℕ, String, Option, none, some, ltb, leb, str_eq, decimal, if◌then◌else◌, ◌||◌,
}
use magi_system.Evidence.SourceUri.{byte_count, find_cut, prefix_bytes}

-- A structured payload: none, one with its JSON text, or one that JSON cannot encode.
pub data Structured : Type 0 where
  no_structured unencodable : Structured
  encodable : String → Structured

pub record ToolExecutionResult : Type 0 where
  pub output : String
  pub structured : Structured
  pub source_uri : String

abbrev pub default_tool_output_max_bytes : ℕ
default_tool_output_max_bytes = 32768

abbrev pub default_tool_error_max_bytes : ℕ
default_tool_error_max_bytes = 4096

-- `outputTruncationMarker`
unfoldable pub output_truncation_marker : ℕ → String
unfolding decimal
output_truncation_marker max = "\n[output truncated: exceeded " <> decimal max <> " bytes]"

-- The longest valid prefix within the bound, and the marker.
unfoldable pub clip_text : String → ℕ → String
unfolding find_cut prefix_bytes output_truncation_marker
clip_text s max = prefix_bytes s (find_cut s max) <> output_truncation_marker max

unfoldable pub clip_structured : ℕ → Structured → Structured
unfolding byte_count
clip_structured max no_structured = no_structured
clip_structured max unencodable = no_structured
clip_structured max (encodable text) =
    if ltb max (byte_count text) then no_structured else encodable text

-- `clipToolOutput`; a bound of 0, or a negative one, leaves the result as it is.
unfoldable pub clip_tool_output : ToolExecutionResult → ℕ → ToolExecutionResult
unfolding byte_count clip_text clip_structured
clip_tool_output r max =
    if leb max 0 || leb (byte_count r.output) max
    then r
    else record r { output = clip_text r.output max; structured = clip_structured max r.structured }

-- `boundErrorMessage`, on the error's text; a bound of 0 or a negative one leaves it as it is.
unfoldable pub bound_error_message : String → ℕ → String
unfolding byte_count clip_text
bound_error_message text max =
    if leb max 0 || leb (byte_count text) max then text else clip_text text max

-- `persistedToolResult`; a missing member of the JSON text is `none`.
pub record PersistedToolResult : Type 0 where
  pub version : String
  pub output : String
  pub structured : Option String
  pub source_uri : String

pub record ResultCodec : Type 0 where
  pub encode : PersistedToolResult → Option String
  pub decode : String → Option PersistedToolResult

abbrev pub encoded_structured : Structured → Option String
encoded_structured (encodable text) = some text
encoded_structured _ = none

abbrev pub decoded_structured : Option String → Structured
decoded_structured none = no_structured
decoded_structured (some text) = encodable text

abbrev pub persisted : ToolExecutionResult → PersistedToolResult
persisted r = record {
  version = "tool-runtime:v1";
  output = r.output;
  structured = encoded_structured r.structured;
  source_uri = r.source_uri;
}

unfoldable pub encode_tool_result : ResultCodec → ToolExecutionResult → String
encode_tool_result codec r = elim (codec.encode (persisted r)) [
  | none ↦ r.output
  | some text ↦ text
]

abbrev plain_result : String → ToolExecutionResult
plain_result text = record { output = text; structured = no_structured; source_uri = "" }

unfoldable pub decode_tool_result : ResultCodec → String → ToolExecutionResult
decode_tool_result codec text = elim (codec.decode text) [
  | none ↦ plain_result text
  | some p ↦
      if str_eq p.version "tool-runtime:v1"
      then record {
        output = p.output;
        structured = decoded_structured p.structured;
        source_uri = p.source_uri;
      }
      else plain_result text
]
