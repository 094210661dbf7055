-- ===== src/Schema/Encoder.antt =====
-- packages/stellar-sdk/src/common/schemaEncoder.ts: the constructor of `SorobanSchemaEncoder`, `toXDR`
-- and `fromXDR`. `none` stands for the error that they throw.
use Prim.Native.String.{String, len, slice}
use text.Mathlib.Text.{starts_with}
use attest_so.Prelude.{ℕ, Bool, Option, none, some, ◌&◌, if◌then◌else◌, ◌>>=◌}
use attest_so.Schema.Types.{SchemaDefinition, validate_schema, ScVal}
use attest_so.Schema.Xdr.{schema_to_xdr}
use attest_so.Schema.Decode.{schema_from_xdr}

-- The XDR library, and whether Ajv compiles the JSON schema of a definition. `to_base64` is none where
-- the library throws instead of writing a value. `i128_text` is the text that `toString` gives of
-- the `Int128Parts` with the two halves.
pub record Codec : Type 0 where
  pub to_base64 : ScVal → Option String
  pub from_base64 : String → Option ScVal
  pub i128_text : ℕ → ℕ → String
  pub compiles : SchemaDefinition → Bool

-- An encoder is its schema.
unfoldable pub new_encoder : Codec → SchemaDefinition → Option SchemaDefinition
new_encoder codec s = elim (validate_schema s) [
  | some message ↦ none
  | none ↦ if codec.compiles s then some s else none
]

unfoldable pub to_xdr : Codec → SchemaDefinition → Option String
to_xdr codec s = do value ← schema_to_xdr s; text ← codec.to_base64 value; some ("XDR:" & text)

unfoldable pub from_xdr : Codec → String → Option SchemaDefinition
from_xdr codec text =
    let read : Option SchemaDefinition =
      codec.from_base64 (slice text 4 (len text))
      >>= (λ value. schema_from_xdr codec.i128_text value >>= λ s. new_encoder codec s) in
    if starts_with text "XDR:" then read else none
