-- ===== src/Protocol/Artifacts.antt =====
-- `decodeSatModelArtifact` of shared/result-manifest.ts: the bytes of a model, after a header with its
-- metadata. JSON.parse, after the platform's text decoder, is a parameter; `none` is its exception.
pub mod Contents
use hive_sat.Prelude.{
  ℕ, ◌+◌, ◌/◌, not, ◌||◌, List, [], ◌∷◌, Option, none, some, length, take, drop, ltb, ◌==◌,
  if◌then◌else◌, pos,
}
use hive_sat.Formula.HiveCnf.{has_magic, first_word}
use hive_sat.Protocol.Json.{Json, Fields, fields_of}
use hive_sat.Protocol.Manifest.{
  CommonMetadata, ResultManifest, parse_result_manifest, max_sat_model_artifact_bytes,
  fixed_header_bytes,
}

-- HSMODL01
abbrev pub model_magic : List ℕ
model_magic = 0x48 ∷ 0x53 ∷ 0x4d ∷ 0x4f ∷ 0x44 ∷ 0x4c ∷ 0x30 ∷ 0x31 ∷ []

abbrev pub max_metadata_bytes : ℕ
max_metadata_bytes = 8192

pub record SatModelMetadata : Type 0 where
  pub common : CommonMetadata
  pub variable_count : ℕ

-- The exceptions in the order of the tests, or the metadata and the bitset.
pub data DecodedModel : Type 0 where
  invalid_byte_length invalid_magic invalid_metadata_length not_json invalid_metadata
        mismatched_bitset :
      DecodedModel
  artifact : SatModelMetadata → List ℕ → DecodedModel

-- `{ ...value, kind, artifactId, artifactSha256, artifactBytes }`: the properties that are written
-- here stand before those of the value.
abbrev pub with_placeholders : ℕ → Option Fields → Json
with_placeholders bytes value = Json.object (
    Fields.field "kind" (Json.string "SAT_MODEL_V1") (
      Fields.field "artifactId" (Json.string "placeholder") (
        Fields.field "artifactSha256"
          (Json.string "0000000000000000000000000000000000000000000000000000000000000000")
          (Fields.field "artifactBytes" (Json.integer (pos bytes))
            (elim value [ none ↦ Fields.end | some fields ↦ fields ])))))

-- The tests after the metadata is parsed.
abbrev pub bind_bitset : List ℕ → Option ResultManifest → DecodedModel
bind_bitset bits (some (ResultManifest.sat_model m)) =
    if length bits == (m.variable_count + 7) / 8
    then DecodedModel.artifact (record { common = m.common; variable_count = m.variable_count })
        bits
    else DecodedModel.mismatched_bitset
bind_bitset bits _ = DecodedModel.invalid_metadata

abbrev pub read_metadata : ℕ → List ℕ → Option Json → DecodedModel
read_metadata bytes bits none = DecodedModel.not_json
read_metadata bytes bits (some value) =
    bind_bitset bits
      (parse_result_manifest (some (with_placeholders bytes (fields_of (some value)))))

abbrev pub header_bytes : List ℕ → ℕ
header_bytes bytes = first_word (drop 8 bytes)

-- `decodeSatModelArtifact`
unfoldable pub decode_sat_model_artifact : (List ℕ → Option Json) → List ℕ → DecodedModel
unfolding parse_result_manifest
decode_sat_model_artifact parse bytes =
    let n = header_bytes bytes in
    if ltb (length bytes) fixed_header_bytes || ltb max_sat_model_artifact_bytes (length bytes)
    then DecodedModel.invalid_byte_length
    else if not (has_magic model_magic bytes)
    then DecodedModel.invalid_magic
    else if ltb n 2 || ltb max_metadata_bytes n || ltb (length bytes) (fixed_header_bytes + n)
    then DecodedModel.invalid_metadata_length
    else read_metadata (length bytes) (drop (fixed_header_bytes + n) bytes)
        (parse (take n (drop fixed_header_bytes bytes)))
