-- ===== src/Protocol/ArtifactTests.antt =====
-- The decoding of model artifacts (shared/result-manifest.ts) at concrete bytes.
use Prim.Native.String.{String}
use hive_sat.Prelude.{
  ℕ, ◌≡◌, refl, Bool, some, none, Option, List, [], ◌∷◌, pos, length, ◌==◌, ◌++◌, if◌then◌else◌,
  arith,
}
use hive_sat.ResultVerifier.{bitset_value}
use hive_sat.Protocol.Json.{
  Json, Items, Fields, ◌>>=◌, ◌>>◌, guard, fields_of, property, bounded_integer, id_of, sha256_of,
  text_of, is_id, is_sha256, is_version, one_of, literal_of, array_of, elements, each,
}
use hive_sat.Protocol.Manifest.{
  parse_result_manifest, common_metadata, cube_of, manifest_of_kind, model_manifest,
}
use hive_sat.Protocol.Artifacts.{
  SatModelMetadata, DecodedModel, decode_sat_model_artifact, model_magic,
}
use hive_sat.Protocol.Artifacts.Contents.{
  IsDecoded, decode_sat_model_artifact-IsDecoded, bitset_value-decoded,
}

abbrev hash : String
hash = "0123456789abcdef0123456789abcdef0123456789abcdef0123456789abcdef"

-- The model of two variables, with the second alone true, for the cube of the literal 2.
abbrev leaf : SatModelMetadata
leaf = record {
  common = record {
    formula_hash = hash;
    task_id = "leaf";
    cube = pos 2 ∷ [];
    path_hash = hash;
    solver_version = "cadical-3.0.1";
  };
  variable_count = 2;
}

abbrev leaf_fields : Fields
leaf_fields = Fields.field "version" (Json.integer (pos 1)) (
    Fields.field "formulaHash" (Json.string hash) (
      Fields.field "taskId" (Json.string "leaf") (
        Fields.field "cube" (Json.array (Items.item (Json.integer (pos 2)) Items.nil)) (
          Fields.field "pathHash" (Json.string hash) (
            Fields.field "solverVersion" (Json.string "cadical-3.0.1")
              (Fields.field "variableCount" (Json.integer (pos 2)) Fields.end))))))

-- A parser that knows one text of two bytes.
abbrev parse_leaf : List ℕ → Option Json
parse_leaf text = if length text == 2 then some (Json.object leaf_fields) else none

abbrev leaf_bytes : List ℕ
leaf_bytes = model_magic ++ 2 ∷ 0 ∷ 0 ∷ 0 ∷ 123 ∷ 125 ∷ 2 ∷ []

leaf_decoded : decode_sat_model_artifact parse_leaf leaf_bytes ≡ DecodedModel.artifact leaf (2 ∷ [])
unfolding decode_sat_model_artifact parse_result_manifest common_metadata cube_of manifest_of_kind
    model_manifest ◌>>=◌ ◌>>◌ guard fields_of property bounded_integer id_of sha256_of text_of is_id
    is_sha256 is_version one_of literal_of array_of elements each
leaf_decoded = refl

-- A second byte of bits for two variables.
spare_byte :
    decode_sat_model_artifact parse_leaf (leaf_bytes ++ 0 ∷ []) ≡ DecodedModel.mismatched_bitset
unfolding decode_sat_model_artifact parse_result_manifest common_metadata cube_of manifest_of_kind
    model_manifest ◌>>=◌ ◌>>◌ guard fields_of property bounded_integer id_of sha256_of text_of is_id
    is_sha256 is_version one_of literal_of array_of elements each
spare_byte = refl

decode_sat_model_artifact-IsDecoded_example :
    IsDecoded leaf_bytes (decode_sat_model_artifact parse_leaf leaf_bytes)
decode_sat_model_artifact-IsDecoded_example =
    decode_sat_model_artifact-IsDecoded parse_leaf leaf_bytes

bitset_value-decoded_example : (b : Bool) × (bitset_value (2 ∷ []) 2 ≡ some b)
bitset_value-decoded_example =
    bitset_value-decoded parse_leaf leaf_bytes leaf (2 ∷ []) 2 leaf_decoded (omega arith)
      (omega arith)
