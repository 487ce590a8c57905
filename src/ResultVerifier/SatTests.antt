-- ===== src/ResultVerifier/SatTests.antt =====
-- A run of `verifySatOnce` of worker/result-verifier.ts, with streams that are not compressed.
use Prim.Native.String.{String}
use hive_sat.Prelude.{
  ℕ, ◌≡◌, refl, Option, some, none, List, [], ◌∷◌, pos, length, ◌==◌, if◌then◌else◌,
}
use hive_sat.Formula.HiveCnf.{read_words, read_clauses}
use hive_sat.Protocol.Json.{
  Json, Items, Fields, ◌>>=◌, ◌>>◌, guard, fields_of, property, bounded_integer, id_of, sha256_of,
  text_of, is_id, is_sha256, is_version, one_of, literal_of, array_of, elements, each,
}
use hive_sat.Protocol.Manifest.{
  CommonMetadata, parse_result_manifest, common_metadata, cube_of, manifest_of_kind, model_manifest,
}
use hive_sat.Protocol.Artifacts.{decode_sat_model_artifact, model_magic}
use hive_sat.ResultVerifier.{
  collect_bounded, equal_cube, decode_formula, check_model, check_cube, truth, check_clauses,
  check_clause, valid_sat,
}
use hive_sat.ResultVerifier.SatOnce.{
  VerifySatInput, read_hashed_formula, check_artifact, verify_sat_once,
}
use hive_sat.ResultVerifier.SatOnce.Verified.{Verified, verify_sat_once-Verified}

-- The formula (1 or 2) and not 1.
abbrev choice_words : List ℕ
choice_words =
    0x48 ∷ 0x49 ∷ 0x56 ∷ 0x45 ∷ 0x43 ∷ 0x4e ∷ 0x46 ∷ 0x31 ∷ 2 ∷ 0 ∷ 0 ∷ 0 ∷ 2 ∷ 0 ∷ 0 ∷ 0 ∷ 3 ∷ 0
    ∷ 0 ∷ 0 ∷ 1 ∷ 0 ∷ 0 ∷ 0 ∷ 2 ∷ 0 ∷ 0 ∷ 0 ∷ 0 ∷ 0 ∷ 0 ∷ 0 ∷ 255 ∷ 255 ∷ 255 ∷ 255 ∷ 0 ∷ 0 ∷ 0 ∷ 0
    ∷ []

abbrev digest : String
digest = "0123456789abcdef0123456789abcdef0123456789abcdef0123456789abcdef"

abbrev one_digest : List ℕ → String
one_digest bytes = digest

-- A stream whose chunks are as they are.
abbrev stored : List (List ℕ) → Option (List (List ℕ))
stored chunks = some chunks

abbrev choice_common : CommonMetadata
choice_common = record {
  formula_hash = digest;
  task_id = "leaf";
  cube = pos 2 ∷ [];
  path_hash = digest;
  solver_version = "cadical-3.0.1";
}

abbrev choice_fields : Fields
choice_fields = Fields.field "version" (Json.integer (pos 1)) (
    Fields.field "formulaHash" (Json.string digest) (
      Fields.field "taskId" (Json.string "leaf") (
        Fields.field "cube" (Json.array (Items.item (Json.integer (pos 2)) Items.nil)) (
          Fields.field "pathHash" (Json.string digest) (
            Fields.field "solverVersion" (Json.string "cadical-3.0.1")
              (Fields.field "variableCount" (Json.integer (pos 2)) Fields.end))))))

-- A parser that knows one text of two bytes.
abbrev parse_choice : List ℕ → Option Json
parse_choice text = if length text == 2 then some (Json.object choice_fields) else none

-- The model makes 2 alone true; the artifact comes in two chunks.
abbrev choice_input : VerifySatInput
choice_input = record {
  formula_stream = choice_words ∷ [];
  model_stream = model_magic ∷ (2 ∷ 0 ∷ 0 ∷ 0 ∷ 123 ∷ 125 ∷ 2 ∷ []) ∷ [];
  manifest = record {
    common = choice_common;
    artifact_id = "a-1";
    artifact_sha256 = digest;
    artifact_bytes = 15;
    variable_count = 2;
  };
  expected_cube = pos 2 ∷ [];
  expected_variable_count = 2;
  max_literal_checks = none;
}

choice_valid : verify_sat_once one_digest stored parse_choice choice_input ≡ valid_sat 2 4
unfolding verify_sat_once check_artifact read_hashed_formula collect_bounded equal_cube
    decode_formula read_words read_clauses check_model check_cube truth check_clauses check_clause
    decode_sat_model_artifact parse_result_manifest common_metadata cube_of manifest_of_kind
    model_manifest ◌>>=◌ ◌>>◌ guard fields_of property bounded_integer id_of sha256_of text_of is_id
    is_sha256 is_version one_of literal_of array_of elements each
choice_valid = refl

verify_sat_once-Verified_example : Verified one_digest stored parse_choice choice_input
verify_sat_once-Verified_example =
    verify_sat_once-Verified one_digest stored parse_choice choice_input 2 4 choice_valid
