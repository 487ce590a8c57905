-- ===== src/ResultVerifier/SatOnce.antt =====
-- `verifySatOnce` of worker/result-verifier.ts. The digest, the decompression and the parser of JSON are
-- those of the platform.
pub mod Verified
use Prim.Native.String.{String}
use hive_sat.Prelude.{
  ℕ, not, ◌&&◌, ◌||◌, Bool, List, Option, none, some, length, ◌==◌, ℤ, if◌then◌else◌,
}
use hive_sat.Limits.{max_encoded_formula_bytes}
use hive_sat.Protocol.Json.{Json, same_text}
use hive_sat.Protocol.Manifest.{SatResultManifest, max_sat_model_artifact_bytes}
use hive_sat.Protocol.Artifacts.{SatModelMetadata, DecodedModel, decode_sat_model_artifact}
use hive_sat.ResultVerifier.{
  DecodedFormula, SatOutcome, invalid_formula, invalid_model, collect_bounded, equal_cube,
  decode_formula, check_model, max_literal_checks, or_else,
}

pub record VerifySatInput : Type 0 where
  pub formula_stream : List (List ℕ)
  pub model_stream : List (List ℕ)
  pub manifest : SatResultManifest
  pub expected_cube : List ℤ
  pub expected_variable_count : ℕ
  pub max_literal_checks : Option ℕ

-- The metadata are those of the manifest and of the leased cube.
abbrev pub is_bound : VerifySatInput → SatModelMetadata → Bool
is_bound i m =
    same_text m.common.formula_hash i.manifest.common.formula_hash
    && same_text m.common.task_id i.manifest.common.task_id
    && same_text m.common.path_hash i.manifest.common.path_hash
    && same_text m.common.solver_version i.manifest.common.solver_version
    && m.variable_count == i.manifest.variable_count
    && equal_cube m.common.cube i.manifest.common.cube
    && equal_cube m.common.cube i.expected_cube
    && m.variable_count == i.expected_variable_count

module _ (sha256 : List ℕ → String) (gunzip : List (List ℕ) → Option (List (List ℕ)))
    (parse : List ℕ → Option Json) where
  -- The formula of a stream, if it decompresses within the limit, has the hash and decodes.
  unfoldable pub read_hashed_formula : String → List (List ℕ) → Option DecodedFormula
  unfolding collect_bounded decode_formula
  read_hashed_formula hash stream = elim (gunzip stream) [
    | none ↦ none
    | some chunks ↦ elim (collect_bounded max_encoded_formula_bytes 0 chunks) [
      | none ↦ none
      | some bs ↦ if same_text (sha256 bs) hash then decode_formula bs else none
    ]
  ]

  -- `verifySatOnce` from the decoded artifact on.
  unfoldable pub check_artifact : VerifySatInput → DecodedModel → SatOutcome
  unfolding read_hashed_formula check_model equal_cube
  check_artifact i (DecodedModel.artifact m bits) =
      if not (is_bound i m)
      then invalid_model
      else elim (read_hashed_formula i.manifest.common.formula_hash i.formula_stream) [
        | none ↦ invalid_formula
        | some f ↦
            check_model m.variable_count bits i.expected_cube f
              (or_else i.max_literal_checks max_literal_checks)
      ]
  check_artifact i _ = invalid_model

  -- `verifySatOnce`
  unfoldable pub verify_sat_once : VerifySatInput → SatOutcome
  unfolding collect_bounded decode_sat_model_artifact check_artifact
  verify_sat_once i = elim (collect_bounded max_sat_model_artifact_bytes 0 i.model_stream) [
    | none ↦ invalid_model
    | some bytes ↦
        if not (length bytes == i.manifest.artifact_bytes)
          || not (same_text (sha256 bytes) i.manifest.artifact_sha256)
        then invalid_model
        else check_artifact i (decode_sat_model_artifact parse bytes)
  ]
