-- ===== src/ResultVerifier/SatOnce/Verified.antt =====
-- What VALID_SAT of `verifySatOnce` in worker/result-verifier.ts says.
use Prim.Native.String.{String}
use hive_sat.Prelude.{
  ◌==◌, ◌||◌, refl, length, not, inr, inl, Bool-cases, Option-cases, ℕ, ◌≡◌, true, List, Option,
  some,
}
use hive_sat.Cnf.{formula_true, cube_true}
use hive_sat.Limits.{max_encoded_formula_bytes}
use hive_sat.Protocol.Json.{Json, same_text}
use hive_sat.Protocol.Manifest.{max_sat_model_artifact_bytes}
use hive_sat.Protocol.Artifacts.{DecodedModel, decode_sat_model_artifact}
use hive_sat.ResultVerifier.{
  max_literal_checks, or_else, valid_sat, DecodedFormula, collect_bounded, decode_formula,
}
use hive_sat.ResultVerifier.Models.{check_model_sound, valuation_of}
use hive_sat.ResultVerifier.SatOnce.{
  is_bound, read_hashed_formula, check_artifact, verify_sat_once, VerifySatInput,
}

module _ (sha256 : List ℕ → String) (gunzip : List (List ℕ) → Option (List (List ℕ)))
    (parse : List ℕ → Option Json) (i : VerifySatInput) where
  -- The formula of the input has a model for the expected cube.
  abbrev pub Verified : Type 0
  Verified =
      (chunks : List (List ℕ)) × (bytes : List ℕ) × (f : DecodedFormula) × (bits : List ℕ) × (gunzip
          i.formula_stream
        ≡ some chunks)
      × (collect_bounded max_encoded_formula_bytes 0 chunks ≡ some bytes)
      × (same_text (sha256 bytes) i.manifest.common.formula_hash ≡ true)
      × (decode_formula bytes ≡ some f)
      × (formula_true (valuation_of bits) f.clauses ≡ true)
      × (cube_true (valuation_of bits) i.expected_cube ≡ true)

  check_artifact-Verified :
      (d : DecodedModel) (clauses literals : ℕ)
      → check_artifact sha256 gunzip parse i d ≡ valid_sat clauses literals
      → Verified
  unfolding check_artifact read_hashed_formula
  check_artifact-Verified DecodedModel.invalid_byte_length clauses literals = λ h. cc
  check_artifact-Verified DecodedModel.invalid_magic clauses literals = λ h. cc
  check_artifact-Verified DecodedModel.invalid_metadata_length clauses literals = λ h. cc
  check_artifact-Verified DecodedModel.not_json clauses literals = λ h. cc
  check_artifact-Verified DecodedModel.invalid_metadata clauses literals = λ h. cc
  check_artifact-Verified DecodedModel.mismatched_bitset clauses literals = λ h. cc
  check_artifact-Verified (DecodedModel.artifact m bits) clauses literals =
      elim (Bool-cases (is_bound i m)) [
        | inr a ↦ rw a (λ h. cc)
        | inl a ↦ elim (Option-cases (gunzip i.formula_stream)) [
          | inl b ↦ rw (a, b) (λ h. cc)
          | inr (chunks, b) ↦
              elim (Option-cases (collect_bounded max_encoded_formula_bytes 0 chunks)) [
                | inl c ↦ rw (a, b, c) (λ h. cc)
                | inr (bytes, c) ↦
                    elim (Bool-cases (same_text (sha256 bytes) i.manifest.common.formula_hash)) [
                      | inr d ↦ rw (a, b, c, d) (λ h. cc)
                      | inl d ↦ elim (Option-cases (decode_formula bytes)) [
                        | inl e ↦ rw (a, b, c, d, e) (λ h. cc)
                        | inr (f, e) ↦
                            rw (a, b, c, d, e)
                              λ h.
                                let sound =
                                  check_model_sound m.variable_count bits i.expected_cube f
                                    (or_else i.max_literal_checks max_literal_checks) clauses
                                    literals h in
                                (chunks, bytes, f, bits, refl, c, d, e, sound.0, sound.1)
                      ]
                    ]
              ]
        ]
      ]

  -- If `verifySatOnce` answers VALID_SAT, whatever its budget, then its formula stream decompresses
  -- within the byte limit to bytes that have the manifest's hash and decode to a formula, and a
  -- valuation that a bitset gives makes all the clauses of that formula and the expected cube true.
  pub verify_sat_once-Verified :
      (clauses literals : ℕ)
      → verify_sat_once sha256 gunzip parse i ≡ valid_sat clauses literals
      → Verified
  unfolding verify_sat_once
  verify_sat_once-Verified clauses literals =
      elim (Option-cases (collect_bounded max_sat_model_artifact_bytes 0 i.model_stream)) [
        | inl a ↦ rw (a, verify_sat_once) (λ h. cc)
        | inr (bytes, a) ↦
            elim (Bool-cases (
              not (length bytes == i.manifest.artifact_bytes)
              || not (same_text (sha256 bytes) i.manifest.artifact_sha256))) [
                | inl b ↦ rw (a, b, verify_sat_once) (λ h. cc)
                | inr b ↦
                    rw (a, b, verify_sat_once)
                      (check_artifact-Verified (decode_sat_model_artifact parse bytes) clauses
                        literals)
              ]
      ]
