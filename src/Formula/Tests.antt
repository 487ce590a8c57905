-- ===== src/Formula/Tests.antt =====
-- Runs of the formula library of src/lib/formula.
use hive_sat.Formula.Batches.Contents.{
  concat, stream_of, concat-create_clause_batches, create_clause_batches-Fits, Fits,
}
use hive_sat.Formula.Batches.{create_clause_batches, batches_from}
use hive_sat.Prelude.{
  All, arith, ◌≡◌, refl, true, false, List, [], ◌∷◌, ℤ, pos, negsuc, length, Bool,
}
use hive_sat.Cnf.{formula_true, cube_true}
use hive_sat.Formula.ModelVerifier.{
  Formula, assign_model, first_unassigned, check_literals, check_clauses, truth_values, conclude,
  check_assignment, verify_sat_model,
}
use hive_sat.Formula.ModelVerifier.Soundness.{valuation_of, verify_sat_model_sound}
use hive_sat.Formula.HiveCnf.{
  HiveCnf, formula, encoded_bytes, total_literals, encode_clause, encode_clauses, find_bad,
  encode_hive_cnf_v1, decode_hive_cnf_v1,
}
use hive_sat.Formula.HiveCnf.RoundTrip.{decode_hive_cnf_v1-encode}

abbrev choice : Formula
choice = record { variable_count = 2; clauses = (pos 1 ∷ pos 2 ∷ []) ∷ (negsuc 0 ∷ []) ∷ [] }

abbrev model : List ℤ
model = negsuc 0 ∷ pos 2 ∷ []

abbrev values : List Bool
values = false ∷ true ∷ []

verify_sat_model_sound_example :
    (length values ≡ 2)
    × (formula_true (valuation_of values) choice.clauses ≡ true)
    × (cube_true (valuation_of values) model ≡ true)
unfolding assign_model first_unassigned check_literals check_clauses truth_values conclude
    check_assignment verify_sat_model
verify_sat_model_sound_example = verify_sat_model_sound choice model values refl

abbrev encodable : HiveCnf
encodable = record {
  variable_count = 2;
  clause_count = 2;
  literal_count = 3;
  clauses = (pos 1 ∷ pos 2 ∷ []) ∷ (negsuc 0 ∷ []) ∷ [];
}

decode_hive_cnf_v1-encode_example : decode_hive_cnf_v1 (encoded_bytes encodable) ≡ formula encodable
unfolding total_literals encode_clause encode_clauses find_bad encode_hive_cnf_v1
decode_hive_cnf_v1-encode_example =
    decode_hive_cnf_v1-encode encodable (encoded_bytes encodable) refl

abbrev clauses : List (List ℤ)
clauses = (pos 1 ∷ pos 2 ∷ []) ∷ (negsuc 0 ∷ []) ∷ []

abbrev batches : List (List ℤ)
batches = (pos 1 ∷ pos 2 ∷ pos 0 ∷ []) ∷ (negsuc 0 ∷ pos 0 ∷ []) ∷ []

concat-create_clause_batches_example : concat batches ≡ stream_of clauses
unfolding create_clause_batches batches_from
concat-create_clause_batches_example =
    concat-create_clause_batches clauses batches 3
      ((omega arith, (omega arith, tt)), ((omega arith, tt), tt)) refl

create_clause_batches-Fits_example : All (Fits 3) batches
unfolding create_clause_batches batches_from
create_clause_batches-Fits_example =
    create_clause_batches-Fits 3 3 clauses batches (omega arith) (omega arith, (omega arith, tt))
      refl
