-- ===== src/ResultVerifier/Tests.antt =====
-- Runs of the checks of worker/result-verifier.ts, with streams that are not compressed.
use hive_sat.Prelude.{ℕ, ◌≡◌, refl, true, List, [], ◌∷◌, none, some, pos, negsuc}
use hive_sat.Cnf.{formula_true, cube_true}
use hive_sat.ResultVerifier.{
  DecodedFormula, VerifyUnsatInput, decode_formula, check_model, check_cube, truth, check_clauses,
  check_clause, verify_unsat_once, equal_cube, collect_bounded, check_compressed, read_formula,
  read_proof, check_proof, ids_follow,
}
use hive_sat.Formula.HiveCnf.{read_words, read_clauses, decode_hive_cnf_v1}
use hive_sat.ResultVerifier.Formulas.{accepted, decode_formula-accepted}
use hive_sat.ResultVerifier.Models.{valuation_of, check_model_sound}
use hive_sat.ResultVerifier.Proofs.{Refuted, verify_unsat_once-Refuted}
use hive_sat.Lrat.Tests.{decimal, digits}
use hive_sat.Lrat.Text.{
  utf8_length, split_lines, trim, is_space, is_comment, split_tokens, token_eq,
}
use hive_sat.Lrat.Rup.{
  literal_value, assign_literal, assume_negation, hint_step, follow_hints, check_rup_chain,
}
use hive_sat.Lrat.Checker.{
  load_from, index_of, last_index_of, numbers, add_clause, check_integers, addition_line,
  rest_of_line, token_line, check_line, finish, check_lines, verify_text_lrat,
}

-- The formula (1 or 2) and not 1.
abbrev choice_bytes : List ℕ
choice_bytes =
    0x48 ∷ 0x49 ∷ 0x56 ∷ 0x45 ∷ 0x43 ∷ 0x4e ∷ 0x46 ∷ 0x31 ∷ 2 ∷ 0 ∷ 0 ∷ 0 ∷ 2 ∷ 0 ∷ 0 ∷ 0 ∷ 3 ∷ 0
    ∷ 0 ∷ 0 ∷ 1 ∷ 0 ∷ 0 ∷ 0 ∷ 2 ∷ 0 ∷ 0 ∷ 0 ∷ 0 ∷ 0 ∷ 0 ∷ 0 ∷ 255 ∷ 255 ∷ 255 ∷ 255 ∷ 0 ∷ 0 ∷ 0 ∷ 0
    ∷ []

decode_formula-accepted_example :
    decode_formula choice_bytes ≡ accepted (decode_hive_cnf_v1 choice_bytes)
decode_formula-accepted_example = decode_formula-accepted choice_bytes

abbrev choice : DecodedFormula
choice = record { variable_count = 2; clauses = (pos 1 ∷ pos 2 ∷ []) ∷ (negsuc 0 ∷ []) ∷ [] }

abbrev bitset : List ℕ
bitset = 2 ∷ []

check_model_sound_example :
    (formula_true (valuation_of bitset) choice.clauses ≡ true)
    × (cube_true (valuation_of bitset) (negsuc 0 ∷ []) ≡ true)
unfolding check_model check_cube truth check_clauses check_clause
check_model_sound_example = check_model_sound 2 bitset (negsuc 0 ∷ []) choice 100 2 4 refl

-- "4 0 1 2 3 0": with the cube 1, the clauses 2 and 3 of the formula (1 or 2), not 1.
abbrev proof_text : List ℕ
proof_text = b'4' ∷ 32 ∷ b'0' ∷ 32 ∷ b'2' ∷ 32 ∷ b'3' ∷ 32 ∷ b'0' ∷ []

abbrev no_digest : List ℕ → ℕ
no_digest bs = 5

abbrev input : VerifyUnsatInput
input = record {
  formula_stream = choice_bytes ∷ [];
  proof_stream = proof_text ∷ [];
  manifest = record {
    artifact_sha256 = 5;
    formula_hash = 5;
    cube = pos 1 ∷ [];
    compressed_bytes = 9;
    decompressed_bytes = 9;
    original_clause_count = 2;
    cube_clause_ids = 3 ∷ [];
  };
  expected_cube = pos 1 ∷ [];
  max_compressed_bytes = none;
  max_decompressed_bytes = none;
  max_derived_clauses = none;
  max_hints = none;
}

verify_unsat_once-Refuted_example : Refuted no_digest (λ s. some s) (λ t. t) decimal input
unfolding verify_unsat_once read_clauses read_words verify_text_lrat utf8_length check_lines
    split_lines check_line trim is_space is_comment split_tokens decimal digits token_eq
    literal_value assign_literal assume_negation hint_step follow_hints check_rup_chain load_from
    index_of last_index_of numbers add_clause check_integers addition_line rest_of_line token_line
    finish equal_cube collect_bounded check_compressed decode_formula read_formula read_proof
    check_proof ids_follow
verify_unsat_once-Refuted_example =
    verify_unsat_once-Refuted no_digest (λ s. some s) (λ t. t) decimal input 1 2 refl
