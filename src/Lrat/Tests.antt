-- ===== src/Lrat/Tests.antt =====
-- A run of the checker of shared/lrat-check.ts on the text of a proof.
use hive_sat.Lrat.Checker.Bounds.{additions_of, hints_of, verify_text_lrat-Accepted}
use hive_sat.Prelude.{
  ◌≡◌, ◌≤◌, ℕ, ◌+◌, ◌*◌, ◌-◌, ◌&&◌, leb, refl, List, [], ◌∷◌, Option, none, some, ℤ, pos, negsuc,
  neg, if◌then◌else◌, ◌==◌,
}
use hive_sat.Cnf.{Unsat}
use hive_sat.Lrat.Text.{
  Token, utf8_length, split_lines, trim, is_space, is_comment, split_tokens, token_eq,
}
use hive_sat.Lrat.Rup.{
  literal_value, assign_literal, assume_negation, hint_step, follow_hints, check_rup_chain,
}
use hive_sat.Lrat.Checker.{
  LimitOverrides, load_from, index_of, last_index_of, numbers, delete_ids, add_clause,
  check_integers, addition_line, deletion_line, rest_of_line, token_line, check_line, finish,
  check_lines, verify_text_lrat,
}
use hive_sat.Lrat.Checker.Soundness.{verify_text_lrat-Unsat}

unfoldable pub digits : ℕ → Token → Option ℤ
digits n [] = some (pos n)
digits n (c ∷ cs) =
    let rest = digits (n * 10 + (c - 48)) cs in if leb 48 c && leb c 57 then rest else none

-- The conversion of decimal numerals.
unfoldable pub decimal : Token → Option ℤ
unfolding digits
decimal [] = none
decimal (c ∷ cs) =
    if c == b'-'
    then elim (digits 0 cs) [ none ↦ none | some n ↦ some (neg n) ]
    else digits 0 (c ∷ cs)

abbrev units : List (List ℤ)
units = (pos 1 ∷ []) ∷ (negsuc 0 ∷ []) ∷ []

-- "3 0 1 2 0"
abbrev empty_clause_proof : List ℕ
empty_clause_proof = b'3' ∷ 32 ∷ b'0' ∷ 32 ∷ b'1' ∷ 32 ∷ b'2' ∷ 32 ∷ b'0' ∷ 10 ∷ []

verify_text_lrat-Unsat_example : Unsat units
unfolding digits decimal utf8_length split_lines trim is_space is_comment split_tokens token_eq
    literal_value assign_literal assume_negation hint_step follow_hints check_rup_chain load_from
    index_of last_index_of numbers delete_ids add_clause check_integers addition_line deletion_line
    rest_of_line token_line check_line finish check_lines verify_text_lrat
verify_text_lrat-Unsat_example =
    verify_text_lrat-Unsat decimal units empty_clause_proof
      (record { proof_bytes = none; derived_clauses = none; hints = none }) refl

abbrev no_limits : LimitOverrides
no_limits = record { proof_bytes = none; derived_clauses = none; hints = none }

verify_text_lrat-Accepted_example :
    (utf8_length empty_clause_proof ≤ 134217728)
    × (additions_of (split_lines empty_clause_proof) ≤ 2000000)
    × (hints_of (split_lines empty_clause_proof) ≤ 16000000)
    × ((verify_text_lrat decimal units empty_clause_proof no_limits).derived_clauses
        ≡ additions_of (split_lines empty_clause_proof))
    × ((verify_text_lrat decimal units empty_clause_proof no_limits).checked_hints
        ≡ hints_of (split_lines empty_clause_proof))
unfolding digits decimal utf8_length split_lines trim is_space is_comment split_tokens token_eq
    literal_value assign_literal assume_negation hint_step follow_hints check_rup_chain load_from
    index_of last_index_of numbers delete_ids add_clause check_integers addition_line deletion_line
    rest_of_line token_line check_line finish check_lines verify_text_lrat
verify_text_lrat-Accepted_example =
    verify_text_lrat-Accepted decimal units empty_clause_proof no_limits refl
