-- ===== src/ResultVerifier/Formulas.antt =====
-- The two decoders of HiveCnfV1, in worker/result-verifier.ts and src/lib/formula/hiveCnf.ts.
use hive_sat.Prelude.{
  ℕ, ◌≡◌, refl, ◌+◌, ◌*◌, ◌||◌, not, List, [], Option, none, some, length, drop, ltb, ◌==◌,
  Bool-cases, inl, inr,
}
use hive_sat.Limits.{max_variables, max_clauses, max_literal_occurrences, max_encoded_formula_bytes}
use hive_sat.Formula.HiveCnf.{
  Decoded, formula, magic_bytes, has_magic, first_word, read_words, read_clauses,
  decode_hive_cnf_v1, Payload, is_nil, finish_decoding,
}
use hive_sat.ResultVerifier.{DecodedFormula, decode_formula, close_formula}

-- What the client's decoder accepts, without the counts that the worker's leaves out.
abbrev pub accepted : Decoded → Option DecodedFormula
accepted (formula f) = some (record { variable_count = f.variable_count; clauses = f.clauses })
accepted (Decoded.refused r) = none

closed-accepted :
    (v c l : ℕ) (p : Option Payload) → close_formula v c l p ≡ accepted (finish_decoding v c l p)
closed-accepted v c l none = refl
closed-accepted v c l (some p) =
    elim (Bool-cases
      (not (is_nil p.current) || not (length p.clauses == c) || not (p.observed_literals == l))) [
        | inl e ↦ rw e refl
        | inr e ↦ rw e refl
      ]

-- On every byte sequence the worker's decoder accepts exactly what the client's decoder accepts, and
-- returns the same variable count and clauses.
pub decode_formula-accepted : (bs : List ℕ) → decode_formula bs ≡ accepted (decode_hive_cnf_v1 bs)
unfolding decode_formula decode_hive_cnf_v1
decode_formula-accepted bs =
    elim (Bool-cases (ltb (length bs) 20 || ltb max_encoded_formula_bytes (length bs))) [
      | inl e ↦ rw e refl
      | inr a ↦ elim (Bool-cases (has_magic magic_bytes bs)) [
        | inr e ↦ rw (a, e) refl
        | inl b ↦ elim (Bool-cases (ltb max_variables (first_word (drop 8 bs)))) [
          | inl e ↦ rw (a, b, e) refl
          | inr c ↦ elim (Bool-cases (ltb max_clauses (first_word (drop 12 bs)))) [
            | inl e ↦ rw (a, b, c, e) refl
            | inr d ↦ elim (Bool-cases (ltb max_literal_occurrences (first_word (drop 16 bs)))) [
              | inl e ↦ rw (a, b, c, d, e) refl
              | inr l ↦
                  elim (Bool-cases
                    (20 + (first_word (drop 16 bs) + first_word (drop 12 bs)) * 4 == length bs)) [
                      | inr e ↦ rw (a, b, c, d, l, e) refl
                      | inl m ↦
                          rw (a, b, c, d, l, m)
                            (closed-accepted (first_word (drop 8 bs)) (first_word (drop 12 bs))
                              (first_word (drop 16 bs))
                              (read_clauses (first_word (drop 8 bs)) (read_words (drop 20 bs)) []
                                0))
                    ]
            ]
          ]
        ]
      ]
    ]
