-- ===== src/ResultVerifier/Proofs.antt =====
-- The proof check of worker/result-verifier.ts accepts only refutations of the cube.
use hive_sat.Prelude.{
  ℕ, ◌≡◌, refl, sym, ap, ◌∙◌, Bool, true, false, ◌&&◌, ◌||◌, not, List, [], ◌∷◌, map, Option, none,
  some, all-append, length, ltb, ◌==◌, ==_iff, ℤ, arith, Bool-cases, Option-cases, inl, inr,
}
use hive_sat.Cnf.{Valuation, lit_true, clause_true, formula_true, cube_true, Unsat, UnsatUnder}
use hive_sat.Limits.{max_encoded_formula_bytes}
use hive_sat.Lrat.Text.{Token}
use hive_sat.Lrat.Checker.{verify_text_lrat, LimitOverrides, LratCheckResult}
use hive_sat.Lrat.Checker.Soundness.{verify_text_lrat-Unsat}
use hive_sat.ResultVerifier.{
  DecodedFormula, collect_bounded, equal_cube, decode_formula, ids_follow, UnsatOutcome,
  valid_unsat, VerifyUnsatInput, or_else, proof_formula, outcome_of, read_formula, read_proof,
  check_proof, check_compressed, verify_unsat_once, max_server_proof_compressed_bytes,
  max_server_proof_decompressed_bytes,
}

-- The unit clauses of a cube are true where the cube is.
units-cube_true :
    (v : Valuation) (cube : List ℤ) → formula_true v (map (λ l. l ∷ []) cube) ≡ cube_true v cube
units-cube_true v [] = refl
units-cube_true v (l ∷ ls) = rw (units-cube_true v ls) (units (lit_true v l) (cube_true v ls))
  where
    units : (a b : Bool) → ((a || false) && b) ≡ (a && b)
    units true b = refl
    units false b = refl

proof_formula-UnsatUnder :
    (f : DecodedFormula) (cube : List ℤ) → Unsat (proof_formula f cube) → UnsatUnder f.clauses cube
proof_formula-UnsatUnder f cube u v =
    sym (
      all-append (clause_true v) f.clauses (map (λ l. l ∷ []) cube)
      ∙ ap (λ b. formula_true v f.clauses && b) (units-cube_true v cube))
    ∙ u v

abbrev pub is_valid : UnsatOutcome → Bool
is_valid (valid_unsat d h) = true
is_valid _ = false

outcome_of-valid : (r : LratCheckResult) → is_valid (outcome_of r) ≡ true → r.valid ≡ true
outcome_of-valid r h = ground arith

module _ (sha256 : List ℕ → ℕ) (gunzip : List (List ℕ) → Option (List (List ℕ)))
    (decode_text : List ℕ → List ℕ) (number : Token → Option ℤ) (i : VerifyUnsatInput) where
  -- A formula with the manifest's hash, which the cube refutes.
  abbrev pub Refuted : Type 0
  Refuted =
      (chunks : List (List ℕ)) × (bs : List ℕ) × (f : DecodedFormula) × (gunzip i.formula_stream
        ≡ some chunks)
      × (collect_bounded max_encoded_formula_bytes 0 chunks ≡ some bs)
      × (sha256 bs ≡ i.manifest.formula_hash)
      × (decode_formula bs ≡ some f)
      × UnsatUnder f.clauses i.expected_cube

  accepted_proof :
      (f : DecodedFormula) (text : List ℕ) (o : LimitOverrides)
      → is_valid (outcome_of (verify_text_lrat number (proof_formula f i.expected_cube) text o))
        ≡ true
      → UnsatUnder f.clauses i.expected_cube
  accepted_proof f text o h = proof_formula-UnsatUnder f i.expected_cube (
      verify_text_lrat-Unsat number (proof_formula f i.expected_cube) text o
        (outcome_of-valid (verify_text_lrat number (proof_formula f i.expected_cube) text o) h))

  check_proof-UnsatUnder :
      (bytes : List ℕ) (f : DecodedFormula)
      → is_valid (check_proof sha256 gunzip decode_text number i bytes f) ≡ true
      → UnsatUnder f.clauses i.expected_cube
  unfolding check_proof
  check_proof-UnsatUnder bytes f =
      elim (Bool-cases (
        not (i.manifest.original_clause_count == length f.clauses)
        || not (ids_follow (length f.clauses) i.manifest.cube_clause_ids))) [
          | inl q ↦ rw q (λ h. absurd (ground arith))
          | inr q ↦ rw q (
              accepted_proof f (decode_text bytes) (record {
                proof_bytes =
                    some (or_else i.max_decompressed_bytes max_server_proof_decompressed_bytes);
                derived_clauses = some (or_else i.max_derived_clauses 100000);
                hints = some (or_else i.max_hints 1000000);
              }))
        ]

  -- The formula that is read has the hash of the manifest.
  with_formula :
      (bytes : List ℕ)
      → is_valid
          (elim (read_formula sha256 gunzip decode_text number i.manifest.formula_hash
            i.formula_stream) [
              | none ↦ UnsatOutcome.invalid_formula
              | some f ↦ check_proof sha256 gunzip decode_text number i bytes f
            ])
        ≡ true
      → Refuted
  unfolding read_formula
  with_formula bytes = elim (Option-cases (gunzip i.formula_stream)) [
    | inl a ↦ rw a (λ h. absurd (ground arith))
    | inr (chunks, a) ↦ elim (Option-cases (collect_bounded max_encoded_formula_bytes 0 chunks)) [
      | inl b ↦ rw (a, b) (λ h. absurd (ground arith))
      | inr (bs, b) ↦ elim (Bool-cases (sha256 bs == i.manifest.formula_hash)) [
        | inr c ↦ rw (a, b, c) (λ h. absurd (ground arith))
        | inl c ↦ elim (Option-cases (decode_formula bs)) [
          | inl d ↦ rw (a, b, c, d) (λ h. absurd (ground arith))
          | inr (f, d) ↦
              rw (a, b, c, d)
                (λ h.
                  (chunks, bs, f, refl, b, (==_iff _ _).0 c, d, check_proof-UnsatUnder bytes f h))
        ]
      ]
    ]
  ]

  check_compressed-Refuted :
      (compressed : List ℕ)
      → is_valid (check_compressed sha256 gunzip decode_text number i compressed) ≡ true
      → Refuted
  unfolding check_compressed
  check_compressed-Refuted compressed =
      elim (Bool-cases (
        not (length compressed == i.manifest.compressed_bytes)
        || not (sha256 compressed == i.manifest.artifact_sha256))) [
          | inl a ↦ rw a (λ h. absurd (ground arith))
          | inr a ↦
              elim (Option-cases (
                read_proof sha256 gunzip decode_text number
                  (or_else i.max_decompressed_bytes max_server_proof_decompressed_bytes)
                  compressed)) [
                    | inl b ↦ rw (a, b) (λ h. absurd (ground arith))
                    | inr (bytes, b) ↦
                        elim (Bool-cases (length bytes == i.manifest.decompressed_bytes)) [
                          | inr c ↦ rw (a, b, c) (λ h. absurd (ground arith))
                          | inl c ↦ rw (a, b, c) (with_formula bytes)
                        ]
                  ]
        ]

  -- If `verifyUnsatOnce` answers VALID_UNSAT, whatever the limits of the input, then its formula stream
  -- decompresses within the byte limit to bytes that have the manifest's hash and decode to a formula,
  -- and no valuation makes all the clauses of that formula and the expected cube true.
  pub verify_unsat_once-Refuted :
      (derived hints : ℕ)
      → verify_unsat_once sha256 gunzip decode_text number i ≡ valid_unsat derived hints
      → Refuted
  unfolding verify_unsat_once
  verify_unsat_once-Refuted derived hints e = whole (ap is_valid e)
    where
      whole : is_valid (verify_unsat_once sha256 gunzip decode_text number i) ≡ true → Refuted
      whole = elim (Bool-cases (equal_cube i.manifest.cube i.expected_cube)) [
        | inr a ↦ rw a (λ h. absurd (ground arith))
        | inl a ↦
            elim (Bool-cases (
              ltb (or_else i.max_compressed_bytes max_server_proof_compressed_bytes)
                i.manifest.compressed_bytes
              || ltb (or_else i.max_decompressed_bytes max_server_proof_decompressed_bytes)
                  i.manifest.decompressed_bytes)) [
                    | inl b ↦ rw (a, b) (λ h. absurd (ground arith))
                    | inr b ↦
                        elim (Option-cases (
                          collect_bounded
                            (or_else i.max_compressed_bytes max_server_proof_compressed_bytes) 0
                            i.proof_stream)) [
                              | inl c ↦ rw (a, b, c) (λ h. absurd (ground arith))
                              | inr (compressed, c) ↦
                                  rw (a, b, c) (check_compressed-Refuted compressed)
                            ]
                  ]
      ]
