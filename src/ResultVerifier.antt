-- ===== src/ResultVerifier.antt =====
-- worker/result-verifier.ts: the checks of a model and of a proof behind `ResultVerifierDO`. The
-- digest, the decompression and the decoding of text are those of the platform: `sha256`, `gunzip`
-- and `decode_text` are arguments, and `number` is that of the proof checker. A stream is its list
-- of chunks. The cache of results is left out. `check_model` starts from the
-- decoded artifact; SatOnce has what comes before it.
pub mod Tests
pub mod Formulas
pub mod Models
pub mod Proofs
pub mod SatOnce
pub mod SatTests
use hive_sat.Prelude.{
  ℕ, zero, suc, ◌+◌, ◌-◌, ◌*◌, ◌/◌, ◌%◌, ◌^◌, Bool, true, false, ◌&&◌, ◌||◌, not, List, [], ◌∷◌,
  ◌++◌, map, Option, none, some, length, drop, get_elem?, ltb, leb, ◌==◌, ℤ, abs, is_positive,
  int_eq, if◌then◌else◌,
}
use hive_sat.Limits.{max_variables, max_clauses, max_literal_occurrences, max_encoded_formula_bytes}
use hive_sat.Formula.HiveCnf.{
  magic_bytes, has_magic, first_word, read_words, read_clauses, Payload, is_nil,
}
use hive_sat.Lrat.Text.{Token}
use hive_sat.Lrat.Rup.{bool_eq}
use hive_sat.Lrat.Checker.{LratCheckResult, LimitOverrides, verify_text_lrat}

pub record DecodedFormula : Type 0 where
  pub variable_count : ℕ
  pub clauses : List (List ℤ)

-- The loop of `collectBounded`; `none` is its exception.
unfoldable pub collect_bounded : ℕ → ℕ → List (List ℕ) → Option (List ℕ)
collect_bounded maximum length_so_far [] = some []
collect_bounded maximum length_so_far (c ∷ cs) =
    let rest = collect_bounded maximum (length_so_far + length c) cs in
    if ltb maximum (length_so_far + length c)
    then none
    else elim rest [ none ↦ none | some bs ↦ some (c ++ bs) ]

-- `equalCube`.
unfoldable pub equal_cube : List ℤ → List ℤ → Bool
equal_cube [] [] = true
equal_cube [] (y ∷ ys) = false
equal_cube (x ∷ xs) [] = false
equal_cube (x ∷ xs) (y ∷ ys) = int_eq x y && equal_cube xs ys

abbrev pub close_formula : ℕ → ℕ → ℕ → Option Payload → Option DecodedFormula
close_formula variables clauses literals none = none
close_formula variables clauses literals (some p) =
    if not (is_nil p.current)
      || not (length p.clauses == clauses)
      || not (p.observed_literals == literals)
    then none
    else some (record { variable_count = variables; clauses = p.clauses })

-- `decodeHiveCnfV1`; `none` is its exception.
unfoldable pub decode_formula : List ℕ → Option DecodedFormula
decode_formula bs =
    let variables = first_word (drop 8 bs) in
    let clauses = first_word (drop 12 bs) in
    let literals = first_word (drop 16 bs) in
    if ltb (length bs) 20 || ltb max_encoded_formula_bytes (length bs)
    then none
    else if not (has_magic magic_bytes bs)
    then none
    else if ltb max_variables variables
        || ltb max_clauses clauses
        || ltb max_literal_occurrences literals
        || not (20 + (literals + clauses) * 4 == length bs)
    then none
    else close_formula variables clauses literals
        (read_clauses variables (read_words (drop 20 bs)) [] 0)

abbrev pub max_literal_checks : ℕ
max_literal_checks = 2000064

-- `failed` is an exception, which the caller takes for VERIFICATION_TIMEOUT.
pub data SatOutcome : Type 0 where
  valid_sat : (checked_clauses checked_literals : ℕ) → SatOutcome
  invalid_formula invalid_model verification_timeout failed : SatOutcome

-- `bitsetValue` of shared/result-manifest.ts; `none` is its exception.
unfoldable pub bitset_value : List ℕ → ℕ → Option Bool
bitset_value bits x =
    if x == 0 || ltb (length bits * 8) x then none else elim (get_elem? bits ((x - 1) / 8)) [
      | none ↦ none
      | some byte ↦ some (byte / 2 ^ ((x - 1) % 8) % 2 == 1)
    ]

-- `truth`.
unfoldable pub truth : List ℕ → ℤ → Option Bool
unfolding bitset_value
truth bits l = elim (bitset_value bits (abs l)) [
  | none ↦ none
  | some b ↦ some (bool_eq b (is_positive l))
]

-- A loop's end, with the count of checked literals and the flag of the clause, or the outcome.
pub data Checked : Type 0 where
  passed : ℕ → Bool → Checked
  stopped : SatOutcome → Checked

-- The loop over the cube.
unfoldable pub check_cube : ℕ → List ℕ → List ℤ → ℕ → Checked
check_cube maximum bits [] count = passed count true
check_cube maximum bits (l ∷ ls) count =
    let rest = check_cube maximum bits ls (suc count) in
    if ltb maximum (suc count) then stopped verification_timeout else elim (truth bits l) [
      | none ↦ stopped failed
      | some false ↦ stopped invalid_model
      | some true ↦ rest
    ]

-- The loop over the literals of one clause.
unfoldable pub check_clause : ℕ → List ℕ → List ℤ → ℕ → Bool → Checked
check_clause maximum bits [] count satisfied = passed count satisfied
check_clause maximum bits (l ∷ ls) count satisfied =
    let on = check_clause maximum bits ls (suc count) true in
    let rest = check_clause maximum bits ls (suc count) satisfied in
    if ltb maximum (suc count)
    then stopped verification_timeout
    else elim (truth bits l) [ none ↦ stopped failed | some true ↦ on | some false ↦ rest ]

unfoldable pub check_clauses : ℕ → List ℕ → List (List ℤ) → ℕ → ℕ → SatOutcome
check_clauses maximum bits [] index count = valid_sat index count
check_clauses maximum bits (c ∷ cs) index count = elim (check_clause maximum bits c count false) [
  | stopped o ↦ o
  | passed n true ↦ check_clauses maximum bits cs (suc index) n
  | passed n false ↦ invalid_model
]

-- `verifySatOnce` from the decoded artifact on: `variables` is the artifact's count of variables.
unfoldable pub check_model : ℕ → List ℕ → List ℤ → DecodedFormula → ℕ → SatOutcome
check_model variables bits cube f maximum =
    if not (f.variable_count == variables)
    then invalid_formula
    else elim (check_cube maximum bits cube 0) [
      | stopped o ↦ o
      | passed n b ↦ check_clauses maximum bits f.clauses 0 n
    ]

abbrev pub max_server_proof_compressed_bytes : ℕ
max_server_proof_compressed_bytes = 2097152

abbrev pub max_server_proof_decompressed_bytes : ℕ
max_server_proof_decompressed_bytes = 8388608

-- What `verifyUnsatOnce` reads of an `UnsatProofManifest`.
pub record UnsatProofManifest : Type 0 where
  pub artifact_sha256 : ℕ
  pub formula_hash : ℕ
  pub cube : List ℤ
  pub compressed_bytes : ℕ
  pub decompressed_bytes : ℕ
  pub original_clause_count : ℕ
  pub cube_clause_ids : List ℕ

pub record VerifyUnsatInput : Type 0 where
  pub formula_stream : List (List ℕ)
  pub proof_stream : List (List ℕ)
  pub manifest : UnsatProofManifest
  pub expected_cube : List ℤ
  pub max_compressed_bytes : Option ℕ
  pub max_decompressed_bytes : Option ℕ
  pub max_derived_clauses : Option ℕ
  pub max_hints : Option ℕ

pub data UnsatOutcome : Type 0 where
  valid_unsat : (derived_clauses checked_hints : ℕ) → UnsatOutcome
  owner_check_required invalid_formula invalid_proof verification_timeout : UnsatOutcome

-- `x ?? y`.
abbrev pub or_else : Option ℕ → ℕ → ℕ
or_else none d = d
or_else (some n) d = n

-- The ids of the cube's clauses follow those of the formula.
unfoldable pub ids_follow : ℕ → List ℕ → Bool
ids_follow n [] = true
ids_follow n (id ∷ ids) = id == suc n && ids_follow (suc n) ids

abbrev pub proof_formula : DecodedFormula → List ℤ → List (List ℤ)
proof_formula f cube = f.clauses ++ map (λ l. l ∷ []) cube

abbrev pub outcome_of : LratCheckResult → UnsatOutcome
outcome_of r =
    if r.limit_exceeded
    then verification_timeout
    else if r.requires_full_checker
    then owner_check_required
    else if not r.valid
    then invalid_proof
    else valid_unsat r.derived_clauses r.checked_hints

module _ (sha256 : List ℕ → ℕ) (gunzip : List (List ℕ) → Option (List (List ℕ)))
    (decode_text : List ℕ → List ℕ) (number : Token → Option ℤ) where
  -- The formula of a stream, if it decompresses within the limit, has the hash and decodes.
  unfoldable pub read_formula : ℕ → List (List ℕ) → Option DecodedFormula
  unfolding collect_bounded decode_formula
  read_formula hash stream = elim (gunzip stream) [
    | none ↦ none
    | some chunks ↦ elim (collect_bounded max_encoded_formula_bytes 0 chunks) [
      | none ↦ none
      | some bs ↦ if sha256 bs == hash then decode_formula bs else none
    ]
  ]

  -- The decompressed proof, if it does not exceed the limit.
  unfoldable pub read_proof : ℕ → List ℕ → Option (List ℕ)
  unfolding collect_bounded
  read_proof maximum compressed = elim (gunzip (compressed ∷ [])) [
    | none ↦ none
    | some chunks ↦ collect_bounded maximum 0 chunks
  ]

  -- `verifyUnsatOnce` from the two decompressed inputs on.
  unfoldable pub check_proof : VerifyUnsatInput → List ℕ → DecodedFormula → UnsatOutcome
  unfolding ids_follow
  check_proof i proof_bytes f =
      if not (i.manifest.original_clause_count == length f.clauses)
        || not (ids_follow (length f.clauses) i.manifest.cube_clause_ids)
      then invalid_proof
      else outcome_of (
          verify_text_lrat number (proof_formula f i.expected_cube) (decode_text proof_bytes)
            (record {
              proof_bytes =
                  some (or_else i.max_decompressed_bytes max_server_proof_decompressed_bytes);
              derived_clauses = some (or_else i.max_derived_clauses 100000);
              hints = some (or_else i.max_hints 1000000);
            }))

  -- `verifyUnsatOnce` from the compressed proof on.
  unfoldable pub check_compressed : VerifyUnsatInput → List ℕ → UnsatOutcome
  unfolding read_proof read_formula check_proof
  check_compressed i compressed =
      if not (length compressed == i.manifest.compressed_bytes)
        || not (sha256 compressed == i.manifest.artifact_sha256)
      then invalid_proof
      else elim (read_proof (or_else i.max_decompressed_bytes max_server_proof_decompressed_bytes)
          compressed) [
            | none ↦ invalid_proof
            | some proof_bytes ↦
                if not (length proof_bytes == i.manifest.decompressed_bytes)
                then invalid_proof
                else elim (read_formula i.manifest.formula_hash i.formula_stream) [
                  | none ↦ invalid_formula
                  | some f ↦ check_proof i proof_bytes f
                ]
          ]

  -- `verifyUnsatOnce`.
  unfoldable pub verify_unsat_once : VerifyUnsatInput → UnsatOutcome
  unfolding equal_cube collect_bounded check_compressed
  verify_unsat_once i =
      if not (equal_cube i.manifest.cube i.expected_cube)
      then invalid_proof
      else if ltb (or_else i.max_compressed_bytes max_server_proof_compressed_bytes)
            i.manifest.compressed_bytes
          || ltb (or_else i.max_decompressed_bytes max_server_proof_decompressed_bytes)
              i.manifest.decompressed_bytes
      then owner_check_required
      else elim (collect_bounded (or_else i.max_compressed_bytes max_server_proof_compressed_bytes)
          0 i.proof_stream) [
            | none ↦ verification_timeout
            | some compressed ↦ check_compressed i compressed
          ]
