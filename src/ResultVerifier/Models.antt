-- ===== src/ResultVerifier/Models.antt =====
-- The model check of worker/result-verifier.ts accepts only models.
use hive_sat.Prelude.{
  ap, ℕ, suc, ◌≡◌, refl, Bool, true, false, ◌||◌, not, List, [], ◌∷◌, none, some, ltb, ◌==◌, ℤ, abs,
  is_positive, if◌then◌else◌, arith, Bool-cases, Option-cases, inl, inr,
}
use hive_sat.Cnf.{Valuation, lit_true, clause_true, formula_true, cube_true}
use hive_sat.Lrat.Rup.{bool_eq}
use hive_sat.ResultVerifier.{
  DecodedFormula, SatOutcome, valid_sat, invalid_model, bitset_value, truth, Checked, passed,
  stopped, check_cube, check_clause, check_clauses, check_model,
}

-- The valuation of a bitset.
abbrev pub valuation_of : List ℕ → Valuation
valuation_of bits x = elim (bitset_value bits x) [ none ↦ false | some b ↦ b ]

sign_matches : (b p : Bool) → bool_eq b p ≡ true → (if p then b else not b) ≡ true
sign_matches true true h = refl
sign_matches true false h = absurd (ground arith)
sign_matches false true h = absurd (ground arith)
sign_matches false false h = refl

truth-lit_true :
    (bits : List ℕ) (l : ℤ) → truth bits l ≡ some true → lit_true (valuation_of bits) l ≡ true
unfolding truth
truth-lit_true bits l e = elim (Option-cases (bitset_value bits (abs l))) [
  | inl f ↦ absurd (ground (arith, e, f))
  | inr (b, f) ↦ rw (valuation_of, f) (sign_matches b (is_positive l) (ground (arith, e, f)))
]

abbrev pub is_valid : SatOutcome → Bool
is_valid (valid_sat i k) = true
is_valid _ = false

-- What a loop that ends has seen.
abbrev CubePassed : Valuation → List ℤ → Checked → Type 0
CubePassed v c (passed n b) = cube_true v c ≡ true
CubePassed v c (stopped o) = is_valid o ≡ false

abbrev ClausePassed : Valuation → List ℤ → Bool → Checked → Type 0
ClausePassed v c satisfied (passed n b) = b ≡ true → (satisfied || clause_true v c) ≡ true
ClausePassed v c satisfied (stopped o) = is_valid o ≡ false

module _ (maximum : ℕ) (bits : List ℕ) where
  check_cube-CubePassed :
      (c : List ℤ) (count : ℕ) → CubePassed (valuation_of bits) c (check_cube maximum bits c count)
  unfolding check_cube
  check_cube-CubePassed [] count = refl
  check_cube-CubePassed (l ∷ ls) count = elim (Bool-cases (ltb maximum (suc count))) [
    | inl e ↦ rw e refl
    | inr e ↦ elim (Option-cases (truth bits l)) [
      | inl f ↦ rw (e, f) refl
      | inr (false, f) ↦ rw (e, f) refl
      | inr (true, f) ↦
          rw (e, f)
            (cons (check_cube maximum bits ls (suc count)) (truth-lit_true bits l f)
              (check_cube-CubePassed ls (suc count)))
    ]
  ]
    where
      cons :
          (r : Checked)
          → lit_true (valuation_of bits) l ≡ true
          → CubePassed (valuation_of bits) ls r
          → CubePassed (valuation_of bits) (l ∷ ls) r
      cons (passed n b) t k = rw (t, k) refl
      cons (stopped o) t k = k

  check_clause-ClausePassed :
      (c : List ℤ) (count : ℕ) (satisfied : Bool)
      → ClausePassed (valuation_of bits) c satisfied (check_clause maximum bits c count satisfied)
  unfolding check_clause
  check_clause-ClausePassed [] count satisfied = λ e. rw e refl
  check_clause-ClausePassed (l ∷ ls) count satisfied = elim (Bool-cases (ltb maximum (suc count))) [
    | inl e ↦ rw e refl
    | inr e ↦ elim (Option-cases (truth bits l)) [
      | inl f ↦ rw (e, f) refl
      | inr (true, f) ↦
          rw (e, f)
            (seen (check_clause maximum bits ls (suc count) true) (truth-lit_true bits l f)
              (check_clause-ClausePassed ls (suc count) true))
      | inr (false, f) ↦
          rw (e, f)
            (on (check_clause maximum bits ls (suc count) satisfied)
              (check_clause-ClausePassed ls (suc count) satisfied))
    ]
  ]
    where
      seen :
          (r : Checked)
          → lit_true (valuation_of bits) l ≡ true
          → ClausePassed (valuation_of bits) ls true r
          → ClausePassed (valuation_of bits) (l ∷ ls) satisfied r
      seen (passed n b) t k = λ e. rw t (or_true satisfied)
        where
          or_true : (s : Bool) → (s || true) ≡ true
          or_true true = refl
          or_true false = refl
      seen (stopped o) t k = k

      on :
          (r : Checked)
          → ClausePassed (valuation_of bits) ls satisfied r
          → ClausePassed (valuation_of bits) (l ∷ ls) satisfied r
      on (passed n b) k = λ e.
          weaken (lit_true (valuation_of bits) l) satisfied (clause_true (valuation_of bits) ls)
            (k e)
        where
          weaken : (t s c : Bool) → (s || c) ≡ true → (s || (t || c)) ≡ true
          weaken true s c h = ground arith
          weaken false s c h = h
      on (stopped o) k = k

  check_clauses-formula_true :
      (cs : List (List ℤ)) (index count : ℕ)
      → is_valid (check_clauses maximum bits cs index count) ≡ true
      → formula_true (valuation_of bits) cs ≡ true
  unfolding check_clauses
  check_clauses-formula_true [] index count h = refl
  check_clauses-formula_true (c ∷ cs) index count h =
      after (check_clause maximum bits c count false) (check_clause-ClausePassed c count false)
        (λ n. check_clauses-formula_true cs (suc index) n) h
    where
      after :
          (r : Checked)
          → ClausePassed (valuation_of bits) c false r
          → ((n : ℕ)
              → is_valid (check_clauses maximum bits cs (suc index) n) ≡ true
              → formula_true (valuation_of bits) cs ≡ true)
          → is_valid (elim r [
            | stopped o ↦ o
            | passed n true ↦ check_clauses maximum bits cs (suc index) n
            | passed n false ↦ invalid_model
          ])
            ≡ true
          → formula_true (valuation_of bits) (c ∷ cs) ≡ true
      after (stopped o) k ih g = absurd (ground arith)
      after (passed n false) k ih g = absurd (ground arith)
      after (passed n true) k ih g = rw (k refl, ih n g) refl

-- If the check of a decoded model ends with VALID_SAT, whatever its budget, then the valuation of the
-- bitset makes every clause of the formula and every literal of the cube true.
pub check_model_sound :
    (variables : ℕ) (bits : List ℕ) (cube : List ℤ) (f : DecodedFormula)
    (maximum clauses literals : ℕ)
    → check_model variables bits cube f maximum ≡ valid_sat clauses literals
    → (formula_true (valuation_of bits) f.clauses ≡ true)
      × (cube_true (valuation_of bits) cube ≡ true)
unfolding check_model
check_model_sound variables bits cube f maximum clauses literals e = whole (ap is_valid e)
  where
    after :
        (r : Checked)
        → CubePassed (valuation_of bits) cube r
        → is_valid
            (elim r [ stopped o ↦ o | passed n b ↦ check_clauses maximum bits f.clauses 0 n ])
          ≡ true
        → (formula_true (valuation_of bits) f.clauses ≡ true)
          × (cube_true (valuation_of bits) cube ≡ true)
    after (stopped o) k g = absurd (ground arith)
    after (passed n b) k g = (check_clauses-formula_true maximum bits f.clauses 0 n g, k)

    whole :
        is_valid (check_model variables bits cube f maximum) ≡ true
        → (formula_true (valuation_of bits) f.clauses ≡ true)
          × (cube_true (valuation_of bits) cube ≡ true)
    whole = elim (Bool-cases (f.variable_count == variables)) [
      | inr q ↦ rw q (λ g. absurd (ground arith))
      | inl q ↦
          rw q (after (check_cube maximum bits cube 0) (check_cube-CubePassed maximum bits cube 0))
    ]
