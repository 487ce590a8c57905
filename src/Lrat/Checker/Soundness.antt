-- ===== src/Lrat/Checker/Soundness.antt =====
-- What an accepted proof shows: `verifyTextLrat` of shared/lrat-check.ts is sound.
use hive_sat.Prelude.{
  ℕ, suc, ◌+◌, ◌≡◌, refl, subst, true, false, not, ◌||◌, List, [], ◌∷◌, Option, none, some, any,
  all, ℤ, abs, is_positive, is_negative, is_zero, arith, ◌==◌, Option-cases, ltb, leb, length,
  Bool-cases, inl, inr, &&-true,
}
use hive_sat.Prelude.Dict.{set, delete, get-set, get-delete}
use hive_sat.Cnf.{Valuation, clause_true, formula_true, Unsat}
use hive_sat.Lrat.Text.{Token, trim, split_tokens, split_lines, is_comment, token_eq, utf8_length}
use hive_sat.Lrat.Rup.{Clauses, check_rup_chain}
use hive_sat.Lrat.Rup.Soundness.{Satisfies, check_rup_chain_sound}
use hive_sat.Lrat.Checker.{
  LratCheckLimits, LimitOverrides, LratCheckResult, Progress, LineStep, next, stop, load_from,
  index_of, last_index_of, delete_ids, add_clause, check_integers, slice_integers, addition_line,
  deletion_line, rest_of_line, token_line, trimmed_line, check_line, finish, check_lines,
  verify_text_lrat, bounded_limits,
}

Satisfies-set :
    (v : Valuation) (id : ℕ) (c : List ℤ) (m : Clauses)
    → clause_true v c ≡ true
    → Satisfies v m
    → Satisfies v (set id c m)
Satisfies-set v id c m t s j d e = elim (Bool-cases (id == j)) [
  | inl h ↦ ground (arith, get-set id j c m)
  | inr h ↦ s j d (ground (arith, get-set id j c m))
]

Satisfies-delete :
    (v : Valuation) (id : ℕ) (m : Clauses) → Satisfies v m → Satisfies v (delete id m)
Satisfies-delete v id m s j d e = s j d (ground (arith, get-delete id j m))

Satisfies-load_from :
    (v : Valuation) (id : ℕ) (cs : List (List ℤ)) (m : Clauses)
    → formula_true v cs ≡ true
    → Satisfies v m
    → Satisfies v (load_from id cs m)
unfolding load_from
Satisfies-load_from v id [] m t s = s
Satisfies-load_from v id (c ∷ cs) m t s =
    let (tc, tcs) = &&-true (clause_true v c) (formula_true v cs) t in
    Satisfies-load_from v (suc id) cs (set id c m) tcs (Satisfies-set v id c m tc s)

-- The loop's state under a valuation of the original clauses: the empty clause is not reached.
abbrev Modelled : Valuation → Progress → Type 0
Modelled v p = Satisfies v p.clauses × (p.reached_empty_clause ≡ false)

abbrev StepModelled : Valuation → LineStep → Type 0
StepModelled v (next p) = Modelled v p
StepModelled v (stop r) = r.valid ≡ false

abbrev DeletionModelled : Valuation → Option Clauses → Type 0
DeletionModelled v none = Unit {0}
DeletionModelled v (some m) = Satisfies v m

module _ (v : Valuation) (number : Token → Option ℤ) where
  delete_ids-Satisfies :
      (ts : List Token) (m : Clauses) → Satisfies v m → DeletionModelled v (delete_ids number ts m)
  unfolding delete_ids
  delete_ids-Satisfies [] m s = s
  delete_ids-Satisfies (t ∷ ts) m s = elim (Option-cases (number t)) [
    | inl e ↦ rw (e, DeletionModelled, delete_ids) tt
    | inr (n, e) ↦
        rw (e, DeletionModelled, delete_ids)
          (elim (Bool-cases (is_zero n)) [
            | inl z ↦ rw z s
            | inr z ↦ rw z (elim (Bool-cases (is_negative n)) [
              | inl g ↦ rw g tt
              | inr g ↦
                  rw g (delete_ids-Satisfies ts (delete (abs n) m) (Satisfies-delete v (abs n) m s))
            ])
          ])
  ]

  add_clause-StepModelled :
      (limits : LratCheckLimits) (line id : ℕ) (clause hints : List ℤ) (p : Progress)
      → all (λ l. not (is_zero l)) clause ≡ true
      → Modelled v p
      → StepModelled v (add_clause number limits line id clause hints p)
  unfolding add_clause
  add_clause-StepModelled limits line id clause hints p nz s =
      elim (Bool-cases (
        ltb limits.max_derived_clauses (p.derived_clauses + 1)
        || ltb limits.max_hints (p.checked_hints + length hints))) [
          | inl e ↦ rw e refl
          | inr e ↦ rw e (elim (Bool-cases (check_rup_chain clause hints p.clauses)) [
            | inl k ↦ rw k (derived (check_rup_chain_sound v clause hints p.clauses nz s.0 k))
            | inr k ↦ rw k refl
          ])
        ]
    where
      derived :
          clause_true v clause ≡ true
          → Satisfies v (set id clause p.clauses)
            × ((elim clause [ [] ↦ true | _ ∷ _ ↦ p.reached_empty_clause ]) ≡ false)
      derived t = (Satisfies-set v id clause p.clauses t s.0, ground arith)

  check_integers-StepModelled :
      (limits : LratCheckLimits) (line id : ℕ) (clause hints : Option (List ℤ)) (p : Progress)
      → Modelled v p
      → StepModelled v (check_integers number limits line id clause hints p)
  unfolding check_integers
  check_integers-StepModelled limits line id none hints p s = refl
  check_integers-StepModelled limits line id (some clause) none p s = refl
  check_integers-StepModelled limits line id (some clause) (some hints) p s =
      elim (Bool-cases (all (λ l. not (is_zero l)) clause)) [
        | inr z ↦ rw z refl
        | inl nz ↦ rw nz (elim (Bool-cases (any is_negative hints)) [
          | inl g ↦ rw g refl
          | inr g ↦ rw g (add_clause-StepModelled limits line id clause hints p nz s)
        ])
      ]

  slice_integers-StepModelled :
      (limits : LratCheckLimits) (line id : ℕ) (ts : List Token) (first last : Option ℕ)
      (p : Progress)
      → Modelled v p
      → StepModelled v (slice_integers number limits line id ts first last p)
  slice_integers-StepModelled limits line id ts none last p s = refl
  slice_integers-StepModelled limits line id ts (some first) none p s = refl
  slice_integers-StepModelled limits line id ts (some first) (some last) p s =
      elim (Bool-cases (leb last first)) [
        | inl e ↦ rw e refl
        | inr e ↦ rw e (check_integers-StepModelled limits line id _ _ p s)
      ]

  addition_line-StepModelled :
      (limits : LratCheckLimits) (line id : ℕ) (ts : List Token) (p : Progress)
      → Modelled v p
      → StepModelled v (addition_line number limits line id ts p)
  unfolding addition_line
  addition_line-StepModelled limits line id ts p s =
      slice_integers-StepModelled limits line id ts (index_of (b'0' ∷ []) ts)
        (last_index_of (b'0' ∷ []) ts) p s

  deletion_line-StepModelled :
      (line : ℕ) (ts : List Token) (p : Progress)
      → Modelled v p
      → StepModelled v (deletion_line number line ts p)
  unfolding deletion_line
  deletion_line-StepModelled line ts p s = after (delete_ids number ts p.clauses) refl
    where
      after :
          (o : Option Clauses)
          → delete_ids number ts p.clauses ≡ o
          → StepModelled v (deletion_line number line ts p)
      after none e = rw (e, StepModelled, deletion_line) refl
      after (some m) e =
          rw (e, StepModelled, deletion_line)
            (subst (DeletionModelled v) e (delete_ids-Satisfies ts p.clauses s.0), s.1)

  rest_of_line-StepModelled :
      (limits : LratCheckLimits) (line id : ℕ) (ts : List Token) (p : Progress)
      → Modelled v p
      → StepModelled v (rest_of_line number limits line id ts p)
  unfolding rest_of_line
  rest_of_line-StepModelled limits line id [] p s = addition_line-StepModelled limits line id [] p s
  rest_of_line-StepModelled limits line id (t ∷ ts) p s =
      elim (Bool-cases (token_eq t (b'd' ∷ []))) [
        | inl e ↦ rw e (deletion_line-StepModelled line ts p s)
        | inr e ↦ rw e (addition_line-StepModelled limits line id (t ∷ ts) p s)
      ]

  token_line-StepModelled :
      (limits : LratCheckLimits) (line : ℕ) (ts : List Token) (p : Progress)
      → Modelled v p
      → StepModelled v (token_line number limits line ts p)
  unfolding token_line
  token_line-StepModelled limits line [] p s = refl
  token_line-StepModelled limits line (t ∷ ts) p s = elim (Option-cases (number t)) [
    | inl e ↦ rw (e, StepModelled, token_line) refl
    | inr (id, e) ↦
        rw (e, StepModelled, token_line)
          (elim (Bool-cases (is_positive id)) [
            | inl g ↦ rw g (rest_of_line-StepModelled limits line (abs id) ts p s)
            | inr g ↦ rw g refl
          ])
  ]

  trimmed_line-StepModelled :
      (limits : LratCheckLimits) (line : ℕ) (cs : List ℕ) (p : Progress)
      → Modelled v p
      → StepModelled v (trimmed_line number limits line cs p)
  trimmed_line-StepModelled limits line [] p s = s
  trimmed_line-StepModelled limits line (c ∷ cs) p s = elim (Bool-cases (is_comment (c ∷ cs))) [
    | inl e ↦ rw e s
    | inr e ↦ rw e (token_line-StepModelled limits line (split_tokens (c ∷ cs)) p s)
  ]

  check_line-StepModelled :
      (limits : LratCheckLimits) (line : ℕ) (source : List ℕ) (p : Progress)
      → Modelled v p
      → StepModelled v (check_line number limits line source p)
  unfolding check_line
  check_line-StepModelled limits line source p s =
      trimmed_line-StepModelled limits line (trim source) p s

  finish-refuses : (p : Progress) → Modelled v p → (finish number p).valid ≡ false
  unfolding finish
  finish-refuses p s = rw s.1

  -- While a valuation makes the original clauses true, no proof is accepted.
  pub check_lines-refuses :
      (limits : LratCheckLimits) (line : ℕ) (ls : List (List ℕ)) (p : Progress)
      → Modelled v p
      → (check_lines number limits line ls p).valid ≡ false
  unfolding check_lines
  check_lines-refuses limits line [] p s = finish-refuses p s
  check_lines-refuses limits line (l ∷ ls) p s =
      after (check_line number limits line l p) (check_line-StepModelled limits line l p s)
        (λ q h. check_lines-refuses limits (suc line) ls q h)
    where
      after :
          (r : LineStep)
          → StepModelled v r
          → ((q : Progress)
              → Modelled v q
              → (check_lines number limits (suc line) ls q).valid ≡ false)
          → (elim r as (λ _. LratCheckResult) [
            | next q ↦ check_lines number limits (suc line) ls q
            | stop x ↦ x
          ]).valid
            ≡ false
      after (next q) h ih = ih q h
      after (stop x) h ih = h

-- Under a valuation of the original clauses the whole run refuses, for size or by its lines.
verify_text_lrat-refuses :
    (number : Token → Option ℤ) (original : List (List ℤ)) (proof : List ℕ) (o : LimitOverrides)
    (v : Valuation)
    → formula_true v original ≡ true
    → (verify_text_lrat number original proof o).valid ≡ false
unfolding verify_text_lrat
verify_text_lrat-refuses number original proof o v t =
    elim (Bool-cases (ltb (bounded_limits o).max_proof_bytes (utf8_length proof))) [
      | inl e ↦ rw e refl
      | inr e ↦ rw e (
          check_lines-refuses v number (bounded_limits o) 1 (split_lines proof) _
            (Satisfies-load_from v 1 original [] t (λ id c g. cc), refl))
    ]

-- If `verifyTextLrat` accepts a proof of a clause list, under any limits and any reading of
-- numbers, then no valuation makes all the clauses true.
pub verify_text_lrat-Unsat :
    (number : Token → Option ℤ) (original : List (List ℤ)) (proof : List ℕ) (o : LimitOverrides)
    → (verify_text_lrat number original proof o).valid ≡ true
    → Unsat original
verify_text_lrat-Unsat number original proof o ok v = elim (Bool-cases (formula_true v original)) [
  | inl t ↦ absurd (ground (arith, verify_text_lrat-refuses number original proof o v t))
  | inr f ↦ f
]
