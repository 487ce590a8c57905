-- ===== src/Lrat/Checker/Bounds.antt =====
-- The limits of `verifyTextLrat` of shared/lrat-check.ts.
use hive_sat.Prelude.{
  some_inj, ◌-◌, take, drop, ap, sym, ◌∙◌, subst, if◌then◌else◌, ℕ, suc, ◌≡◌, refl, ◌≤◌, ◌+◌, true,
  false, ◌||◌, not, ltb, leb, ltb→ge, List, [], ◌∷◌, Option, none, some, all, any, length, ℤ, abs,
  is_positive, is_negative, is_zero, arith, Bool-cases, Option-cases, inl, inr,
}
use hive_sat.Lrat.Text.{Token, utf8_length, split_lines, trim, is_comment, split_tokens, token_eq}
use hive_sat.Lrat.Rup.{Clauses, check_rup_chain}
use hive_sat.Lrat.Checker.{
  LratCheckLimits, LimitOverrides, bounded_limits, LratCheckResult, Progress, LineStep, next, stop,
  numbers, delete_ids, add_clause, check_integers, slice_integers, addition_line, deletion_line,
  rest_of_line, token_line, trimmed_line, check_line, finish, check_lines, verify_text_lrat,
  index_of, last_index_of,
}

-- What the text of a proof has in additions and hints, read off its lines alone: the hints of an addition
-- are the tokens between its first and its last 0.
abbrev between : List Token → Option ℕ → Option ℕ → ℕ
between ts (some first) (some last) = length (take (last - first - 1) (drop (first + 1) ts))
between ts first last = 0

abbrev addition_counts : List Token → ℕ × ℕ
addition_counts ts = (1, between ts (index_of (b'0' ∷ []) ts) (last_index_of (b'0' ∷ []) ts))

abbrev rest_counts : List Token → ℕ × ℕ
rest_counts [] = addition_counts []
rest_counts (t ∷ ts) = if token_eq t (b'd' ∷ []) then (0, 0) else addition_counts (t ∷ ts)

abbrev token_counts : List Token → ℕ × ℕ
token_counts [] = (0, 0)
token_counts (id ∷ ts) = rest_counts ts

abbrev trimmed_counts : List ℕ → ℕ × ℕ
trimmed_counts [] = (0, 0)
trimmed_counts (c ∷ cs) =
    if is_comment (c ∷ cs) then (0, 0) else token_counts (split_tokens (c ∷ cs))

abbrev line_counts : List ℕ → ℕ × ℕ
line_counts source = trimmed_counts (trim source)

pub additions_of : List (List ℕ) → ℕ
additions_of [] = 0
additions_of (l ∷ ls) = (line_counts l).0 + additions_of ls

pub hints_of : List (List ℕ) → ℕ
hints_of [] = 0
hints_of (l ∷ ls) = (line_counts l).1 + hints_of ls

abbrev Within : LratCheckLimits → Progress → Type 0
Within limits p =
    (p.derived_clauses ≤ limits.max_derived_clauses) × (p.checked_hints ≤ limits.max_hints)

-- A step that goes on has counted what the line has.
abbrev StepWithin : LratCheckLimits → Progress → ℕ × ℕ → LineStep → Type 0
StepWithin limits p c (next q) =
    Within limits q
    × (q.derived_clauses ≡ p.derived_clauses + c.0)
    × (q.checked_hints ≡ p.checked_hints + c.1)
StepWithin limits p c (stop r) = r.valid ≡ false

-- An accepted result has counted everything, and is within the limits.
abbrev Accepted : LratCheckLimits → ℕ → ℕ → LratCheckResult → Type 0
Accepted limits derived hints r =
    r.valid ≡ true
    → (r.derived_clauses ≡ derived)
      × (r.checked_hints ≡ hints)
      × (derived ≤ limits.max_derived_clauses)
      × (hints ≤ limits.max_hints)

module _ (number : Token → Option ℤ) (limits : LratCheckLimits) where
  length-numbers :
      (ts : List Token) (ns : List ℤ) → numbers number ts ≡ some ns → length ns ≡ length ts
  unfolding numbers
  length-numbers [] ns = λ h. ap length (sym (some_inj _ _ h))
  length-numbers (t ∷ ts) ns = elim (Option-cases (number t)) [
    | inl e ↦ rw (e, numbers) (λ h. absurd (cc))
    | inr (n, e) ↦
        rw (e, numbers)
          (elim (Option-cases (numbers number ts)) [
            | inl f ↦ rw f (λ h. absurd (cc))
            | inr (ms, f) ↦
                rw f (λ h. ap length (sym (some_inj _ _ h)) ∙ ap suc (length-numbers ts ms f))
          ])
  ]

  add_clause-StepWithin :
      (line id : ℕ) (clause hints : List ℤ) (p : Progress)
      → Within limits p
      → StepWithin limits p (1, length hints) (add_clause number limits line id clause hints p)
  unfolding add_clause
  add_clause-StepWithin line id clause hints p s =
      elim (Bool-cases (
        ltb limits.max_derived_clauses (p.derived_clauses + 1)
        || ltb limits.max_hints (p.checked_hints + length hints))) [
          | inl e ↦ rw e refl
          | inr e ↦ rw e (elim (Bool-cases (check_rup_chain clause hints p.clauses)) [
            | inl k ↦
                rw k
                  (in_limits (p.derived_clauses + 1) (p.checked_hints + length hints) e, refl, refl)
            | inr k ↦ rw k refl
          ])
        ]
    where
      in_limits :
          (derived checked : ℕ)
          → (ltb limits.max_derived_clauses derived || ltb limits.max_hints checked) ≡ false
          → (derived ≤ limits.max_derived_clauses) × (checked ≤ limits.max_hints)
      in_limits derived checked e = ground arith

  check_integers-StepWithin :
      (line id k : ℕ) (clause hints : Option (List ℤ)) (p : Progress)
      → ((hs : List ℤ) → hints ≡ some hs → length hs ≡ k)
      → Within limits p
      → StepWithin limits p (1, k) (check_integers number limits line id clause hints p)
  unfolding check_integers
  check_integers-StepWithin line id k none hints p n s = refl
  check_integers-StepWithin line id k (some clause) none p n s = refl
  check_integers-StepWithin line id k (some clause) (some hints) p n s =
      elim (Bool-cases (all (λ l. not (is_zero l)) clause)) [
        | inr z ↦ rw z refl
        | inl nz ↦ rw nz (elim (Bool-cases (any is_negative hints)) [
          | inl g ↦ rw g refl
          | inr g ↦ rw g (
              subst
                (λ j. StepWithin limits p (1, j) (add_clause number limits line id clause hints p))
                (n hints refl) (add_clause-StepWithin line id clause hints p s))
        ])
      ]

  slice_integers-StepWithin :
      (line id : ℕ) (ts : List Token) (first last : Option ℕ) (p : Progress)
      → Within limits p
      → StepWithin limits p
          (1, between ts first last)
          (slice_integers number limits line id ts first last p)
  slice_integers-StepWithin line id ts none last p s = refl
  slice_integers-StepWithin line id ts (some first) none p s = refl
  slice_integers-StepWithin line id ts (some first) (some last) p s =
      elim (Bool-cases (leb last first)) [
        | inl e ↦ rw e refl
        | inr e ↦ rw e (
            check_integers-StepWithin line id _ _ _ p
              (λ hs q. length-numbers (take (last - first - 1) (drop (first + 1) ts)) hs q) s)
      ]

  addition_line-StepWithin :
      (line id : ℕ) (ts : List Token) (p : Progress)
      → Within limits p
      → StepWithin limits p (addition_counts ts) (addition_line number limits line id ts p)
  unfolding addition_line
  addition_line-StepWithin line id ts p s =
      slice_integers-StepWithin line id ts (index_of (b'0' ∷ []) ts) (last_index_of (b'0' ∷ []) ts)
        p s

  deletion_line-StepWithin :
      (line : ℕ) (ts : List Token) (p : Progress)
      → Within limits p
      → StepWithin limits p (0, 0) (deletion_line number line ts p)
  unfolding deletion_line
  deletion_line-StepWithin line ts p s = after (delete_ids number ts p.clauses) refl
    where
      after :
          (o : Option Clauses)
          → delete_ids number ts p.clauses ≡ o
          → StepWithin limits p (0, 0) (deletion_line number line ts p)
      after none e = rw (e, StepWithin, deletion_line) refl
      after (some m) e = rw (e, StepWithin, deletion_line) (s, omega arith, omega arith)

  rest_of_line-StepWithin :
      (line id : ℕ) (ts : List Token) (p : Progress)
      → Within limits p
      → StepWithin limits p (rest_counts ts) (rest_of_line number limits line id ts p)
  unfolding rest_of_line
  rest_of_line-StepWithin line id [] p s = addition_line-StepWithin line id [] p s
  rest_of_line-StepWithin line id (t ∷ ts) p s = elim (Bool-cases (token_eq t (b'd' ∷ []))) [
    | inl e ↦ rw e (deletion_line-StepWithin line ts p s)
    | inr e ↦ rw e (addition_line-StepWithin line id (t ∷ ts) p s)
  ]

  token_line-StepWithin :
      (line : ℕ) (ts : List Token) (p : Progress)
      → Within limits p
      → StepWithin limits p (token_counts ts) (token_line number limits line ts p)
  unfolding token_line
  token_line-StepWithin line [] p s = refl
  token_line-StepWithin line (t ∷ ts) p s = elim (Option-cases (number t)) [
    | inl e ↦ rw (e, StepWithin, token_line) refl
    | inr (id, e) ↦
        rw (e, StepWithin, token_line)
          (elim (Bool-cases (is_positive id)) [
            | inl g ↦ rw g (rest_of_line-StepWithin line (abs id) ts p s)
            | inr g ↦ rw g refl
          ])
  ]

  trimmed_line-StepWithin :
      (line : ℕ) (cs : List ℕ) (p : Progress)
      → Within limits p
      → StepWithin limits p (trimmed_counts cs) (trimmed_line number limits line cs p)
  trimmed_line-StepWithin line [] p s = (s, omega arith, omega arith)
  trimmed_line-StepWithin line (c ∷ cs) p s = elim (Bool-cases (is_comment (c ∷ cs))) [
    | inl e ↦ rw e (s, omega arith, omega arith)
    | inr e ↦ rw e (token_line-StepWithin line (split_tokens (c ∷ cs)) p s)
  ]

  check_line-StepWithin :
      (line : ℕ) (source : List ℕ) (p : Progress)
      → Within limits p
      → StepWithin limits p (line_counts source) (check_line number limits line source p)
  unfolding check_line
  check_line-StepWithin line source p s = trimmed_line-StepWithin line (trim source) p s

  finish-Accepted :
      (p : Progress)
      → Within limits p
      → Accepted limits p.derived_clauses p.checked_hints (finish number p)
  unfolding finish
  finish-Accepted p s = elim (Bool-cases p.reached_empty_clause) [
    | inl e ↦ simp e (λ h. (refl, refl, s.0, s.1))
    | inr e ↦ simp e (λ h. absurd (ground arith))
  ]

  check_lines-Accepted :
      (line : ℕ) (ls : List (List ℕ)) (p : Progress)
      → Within limits p
      → Accepted limits
          (p.derived_clauses + additions_of ls)
          (p.checked_hints + hints_of ls)
          (check_lines number limits line ls p)
  unfolding check_lines additions_of hints_of
  check_lines-Accepted line [] p s =
      subst (λ d. Accepted limits d (p.checked_hints + 0) (finish number p)) (omega arith)
        (subst (λ k. Accepted limits p.derived_clauses k (finish number p)) (omega arith)
          (finish-Accepted p s))
  check_lines-Accepted line (l ∷ ls) p s =
      after (check_line number limits line l p) (check_line-StepWithin line l p s)
        (λ q h. check_lines-Accepted (suc line) ls q h)
    where
      after :
          (r : LineStep)
          → StepWithin limits p (line_counts l) r
          → ((q : Progress)
              → Within limits q
              → Accepted limits
                  (q.derived_clauses + additions_of ls)
                  (q.checked_hints + hints_of ls)
                  (check_lines number limits (suc line) ls q))
          → Accepted limits
              (p.derived_clauses + ((line_counts l).0 + additions_of ls))
              (p.checked_hints + ((line_counts l).1 + hints_of ls))
              (elim r as (λ _. LratCheckResult) [
                | next q ↦ check_lines number limits (suc line) ls q
                | stop x ↦ x
              ])
      after (next q) (h, d, k) ih = λ g.
          let (x, y, z, w) = ih q h g in
          (omega (arith, x, d), omega (arith, y, k), omega (arith, z, d), omega (arith, w, k))
      after (stop x) h ih = λ g. absurd (ground arith)

-- If `verifyTextLrat` accepts a proof, then the proof has at most as many bytes, additions and hints as
-- the limits allow, the default where none is given, and the result counts its additions and hints.
-- Both are counted in the text: an addition is a line that is neither empty nor a comment nor a
-- deletion, and its hints are the tokens between its first and its last 0.
pub verify_text_lrat-Accepted :
    (number : Token → Option ℤ) (original : List (List ℤ)) (proof : List ℕ) (o : LimitOverrides)
    → (verify_text_lrat number original proof o).valid ≡ true
    → (utf8_length proof ≤ (bounded_limits o).max_proof_bytes)
      × (additions_of (split_lines proof) ≤ (bounded_limits o).max_derived_clauses)
      × (hints_of (split_lines proof) ≤ (bounded_limits o).max_hints)
      × ((verify_text_lrat number original proof o).derived_clauses
          ≡ additions_of (split_lines proof))
      × ((verify_text_lrat number original proof o).checked_hints ≡ hints_of (split_lines proof))
unfolding verify_text_lrat
verify_text_lrat-Accepted number original proof o =
    elim (Bool-cases (ltb (bounded_limits o).max_proof_bytes (utf8_length proof))) [
      | inl e ↦ rw e (λ h. absurd (ground arith))
      | inr e ↦ rw e (λ h.
          let (d, k, a, b) =
            check_lines-Accepted number (bounded_limits o) 1 (split_lines proof) _
              (omega arith, omega arith) h in
          (ltb→ge _ _ e, omega (arith, a), omega (arith, b), omega (arith, d), omega (arith, k)))
    ]
