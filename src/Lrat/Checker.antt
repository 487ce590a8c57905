-- ===== src/Lrat/Checker.antt =====
-- `verifyTextLrat` of shared/lrat-check.ts, line by line.
-- `number` stands for the conversion `Number(token)`: `some n` when it is the safe integer n.
pub mod Soundness
pub mod Bounds
use hive_sat.Prelude.{
  ℕ, suc, ◌+◌, ◌-◌, Bool, true, false, ◌||◌, not, ltb, leb, List, [], ◌∷◌, Option, none, some, all,
  any, take, drop, length, ℤ, abs, is_positive, is_negative, is_zero, if◌then◌else◌,
}
use hive_sat.Prelude.Dict.{set, delete}
use hive_sat.Lrat.Text.{Token, utf8_length, split_lines, trim, is_comment, split_tokens, token_eq}
use hive_sat.Lrat.Rup.{Clauses, check_rup_chain}

pub record LratCheckLimits : Type 0 where
  pub max_proof_bytes : ℕ
  pub max_derived_clauses : ℕ
  pub max_hints : ℕ

-- `Partial<LratCheckLimits>`.
pub record LimitOverrides : Type 0 where
  pub proof_bytes : Option ℕ
  pub derived_clauses : Option ℕ
  pub hints : Option ℕ

abbrev pub default_limits : LratCheckLimits
default_limits = record {
  max_proof_bytes = 134217728;
  max_derived_clauses = 2000000;
  max_hints = 16000000;
}

abbrev pub or_default : ℕ → Option ℕ → ℕ
or_default d none = d
or_default d (some n) = n

abbrev pub bounded_limits : LimitOverrides → LratCheckLimits
bounded_limits o = record {
  max_proof_bytes = or_default default_limits.max_proof_bytes o.proof_bytes;
  max_derived_clauses = or_default default_limits.max_derived_clauses o.derived_clauses;
  max_hints = or_default default_limits.max_hints o.hints;
}

-- The message of a refusal, with the line number that it names.
pub data Reason : Type 0 where
  proof_byte_limit operation_limit no_empty_clause rat_hints : Reason
  invalid_id invalid_deletion malformed_addition invalid_integer invalid_chain : ℕ → Reason

pub record LratCheckResult : Type 0 where
  pub valid : Bool
  pub reason : Option Reason
  pub derived_clauses : ℕ
  pub checked_hints : ℕ
  pub limit_exceeded : Bool
  pub requires_full_checker : Bool

-- The variables of the loop over the lines.
pub record Progress : Type 0 where
  pub clauses : Clauses
  pub derived_clauses : ℕ
  pub checked_hints : ℕ
  pub reached_empty_clause : Bool

pub data LineStep : Type 0 where
  next : Progress → LineStep
  stop : LratCheckResult → LineStep

abbrev pub refuse : Reason → Progress → LratCheckResult
refuse r p = record {
  valid = false;
  reason = some r;
  derived_clauses = p.derived_clauses;
  checked_hints = p.checked_hints;
  limit_exceeded = false;
  requires_full_checker = false;
}

-- `originalClauses.forEach((clause, index) => clauses.set(index + 1, [...clause]))`.
unfoldable pub load_from : ℕ → List (List ℤ) → Clauses → Clauses
load_from id [] m = m
load_from id (c ∷ cs) m = load_from (suc id) cs (set id c m)

-- `tokens.indexOf(text)`; `none` is -1.
unfoldable pub index_of : Token → List Token → Option ℕ
index_of x [] = none
index_of x (t ∷ ts) =
    let rest = index_of x ts in
    if token_eq t x then some 0 else elim rest [ none ↦ none | some i ↦ some (suc i) ]

-- `tokens.lastIndexOf(text)`.
unfoldable pub last_index_of : Token → List Token → Option ℕ
last_index_of x [] = none
last_index_of x (t ∷ ts) = elim (last_index_of x ts) [
  | none ↦ if token_eq t x then some 0 else none
  | some i ↦ some (suc i)
]

module _ (number : Token → Option ℤ) where
  -- `tokens.map(Number)`; `none` if one of them is no safe integer.
  unfoldable pub numbers : List Token → Option (List ℤ)
  numbers [] = some []
  numbers (t ∷ ts) = elim (number t) [
    | none ↦ none
    | some n ↦ elim (numbers ts) [ none ↦ none | some ns ↦ some (n ∷ ns) ]
  ]

  -- The loop of a deletion line; `none` on an invalid id.
  unfoldable pub delete_ids : List Token → Clauses → Option Clauses
  delete_ids [] m = some m
  delete_ids (t ∷ ts) m = elim (number t) [
    | none ↦ none
    | some n ↦
        let rest = delete_ids ts (delete (abs n) m) in
        if is_zero n then some m else if is_negative n then none else rest
  ]

  -- An addition whose clause and hints are read.
  unfoldable pub add_clause : LratCheckLimits → ℕ → ℕ → List ℤ → List ℤ → Progress → LineStep
  add_clause limits line id clause hints p =
      let checked = p.checked_hints + length hints in
      let derived = p.derived_clauses + 1 in
      let q : Progress = record p { derived_clauses = derived; checked_hints = checked } in
      if ltb limits.max_derived_clauses derived || ltb limits.max_hints checked
      then stop (record (refuse operation_limit q) { limit_exceeded = true })
      else if not (check_rup_chain clause hints p.clauses)
      then stop (refuse (invalid_chain line) q)
      else next (record q {
        clauses = set id clause p.clauses;
        reached_empty_clause = elim clause [ [] ↦ true | _ ∷ _ ↦ p.reached_empty_clause ];
      })

  -- The integers of an addition: `clause` has no 0, and no hint is negative.
  unfoldable pub check_integers :
      LratCheckLimits → ℕ → ℕ → Option (List ℤ) → Option (List ℤ) → Progress → LineStep
  unfolding add_clause
  check_integers limits line id none hints p = stop (refuse (invalid_integer line) p)
  check_integers limits line id (some clause) none p = stop (refuse (invalid_integer line) p)
  check_integers limits line id (some clause) (some hints) p =
      if not (all (λ l. not (is_zero l)) clause)
      then stop (refuse (invalid_integer line) p)
      else if any is_negative hints
      then stop (record (refuse rat_hints p) { requires_full_checker = true })
      else add_clause limits line id clause hints p

  abbrev slice_integers :
      LratCheckLimits → ℕ → ℕ → List Token → Option ℕ → Option ℕ → Progress → LineStep
  slice_integers limits line id ts none last p = stop (refuse (malformed_addition line) p)
  slice_integers limits line id ts (some first) none p = stop (refuse (malformed_addition line) p)
  slice_integers limits line id ts (some first) (some last) p =
      if leb last first
      then stop (refuse (malformed_addition line) p)
      else check_integers limits line id (numbers (take first ts))
          (numbers (take (last - first - 1) (drop (first + 1) ts))) p

  unfoldable pub addition_line : LratCheckLimits → ℕ → ℕ → List Token → Progress → LineStep
  unfolding check_integers
  addition_line limits line id ts p =
      slice_integers limits line id ts (index_of (b'0' ∷ []) ts) (last_index_of (b'0' ∷ []) ts) p

  unfoldable pub deletion_line : ℕ → List Token → Progress → LineStep
  deletion_line line ts p = elim (delete_ids ts p.clauses) [
    | none ↦ stop (refuse (invalid_deletion line) p)
    | some m ↦ next (record p { clauses = m })
  ]

  -- What follows the id of a line.
  unfoldable pub rest_of_line : LratCheckLimits → ℕ → ℕ → List Token → Progress → LineStep
  unfolding addition_line deletion_line
  rest_of_line limits line id [] p = addition_line limits line id [] p
  rest_of_line limits line id (t ∷ ts) p =
      if token_eq t (b'd' ∷ [])
      then deletion_line line ts p
      else addition_line limits line id (t ∷ ts) p

  -- `Number(tokens.shift())`: an id is a positive safe integer.
  unfoldable pub token_line : LratCheckLimits → ℕ → List Token → Progress → LineStep
  unfolding rest_of_line
  token_line limits line [] p = stop (refuse (invalid_id line) p)
  token_line limits line (t ∷ ts) p = elim (number t) [
    | none ↦ stop (refuse (invalid_id line) p)
    | some id ↦
        if is_positive id
        then rest_of_line limits line (abs id) ts p
        else stop (refuse (invalid_id line) p)
  ]

  -- A trimmed line.
  abbrev trimmed_line : LratCheckLimits → ℕ → List ℕ → Progress → LineStep
  trimmed_line limits line [] p = next p
  trimmed_line limits line (c ∷ cs) p =
      if is_comment (c ∷ cs) then next p else token_line limits line (split_tokens (c ∷ cs)) p

  -- A line of the proof, by its number.
  unfoldable pub check_line : LratCheckLimits → ℕ → List ℕ → Progress → LineStep
  unfolding token_line
  check_line limits line source p = trimmed_line limits line (trim source) p

  unfoldable pub finish : Progress → LratCheckResult
  finish p =
      if p.reached_empty_clause
      then record {
        valid = true;
        reason = none;
        derived_clauses = p.derived_clauses;
        checked_hints = p.checked_hints;
        limit_exceeded = false;
        requires_full_checker = false;
      }
      else refuse no_empty_clause p

  unfoldable pub check_lines : LratCheckLimits → ℕ → List (List ℕ) → Progress → LratCheckResult
  unfolding finish
  check_lines limits line [] p = finish p
  check_lines limits line (l ∷ ls) p = elim (check_line limits line l p) [
    | next q ↦ check_lines limits (suc line) ls q
    | stop r ↦ r
  ]

  unfoldable pub verify_text_lrat : List (List ℤ) → List ℕ → LimitOverrides → LratCheckResult
  verify_text_lrat original proof overrides =
      let limits = bounded_limits overrides in
      let start : Progress = record {
        clauses = load_from 1 original [];
        derived_clauses = 0;
        checked_hints = 0;
        reached_empty_clause = false;
      } in
      if ltb limits.max_proof_bytes (utf8_length proof)
      then record (refuse proof_byte_limit (record start { clauses = [] })) {
        limit_exceeded = true;
      }
      else check_lines limits 1 (split_lines proof) start
