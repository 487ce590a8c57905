-- ===== src/Lrat/Rup.antt =====
-- `literalValue`, `assignLiteral` and `checkRupChain` of shared/lrat-check.ts.
pub mod Soundness
use hive_sat.Prelude.{
  Bool, true, false, ◌||◌, List, [], ◌∷◌, Option, none, some, any, filter, ℤ, abs, is_positive,
  is_negative, is_zero, neg, if◌then◌else◌,
}
use hive_sat.Prelude.Dict.{Dict, get, set}

abbrev pub Assignment : Type 0
Assignment = Dict Bool

-- The clause database: `Map<number, number[]>`.
abbrev pub Clauses : Type 0
Clauses = Dict (List ℤ)

abbrev pub bool_eq : Bool → Bool → Bool
bool_eq true b = b
bool_eq false true = false
bool_eq false false = true

-- `undefined` is `none`.
unfoldable pub literal_value : ℤ → Assignment → Option Bool
literal_value l a = elim (get (abs l) a) [
  | none ↦ none
  | some value ↦ some (bool_eq (is_positive l) value)
]

abbrev assign_after : ℤ → Assignment → Option Bool → Option Assignment
assign_after l a none = some (set (abs l) (is_positive l) a)
assign_after l a (some previous) =
    if bool_eq previous (is_positive l) then some (set (abs l) (is_positive l) a) else none

-- The assignment after a success, `none` where the source returns false.
unfoldable pub assign_literal : ℤ → Assignment → Option Assignment
assign_literal l a = assign_after l a (get (abs l) a)

-- The first loop of `checkRupChain`: `none` where it returns true at once.
unfoldable pub assume_negation : List ℤ → Assignment → Option Assignment
assume_negation [] a = some a
assume_negation (l ∷ ls) a = elim (assign_literal (neg l) a) [
  | none ↦ none
  | some a' ↦ assume_negation ls a'
]

pub data HintStep : Type 0 where
  rejected : HintStep
  conflict : HintStep
  extended : Assignment → HintStep

abbrev pub is_unassigned : Assignment → ℤ → Bool
is_unassigned a l = elim (literal_value l a) [ none ↦ true | some _ ↦ false ]

abbrev pub is_true : Assignment → ℤ → Bool
is_true a l = elim (literal_value l a) [ none ↦ false | some value ↦ value ]

abbrev unit_of : Option Assignment → HintStep
unit_of none = rejected
unit_of (some a) = extended a

abbrev unit_step : List ℤ → Assignment → HintStep
unit_step [] a = conflict
unit_step (l ∷ []) a = unit_of (assign_literal l a)
unit_step (l ∷ m ∷ ls) a = rejected

abbrev antecedent_step : List ℤ → Assignment → HintStep
antecedent_step antecedent a =
    let unassigned = filter (is_unassigned a) antecedent in
    if any (is_true a) antecedent then rejected else unit_step unassigned a

-- One round of the second loop.
unfoldable pub hint_step : Clauses → ℤ → Assignment → HintStep
hint_step clauses hint a =
    if is_negative hint || is_zero hint then rejected else elim (get (abs hint) clauses) [
      | none ↦ rejected
      | some antecedent ↦ antecedent_step antecedent a
    ]

unfoldable pub follow_hints : Clauses → List ℤ → Assignment → Bool
follow_hints clauses [] a = false
follow_hints clauses (h ∷ hs) a = elim (hint_step clauses h a) [
  | rejected ↦ false
  | conflict ↦ true
  | extended a' ↦ follow_hints clauses hs a'
]

unfoldable pub check_rup_chain : List ℤ → List ℤ → Clauses → Bool
check_rup_chain clause hints clauses = elim (assume_negation clause []) [
  | none ↦ true
  | some a ↦ follow_hints clauses hints a
]
