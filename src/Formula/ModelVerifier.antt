-- ===== src/Formula/ModelVerifier.antt =====
-- `verifySatModel` of src/lib/formula/modelVerifier.ts. Numbers are integers here, so the tests
-- `Number.isInteger` and `isSafeInteger` of the source hold by the representation.
pub mod Soundness
use hive_sat.Prelude.{
  ℕ, zero, suc, ◌-◌, Bool, true, false, ◌&&◌, ◌||◌, not, List, [], ◌∷◌, Option, none, some, length,
  ltb, ◌==◌, ℤ, pos, negsuc, abs, is_positive, is_zero, int_eq, if◌then◌else◌,
}
use hive_sat.Limits.{max_variables, max_clauses, max_literal_occurrences}

pub record Formula : Type 0 where
  pub variable_count : ℕ
  pub clauses : List (List ℤ)

pub data Reason : Type 0 where
  too_many_variables too_many_clauses too_many_literals unsatisfied_clause : Reason
  invalid_model_literal invalid_formula_literal : ℤ → Reason
  assigned_twice unassigned : ℕ → Reason

pub data ModelVerification : Type 0 where
  valid : List Bool → ModelVerification
  invalid : Reason → Option ℕ → ModelVerification

-- The `Int8Array`: 1, -1, or 0 for a variable with no value.
abbrev pub Values : Type 0
Values = ℕ → ℤ

abbrev pub value_of : ℤ → ℤ
value_of l = if is_positive l then pos 1 else negsuc 0

abbrev pub assign : ℕ → ℤ → Values → Values
assign x value a y = if x == y then value else a y

abbrev pub out_of_range : ℕ → ℤ → Bool
out_of_range n l = is_zero l || ltb n (abs l)

pub data Assigned : Type 0 where
  assigned : Values → Assigned
  refused : Reason → Assigned

-- The loop over the literals of the model.
unfoldable pub assign_model : ℕ → List ℤ → Values → Assigned
assign_model n [] a = assigned a
assign_model n (l ∷ ls) a =
    let rest = assign_model n ls (assign (abs l) (value_of l) a) in
    if out_of_range n l
    then refused (invalid_model_literal l)
    else if not (is_zero (a (abs l))) && not (int_eq (a (abs l)) (value_of l))
    then refused (assigned_twice (abs l))
    else rest

-- The loop over the variables from `x`, `k` of them: the first without a value.
unfoldable pub first_unassigned : ℕ → ℕ → Values → Option ℕ
first_unassigned zero x a = none
first_unassigned (suc k) x a =
    let rest = first_unassigned k (suc x) a in if is_zero (a x) then some x else rest

pub data ClauseCheck : Type 0 where
  checked : ℕ → Bool → ClauseCheck
  bad : Reason → ClauseCheck

-- The loop over the literals of one clause, with the count of literals so far.
unfoldable pub check_literals : ℕ → Values → List ℤ → ℕ → Bool → ClauseCheck
check_literals n a [] count satisfied = checked count satisfied
check_literals n a (l ∷ ls) count satisfied =
    let rest = check_literals n a ls (suc count) (int_eq (a (abs l)) (value_of l) || satisfied) in
    if ltb max_literal_occurrences (suc count)
    then bad too_many_literals
    else if out_of_range n l
    then bad (invalid_formula_literal l)
    else rest

-- The loop over the clauses: the refusal, if there is one.
unfoldable pub check_clauses : ℕ → Values → List (List ℤ) → ℕ → ℕ → Option (Reason × Option ℕ)
check_clauses n a [] index count = none
check_clauses n a (c ∷ cs) index count = elim (check_literals n a c count false) [
  | bad r ↦ some (r, none)
  | checked count' true ↦ check_clauses n a cs (suc index) count'
  | checked count' false ↦ some (unsatisfied_clause, some index)
]

-- `Array.from(assignments.subarray(1), (value) => value === 1)`, from the variable `x` on.
unfoldable pub truth_values : ℕ → ℕ → Values → List Bool
truth_values zero x a = []
truth_values (suc k) x a = int_eq (a x) (pos 1) ∷ truth_values k (suc x) a

unfoldable pub conclude : Formula → Values → Option (Reason × Option ℕ) → ModelVerification
conclude f a none = valid (truth_values f.variable_count 1 a)
conclude f a (some (r, index)) = invalid r index

unfoldable pub check_assignment : Formula → Values → ModelVerification
unfolding conclude
check_assignment f a = elim (first_unassigned f.variable_count 1 a) [
  | some x ↦ invalid (unassigned x) none
  | none ↦ conclude f a (check_clauses f.variable_count a f.clauses 0 0)
]

unfoldable pub verify_sat_model : Formula → List ℤ → ModelVerification
unfolding check_assignment
verify_sat_model f model =
    if ltb max_variables f.variable_count
    then invalid too_many_variables none
    else if ltb max_clauses (length f.clauses)
    then invalid too_many_clauses none
    else elim (assign_model f.variable_count model (λ x. pos 0)) [
      | refused r ↦ invalid r none
      | assigned a ↦ check_assignment f a
    ]
