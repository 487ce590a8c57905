-- ===== src/Formula/ModelVerifier/Soundness.antt =====
-- What `verifySatModel` of src/lib/formula/modelVerifier.ts shows when it accepts a model.
use hive_sat.Prelude.{
  ℕ, zero, suc, ap, ◌∙◌, ◌+◌, ◌≡◌, ◌<◌, refl, sym, subst, Bool, true, false, ◌&&◌, ◌||◌, not, List,
  [], ◌∷◌, Option, none, some, length, ltb, ℤ, pos, negsuc, abs, is_zero, int_eq, int_eq→eq,
  int_eq_refl, arith, Bool-cases, inl, inr, Option-cases,
}
use hive_sat.Limits.{max_variables, max_clauses, max_literal_occurrences}
use hive_sat.Cnf.{Valuation, lit_true, clause_true, formula_true, cube_true}
use hive_sat.Formula.ModelVerifier.{
  Formula, Reason, ModelVerification, valid, invalid, Values, value_of, assign, out_of_range,
  Assigned, assigned, refused, assign_model, first_unassigned, ClauseCheck, checked, bad,
  check_literals, check_clauses, truth_values, conclude, check_assignment, verify_sat_model,
}

-- The valuation that the returned array stands for: variable i + 1 at index i.
abbrev pub valuation_of : List Bool → Valuation
valuation_of [] x = false
valuation_of (b ∷ bs) zero = false
valuation_of (b ∷ bs) (suc zero) = b
valuation_of (b ∷ bs) (suc (suc x)) = valuation_of bs (suc x)

length-truth_values : (k x : ℕ) (a : Values) → length (truth_values k x a) ≡ k
unfolding truth_values
length-truth_values zero x a = refl
length-truth_values (suc k) x a = omega (arith, length-truth_values k (suc x) a)

valuation_of-truth_values :
    (k x i j : ℕ) (a : Values)
    → i < k
    → j ≡ x + i
    → valuation_of (truth_values k x a) (suc i) ≡ int_eq (a j) (pos 1)
unfolding truth_values
valuation_of-truth_values zero x i j a h e = elim h [ ]
valuation_of-truth_values (suc k) x zero j a h e =
    let e' : x ≡ j = omega arith in ap (λ y. int_eq (a y) (pos 1)) e'
valuation_of-truth_values (suc k) x (suc i) j a h e =
    valuation_of-truth_values k (suc x) i j a (omega arith) (omega arith)

-- A literal that the array makes true is true in the valuation, if its variable is in range.
value_of-lit_true :
    (n : ℕ) (a : Values) (l : ℤ)
    → out_of_range n l ≡ false
    → int_eq (a (abs l)) (value_of l) ≡ true
    → lit_true (valuation_of (truth_values n 1 a)) l ≡ true
value_of-lit_true n a (pos zero) r h = cc
value_of-lit_true n a (pos (suc i)) r h =
    valuation_of-truth_values n 1 i (suc i) a (ground arith) (omega arith) ∙ h
value_of-lit_true n a (negsuc i) r h =
    rw (valuation_of-truth_values n 1 i (suc i) a (ground arith) (omega arith))
      (rw (int_eq→eq (a (suc i)) (negsuc 0) h))

abbrev Satisfied : ClauseCheck → Bool → Type 0
Satisfied (bad r) b = Unit {0}
Satisfied (checked count true) b = b ≡ true
Satisfied (checked count false) b = Unit {0}

Satisfied-mono :
    (r : ClauseCheck) (b c : Bool) → (b ≡ true → c ≡ true) → Satisfied r b → Satisfied r c
Satisfied-mono (bad r) b c f h = tt
Satisfied-mono (checked count true) b c f h = f h
Satisfied-mono (checked count false) b c f h = tt

-- A clause that passes the check is true.
check_literals-Satisfied :
    (n : ℕ) (a : Values) (c : List ℤ) (count : ℕ) (s : Bool)
    → Satisfied
        (check_literals n a c count s)
        (clause_true (valuation_of (truth_values n 1 a)) c || s)
unfolding check_literals
check_literals-Satisfied n a [] count true = refl
check_literals-Satisfied n a [] count false = tt
check_literals-Satisfied n a (l ∷ ls) count s =
    elim (Bool-cases (ltb max_literal_occurrences (suc count))) [
      | inl e ↦ rw e tt
      | inr e ↦ rw e (elim (Bool-cases (out_of_range n l)) [
        | inl o ↦ rw o tt
        | inr o ↦ rw o (
            Satisfied-mono (check_literals n a ls (suc count) (hit || s)) (truth ls || (hit || s)) _
              (either o) (check_literals-Satisfied n a ls (suc count) (hit || s)))
      ])
    ]
  where
    truth : List ℤ → Bool
    truth c = clause_true (valuation_of (truth_values n 1 a)) c

    hit : Bool
    hit = int_eq (a (abs l)) (value_of l)

    either :
        out_of_range n l ≡ false → (truth ls || (hit || s)) ≡ true → (truth (l ∷ ls) || s) ≡ true
    either o h = ground (arith, value_of-lit_true n a l o)

clean : {b : Bool} → (b || false) ≡ true → b ≡ true
clean {b} h = ground arith

abbrev Accepted : Option (Reason × Option ℕ) → Bool → Type 0
Accepted none b = b ≡ true
Accepted (some r) b = Unit {0}

check_clauses-Accepted :
    (n : ℕ) (a : Values) (cs : List (List ℤ)) (index count : ℕ)
    → Accepted
        (check_clauses n a cs index count)
        (formula_true (valuation_of (truth_values n 1 a)) cs)
unfolding check_clauses
check_clauses-Accepted n a [] index count = refl
check_clauses-Accepted n a (c ∷ cs) index count =
    after (check_literals n a c count false) refl (λ k. check_clauses-Accepted n a cs (suc index) k)
  where
    truth : List (List ℤ) → Bool
    truth f = formula_true (valuation_of (truth_values n 1 a)) f

    after :
        (r : ClauseCheck)
        → check_literals n a c count false ≡ r
        → ((k : ℕ) → Accepted (check_clauses n a cs (suc index) k) (truth cs))
        → Accepted (check_clauses n a (c ∷ cs) index count) (truth (c ∷ cs))
    after (bad r) e ih = rw (e, Accepted, check_clauses) tt
    after (checked k false) e ih = rw (e, Accepted, check_clauses) tt
    after (checked k true) e ih =
        rw (e, Accepted, check_clauses)
          (subst (λ b. Accepted (check_clauses n a cs (suc index) k) (b && truth cs)) (sym this)
            (ih k))
      where
        this : clause_true (valuation_of (truth_values n 1 a)) c ≡ true
        this = clean (
            subst (λ r. Satisfied r (clause_true (valuation_of (truth_values n 1 a)) c || false)) e
              (check_literals-Satisfied n a c count false))

-- Every literal of the model is in range and keeps the value that it was given.
abbrev Holds : ℕ → Values → List ℤ → Type 0
Holds n a [] = Unit {0}
Holds n a (l ∷ ls) =
    (out_of_range n l ≡ false) × (int_eq (a (abs l)) (value_of l) ≡ true) × Holds n a ls

-- Values once given stay.
abbrev Extends : Values → Values → Type 0
Extends a a' = (x : ℕ) → is_zero (a x) ≡ false → a' x ≡ a x

value_of-is_zero : (l : ℤ) → is_zero (value_of l) ≡ false
value_of-is_zero (pos zero) = refl
value_of-is_zero (pos (suc n)) = refl
value_of-is_zero (negsuc n) = refl

keeps :
    (l : ℤ) (a a' : Values)
    → (not (is_zero (a (abs l))) && not (int_eq (a (abs l)) (value_of l))) ≡ false
    → Extends (assign (abs l) (value_of l) a) a'
    → Extends a a'
keeps l a a' c h x z = ground (arith, h x, value_of-is_zero l, int_eq→eq (a (abs l)) (value_of l))

given :
    (l : ℤ) (a a' : Values)
    → Extends (assign (abs l) (value_of l) a) a'
    → int_eq (a' (abs l)) (value_of l) ≡ true
given l a a' h = ground (arith, h (abs l), value_of-is_zero l, int_eq_refl (value_of l))

abbrev Keeps : ℕ → Values → List ℤ → Assigned → Type 0
Keeps n a ls (refused r) = Unit {0}
Keeps n a ls (assigned a') = Holds n a' ls × Extends a a'

Keeps-cons :
    (n : ℕ) (l : ℤ) (ls : List ℤ) (a : Values) (r : Assigned)
    → out_of_range n l ≡ false
    → (not (is_zero (a (abs l))) && not (int_eq (a (abs l)) (value_of l))) ≡ false
    → Keeps n (assign (abs l) (value_of l) a) ls r
    → Keeps n a (l ∷ ls) r
Keeps-cons n l ls a (refused r) o c h = tt
Keeps-cons n l ls a (assigned a') o c h = ((o, given l a a' h.1, h.0), keeps l a a' c h.1)

assign_model-Keeps : (n : ℕ) (ls : List ℤ) (a : Values) → Keeps n a ls (assign_model n ls a)
unfolding assign_model
assign_model-Keeps n [] a = (tt, λ x z. refl)
assign_model-Keeps n (l ∷ ls) a = elim (Bool-cases (out_of_range n l)) [
  | inl o ↦ rw o tt
  | inr o ↦
      rw o (elim (Bool-cases (not (is_zero (a (abs l))) && not (int_eq (a (abs l)) (value_of l)))) [
        | inl c ↦ rw c tt
        | inr c ↦ rw c (Keeps-cons n l ls a _ o c (assign_model-Keeps n ls _))
      ])
]

Holds-cube_true :
    (n : ℕ) (a : Values) (ls : List ℤ)
    → Holds n a ls
    → cube_true (valuation_of (truth_values n 1 a)) ls ≡ true
Holds-cube_true n a [] h = refl
Holds-cube_true n a (l ∷ ls) (o, v, h) = rw (value_of-lit_true n a l o v) (Holds-cube_true n a ls h)

-- What a verification promises of a formula and a model.
abbrev pub Verified : Formula → List ℤ → ModelVerification → Type 0
Verified f model (invalid r index) = Unit {0}
Verified f model (valid bs) =
    (length bs ≡ f.variable_count)
    × (formula_true (valuation_of bs) f.clauses ≡ true)
    × (cube_true (valuation_of bs) model ≡ true)

conclude-Verified :
    (f : Formula) (model : List ℤ) (a : Values) (r : Option (Reason × Option ℕ))
    → Accepted r (formula_true (valuation_of (truth_values f.variable_count 1 a)) f.clauses)
    → Holds f.variable_count a model
    → Verified f model (conclude f a r)
unfolding conclude
conclude-Verified f model a none h k =
    (length-truth_values f.variable_count 1 a, h, Holds-cube_true f.variable_count a model k)
conclude-Verified f model a (some (r, index)) h k = tt

check_assignment-Verified :
    (f : Formula) (model : List ℤ) (a : Values)
    → Holds f.variable_count a model
    → Verified f model (check_assignment f a)
unfolding check_assignment
check_assignment-Verified f model a k =
    elim (Option-cases (first_unassigned f.variable_count 1 a)) [
      | inr (x, e) ↦ rw (e, Verified, check_assignment) tt
      | inl e ↦
          rw (e, Verified, check_assignment)
            (conclude-Verified f model a _ (check_clauses-Accepted f.variable_count a f.clauses 0 0)
              k)
    ]

-- If `verifySatModel` accepts, the array that it returns has a value for each variable, makes every
-- clause of the formula true, and makes every literal of the model true.
pub verify_sat_model-Verified :
    (f : Formula) (model : List ℤ) → Verified f model (verify_sat_model f model)
unfolding verify_sat_model
verify_sat_model-Verified f model = elim (Bool-cases (ltb max_variables f.variable_count)) [
  | inl v ↦ rw v tt
  | inr v ↦ rw v (elim (Bool-cases (ltb max_clauses (length f.clauses))) [
    | inl c ↦ rw c tt
    | inr c ↦ rw c (
        after (assign_model f.variable_count model (λ x. pos 0))
          (assign_model-Keeps f.variable_count model (λ x. pos 0)))
  ])
]
  where
    after :
        (r : Assigned)
        → Keeps f.variable_count (λ x. pos 0) model r
        → Verified f model (elim r as (λ _. ModelVerification) [
          | refused x ↦ invalid x none
          | assigned a ↦ check_assignment f a
        ])
    after (refused r) k = tt
    after (assigned a) k = check_assignment-Verified f model a k.0

-- If `verifySatModel` accepts a model of a formula and returns an array, then the array has one
-- value for each variable, and the valuation that it stands for makes every clause of the formula
-- and every literal of the model true.
pub verify_sat_model_sound :
    (f : Formula) (model : List ℤ) (bs : List Bool)
    → verify_sat_model f model ≡ valid bs
    → (length bs ≡ f.variable_count)
      × (formula_true (valuation_of bs) f.clauses ≡ true)
      × (cube_true (valuation_of bs) model ≡ true)
verify_sat_model_sound f model bs e = subst (Verified f model) e (verify_sat_model-Verified f model)
