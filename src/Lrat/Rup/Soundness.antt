-- ===== src/Lrat/Rup/Soundness.antt =====
-- The checker of shared/lrat-check.ts against the meaning of clauses: what a RUP chain shows.
use hive_sat.Prelude.{
  ℕ, subst, ◌≡◌, refl, sym, Bool, true, false, not, List, [], ◌∷◌, some, any, all, filter, ℤ, abs,
  is_positive, is_zero, neg, arith, Option-cases, Bool-cases, inl, inr, &&-true, ◌||◌, is_negative,
}
use hive_sat.Prelude.Dict.{get, set, get-set}
use hive_sat.Cnf.{Valuation, lit_true, clause_true, lit_true-neg}
use hive_sat.Lrat.Rup.{
  Assignment, Clauses, literal_value, assign_literal, assume_negation, HintStep, rejected, conflict,
  extended, is_unassigned, is_true, unit_of, unit_step, antecedent_step, hint_step, follow_hints,
  check_rup_chain,
}

-- The assignment is part of the valuation.
abbrev pub Agrees : Valuation → Assignment → Type 0
Agrees v a = (x : ℕ) (b : Bool) → get x a ≡ some b → v x ≡ b

-- The valuation makes every clause of the database true.
abbrev pub Satisfies : Valuation → Clauses → Type 0
Satisfies v m = (id : ℕ) (c : List ℤ) → get id m ≡ some c → clause_true v c ≡ true

Agrees-set :
    (v : Valuation) (l : ℤ) (a : Assignment)
    → lit_true v l ≡ true
    → Agrees v a
    → Agrees v (set (abs l) (is_positive l) a)
Agrees-set v l a t h x b e = ground (arith, get-set (abs l) x (is_positive l) a, h x b)

assign_literal-Agrees :
    (v : Valuation) (l : ℤ) (a : Assignment)
    → lit_true v l ≡ true
    → Agrees v a
    → (a' : Assignment) × (assign_literal l a ≡ some a') × Agrees v a'
unfolding assign_literal
assign_literal-Agrees v l a t h = (
  set (abs l) (is_positive l) a,
  ground (arith, h (abs l) true, h (abs l) false),
  Agrees-set v l a t h,
)

literal_value-lit_true :
    (v : Valuation) (l : ℤ) (a : Assignment) (b : Bool)
    → Agrees v a
    → literal_value l a ≡ some b
    → lit_true v l ≡ b
unfolding literal_value
literal_value-lit_true v l a b h e = ground (arith, h (abs l) true, h (abs l) false)

clause_false-head :
    (v : Valuation) (l : ℤ) (ls : List ℤ)
    → clause_true v (l ∷ ls) ≡ false
    → (lit_true v l ≡ false) × (clause_true v ls ≡ false)
clause_false-head v l ls h = ground arith

-- Assuming the negation of a false clause succeeds, within the valuation.
assume_negation-Agrees :
    (v : Valuation) (ls : List ℤ) (a : Assignment)
    → all (λ l. not (is_zero l)) ls ≡ true
    → clause_true v ls ≡ false
    → Agrees v a
    → (a' : Assignment) × (assume_negation ls a ≡ some a') × Agrees v a'
unfolding assume_negation
assume_negation-Agrees v [] a nz f h = (a, refl, h)
assume_negation-Agrees v (l ∷ ls) a nz f h =
    let (lf, lsf) = clause_false-head v l ls f in
    let (lz, lsz) = &&-true (not (is_zero l)) (all (λ l. not (is_zero l)) ls) nz in
    let (a', e, h') = assign_literal-Agrees v (neg l) a (ground (arith, lit_true-neg v l)) h in
    rw (e, assume_negation) (assume_negation-Agrees v ls a' lsz lsf h')

-- A true antecedent with no literal known true has a true literal among the unassigned ones.
unassigned-true :
    (v : Valuation) (a : Assignment) (c : List ℤ)
    → Agrees v a
    → clause_true v c ≡ true
    → any (is_true a) c ≡ false
    → clause_true v (filter (is_unassigned a) c) ≡ true
unassigned-true v a [] h t n = cc
unassigned-true v a (l ∷ ls) h t n =
    ground (arith, literal_value-lit_true v l a false h, unassigned-true v a ls h)

-- What a step may do under a valuation that satisfies the database.
abbrev StepAgrees : Valuation → HintStep → Type 0
StepAgrees v rejected = Unit {0}
StepAgrees v conflict = ⊥
StepAgrees v (extended a) = Agrees v a

unit_step-StepAgrees :
    (v : Valuation) (a : Assignment) (c : List ℤ)
    → Agrees v a
    → clause_true v c ≡ true
    → StepAgrees v (unit_step c a)
unit_step-StepAgrees v a [] h t = cc
unit_step-StepAgrees v a (l ∷ []) h t =
    let (a', e, h') = assign_literal-Agrees v l a (ground arith) h in
    subst (λ o. StepAgrees v (unit_of o)) (sym e) h'
unit_step-StepAgrees v a (l ∷ m ∷ ls) h t = tt

antecedent_step-StepAgrees :
    (v : Valuation) (a : Assignment) (c : List ℤ)
    → Agrees v a
    → clause_true v c ≡ true
    → StepAgrees v (antecedent_step c a)
antecedent_step-StepAgrees v a c h t = elim (Bool-cases (any (is_true a) c)) [
  | inl e ↦ rw e tt
  | inr e ↦ rw e (unit_step-StepAgrees v a _ h (unassigned-true v a c h t e))
]

hint_step-StepAgrees :
    (v : Valuation) (m : Clauses) (hint : ℤ) (a : Assignment)
    → Satisfies v m
    → Agrees v a
    → StepAgrees v (hint_step m hint a)
unfolding hint_step
hint_step-StepAgrees v m hint a s h = elim (Bool-cases (is_negative hint || is_zero hint)) [
  | inl e ↦ rw e tt
  | inr e ↦ rw e (elim (Option-cases (get (abs hint) m)) [
    | inl n ↦ rw n tt
    | inr (c, f) ↦ rw f (antecedent_step-StepAgrees v a c h (s (abs hint) c f))
  ])
]

abbrev after_step : Clauses → List ℤ → HintStep → Bool
after_step m hs rejected = false
after_step m hs conflict = true
after_step m hs (extended a) = follow_hints m hs a

after_step-false :
    (v : Valuation) (m : Clauses) (hs : List ℤ) (r : HintStep)
    → ((a : Assignment) → Agrees v a → follow_hints m hs a ≡ false)
    → StepAgrees v r
    → after_step m hs r ≡ false
after_step-false v m hs rejected ih h = refl
after_step-false v m hs conflict ih h = absurd h
after_step-false v m hs (extended a) ih h = ih a h

follow_hints-false :
    (v : Valuation) (m : Clauses) (hs : List ℤ) (a : Assignment)
    → Satisfies v m
    → Agrees v a
    → follow_hints m hs a ≡ false
unfolding follow_hints
follow_hints-false v m [] a s h = refl
follow_hints-false v m (x ∷ hs) a s h =
    after_step-false v m hs (hint_step m x a) (λ a' h'. follow_hints-false v m hs a' s h')
      (hint_step-StepAgrees v m x a s h)

-- A clause that a chain derives from the database is true wherever the database is.
pub check_rup_chain_sound :
    (v : Valuation) (clause hints : List ℤ) (m : Clauses)
    → all (λ l. not (is_zero l)) clause ≡ true
    → Satisfies v m
    → check_rup_chain clause hints m ≡ true
    → clause_true v clause ≡ true
unfolding check_rup_chain
check_rup_chain_sound v clause hints m nz s ok = elim (Bool-cases (clause_true v clause)) [
  | inl t ↦ t
  | inr f ↦
      let (a, e, h) = assume_negation-Agrees v clause [] nz f (λ x b g. cc) in
      absurd (ground (arith, follow_hints-false v m hints a s h))
]
