-- ===== src/Cnf.antt =====
-- What a clause set means: the specification that the checkers of the source are held against.
-- A literal is a non-zero integer, as in DIMACS; a valuation gives each variable a truth value.
use hive_sat.Prelude.{
  ℕ, zero, suc, ◌≡◌, refl, Bool, false, not, ◌&&◌, List, any, all, ℤ, pos, negsuc, abs, is_positive,
  is_zero, neg, if◌then◌else◌, arith,
}

abbrev pub Valuation : Type 0
Valuation = ℕ → Bool

abbrev pub lit_true : Valuation → ℤ → Bool
lit_true v l = if is_positive l then v (abs l) else not (v (abs l))

abbrev pub clause_true : Valuation → List ℤ → Bool
clause_true v c = any (lit_true v) c

abbrev pub formula_true : Valuation → List (List ℤ) → Bool
formula_true v f = all (clause_true v) f

-- The valuation makes every literal of the cube true.
abbrev pub cube_true : Valuation → List ℤ → Bool
cube_true v cube = all (lit_true v) cube

-- No valuation makes all the clauses true.
abbrev pub Unsat : List (List ℤ) → Type 0
Unsat f = (v : Valuation) → formula_true v f ≡ false

-- No valuation makes all the clauses and the cube true.
abbrev pub UnsatUnder : List (List ℤ) → List ℤ → Type 0
UnsatUnder f cube = (v : Valuation) → (formula_true v f && cube_true v cube) ≡ false

pub lit_true-neg :
    (v : Valuation) (l : ℤ) → is_zero l ≡ false → lit_true v (neg l) ≡ not (lit_true v l)
lit_true-neg v (pos zero) h = ground arith
lit_true-neg v (pos (suc n)) h = refl
lit_true-neg v (negsuc n) h = ground arith
