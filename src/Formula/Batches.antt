-- ===== src/Formula/Batches.antt =====
-- `createClauseBatches` of src/lib/formula/hiveCnf.ts: the clauses are cut into batches for the solver.
pub mod Contents
use hive_sat.Formula.HiveCnf.{int32_word, word_int32}
use hive_sat.Prelude.{
  map, ℕ, zero, suc, ◌+◌, Bool, true, false, ◌&&◌, not, List, [], ◌∷◌, ◌++◌, Option, none, some,
  length, ltb, leb, ◌==◌, ℤ, pos, if◌then◌else◌,
}

-- `pending.length > 0`.
abbrev pub is_pending : List ℤ → Bool
is_pending p = ltb 0 (length p)

-- `Int32Array.from`: each number is taken modulo 2^32, in two's complement.
abbrev pub int32_array : List ℤ → List ℤ
int32_array p = map (λ l. word_int32 (int32_word l)) p

-- `if (...) batches.push(Int32Array.from(pending))`, before the batches that follow.
abbrev pub push_if : Bool → List ℤ → List (List ℤ) → List (List ℤ)
push_if b p rest = if b then int32_array p ∷ rest else rest

-- The clause does not fit behind the pending integers.
abbrev pub overflows : ℕ → List ℤ → List ℤ → Bool
overflows target pending c = is_pending pending && ltb target (length pending + (length c + 1))

-- The pending integers with the clause and its 0, after the batch that is full is pushed.
abbrev pub with_clause : ℕ → List ℤ → List ℤ → List ℤ
with_clause target pending c =
    (if overflows target pending c then [] else pending) ++ (c ++ pos 0 ∷ [])

-- The loop over the clauses.
unfoldable pub batches_from : ℕ → List ℤ → List (List ℤ) → List (List ℤ)
batches_from target pending [] = push_if (is_pending pending) pending []
batches_from target pending (c ∷ cs) =
    let cut = batches_from target [] cs in
    let on = batches_from target (with_clause target pending c) cs in
    push_if (overflows target pending c) pending (
      if leb target (length (with_clause target pending c))
      then int32_array (with_clause target pending c) ∷ cut
      else on)

-- `createClauseBatches`; `none` is its exception.
unfoldable pub create_clause_batches : List (List ℤ) → ℕ → Option (List (List ℤ))
unfolding batches_from
create_clause_batches clauses target_ints =
    if target_ints == 0 then none else some (batches_from target_ints [] clauses)
