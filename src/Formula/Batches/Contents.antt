-- ===== src/Formula/Batches/Contents.antt =====
-- What the batches of src/lib/formula/hiveCnf.ts hold, and how large they are.
use hive_sat.Prelude.{
  ltb→lt, ℕ, ◌≡◌, refl, ap, subst, ◌∙◌, ◌≤◌, ◌+◌, Bool, true, false, List, [], ◌∷◌, ◌++◌, Option,
  none, some, length, length-append, length-map, sym, abs, ◌<◌, leb, ◌==◌, ℤ, pos, if◌then◌else◌,
  arith, Bool-cases, inl, inr, append_assoc, All,
}
use hive_sat.Formula.HiveCnf.{int32_word, word_int32}
use hive_sat.Formula.HiveCnf.RoundTrip.{word_int32-int32_word}
use hive_sat.Formula.Batches.{
  int32_array, is_pending, push_if, overflows, with_clause, batches_from, create_clause_batches,
}

-- The integers of all batches, one after the other.
pub concat : List (List ℤ) → List ℤ
concat [] = []
concat (b ∷ bs) = b ++ concat bs

-- The clauses, each with its terminating 0.
pub stream_of : List (List ℤ) → List ℤ
stream_of [] = []
stream_of (c ∷ cs) = (c ++ pos 0 ∷ []) ++ stream_of cs

int32_array-append : (xs ys : List ℤ) → int32_array (xs ++ ys) ≡ int32_array xs ++ int32_array ys
int32_array-append [] ys = refl
int32_array-append (x ∷ xs) ys =
    ap (λ zs. word_int32 (int32_word x) ∷ zs) (int32_array-append xs ys)

concat-push_if :
    (b : Bool) (p : List ℤ) (rest : List (List ℤ))
    → (b ≡ false → p ≡ [])
    → concat (push_if b p rest) ≡ int32_array p ++ concat rest
unfolding concat
concat-push_if true p rest h = refl
concat-push_if false p rest h = rw (h refl) refl

nothing_pending : (p : List ℤ) → is_pending p ≡ false → p ≡ []
nothing_pending [] h = refl
nothing_pending (x ∷ xs) h = absurd (ground arith)

-- A batch that is closed, or goes on, holds the integers so far before the rest.
concat-closed :
    (full : Bool) (next rest : List ℤ) (cut on : List (List ℤ))
    → concat cut ≡ rest
    → concat on ≡ int32_array next ++ rest
    → concat (if full then int32_array next ∷ cut else on) ≡ int32_array next ++ rest
unfolding concat
concat-closed true next rest cut on e k = ap (λ xs. int32_array next ++ xs) e
concat-closed false next rest cut on e k = k

-- Each integer, as it is stored in an Int32Array.
concat-batches_from :
    (target : ℕ) (cs : List (List ℤ)) (pending : List ℤ)
    → concat (batches_from target pending cs) ≡ int32_array pending ++ int32_array (stream_of cs)
unfolding concat stream_of batches_from
concat-batches_from target [] pending =
    concat-push_if (is_pending pending) pending [] (nothing_pending pending)
concat-batches_from target (c ∷ cs) pending =
    let cut = concat-batches_from target cs [] in
    let after = λ (next : List ℤ).
      concat-closed (leb target (length next)) next (int32_array (stream_of cs))
        (batches_from target [] cs) (batches_from target next cs) cut
        (concat-batches_from target cs next) in
    let split = int32_array-append (c ++ pos 0 ∷ []) (stream_of cs) in
    elim (Bool-cases (overflows target pending c)) [
      | inl o ↦ rw o (ap (λ xs. int32_array pending ++ xs) (after (c ++ pos 0 ∷ []) ∙ sym split))
      | inr o ↦ rw o (
          after (pending ++ (c ++ pos 0 ∷ []))
          ∙ ap (λ xs. xs ++ int32_array (stream_of cs))
              (int32_array-append pending (c ++ pos 0 ∷ []))
          ∙ append_assoc (int32_array pending) (int32_array (c ++ pos 0 ∷ []))
              (int32_array (stream_of cs))
          ∙ ap (λ xs. int32_array pending ++ xs) (sym split))
    ]

-- A number of less than 32 bits, with its sign.
abbrev pub IsInt32 : ℤ → Type 0
IsInt32 l = abs l < 2147483648

int32_array-same : (xs : List ℤ) → All IsInt32 xs → int32_array xs ≡ xs
int32_array-same [] h = refl
int32_array-same (x ∷ xs) (h, hs) = rw (word_int32-int32_word x h, int32_array-same xs hs) refl

stream_of-IsInt32 : (cs : List (List ℤ)) → All (All IsInt32) cs → All IsInt32 (stream_of cs)
unfolding stream_of
stream_of-IsInt32 [] h = tt
stream_of-IsInt32 (c ∷ cs) (h, hs) =
    joined (c ++ pos 0 ∷ []) (stream_of cs) (joined c (pos 0 ∷ []) h (omega arith, tt))
      (stream_of-IsInt32 cs hs)
  where
    joined : (xs ys : List ℤ) → All IsInt32 xs → All IsInt32 ys → All IsInt32 (xs ++ ys)
    joined [] ys h k = k
    joined (x ∷ xs) ys (h, hs) k = (h, joined xs ys hs k)

-- If every literal is less than 2^31 in absolute value, and `createClauseBatches` accepts the batch
-- size, then the integers of the batches, in their order, are those of the clauses, each followed by
-- a 0.
pub concat-create_clause_batches :
    (clauses batches : List (List ℤ)) (target : ℕ)
    → All (All IsInt32) clauses
    → create_clause_batches clauses target ≡ some batches
    → concat batches ≡ stream_of clauses
unfolding create_clause_batches
concat-create_clause_batches clauses batches target few = elim (Bool-cases (target == 0)) [
  | inl e ↦ rw e (λ h. absurd (cc))
  | inr e ↦ rw e (λ h. subst Holds h (
      concat-batches_from target clauses []
      ∙ int32_array-same (stream_of clauses) (stream_of-IsInt32 clauses few)))
]
  where
    Holds : Option (List (List ℤ)) → Type 0
    Holds none = Unit {0}
    Holds (some bs) = concat bs ≡ stream_of clauses

-- A batch holds something, and not more than the limit.
abbrev pub Fits : ℕ → List ℤ → Type 0
Fits limit b = (1 ≤ length b) × (length b ≤ limit)

int32_array-Fits : (limit : ℕ) (p : List ℤ) → Fits limit p → Fits limit (int32_array p)
int32_array-Fits limit p f = rw (length-map (λ l. word_int32 (int32_word l)) p) f

push_if-Fits :
    (limit : ℕ) (b : Bool) (p : List ℤ) (rest : List (List ℤ))
    → (b ≡ true → Fits limit p)
    → All (Fits limit) rest
    → All (Fits limit) (push_if b p rest)
push_if-Fits limit true p rest h a = (int32_array-Fits limit p (h refl), a)
push_if-Fits limit false p rest h a = a

closed-Fits :
    (limit : ℕ) (full : Bool) (next : List ℤ) (cut on : List (List ℤ))
    → Fits limit next
    → All (Fits limit) cut
    → All (Fits limit) on
    → All (Fits limit) (if full then int32_array next ∷ cut else on)
closed-Fits limit true next cut on f a b = (int32_array-Fits limit next f, a)
closed-Fits limit false next cut on f a b = b

-- The clause and its 0, behind what is pending.
with_clause-Fits :
    (limit target : ℕ) (pending c : List ℤ)
    → target ≤ limit
    → length c + 1 ≤ limit
    → length pending ≤ limit
    → Fits limit (with_clause target pending c)
with_clause-Fits limit target pending c t k p = elim (Bool-cases (overflows target pending c)) [
  | inl o ↦
      rw o (
        omega (arith, length-append c (pos 0 ∷ [])),
        omega (arith, k, length-append c (pos 0 ∷ [])),
      )
  | inr o ↦ rw o (both pending p o)
]
  where
    both :
        (q : List ℤ)
        → length q ≤ limit
        → overflows target q c ≡ false
        → Fits limit (q ++ (c ++ pos 0 ∷ []))
    both [] p o = (
      omega (arith, length-append c (pos 0 ∷ [])),
      omega (arith, k, length-append c (pos 0 ∷ [])),
    )
    both (x ∷ q) p o =
        let small : length (x ∷ q) + (length c + 1) ≤ target = ground arith in
        (
          omega arith,
          omega (arith, small, t, length-append q (c ++ pos 0 ∷ []), length-append c (pos 0 ∷ [])),
        )

batches_from-Fits :
    (limit target : ℕ) (cs : List (List ℤ)) (pending : List ℤ)
    → target ≤ limit
    → length pending ≤ limit
    → All (λ c. length c + 1 ≤ limit) cs
    → All (Fits limit) (batches_from target pending cs)
unfolding batches_from
batches_from-Fits limit target [] pending t p a =
    push_if-Fits limit (is_pending pending) pending []
      (λ e. (omega (arith, ltb→lt 0 (length pending) e), p)) tt
batches_from-Fits limit target (c ∷ cs) pending t p (k, a) =
    let f = with_clause-Fits limit target pending c t k p in
    push_if-Fits limit (overflows target pending c) pending _ (λ e. (ground arith, p))
      (closed-Fits limit (leb target (length (with_clause target pending c)))
        (with_clause target pending c) (batches_from target [] cs)
        (batches_from target (with_clause target pending c) cs) f
        (batches_from-Fits limit target cs [] t (omega arith) a)
        (batches_from-Fits limit target cs (with_clause target pending c) t (f.1) a))

-- If the batch size and every clause with its 0 are within a limit, then every batch is, and no batch
-- is empty.
pub create_clause_batches-Fits :
    (limit target : ℕ) (clauses batches : List (List ℤ))
    → target ≤ limit
    → All (λ c. length c + 1 ≤ limit) clauses
    → create_clause_batches clauses target ≡ some batches
    → All (Fits limit) batches
unfolding create_clause_batches
create_clause_batches-Fits limit target clauses batches t a = elim (Bool-cases (target == 0)) [
  | inl e ↦ rw e (λ h. absurd (cc))
  | inr e ↦
      rw e
        (λ h. subst (λ o. Holds o) h (batches_from-Fits limit target clauses [] t (omega arith) a))
]
  where
    Holds : Option (List (List ℤ)) → Type 0
    Holds none = Unit {0}
    Holds (some bs) = All (Fits limit) bs
