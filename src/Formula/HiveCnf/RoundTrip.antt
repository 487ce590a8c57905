-- ===== src/Formula/HiveCnf/RoundTrip.antt =====
-- What `encodeHiveCnfV1` of src/lib/formula/hiveCnf.ts writes, `decodeHiveCnfV1` reads back.
use hive_sat.Prelude.{
  ltb→ge, ◌&&◌, ℕ, suc, ◌≡◌, refl, ap, subst, ◌∙◌, ◌<◌, ◌≤◌, ◌+◌, ◌*◌, Bool, true, false, ◌||◌, not,
  List, [], ◌∷◌, ◌++◌, none, some, find?, length, drop, ltb, ◌==◌, ℤ, pos, negsuc, abs, is_zero,
  arith, Bool-cases, Option-cases, inl, inr, append-nil, append_assoc,
}
use hive_sat.Formula.HiveCnf.{
  max_literal_occurrences, max_clauses, encoded_byte_length, max_encoded_formula_bytes,
  max_variables, is_out_of_range, HiveCnf, Encoded, bytes, formula, uint32_bytes, int32_word,
  first_word, word_int32, read_words, encode_clause, encode_clauses, read_clauses, find_bad,
  bad_literal, total_literals, encode_hive_cnf_v1, decode_hive_cnf_v1, encoded_bytes, Payload,
}

-- A word is read as it was written.
first_word-uint32_bytes : (n : ℕ) → n < 4294967296 → first_word (uint32_bytes n) ≡ n
first_word-uint32_bytes n h = omega arith

pub word_int32-int32_word : (l : ℤ) → abs l < 2147483648 → word_int32 (int32_word l) ≡ l
word_int32-int32_word (pos n) h = ground arith
word_int32-int32_word (negsuc n) h = ground arith

int32_word-bound : (l : ℤ) → int32_word l < 4294967296
int32_word-bound (pos n) = omega arith
int32_word-bound (negsuc n) = omega arith

-- The integers of the payload of some clauses.
integers_of : List (List ℤ) → List ℤ
integers_of [] = []
integers_of (c ∷ cs) = c ++ pos 0 ∷ integers_of cs

abbrev is_encodable : ℕ → List ℤ → Bool
is_encodable n c = elim (find? (bad_literal n) c) [ none ↦ true | some l ↦ false ]

word_int32-first_word :
    (l : ℤ) → abs l < 2147483648 → word_int32 (first_word (uint32_bytes (int32_word l))) ≡ l
word_int32-first_word l h =
    rw (first_word-uint32_bytes (int32_word l) (int32_word-bound l)) (word_int32-int32_word l h)

-- The first literal of a clause with no bad one, and the others.
find_bad-head :
    (n : ℕ) (l : ℤ) (ls : List ℤ)
    → find? (bad_literal n) (l ∷ ls) ≡ none
    → (bad_literal n l ≡ false) × (find? (bad_literal n) ls ≡ none)
find_bad-head n l ls h = ground arith

bad_literal-bound : (n : ℕ) (l : ℤ) → n < 2147483648 → bad_literal n l ≡ false → abs l < 2147483648
bad_literal-bound n l b h = ground arith

read_words-encode_clause :
    (n : ℕ) (c : List ℤ) (rest : List ℕ)
    → n < 2147483648
    → find? (bad_literal n) c ≡ none
    → read_words (encode_clause c rest) ≡ c ++ pos 0 ∷ read_words rest
unfolding encode_clause read_words
read_words-encode_clause n [] rest b f = refl
read_words-encode_clause n (l ∷ ls) rest b f =
    let (h, hs) = find_bad-head n l ls f in
    rw
      (word_int32-first_word l (bad_literal-bound n l b h), read_words-encode_clause n ls rest b hs)
      refl

find_bad-tail :
    (n : ℕ) (c : List ℤ) (cs : List (List ℤ))
    → find_bad n (c ∷ cs) ≡ none
    → (find? (bad_literal n) c ≡ none) × (find_bad n cs ≡ none)
unfolding find_bad
find_bad-tail n c cs h = elim (Option-cases (find? (bad_literal n) c)) [
  | inl e ↦ (e, ground (arith, e))
  | inr (l, e) ↦ absurd (ground (arith, e))
]

read_words-encode_clauses :
    (n : ℕ) (cs : List (List ℤ))
    → n < 2147483648
    → find_bad n cs ≡ none
    → read_words (encode_clauses cs) ≡ integers_of cs
unfolding encode_clauses integers_of read_words
read_words-encode_clauses n [] b h = refl
read_words-encode_clauses n (c ∷ cs) b h =
    let (f, fs) = find_bad-tail n c cs h in
    read_words-encode_clause n c (encode_clauses cs) b f
    ∙ ap (λ xs. c ++ pos 0 ∷ xs) (read_words-encode_clauses n cs b fs)

bad_literal-good :
    (n : ℕ) (l : ℤ)
    → n < 2147483648
    → bad_literal n l ≡ false
    → (is_zero l ≡ false) × (is_out_of_range n l ≡ false)
bad_literal-good n l b h = ground arith

-- Each clause is closed with its literals, behind those that are open already.
read_clauses-clause :
    (n : ℕ) (c current : List ℤ) (observed : ℕ) (xs : List ℤ) (p : Payload)
    → n < 2147483648
    → find? (bad_literal n) c ≡ none
    → read_clauses n xs [] (observed + length c) ≡ some p
    → read_clauses n (c ++ pos 0 ∷ xs) current observed
      ≡ some (record p { clauses = (current ++ c) ∷ p.clauses })
unfolding read_clauses
read_clauses-clause n [] current observed xs p b f e =
    let e' : read_clauses n xs [] observed ≡ some p =
      subst (λ k. read_clauses n xs [] k ≡ some p) (plus_zero observed) e in
    rw (e', append-nil current) refl
  where
    plus_zero : (k : ℕ) → k + 0 ≡ k
    plus_zero k = omega arith
read_clauses-clause n (l ∷ ls) current observed xs p b f e =
    let (h, hs) = find_bad-head n l ls f in
    let (z, o) = bad_literal-good n l b h in
    let e' : read_clauses n xs [] (suc observed + length ls) ≡ some p =
      subst (λ k. read_clauses n xs [] k ≡ some p) (shift observed (length ls)) e in
    rw (z, o)
      (read_clauses-clause n ls (current ++ l ∷ []) (suc observed) xs p b hs e'
        ∙ ap (λ c. some (record p { clauses = c ∷ p.clauses })) (append_assoc current (l ∷ []) ls))
  where
    shift : (a k : ℕ) → a + suc k ≡ suc a + k
    shift a k = omega arith

read_clauses-clauses :
    (n : ℕ) (cs : List (List ℤ)) (observed : ℕ)
    → n < 2147483648
    → find_bad n cs ≡ none
    → read_clauses n (integers_of cs) [] observed
      ≡ some
          (record { clauses = cs; current = []; observed_literals = observed + total_literals cs })
unfolding integers_of total_literals read_clauses
read_clauses-clauses n [] observed b f =
    ap (λ k. some (record { clauses = []; current = []; observed_literals = k }))
      (plus_zero observed)
  where
    plus_zero : (k : ℕ) → k ≡ k + 0
    plus_zero k = omega arith
read_clauses-clauses n (c ∷ cs) observed b f =
    let (h, hs) = find_bad-tail n c cs f in
    read_clauses-clause n c [] observed (integers_of cs) _ b h
      (read_clauses-clauses n cs (observed + length c) b hs)
    ∙ ap (λ k. some (record { clauses = c ∷ cs; current = []; observed_literals = k }))
        (assoc observed (length c) (total_literals cs))
  where
    assoc : (a k m : ℕ) → (a + k) + m ≡ a + (k + m)
    assoc a k m = omega arith

length-encode_clause :
    (c : List ℤ) (rest : List ℕ) → length (encode_clause c rest) ≡ (length c + 1) * 4 + length rest
unfolding encode_clause
length-encode_clause [] rest = omega arith
length-encode_clause (l ∷ ls) rest = omega (arith, length-encode_clause ls rest)

length-encode_clauses :
    (cs : List (List ℤ)) → length (encode_clauses cs) ≡ (total_literals cs + length cs) * 4
unfolding encode_clauses total_literals
length-encode_clauses [] = refl
length-encode_clauses (c ∷ cs) =
    omega (arith, length-encode_clause c (encode_clauses cs), length-encode_clauses cs)

-- What the encoder tests.
record Acceptable (f : HiveCnf) : Type 0 where
  variables : f.variable_count ≤ max_variables
  clause_count : length f.clauses ≡ f.clause_count
  literal_count : total_literals f.clauses ≡ f.literal_count
  few_clauses : length f.clauses ≤ max_clauses
  few_literals : total_literals f.clauses ≤ max_literal_occurrences
  no_bad : find_bad f.variable_count f.clauses ≡ none
  short : encoded_byte_length f ≤ max_encoded_formula_bytes

abbrev Encodes : HiveCnf → Encoded → Type 0
Encodes f (bytes bs) = Acceptable f × (encoded_bytes f ≡ bs)
Encodes f (Encoded.refused r) = Unit

encode_hive_cnf_v1-Encodes : (f : HiveCnf) → Encodes f (encode_hive_cnf_v1 f)
unfolding encode_hive_cnf_v1
encode_hive_cnf_v1-Encodes f = elim (Bool-cases (ltb max_variables f.variable_count)) [
  | inl e ↦ rw e tt
  | inr v ↦
      elim (Bool-cases
        (length f.clauses == f.clause_count && total_literals f.clauses == f.literal_count)) [
          | inr e ↦ rw (v, e) tt
          | inl m ↦ elim (Bool-cases (ltb max_clauses (length f.clauses))) [
            | inl e ↦ rw (v, m, e) tt
            | inr c ↦ elim (Bool-cases (ltb max_literal_occurrences (total_literals f.clauses))) [
              | inl e ↦ rw (v, m, c, e) tt
              | inr l ↦ elim (Option-cases (find_bad f.variable_count f.clauses)) [
                | inr (x, e) ↦ rw (v, m, c, l, e) tt
                | inl n ↦
                    elim (Bool-cases (ltb max_encoded_formula_bytes (encoded_byte_length f))) [
                      | inl e ↦ rw (v, m, c, l, n, e) tt
                      | inr s ↦
                          rw (v, m, c, l, n, s)
                            (
                              record {
                                variables = ltb→ge max_variables f.variable_count v;
                                clause_count = ground arith;
                                literal_count = ground arith;
                                few_clauses = ltb→ge max_clauses (length f.clauses) c;
                                few_literals =
                                    ltb→ge max_literal_occurrences (total_literals f.clauses) l;
                                no_bad = n;
                                short = ltb→ge max_encoded_formula_bytes (encoded_byte_length f) s;
                              },
                              refl,
                            )
                    ]
              ]
            ]
          ]
        ]
]

-- The tests of the decoder, on the bytes of an acceptable formula.
module _ (f : HiveCnf) (a : Acceptable f) where
  length-encoded_bytes : length (encoded_bytes f) ≡ encoded_byte_length f
  length-encoded_bytes =
      omega (arith, length-encode_clauses f.clauses, a.clause_count, a.literal_count)

  length_fits :
      (ltb (length (encoded_bytes f)) 20
        || ltb max_encoded_formula_bytes (length (encoded_bytes f)))
      ≡ false
  length_fits = ground (arith, length-encoded_bytes, a.short)

  length_matches : (20 + (f.literal_count + f.clause_count) * 4 == length (encoded_bytes f)) ≡ true
  length_matches = ground (arith, length-encoded_bytes)

  variables_read : first_word (drop 8 (encoded_bytes f)) ≡ f.variable_count
  variables_read = first_word-uint32_bytes f.variable_count (omega (arith, a.variables))

  clauses_read : first_word (drop 12 (encoded_bytes f)) ≡ f.clause_count
  clauses_read =
      first_word-uint32_bytes f.clause_count (omega (arith, a.clause_count, a.few_clauses))

  literals_read : first_word (drop 16 (encoded_bytes f)) ≡ f.literal_count
  literals_read =
      first_word-uint32_bytes f.literal_count (omega (arith, a.literal_count, a.few_literals))

  payload_read :
      read_clauses f.variable_count (read_words (drop 20 (encoded_bytes f))) [] 0
      ≡ some (record {
        clauses = f.clauses;
        current = [];
        observed_literals = total_literals f.clauses;
      })
  payload_read =
      let small : f.variable_count < 2147483648 = omega (arith, a.variables) in
      rw (read_words-encode_clauses f.variable_count f.clauses small a.no_bad) (
        read_clauses-clauses f.variable_count f.clauses 0 small a.no_bad
        ∙ ap (λ k. some (record { clauses = f.clauses; current = []; observed_literals = k }))
            (zero_plus (total_literals f.clauses)))
    where
      zero_plus : (k : ℕ) → 0 + k ≡ k
      zero_plus k = omega arith

  variables_fit : ltb max_variables f.variable_count ≡ false
  variables_fit = ground (arith, a.variables)

  clauses_fit : ltb max_clauses f.clause_count ≡ false
  clauses_fit = ground (arith, a.clause_count, a.few_clauses)

  literals_fit : ltb max_literal_occurrences f.literal_count ≡ false
  literals_fit = ground (arith, a.literal_count, a.few_literals)

  counts_match :
      (not (length f.clauses == f.clause_count)
        || not (total_literals f.clauses == f.literal_count))
      ≡ false
  counts_match = ground (arith, a.clause_count, a.literal_count)

  decode_hive_cnf_v1-Acceptable : decode_hive_cnf_v1 (encoded_bytes f) ≡ formula f
  unfolding decode_hive_cnf_v1
  decode_hive_cnf_v1-Acceptable =
      rw
        (
          decode_hive_cnf_v1, length_fits, variables_read, clauses_read, literals_read,
          length_matches, payload_read, variables_fit, clauses_fit, literals_fit, counts_match,
        )
        refl

-- If `encodeHiveCnfV1` accepts a formula, `decodeHiveCnfV1` accepts the bytes and returns that
-- formula, with its counts and its clauses in their order.
pub decode_hive_cnf_v1-encode :
    (f : HiveCnf) (bs : List ℕ)
    → encode_hive_cnf_v1 f ≡ bytes bs
    → decode_hive_cnf_v1 bs ≡ formula f
unfolding encode_hive_cnf_v1 decode_hive_cnf_v1
decode_hive_cnf_v1-encode f bs e =
    let (a, q) = subst (Encodes f) e (encode_hive_cnf_v1-Encodes f) in
    subst (λ b. decode_hive_cnf_v1 b ≡ formula f) q (decode_hive_cnf_v1-Acceptable f a)
