-- ===== src/Formula/HiveCnf.antt =====
-- `encodeHiveCnfV1` and `decodeHiveCnfV1` of src/lib/formula/hiveCnf.ts, and
-- the `decodeHiveCnfV1` of worker/result-verifier.ts. A byte is a number below 256; `DataView` reads
-- and writes little-endian words. Numbers are integers here, so the tests `Number.isSafeInteger` and
-- `Number.isInteger` hold by the representation.
pub mod RoundTrip
use hive_sat.Prelude.{
  ℕ, zero, suc, ◌+◌, ◌-◌, ◌*◌, ◌/◌, ◌%◌, Bool, true, false, ◌&&◌, ◌||◌, not, List, [], ◌∷◌, ◌++◌,
  Option, none, some, find?, any, length, drop, ltb, leb, ◌==◌, ℤ, pos, negsuc, abs, is_zero,
  if◌then◌else◌,
}
use hive_sat.Limits.{max_variables, max_clauses, max_literal_occurrences, max_encoded_formula_bytes}

-- `HiveCnfV1`, and what the encoder reads of a `ParsedDimacs`.
pub record HiveCnf : Type 0 where
  pub variable_count : ℕ
  pub clause_count : ℕ
  pub literal_count : ℕ
  pub clauses : List (List ℤ)

pub data Reason : Type 0 where
  variable_count mismatched_metadata too_many_clauses too_many_literals : Reason
  too_long byte_length magic length_metadata clause_metadata out_of_range : Reason
  invalid_literal : ℤ → Reason

pub data Encoded : Type 0 where
  bytes : List ℕ → Encoded
  refused : Reason → Encoded

pub data Decoded : Type 0 where
  formula : HiveCnf → Decoded
  refused : Reason → Decoded

-- HIVECNF1
abbrev pub magic_bytes : List ℕ
magic_bytes = 0x48 ∷ 0x49 ∷ 0x56 ∷ 0x45 ∷ 0x43 ∷ 0x4e ∷ 0x46 ∷ 0x31 ∷ []

-- `setUint32(offset, n, true)`.
abbrev pub uint32_bytes : ℕ → List ℕ
uint32_bytes n = n % 256 ∷ n / 256 % 256 ∷ n / 65536 % 256 ∷ n / 16777216 % 256 ∷ []

-- The word of an int32, in two's complement.
abbrev pub int32_word : ℤ → ℕ
int32_word (pos n) = n % 4294967296
int32_word (negsuc n) = 4294967295 - n % 4294967296

-- `reduce((total, clause) => total + clause.length, 0)`.
unfoldable pub total_literals : List (List ℤ) → ℕ
total_literals [] = 0
total_literals (c ∷ cs) = length c + total_literals cs

-- The bytes of a clause, with its terminating 0, before those of the rest.
unfoldable pub encode_clause : List ℤ → List ℕ → List ℕ
encode_clause [] rest = uint32_bytes 0 ++ rest
encode_clause (l ∷ ls) rest = uint32_bytes (int32_word l) ++ encode_clause ls rest

unfoldable pub encode_clauses : List (List ℤ) → List ℕ
encode_clauses [] = []
encode_clauses (c ∷ cs) = encode_clause c (encode_clauses cs)

abbrev pub bad_literal : ℕ → ℤ → Bool
bad_literal n l = is_zero l || ltb n (abs l)

-- The first literal that cannot be encoded.
unfoldable pub find_bad : ℕ → List (List ℤ) → Option ℤ
find_bad n [] = none
find_bad n (c ∷ cs) = elim (find? (bad_literal n) c) [ some l ↦ some l | none ↦ find_bad n cs ]

abbrev pub encoded_byte_length : HiveCnf → ℕ
encoded_byte_length f = 20 + (f.literal_count + f.clause_count) * 4

abbrev pub encoded_bytes : HiveCnf → List ℕ
encoded_bytes f =
    magic_bytes
    ++ uint32_bytes f.variable_count
    ++ uint32_bytes f.clause_count
    ++ uint32_bytes f.literal_count
    ++ encode_clauses f.clauses

unfoldable pub encode_hive_cnf_v1 : HiveCnf → Encoded
unfolding total_literals find_bad encode_clauses
encode_hive_cnf_v1 f =
    if ltb max_variables f.variable_count
    then refused variable_count
    else if not (length f.clauses == f.clause_count && total_literals f.clauses == f.literal_count)
    then refused mismatched_metadata
    else if ltb max_clauses (length f.clauses)
    then refused too_many_clauses
    else if ltb max_literal_occurrences (total_literals f.clauses)
    then refused too_many_literals
    else elim (find_bad f.variable_count f.clauses) [
      | some l ↦ refused (invalid_literal l)
      | none ↦
          if ltb max_encoded_formula_bytes (encoded_byte_length f)
          then refused too_long
          else bytes (encoded_bytes f)
    ]

-- `getUint32(offset, true)` on what follows the offset.
abbrev pub first_word : List ℕ → ℕ
first_word (a ∷ b ∷ c ∷ d ∷ rest) = a + b * 256 + c * 65536 + d * 16777216
first_word _ = 0

-- `getInt32` of a word.
abbrev pub word_int32 : ℕ → ℤ
word_int32 w = if ltb w 2147483648 then pos w else negsuc (4294967295 - w)

-- The int32 values of the payload.
unfoldable pub read_words : List ℕ → List ℤ
read_words (a ∷ b ∷ c ∷ d ∷ rest) = word_int32 (first_word (a ∷ b ∷ c ∷ d ∷ [])) ∷ read_words rest
read_words _ = []

abbrev pub has_magic : List ℕ → List ℕ → Bool
has_magic [] bs = true
has_magic (m ∷ ms) [] = false
has_magic (m ∷ ms) (b ∷ bs) = m == b && has_magic ms bs

-- The clauses that the payload has closed, the open one, and the count of literals.
pub record Payload : Type 0 where
  pub clauses : List (List ℤ)
  pub current : List ℤ
  pub observed_literals : ℕ

-- -0x80000000, which has no absolute value among the int32, or a variable that is not declared.
abbrev pub is_out_of_range : ℕ → ℤ → Bool
is_out_of_range n l = abs l == 2147483648 || ltb n (abs l)

-- The loop over the payload; `none` on a literal out of range.
unfoldable pub read_clauses : ℕ → List ℤ → List ℤ → ℕ → Option Payload
read_clauses n [] current observed =
    some (record { clauses = []; current = current; observed_literals = observed })
read_clauses n (l ∷ ls) current observed =
    let closed = read_clauses n ls [] observed in
    let extended = read_clauses n ls (current ++ l ∷ []) (suc observed) in
    if is_zero l
    then elim closed [ none ↦ none | some p ↦ some (record p { clauses = current ∷ p.clauses }) ]
    else if is_out_of_range n l
    then none
    else extended

abbrev pub is_nil : List ℤ → Bool
is_nil [] = true
is_nil (x ∷ xs) = false

abbrev pub finish_decoding : ℕ → ℕ → ℕ → Option Payload → Decoded
finish_decoding variables clauses literals none = refused out_of_range
finish_decoding variables clauses literals (some p) =
    if not (is_nil p.current)
      || not (length p.clauses == clauses)
      || not (p.observed_literals == literals)
    then refused clause_metadata
    else formula (record {
      variable_count = variables;
      clause_count = clauses;
      literal_count = literals;
      clauses = p.clauses;
    })

-- `decodeHiveCnfV1`. The refusal of a literal does not name its offset.
unfoldable pub decode_hive_cnf_v1 : List ℕ → Decoded
unfolding read_words read_clauses
decode_hive_cnf_v1 bs =
    let variables = first_word (drop 8 bs) in
    let clauses = first_word (drop 12 bs) in
    let literals = first_word (drop 16 bs) in
    if ltb (length bs) 20 || ltb max_encoded_formula_bytes (length bs)
    then refused byte_length
    else if not (has_magic magic_bytes bs)
    then refused magic
    else if ltb max_variables variables
    then refused variable_count
    else if ltb max_clauses clauses
    then refused too_many_clauses
    else if ltb max_literal_occurrences literals
    then refused too_many_literals
    else if not (20 + (literals + clauses) * 4 == length bs)
    then refused length_metadata
    else finish_decoding variables clauses literals
        (read_clauses variables (read_words (drop 20 bs)) [] 0)
