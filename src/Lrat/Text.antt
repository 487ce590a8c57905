-- ===== src/Lrat/Text.antt =====
-- The text of a proof, as a list of code points: the splitting into lines and tokens that
-- `verifyTextLrat` of shared/lrat-check.ts does with `split`, `trim` and `startsWith`.
use mathlib.Core.List.{reverse}
use hive_sat.Prelude.{
  ℕ, ◌+◌, ◌==◌, leb, ltb, ◌&&◌, ◌||◌, Bool, true, false, List, [], ◌∷◌, if◌then◌else◌,
}

abbrev pub Token : Type 0
Token = List ℕ

-- `\s` of a regular expression, and what `trim` removes.
unfoldable pub is_space : ℕ → Bool
is_space c =
    (leb 9 c && leb c 13)
    || c == 32
    || c == 0xa0
    || c == 0x1680
    || (leb 0x2000 c && leb c 0x200a)
    || c == 0x2028
    || c == 0x2029
    || c == 0x202f
    || c == 0x205f
    || c == 0x3000
    || c == 0xfeff

-- The bytes of one code point in UTF-8.
abbrev utf8_width : ℕ → ℕ
utf8_width c = if ltb c 0x80 then 1 else if ltb c 0x800 then 2 else if ltb c 0x10000 then 3 else 4

-- `new TextEncoder().encode(text).byteLength`.
unfoldable pub utf8_length : List ℕ → ℕ
utf8_length [] = 0
utf8_length (c ∷ cs) = utf8_width c + utf8_length cs

abbrev cons_head : ℕ → List (List ℕ) → List (List ℕ)
cons_head c [] = (c ∷ []) ∷ []
cons_head c (l ∷ ls) = (c ∷ l) ∷ ls

abbrev split_newlines : List ℕ → List (List ℕ)
split_newlines [] = [] ∷ []
split_newlines (c ∷ cs) =
    let rest = split_newlines cs in if c == 10 then [] ∷ rest else cons_head c rest

abbrev drop_cr : List ℕ → List ℕ
drop_cr [] = []
drop_cr (c ∷ []) = if c == 13 then [] else c ∷ []
drop_cr (c ∷ d ∷ cs) = c ∷ drop_cr (d ∷ cs)

-- `text.split(/\r?\n/u)`: every piece but the last is followed by a line feed.
unfoldable pub split_lines : List ℕ → List (List ℕ)
split_lines cs = strip (split_newlines cs)
  where
    strip : List (List ℕ) → List (List ℕ)
    strip [] = []
    strip (l ∷ []) = l ∷ []
    strip (l ∷ m ∷ ls) = drop_cr l ∷ strip (m ∷ ls)

abbrev trim_start : List ℕ → List ℕ
trim_start [] = []
trim_start (c ∷ cs) = let rest = trim_start cs in if is_space c then rest else c ∷ cs

-- `text.trim()`.
unfoldable pub trim : List ℕ → List ℕ
trim cs = reverse (trim_start (reverse (trim_start cs)))

-- `line.startsWith("c ")`.
unfoldable pub is_comment : List ℕ → Bool
is_comment (c ∷ d ∷ cs) = c == b'c' && d == b' '
is_comment _ = false

abbrev close : Token → List Token → List Token
close [] ts = ts
close t ts = reverse t ∷ ts

abbrev tokens_from : Token → List ℕ → List Token
tokens_from t [] = close t []
tokens_from t (c ∷ cs) = if is_space c then close t (tokens_from [] cs) else tokens_from (c ∷ t) cs

-- `line.split(/\s+/u)` of a trimmed line that is not empty: the runs between the spaces.
unfoldable pub split_tokens : List ℕ → List Token
split_tokens line = tokens_from [] line

-- `token === text`.
unfoldable pub token_eq : Token → Token → Bool
token_eq [] [] = true
token_eq [] (d ∷ ds) = false
token_eq (c ∷ cs) [] = false
token_eq (c ∷ cs) (d ∷ ds) = c == d && token_eq cs ds
