-- ===== src/Protocol/Json/Ensures.antt =====
-- What the readers of JSON values ensure about what they return.
use Prim.Native.String.{String}
use hive_sat.Prelude.{
  suc, ap, length, ◌&&◌, ℕ, ◌≡◌, ◌≤◌, refl, Bool, true, false, not, List, [], ◌∷◌, Option, none,
  some, All, leb, leb→le, &&-true, Bool-cases, inl, inr, ℤ, pos, negsuc, abs, is_zero,
}
use hive_sat.Protocol.Json.{
  nullable, present, Json, is_id, is_sha256, ◌>>=◌, ◌>>◌, guard, text_of, id_of, sha256_of,
  bounded_integer, literal_of, optional, each,
}

-- If something is returned, it has the property.
abbrev pub Ensures : {A : Type 0} → (A → Type 0) → Option A → Type 0
Ensures P none = Unit
Ensures P (some a) = P a

pub bind-Ensures :
    {A B : Type 0} (P : A → Type 0) (Q : B → Type 0) (m : Option A) (f : A → Option B)
    → Ensures P m
    → ((a : A) → P a → Ensures Q (f a))
    → Ensures Q (m >>= f)
unfolding ◌>>=◌
bind-Ensures P Q none f h k = tt
bind-Ensures P Q (some a) f h k = k a h

pub guard-Ensures :
    {B : Type 0} (Q : B → Type 0) (b : Bool) (k : Option B)
    → (b ≡ true → Ensures Q k)
    → Ensures Q (guard b >> k)
unfolding guard ◌>>◌ ◌>>=◌
guard-Ensures Q true k h = h refl
guard-Ensures Q false k h = tt

abbrev pub IsId : String → Type 0
IsId s = is_id s ≡ true

abbrev pub IsSha256 : String → Type 0
IsSha256 s = is_sha256 s ≡ true

-- A literal of a cube: a 32-bit number that is not 0.
abbrev pub IsLiteral : ℤ → Type 0
IsLiteral z = (is_zero z ≡ false) × (abs z ≤ 0x7fffffff)

abbrev pub Between : ℕ → ℕ → ℕ → Type 0
Between low high n = (low ≤ n) × (n ≤ high)

-- A value that may be missing.
abbrev pub Maybe : {A : Type 0} → (A → Type 0) → Option A → Type 0
Maybe P none = Unit
Maybe P (some a) = P a

pub text_of-Ensures :
    (p : String → Bool) (j : Option Json) → Ensures (λ s. p s ≡ true) (text_of p j)
unfolding text_of
text_of-Ensures p none = tt
text_of-Ensures p (some (Json.string s)) = elim (Bool-cases (p s)) [
  | inl e ↦ rw e e
  | inr e ↦ rw e tt
]
text_of-Ensures p (some Json.null) = tt
text_of-Ensures p (some (Json.bool b)) = tt
text_of-Ensures p (some (Json.integer z)) = tt
text_of-Ensures p (some Json.number) = tt
text_of-Ensures p (some (Json.array js)) = tt
text_of-Ensures p (some (Json.object fields)) = tt

pub id_of-IsId : (j : Option Json) → Ensures IsId (id_of j)
unfolding id_of
id_of-IsId j = text_of-Ensures is_id j

pub sha256_of-IsSha256 : (j : Option Json) → Ensures IsSha256 (sha256_of j)
unfolding sha256_of
sha256_of-IsSha256 j = text_of-Ensures is_sha256 j

pub bounded_integer-Between :
    (low high : ℕ) (j : Option Json) → Ensures (Between low high) (bounded_integer low high j)
unfolding bounded_integer
bounded_integer-Between low high none = tt
bounded_integer-Between low high (some (Json.integer (pos n))) =
    elim (Bool-cases (leb low n && leb n high)) [
      | inl e ↦
          let both = &&-true (leb low n) (leb n high) e in
          rw e (leb→le low n both.0, leb→le n high both.1)
      | inr e ↦ rw e tt
    ]
bounded_integer-Between low high (some (Json.integer (negsuc n))) = tt
bounded_integer-Between low high (some Json.null) = tt
bounded_integer-Between low high (some (Json.bool b)) = tt
bounded_integer-Between low high (some (Json.string s)) = tt
bounded_integer-Between low high (some Json.number) = tt
bounded_integer-Between low high (some (Json.array js)) = tt
bounded_integer-Between low high (some (Json.object fields)) = tt

pub literal_of-IsLiteral : (j : Option Json) → Ensures IsLiteral (literal_of j)
unfolding literal_of
literal_of-IsLiteral none = tt
literal_of-IsLiteral (some (Json.integer z)) =
    elim (Bool-cases (not (is_zero z) && leb (abs z) 0x7fffffff)) [
      | inl e ↦
          let both = &&-true (not (is_zero z)) (leb (abs z) 0x7fffffff) e in
          rw e (not-true (is_zero z) both.0, leb→le (abs z) 0x7fffffff both.1)
      | inr e ↦ rw e tt
    ]
  where
    not-true : (b : Bool) → not b ≡ true → b ≡ false
    not-true true h = cc
    not-true false h = refl
literal_of-IsLiteral (some Json.null) = tt
literal_of-IsLiteral (some (Json.bool b)) = tt
literal_of-IsLiteral (some (Json.string s)) = tt
literal_of-IsLiteral (some Json.number) = tt
literal_of-IsLiteral (some (Json.array js)) = tt
literal_of-IsLiteral (some (Json.object fields)) = tt

map_some-Ensures :
    {A : Type 0} (P : A → Type 0) (m : Option A) → Ensures P m → Ensures (Maybe P) (present m)
map_some-Ensures P none h = tt
map_some-Ensures P (some a) h = h

pub optional-Ensures :
    {A : Type 0} (P : A → Type 0) (read : Option Json → Option A)
    → ((j : Option Json) → Ensures P (read j))
    → (j : Option Json) → Ensures (Maybe P) (optional read j)
unfolding optional
optional-Ensures P read h none = tt
optional-Ensures P read h (some j) = map_some-Ensures P (read (some j)) (h (some j))

pub each-Ensures :
    {A : Type 0} (P : A → Type 0) (read : Option Json → Option A)
    → ((j : Option Json) → Ensures P (read j))
    → (js : List Json) → Ensures (All P) (each read js)
unfolding each
each-Ensures P read h [] = tt
each-Ensures P read h (j ∷ js) = bind-Ensures P (All P) (read (some j)) _ (h (some j)) (λ a pa.
    bind-Ensures (All P) (All P) (each read js) _ (each-Ensures P read h js) (λ rest pr. (pa, pr)))

-- A value of which nothing is asked.
pub anything : {A : Type 0} (m : Option A) → Ensures (λ a. Unit {0}) m
anything none = tt
anything (some a) = tt

-- As many values as elements.
pub each-length :
    {A : Type 0} (read : Option Json → Option A) (js : List Json)
    → Ensures (λ xs. length xs ≡ length js) (each read js)
unfolding each
each-length read [] = refl
each-length {A} read (j ∷ js) =
    bind-Ensures (λ a. Unit {0}) (λ xs. length xs ≡ length (j ∷ js)) (read (some j)) _
      (anything (read (some j)))
      (λ a _.
        bind-Ensures (λ xs. length xs ≡ length js) (λ xs. length xs ≡ length (j ∷ js))
          (each read js) _ (each-length read js) (λ rest e. ap suc e))

pub both-Ensures :
    {A : Type 0} (P Q : A → Type 0) (m : Option A)
    → Ensures P m
    → Ensures Q m
    → Ensures (λ a. P a × Q a) m
both-Ensures P Q none h k = tt
both-Ensures P Q (some a) h k = (h, k)

pub nullable-Ensures :
    {A : Type 0} (P : A → Type 0) (read : Option Json → Option A)
    → ((j : Option Json) → Ensures P (read j))
    → (j : Option Json) → Ensures (Maybe P) (nullable read j)
unfolding nullable
nullable-Ensures P read h none = map_some-Ensures P (read none) (h none)
nullable-Ensures P read h (some Json.null) = tt
nullable-Ensures P read h (some (Json.bool b)) = map_some-Ensures P _ (h (some (Json.bool b)))
nullable-Ensures P read h (some (Json.integer z)) = map_some-Ensures P _ (h (some (Json.integer z)))
nullable-Ensures P read h (some Json.number) = map_some-Ensures P _ (h (some Json.number))
nullable-Ensures P read h (some (Json.string s)) = map_some-Ensures P _ (h (some (Json.string s)))
nullable-Ensures P read h (some (Json.array js)) = map_some-Ensures P _ (h (some (Json.array js)))
nullable-Ensures P read h (some (Json.object v)) = map_some-Ensures P _ (h (some (Json.object v)))
