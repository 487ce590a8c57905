-- ===== src/Protocol/Json.antt =====
-- JSON values as shared/coordinator-protocol.ts, shared/swarm-protocol.ts and
-- shared/result-manifest.ts read them, and their tests: `isRecord`, `isId`, `isBoundedInteger`.
pub mod Ensures
use Prim.Native.Char.{code}
use Prim.Native.String.{String}
use text.Mathlib.Text.{◌==◌}
use hive_sat.Prelude.{
  ℕ, Bool, true, false, not, ◌&&◌, ◌||◌, List, [], ◌∷◌, Option, none, some, length, all, any, leb,
  if◌then◌else◌, ℤ, pos, negsuc, abs, is_zero,
}

-- `integer` is a number that Number.isSafeInteger accepts, `number` any other. A property that is
-- missing is `undefined`.
mutual
  pub data Json : Type 0 where
    null : Json
    bool : Bool → Json
    integer : ℤ → Json
    number : Json
    string : String → Json
    array : Items → Json
    object : Fields → Json

  pub data Items : Type 0 where
    nil : Items
    item : Json → Items → Items

  pub data Fields : Type 0 where
    end : Fields
    field : String → Json → Fields → Fields

abbrev pub same_text : String → String → Bool
same_text s t = s == t

-- `value.key`; `none` is `undefined`.
unfoldable pub property : String → Fields → Option Json
property key end = none
property key (field k j fields) =
    let rest = property key fields in if same_text k key then some j else rest

unfoldable pub elements : Items → List Json
elements nil = []
elements (item j js) = j ∷ elements js

-- The code units of a text; the patterns below accept ASCII alone.
abbrev pub codes : String → List ℕ
codes String.[] = []
codes (String.◌∷◌ c s) = code c ∷ codes s

abbrev within : ℕ → ℕ → ℕ → Bool
within low high n = leb low n && leb n high

-- ID_PATTERN, /^[A-Za-z0-9_-]{1,128}$/u
unfoldable pub is_id : String → Bool
is_id s =
    within 1 128 (length (codes s))
    && all
        (λ c.
          within b'A' b'Z' c
          || within b'a' b'z' c
          || within b'0' b'9' c
          || within b'_' b'_' c
          || within b'-' b'-' c)
        (codes s)

-- SHA256_PATTERN, /^[0-9a-f]{64}$/u
unfoldable pub is_sha256 : String → Bool
is_sha256 s =
    within 64 64 (length (codes s)) && all (λ c. within b'0' b'9' c || within b'a' b'f' c) (codes s)

-- The version of a solver: a text of 1 to 64 code units.
unfoldable pub is_version : String → Bool
is_version s = within 1 64 (length (codes s))

-- A chain of tests, as far as the first that fails.
infixl 5 ◌>>=◌ ◌>>◌
unfoldable pub ◌>>=◌ : {A B : Type 0} → Option A → (A → Option B) → Option B
none >>= f = none
some a >>= f = f a

unfoldable pub ◌>>◌ : {B : Type 0} → Option (Unit {0}) → Option B → Option B
unfolding ◌>>=◌
m >> k = m >>= λ _. k

unfoldable pub guard : Bool → Option (Unit {0})
guard true = some tt
guard false = none

-- `isRecord(value)`
unfoldable pub fields_of : Option Json → Option Fields
fields_of (some (object fields)) = some fields
fields_of _ = none

-- `Array.isArray(value)`
unfoldable pub array_of : Option Json → Option (List Json)
array_of (some (array js)) = some (elements js)
array_of _ = none

-- `typeof value === "boolean"`
unfoldable pub bool_of : Option Json → Option Bool
bool_of (some (bool b)) = some b
bool_of _ = none

-- `typeof value === "string"` and a test.
unfoldable pub text_of : (String → Bool) → Option Json → Option String
text_of p (some (string s)) = if p s then some s else none
text_of p _ = none

-- `isId(value)`
unfoldable pub id_of : Option Json → Option String
unfolding text_of
id_of j = text_of is_id j

unfoldable pub sha256_of : Option Json → Option String
unfolding text_of
sha256_of j = text_of is_sha256 j

-- `isBoundedInteger(value, low, high)` for bounds that are not negative.
unfoldable pub bounded_integer : ℕ → ℕ → Option Json → Option ℕ
bounded_integer low high (some (integer (pos n))) = if within low high n then some n else none
bounded_integer low high _ = none

-- `isBoundedInteger(value, -0x7fff_ffff, 0x7fff_ffff) && value !== 0`
unfoldable pub literal_of : Option Json → Option ℤ
literal_of (some (integer z)) = if not (is_zero z) && leb (abs z) 0x7fffffff then some z else none
literal_of _ = none

abbrev pub present : {A : Type 0} → Option A → Option (Option A)
present none = none
present (some a) = some (some a)

-- `value === undefined` or a test.
unfoldable pub optional : {A : Type 0} → (Option Json → Option A) → Option Json → Option (Option A)
optional read none = some none
optional read (some j) = present (read (some j))

-- `value === null` or a test.
unfoldable pub nullable : {A : Type 0} → (Option Json → Option A) → Option Json → Option (Option A)
nullable read (some null) = some none
nullable read j = present (read j)

-- `value.every(...)`, or a loop that returns at the first element that fails.
unfoldable pub each : {A : Type 0} → (Option Json → Option A) → List Json → Option (List A)
unfolding ◌>>=◌
each read [] = some []
each read (j ∷ js) = do a ← read (some j); rest ← each read js; some (a ∷ rest)

-- `value === "..."`, and `[...].includes(value)` for the texts of a list.
unfoldable pub one_of : {A : Type 0} → List (String × A) → Option Json → Option A
one_of [] j = none
one_of ((name, a) ∷ names) (some (string s)) =
    let rest = one_of names (some (string s)) in if same_text s name then some a else rest
one_of (n ∷ names) j = none

-- `new Set(texts).size === texts.length`
abbrev pub is_distinct : List String → Bool
is_distinct [] = true
is_distinct (s ∷ ss) = not (any (same_text s) ss) && is_distinct ss
