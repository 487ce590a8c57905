-- ===== src/Prelude/Rows.antt =====
-- The SQL that the durable objects of worker/ use, over lists of rows. INSERT puts the row in front;
-- what depends on the order of rows says ORDER BY.
use Prim.Native.Nat.{min, ℕ, suc, ◌+◌}
use mathlib.Core.Path.{◌≡◌, refl, ap}
use mathlib.Core.Bool.{Bool, true, false}
use mathlib.Core.List.{List, [], ◌∷◌}
use mathlib.Core.Option.{Option, none, some}
use mathlib.Core.Logic.{inl, inr}
use hive_sat.Prelude.Tests.{◌==◌, if◌then◌else◌, Bool-cases}
use hive_sat.Prelude.Lists.{All, length, find?}

module _ {ℓ} {A : Type ℓ} where
  -- UPDATE ... SET f WHERE p.
  abbrev pub update : (A → Bool) → (A → A) → List A → List A
  update p f [] = []
  update p f (x ∷ xs) = (if p x then f x else x) ∷ update p f xs

  -- SELECT COUNT(*) ... WHERE p.
  abbrev pub count : (A → Bool) → List A → ℕ
  count p [] = 0
  count p (x ∷ xs) = let rest = count p xs in if p x then suc rest else rest

  abbrev pub earlier : (A → A → Bool) → A → Option A → Option A
  earlier before x none = some x
  earlier before x (some y) = some (if before y x then y else x)

  -- ORDER BY ... LIMIT 1.
  abbrev pub first_by : (A → A → Bool) → List A → Option A
  first_by before [] = none
  first_by before (x ∷ xs) = earlier before x (first_by before xs)

  -- A row in its place of an ORDER BY.
  abbrev pub insert_by : (A → A → Bool) → A → List A → List A
  insert_by before x [] = x ∷ []
  insert_by before x (y ∷ ys) =
      let rest = insert_by before x ys in if before x y then x ∷ y ∷ ys else y ∷ rest

  -- ORDER BY.
  abbrev pub sort_by : (A → A → Bool) → List A → List A
  sort_by before [] = []
  sort_by before (x ∷ xs) = insert_by before x (sort_by before xs)

  pub All-update {κ} :
      (P : A → Type κ) (p : A → Bool) (f : A → A)
      → ((x : A) → P x → p x ≡ true → P (f x))
      → (xs : List A) → All P xs
      → All P (update p f xs)
  All-update P p f h [] a = tt
  All-update P p f h (x ∷ xs) (a, rest) = elim (Bool-cases (p x)) [
    | inl e ↦ rw e (h x a e, All-update P p f h xs rest)
    | inr e ↦ rw e (a, All-update P p f h xs rest)
  ]

module _ {ℓ κ} {A : Type ℓ} (P : A → Type κ) (before : A → A → Bool) where
  All-insert_by : (x : A) (xs : List A) → P x → All P xs → All P (insert_by before x xs)
  All-insert_by x [] h a = (h, tt)
  All-insert_by x (y ∷ ys) h (a, rest) = elim (Bool-cases (before x y)) [
    | inl e ↦ rw e (h, (a, rest))
    | inr e ↦ rw e (a, All-insert_by x ys h rest)
  ]

  pub All-sort_by : (xs : List A) → All P xs → All P (sort_by before xs)
  All-sort_by [] a = tt
  All-sort_by (x ∷ xs) (a, rest) = All-insert_by x (sort_by before xs) a (All-sort_by xs rest)

-- An UPDATE keeps the number of rows.
pub length-update {ℓ} :
    {A : Type ℓ} (p : A → Bool) (f : A → A) (xs : List A) → length (update p f xs) ≡ length xs
length-update p f [] = refl
length-update p f (x ∷ xs) = ap suc (length-update p f xs)

-- `column = ?` on a nullable column.
abbrev pub holds : Option ℕ → ℕ → Bool
holds none x = false
holds (some y) x = y == x

abbrev pub is_some {ℓ} : {A : Type ℓ} → Option A → Bool
is_some none = false
is_some (some x) = true

module _ {ℓ} {A : Type ℓ} where
  -- SELECT SUM(f).
  abbrev pub sum_of : (A → ℕ) → List A → ℕ
  sum_of f [] = 0
  sum_of f (x ∷ xs) = f x + sum_of f xs

  abbrev pub head? : List A → Option A
  head? [] = none
  head? (x ∷ xs) = some x

  -- No two rows have the same key: PRIMARY KEY and UNIQUE INDEX.
  abbrev pub IsUnique : (A → ℕ) → List A → Type ℓ
  IsUnique key [] = Unit
  IsUnique key (x ∷ xs) = (find? (λ y. key y == key x) xs ≡ none) × IsUnique key xs

  pub All-update_with {κ μ} :
      (P : A → Type κ) (Q : A → Type μ) (p : A → Bool) (f : A → A)
      → ((x : A) → P x → p x ≡ true → Q (f x))
      → ((x : A) → P x → p x ≡ false → Q x)
      → (xs : List A) → All P xs
      → All Q (update p f xs)
  All-update_with P Q p f h k [] a = tt
  All-update_with P Q p f h k (x ∷ xs) (a, rest) = elim (Bool-cases (p x)) [
    | inl e ↦ rw e (h x a e, All-update_with P Q p f h k xs rest)
    | inr e ↦ rw e (k x a e, All-update_with P Q p f h k xs rest)
  ]

-- SELECT MIN(...), NULL if there is no row.
abbrev pub least : List ℕ → Option ℕ
least [] = none
least (t ∷ ts) = elim (least ts) [ none ↦ some t | some u ↦ some (min t u) ]
