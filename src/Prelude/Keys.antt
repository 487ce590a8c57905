-- ===== src/Prelude/Keys.antt =====
-- Tables with a primary key: look-ups and sums after an UPDATE of one row.
use Prim.Native.Nat.{ℕ, ◌+◌}
use mathlib.Core.Path.{subst, ◌≡◌, refl, ap}
use mathlib.Core.Bool.{Bool, true, false}
use mathlib.Core.List.{map, List, [], ◌∷◌}
use mathlib.Core.Option.{none, some}
use mathlib.Core.Logic.{inl, inr}
use native.Mathlib.Omega.{arith}
use hive_sat.Prelude.Tests.{ltb, ==_iff, eq_self, ◌==◌, if◌then◌else◌, Bool-cases, some_inj}
use hive_sat.Prelude.Lists.{filter, All-zip, All, find?}
use hive_sat.Prelude.Rows.{count, update, sum_of, IsUnique}

pub eq_sym : (a b : ℕ) → (a == b) ≡ false → (b == a) ≡ false
eq_sym a b h = ground arith

apart_trans : (a k j : ℕ) → (a == k) ≡ true → (k == j) ≡ false → (a == j) ≡ false
apart_trans a k j h e = ground arith

module _ {ℓ} {A : Type ℓ} where
  pub update-none :
      (p : A → Bool) (f : A → A) (xs : List A) → find? p xs ≡ none → update p f xs ≡ xs
  update-none p f [] h = refl
  update-none p f (x ∷ xs) h = elim (Bool-cases (p x)) [
    | inl e ↦ absurd (cc (rw e at h))
    | inr e ↦ rw e (ap (λ rest. x ∷ rest) (update-none p f xs (rw e at h)))
  ]

  pub find?-none-All : (p : A → Bool) (xs : List A) → find? p xs ≡ none → All (λ x. p x ≡ false) xs
  find?-none-All p [] h = tt
  find?-none-All p (x ∷ xs) h = elim (Bool-cases (p x)) [
    | inl e ↦ absurd (cc (rw e at h))
    | inr e ↦ (e, find?-none-All p xs (rw e at h))
  ]

  module _ (key : A → ℕ) where
    -- Each row of a table is the one that its key finds.
    pub IsUnique-finds :
        (xs : List A) → IsUnique key xs → All (λ x. find? (λ y. key y == key x) xs ≡ some x) xs
    IsUnique-finds [] h = tt
    IsUnique-finds (x ∷ xs) h = (
      rw (eq_self (key x)),
      All-zip {P = λ y. (key y == key x) ≡ false} {Q = λ y. find? (λ z. key z == key y) xs ≡ some y}
          {R = λ y. find? (λ z. key z == key y) (x ∷ xs) ≡ some y}
          (λ y apart found. rw (eq_sym (key y) (key x) apart) found) xs
          (find?-none-All (λ y. key y == key x) xs h.0) (IsUnique-finds xs h.1),
    )

    pub find?-update-none :
        (p : A → Bool) (f : A → A)
        → ((x : A) → key (f x) ≡ key x)
        → (k : ℕ) (xs : List A) → find? (λ y. key y == k) xs ≡ none
        → find? (λ y. key y == k) (update p f xs) ≡ none
    find?-update-none p f same k [] h = refl
    find?-update-none p f same k (x ∷ xs) h = elim (Bool-cases (key x == k)) [
      | inl e ↦ absurd (cc (rw e at h))
      | inr e ↦ elim (Bool-cases (p x)) [
        | inl g ↦ rw (g, same x, e) (find?-update-none p f same k xs (rw e at h))
        | inr g ↦ rw (g, e) (find?-update-none p f same k xs (rw e at h))
      ]
    ]

    pub IsUnique-update :
        (p : A → Bool) (f : A → A)
        → ((x : A) → key (f x) ≡ key x)
        → (xs : List A) → IsUnique key xs
        → IsUnique key (update p f xs)
    IsUnique-update p f same [] h = tt
    IsUnique-update p f same (x ∷ xs) h = elim (Bool-cases (p x)) [
      | inl g ↦
          rw (g, same x)
            (find?-update-none p f same (key x) xs h.0, IsUnique-update p f same xs h.1)
      | inr g ↦ rw g (find?-update-none p f same (key x) xs h.0, IsUnique-update p f same xs h.1)
    ]

    -- Another key finds the row that it found.
    pub find?-update_other :
        (k j : ℕ) (f : A → A)
        → ((x : A) → key (f x) ≡ key x)
        → (k == j) ≡ false
        → (xs : List A)
        → find? (λ y. key y == j) (update (λ y. key y == k) f xs) ≡ find? (λ y. key y == j) xs
    find?-update_other k j f same h [] = refl
    find?-update_other k j f same h (x ∷ xs) = elim (Bool-cases (key x == k)) [
      | inl e ↦ rw (e, same x, apart_trans (key x) k j e h) (find?-update_other k j f same h xs)
      | inr e ↦
          rw e
            (ap (λ rest. if key x == j then some x else rest) (find?-update_other k j f same h xs))
    ]

    -- The change of a sum is that of the one row.
    pub sum_of-update :
        (w : A → ℕ) (k : ℕ) (f : A → A) (xs : List A) (a : A)
        → IsUnique key xs
        → find? (λ y. key y == k) xs ≡ some a
        → sum_of w (update (λ y. key y == k) f xs) + w a ≡ sum_of w xs + w (f a)
    sum_of-update w k f [] a u h = cc
    sum_of-update w k f (x ∷ xs) a u h = elim (Bool-cases (key x == k)) [
      | inl e ↦
          rw
            (
              e,
              update-none (λ y. key y == k) f xs (rw ((==_iff (key x) k).0 e) at u.0),
              ← some_inj x a (rw e at h),
            )
            (omega arith)
      | inr e ↦ rw e (omega (arith, sum_of-update w k f xs a u.1 (rw e at h)))
    ]

module _ {ℓ} {A : Type ℓ} where
  -- A row that is found has any property of all rows.
  pub find?-All {κ} :
      (P : A → Type κ) (p : A → Bool) (xs : List A) (a : A) → All P xs → find? p xs ≡ some a → P a
  find?-All P p [] a h e = cc
  find?-All P p (x ∷ xs) a (h, rest) e = elim (Bool-cases (p x)) [
    | inl g ↦ subst P (some_inj x a (rw g at e)) h
    | inr g ↦ find?-All P p xs a rest (rw g at e)
  ]

  pub find?-filter-none :
      (p q : A → Bool) (xs : List A) → find? p xs ≡ none → find? p (filter q xs) ≡ none
  find?-filter-none p q [] h = refl
  find?-filter-none p q (x ∷ xs) h = elim (Bool-cases (p x)) [
    | inl e ↦ absurd (cc (rw e at h))
    | inr e ↦ elim (Bool-cases (q x)) [
      | inl g ↦ rw (g, e) (find?-filter-none p q xs (rw e at h))
      | inr g ↦ rw g (find?-filter-none p q xs (rw e at h))
    ]
  ]

  pub IsUnique-filter :
      (key : A → ℕ) (q : A → Bool) (xs : List A) → IsUnique key xs → IsUnique key (filter q xs)
  IsUnique-filter key q [] h = tt
  IsUnique-filter key q (x ∷ xs) h = elim (Bool-cases (q x)) [
    | inl g ↦ rw g (find?-filter-none (λ y. key y == key x) q xs h.0, IsUnique-filter key q xs h.1)
    | inr g ↦ rw g (IsUnique-filter key q xs h.1)
  ]

  -- No row passes a test that is counted 0 times, nor a narrower one.
  pub count-zero-find? :
      (p q : A → Bool)
      → ((x : A) → p x ≡ false → q x ≡ false)
      → (xs : List A) → ltb 0 (count p xs) ≡ false
      → find? q xs ≡ none
  count-zero-find? p q narrow [] h = refl
  count-zero-find? p q narrow (x ∷ xs) h = elim (Bool-cases (p x)) [
    | inl e ↦ absurd (ground (arith, rw e at h))
    | inr e ↦ rw (narrow x e) (count-zero-find? p q narrow xs (rw e at h))
  ]

  -- An UPDATE that changes no summand keeps the sum.
  pub sum_of-update_same :
      (w : A → ℕ) (p : A → Bool) (f : A → A)
      → ((x : A) → p x ≡ true → w (f x) ≡ w x)
      → (xs : List A) → sum_of w (update p f xs) ≡ sum_of w xs
  sum_of-update_same w p f same [] = refl
  sum_of-update_same w p f same (x ∷ xs) = elim (Bool-cases (p x)) [
    | inl e ↦ rw e (omega (arith, same x e, sum_of-update_same w p f same xs))
    | inr e ↦ rw e (omega (arith, sum_of-update_same w p f same xs))
  ]

-- A property of the images is one of the list of images.
pub All-map_list {ℓ κ μ} :
    {A : Type ℓ} {B : Type κ} (P : B → Type μ) (f : A → B) (xs : List A)
    → All (λ x. P (f x)) xs
    → All P (map f xs)
All-map_list P f [] h = tt
All-map_list P f (x ∷ xs) h = (h.0, All-map_list P f xs h.1)
