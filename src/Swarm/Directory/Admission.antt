-- ===== src/Swarm/Directory/Admission.antt =====
-- `admit` of worker/swarm-directory.ts: what each of its answers means.
use hive_sat.Prelude.{
  some_inj, &&-true, All-map, leb→le, ltb→ge, subst, if◌then◌else◌, leb→gt, ltb→lt, refl, arith,
  false, none, [], ◌+◌, ◌<◌, ◌≤◌, ◌⊎◌, true, some, ℕ, ◌∷◌, All, Bool, Option, not, ◌≡◌, ◌&&◌, List,
  filter, ltb, leb, length, Bool-cases, Option-cases, inl, inr,
}
use hive_sat.Prelude.Rows.{earlier, first_by, count}
use hive_sat.Swarm.State.{CreationRow, Directory, AdmissionInput}
use hive_sat.Swarm.Directory.{
  new_job, creation_window_ms, max_creations_per_window, AdmissionResult, insert_job, admit,
  admit_within, is_taken, same_creator, same_creator_job, rate_limit, forget_events, in_window,
}

-- The creations of the creator in the window before a time.
abbrev recent : AdmissionInput → Directory → List CreationRow
recent i d = filter (λ e. same_creator i e && in_window i.created_at e) d.events

insert_job-replays : (i : AdmissionInput) (d : Directory) → (insert_job i d).0.replays ≡ d.replays
unfolding insert_job
insert_job-replays i d = elim (Bool-cases (is_taken i d)) [ inl e ↦ rw e | inr e ↦ rw e ]

admit_within-replays :
    (i : AdmissionInput) (d : Directory) → (admit_within i d).0.replays ≡ d.replays
unfolding admit_within
admit_within-replays i d = elim (Bool-cases (leb i.global_ceiling (length d.jobs))) [
  | inl e ↦ rw e
  | inr e ↦ elim (Bool-cases (ltb 0 (count (same_creator_job i) d.jobs))) [
    | inl f ↦ rw (e, f)
    | inr f ↦ elim (Option-cases (rate_limit i d.events)) [
      | inl g ↦ rw (e, f, g) (insert_job-replays i d)
      | inr (t, g) ↦ rw (e, f, g)
    ]
  ]
]

-- The Turnstile tokens stay.
pub admit-replays : (i : AdmissionInput) (d : Directory) → (admit i d).0.replays ≡ d.replays
unfolding admit
admit-replays i d = admit_within-replays i (forget_events i.created_at d)

-- The creations of the creator whose window has not ended.
abbrev open_creations : AdmissionInput → List CreationRow → List CreationRow
open_creations i events =
    filter (λ e. same_creator i e && ltb i.created_at (e.created_at + creation_window_ms)) events

-- What the rate limit says, given the open creations.
abbrev IsRate : AdmissionInput → List CreationRow → Option ℕ → Type 0
IsRate i opened none =
    (i.bypass_creation_rate_limit ≡ true) ⊎ (length opened < max_creations_per_window)
IsRate i opened (some t) =
    (i.bypass_creation_rate_limit ≡ false)
    × (max_creations_per_window ≤ length opened)
    × All (λ e. t ≤ e.created_at + creation_window_ms) opened
    × (i.created_at < t)

-- What an answer means: why a job is refused, and that the jobs stay then.
abbrev pub IsDecided : AdmissionInput → Directory → Directory × AdmissionResult → Type 0
IsDecided i d (d', AdmissionResult.admitted) =
    (length d.jobs < i.global_ceiling)
    × (count (same_creator_job i) d.jobs ≡ 0)
    × IsRate i (open_creations i d.events) none
    × (d'.jobs ≡ new_job i d ∷ d.jobs)
IsDecided i d (d', AdmissionResult.global_job_limit) =
    (i.global_ceiling ≤ length d.jobs) × (d'.jobs ≡ d.jobs)
IsDecided i d (d', AdmissionResult.active_job_limit) =
    (0 < count (same_creator_job i) d.jobs) × (d'.jobs ≡ d.jobs)
IsDecided i d (d', AdmissionResult.creation_rate_limit t) =
    IsRate i (open_creations i d.events) (some t) × (d'.jobs ≡ d.jobs)
IsDecided i d (d', AdmissionResult.failed) = d'.jobs ≡ d.jobs

-- Two filters one after the other are one.
filter-filter {ℓ} :
    {A : Type ℓ} (p q r : A → Bool)
    → ((x : A) → (q x && p x) ≡ r x)
    → (xs : List A) → filter p (filter q xs) ≡ filter r xs
filter-filter p q r same [] = refl
filter-filter p q r same (x ∷ xs) = elim (Bool-cases (q x)) [
  | inl e ↦ rw (e, ← same x, e, filter-filter p q r same xs)
  | inr e ↦ rw (e, ← same x, e, filter-filter p q r same xs)
]

recent-open :
    (i : AdmissionInput) (d : Directory)
    → recent i (forget_events i.created_at d) ≡ open_creations i d.events
recent-open i d =
    filter-filter (λ e. same_creator i e && in_window i.created_at e)
      (λ e. not (leb (e.created_at + creation_window_ms) i.created_at))
      (λ e. same_creator i e && ltb i.created_at (e.created_at + creation_window_ms))
      (λ e. ground arith) d.events

-- The earliest row.
abbrev IsFirst : List CreationRow → Option CreationRow → Type 0
IsFirst rows none = length rows ≡ 0
IsFirst rows (some e) = All (λ x. e.created_at ≤ x.created_at) rows

abbrev before : CreationRow → CreationRow → Bool
before a b = ltb a.created_at b.created_at

first_by-IsFirst : (rows : List CreationRow) → IsFirst rows (first_by before rows)
first_by-IsFirst [] = refl
first_by-IsFirst (x ∷ rows) = put (first_by before rows) (first_by-IsFirst rows)
  where
    pick :
        (e : CreationRow) (b : Bool)
        → before e x ≡ b
        → All (λ y. e.created_at ≤ y.created_at) rows
        → All (λ y. (if b then e else x).created_at ≤ y.created_at) (x ∷ rows)
    pick e true h a = (ground arith, a)
    pick e false h a = (omega arith, All-map (λ y k. ground arith) rows a)

    none_left :
        (rows : List CreationRow) → length rows ≡ 0 → All (λ y. x.created_at ≤ y.created_at) rows
    none_left [] h = tt
    none_left (y ∷ rows) h = absurd (omega arith)

    put : (o : Option CreationRow) → IsFirst rows o → IsFirst (x ∷ rows) (earlier before x o)
    put none h = (omega arith, none_left rows h)
    put (some e) h = pick e (before e x) refl h

first_by-All :
    (P : CreationRow → Type 0) (rows : List CreationRow) (e : CreationRow)
    → All P rows
    → first_by before rows ≡ some e
    → P e
first_by-All P [] e a h = cc
first_by-All P (x ∷ rows) e (p, a) h =
    put (λ y k. first_by-All P rows y a k) (first_by before rows) refl h
  where
    pick : (y : CreationRow) (b : Bool) → P y → some (if b then y else x) ≡ some e → P e
    pick y true q k = subst P (some_inj y e k) q
    pick y false q k = subst P (some_inj x e k) p

    put :
        ((y : CreationRow) → first_by before rows ≡ some y → P y)
        → (o : Option CreationRow) → first_by before rows ≡ o
        → earlier before x o ≡ some e
        → P e
    put rest none g k = subst P (some_inj x e k) p
    put rest (some y) g k = pick y (before y x) (rest y g) k

-- The rate limit over the open creations.
open_creations-IsRate :
    (i : AdmissionInput) (opened : List CreationRow)
    → All (λ e. i.created_at < e.created_at + creation_window_ms) opened
    → IsRate i opened (
        if not i.bypass_creation_rate_limit && leb max_creations_per_window (length opened)
        then elim (first_by before opened) [
          | none ↦ none
          | some e ↦ some (e.created_at + creation_window_ms)
        ]
        else none)
open_creations-IsRate i opened a =
    tested i.bypass_creation_rate_limit (leb max_creations_per_window (length opened)) refl refl
  where
    found :
        (o : Option CreationRow)
        → first_by before opened ≡ o
        → IsFirst opened o
        → i.bypass_creation_rate_limit ≡ false
        → leb max_creations_per_window (length opened) ≡ true
        → IsRate i opened
            (elim o [ none ↦ none | some e ↦ some (e.created_at + creation_window_ms) ])
    found none g h e f = absurd (ground arith)
    found (some c) g h e f = (
      e,
      leb→le max_creations_per_window (length opened) f,
      All-map (λ x k. omega arith) opened h,
      first_by-All (λ x. i.created_at < x.created_at + creation_window_ms) opened c a g,
    )

    tested :
        (b c : Bool)
        → i.bypass_creation_rate_limit ≡ b
        → leb max_creations_per_window (length opened) ≡ c
        → IsRate i opened (
            if not b && c
            then elim (first_by before opened) [
              | none ↦ none
              | some e ↦ some (e.created_at + creation_window_ms)
            ]
            else none)
    tested true c e f = inl e
    tested false false e f = inr (leb→gt max_creations_per_window (length opened) f)
    tested false true e f = found (first_by before opened) refl (first_by-IsFirst opened) e f

open-All :
    (i : AdmissionInput) (events : List CreationRow)
    → All (λ e. i.created_at < e.created_at + creation_window_ms) (open_creations i events)
open-All i [] = tt
open-All i (e ∷ events) =
    elim (Bool-cases (same_creator i e && ltb i.created_at (e.created_at + creation_window_ms))) [
      | inl h ↦ rw h (ltb→lt _ _ (&&-true _ _ h).1, open-All i events)
      | inr h ↦ rw h (open-All i events)
    ]

insert_job-IsDecided :
    (i : AdmissionInput) (d : Directory)
    → length d.jobs < i.global_ceiling
    → count (same_creator_job i) d.jobs ≡ 0
    → IsRate i (open_creations i d.events) none
    → IsDecided i d (insert_job i (forget_events i.created_at d))
unfolding insert_job new_job
insert_job-IsDecided i d e f h = elim (Bool-cases (is_taken i (forget_events i.created_at d))) [
  | inl g ↦ rw g refl
  | inr g ↦ rw g (e, f, h, refl)
]

rate_limit-IsRate :
    (i : AdmissionInput) (d : Directory)
    → IsRate i (open_creations i d.events) (rate_limit i (forget_events i.created_at d).events)
rate_limit-IsRate i d =
    rw (recent-open i d) (open_creations-IsRate i (open_creations i d.events) (open-All i d.events))

-- The answer is decided by the limits, and a job that is refused changes nothing about the jobs.
pub admit-IsDecided : (i : AdmissionInput) (d : Directory) → IsDecided i d (admit i d)
unfolding admit admit_within
admit-IsDecided i d = elim (Bool-cases (leb i.global_ceiling (length d.jobs))) [
  | inl e ↦ rw e (leb→le i.global_ceiling (length d.jobs) e, refl)
  | inr e ↦ elim (Bool-cases (ltb 0 (count (same_creator_job i) d.jobs))) [
    | inl f ↦ rw (e, f) (ltb→lt 0 (count (same_creator_job i) d.jobs) f, refl)
    | inr f ↦
        rw (e, f)
          (decided (rate_limit i (forget_events i.created_at d).events) (rate_limit-IsRate i d) e f)
  ]
]
  where
    decided :
        (o : Option ℕ)
        → IsRate i (open_creations i d.events) o
        → leb i.global_ceiling (length d.jobs) ≡ false
        → ltb 0 (count (same_creator_job i) d.jobs) ≡ false
        → IsDecided i d (elim o [
          | none ↦ insert_job i (forget_events i.created_at d)
          | some t ↦ (forget_events i.created_at d, AdmissionResult.creation_rate_limit t)
        ])
    decided none h e f =
        insert_job-IsDecided i d (leb→gt i.global_ceiling (length d.jobs) e)
          (omega (arith, ltb→ge 0 (count (same_creator_job i) d.jobs) f)) h
    decided (some t) h e f = (h, refl)
