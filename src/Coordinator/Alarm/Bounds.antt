-- ===== src/Coordinator/Alarm/Bounds.antt =====
-- The alarm of worker/job-coordinator.ts rings in time for every deadline.
use hive_sat.Prelude.{
  ℕ, ◌≡◌, ◌≤◌, refl, Bool, true, List, [], ◌∷◌, Option, none, some, map, filter, All, All-map,
  Bool-cases, inl, inr, arith, min,
}
use hive_sat.Prelude.Rows.{least}
use hive_sat.Coordinator.State.{JobRow, Db, Session}
use hive_sat.Coordinator.Tables.{is_active, is_permit_active}
use hive_sat.Coordinator.Alarm.{or_else, alarm_of, schedule_next_alarm}

-- No time of a column is before the least, or before the default.
abbrev NoLater : Option ℕ → List ℕ → Type 0
NoLater none ts = ts ≡ []
NoLater (some t) ts = All (λ u. t ≤ u) ts

least-NoLater : (ts : List ℕ) → NoLater (least ts) ts
least-NoLater [] = refl
least-NoLater (t ∷ ts) = after (least ts) (least-NoLater ts)
  where
    after :
        (o : Option ℕ)
        → NoLater o ts
        → NoLater (elim o [ none ↦ some t | some u ↦ some (min t u) ]) (t ∷ ts)
    after none k = (omega arith, rw k tt)
    after (some u) k = (omega arith, All-map (λ v q. omega arith) ts k)

-- The column of the rows that pass a test.
All-column {ℓ} :
    {A : Type ℓ} (p : A → Bool) (f : A → ℕ) (t : ℕ) (xs : List A)
    → All (λ u. t ≤ u) (map f (filter p xs))
    → All (λ x. p x ≡ true → t ≤ f x) xs
All-column p f t [] h = tt
All-column p f t (x ∷ xs) h = elim (Bool-cases (p x)) [
  | inl e ↦ ((λ _. (rw e at h).0), All-column p f t xs (rw e at h).1)
  | inr e ↦ ((λ k. absurd (cc (e, k))), All-column p f t xs (rw e at h))
]

or_else-bound :
    (o : Option ℕ) (ts : List ℕ) (t default : ℕ)
    → NoLater o ts
    → t ≤ or_else o default
    → All (λ u. t ≤ u) ts
or_else-bound none ts t default h k = rw h tt
or_else-bound (some u) ts t default h k = All-map (λ v q. omega arith) ts h

-- A time no later than the least of a column is no later than any row of it.
column-bound {ℓ} :
    {A : Type ℓ} (p : A → Bool) (f : A → ℕ) (t default : ℕ) (xs : List A)
    → t ≤ or_else (least (map f (filter p xs))) default
    → All (λ x. p x ≡ true → t ≤ f x) xs
column-bound p f t default xs h = All-column p f t xs (
    or_else-bound (least (map f (filter p xs))) (map f (filter p xs)) t default
      (least-NoLater (map f (filter p xs))) h)

-- What the time of the alarm is good for.
abbrev pub IsInTime : ℕ → Db → Option ℕ → Type 0
IsInTime now db none = db.job ≡ none
IsInTime now db (some t) =
    (job : JobRow) × (db.job ≡ some job)
    × (t ≤ job.expires_at)
    × All (λ l. is_active l.status ≡ true → t ≤ l.expires_at) db.leases
    × All (λ p. is_permit_active p.status ≡ true → t ≤ p.expires_at) db.permits

-- The alarm of a job is set no later than the job, any of its active leases or any of its active
-- permits ends; no alarm is set only if the job is gone.
pub schedule_next_alarm-IsInTime :
    (now : ℕ) (sessions : List Session) (db : Db)
    → IsInTime now db (schedule_next_alarm now sessions db)
unfolding schedule_next_alarm
schedule_next_alarm-IsInTime now sessions db = set db.job refl
  where
    set :
        (o : Option JobRow)
        → db.job ≡ o
        → IsInTime now db (elim o [ none ↦ none | some job ↦ some (alarm_of now sessions db job) ])
    set none e = e
    set (some job) e = (
      job,
      e,
      omega arith,
      column-bound (λ l. is_active l.status) (λ l. l.expires_at) (alarm_of now sessions db job)
          job.expires_at db.leases (omega arith),
      column-bound (λ p. is_permit_active p.status) (λ p. p.expires_at)
          (alarm_of now sessions db job) job.expires_at db.permits (omega arith),
    )
