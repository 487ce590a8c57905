-- ===== src/Swarm/Assignments/Deadlines.antt =====
-- The alarm of worker/swarm-directory.ts: what has ended is gone, and the next alarm is later.
use hive_sat.Prelude.{
  ℕ, ◌≡◌, ◌≤◌, ◌<◌, ◌+◌, refl, ◌==◌, not, min, true, false, List, [], ◌∷◌, ◌++◌, map, Option, none,
  some, All, All-map, filter, any, leb, Bool-cases, inl, inr, arith, leb→gt, eq_self,
}
use hive_sat.Prelude.Rows.{least, update}
use hive_sat.Swarm.State.{AssignmentRow, AssignmentStatus, Directory, creation_window_ms}
use hive_sat.Swarm.Directory.{is_live, deadlines, schedule_next_alarm}
use hive_sat.Swarm.Assignments.{expire_one, expire_each, is_overdue, expire_assignments, alarm}

-- The rows that are overdue are among those that the loop has still to reach.
abbrev Covered : ℕ → List AssignmentRow → AssignmentRow → Type 0
Covered now rest a =
    is_overdue now a ≡ true → any (λ b. b.assignment_id == a.assignment_id) rest ≡ true

Covered-update :
    (now : ℕ) (a : AssignmentRow) (rest rows : List AssignmentRow)
    → All (Covered now (a ∷ rest)) rows
    → All (Covered now rest) (
        update
          (λ b. b.assignment_id == a.assignment_id)
          (λ b. record b { status = AssignmentStatus.expired })
          rows)
Covered-update now a rest [] h = tt
Covered-update now a rest (b ∷ rows) h = elim (Bool-cases (b.assignment_id == a.assignment_id)) [
  | inl e ↦ rw e (λ k. absurd (cc k), Covered-update now a rest rows h.1)
  | inr e ↦ rw e (λ k. ground (arith, h.0 k, e), Covered-update now a rest rows h.1)
]

expire_each-Covered :
    (now : ℕ) (rest : List AssignmentRow) (d : Directory)
    → All (Covered now rest) d.assignments
    → All (λ a. is_overdue now a ≡ false) (expire_each rest d).assignments
unfolding expire_each expire_one
expire_each-Covered now [] d h = All-map (λ a k. ground (arith, k)) d.assignments h
expire_each-Covered now (a ∷ rest) d h =
    expire_each-Covered now rest (expire_one a d) (Covered-update now a rest d.assignments h)

Covered-cons :
    (now : ℕ) (a : AssignmentRow) (rows : List AssignmentRow) (b : AssignmentRow)
    → Covered now (filter (is_overdue now) rows) b
    → Covered now (filter (is_overdue now) (a ∷ rows)) b
Covered-cons now a rows b h k = elim (Bool-cases (is_overdue now a)) [
  | inl e ↦ rw e (ground (arith, h k))
  | inr e ↦ rw e (h k)
]

All-Covered :
    (now : ℕ) (rows : List AssignmentRow) → All (Covered now (filter (is_overdue now) rows)) rows
All-Covered now [] = tt
All-Covered now (a ∷ rows) = (
  λ k. rw (k, eq_self a.assignment_id),
  All-map (Covered-cons now a rows) rows (All-Covered now rows),
)

-- After the loop no assignment is overdue.
pub expire_assignments-done :
    (now : ℕ) (d : Directory)
    → All (λ a. is_overdue now a ≡ false) (expire_assignments now d).assignments
unfolding expire_assignments
expire_assignments-done now d =
    expire_each-Covered now (filter (is_overdue now) d.assignments) d
      (All-Covered now d.assignments)

All-append {ℓ κ} :
    {A : Type ℓ} (P : A → Type κ) (xs ys : List A) → All P xs → All P ys → All P (xs ++ ys)
All-append P [] ys h k = k
All-append P (x ∷ xs) ys h k = (h.0, All-append P xs ys h.1 k)

-- What is kept ends later.
kept_later {ℓ} :
    {A : Type ℓ} (end : A → ℕ) (now : ℕ) (xs : List A)
    → All (λ t. now < t) (map end (filter (λ x. not (leb (end x) now)) xs))
kept_later end now [] = tt
kept_later end now (x ∷ xs) = elim (Bool-cases (leb (end x) now)) [
  | inl e ↦ rw e (kept_later end now xs)
  | inr e ↦ rw e (leb→gt (end x) now e, kept_later end now xs)
]

live_later :
    (now : ℕ) (rows : List AssignmentRow)
    → All (λ a. is_overdue now a ≡ false) rows
    → All (λ t. now < t) (map (λ a. a.expires_at) (filter (λ a. is_live a.status) rows))
live_later now [] h = tt
live_later now (a ∷ rows) h = elim (Bool-cases (is_live a.status)) [
  | inl e ↦ rw e (ground (arith, h.0), live_later now rows h.1)
  | inr e ↦ rw e (live_later now rows h.1)
]

-- An alarm that is set is at the first of some times; none is set if there is no time.
abbrev pub IsAlarm : ℕ → List ℕ → Option ℕ → Type 0
IsAlarm now ts none = ts ≡ []
IsAlarm now ts (some t) = (now < t) × All (λ u. t ≤ u) ts

least-IsAlarm : (now : ℕ) (ts : List ℕ) → All (λ t. now < t) ts → IsAlarm now ts (least ts)
least-IsAlarm now [] h = refl
least-IsAlarm now (t ∷ ts) h = after (least ts) (least-IsAlarm now ts h.1)
  where
    after :
        (o : Option ℕ)
        → IsAlarm now ts o
        → IsAlarm now (t ∷ ts) (elim o [ none ↦ some t | some u ↦ some (min t u) ])
    after none k = (h.0, (omega arith, rw k tt))
    after (some u) k = (omega (arith, h.0, k.0), (omega arith, All-map (λ v q. omega arith) ts k.1))

-- When the alarm has rung, every row of a job, token or creation, and every live assignment, ends
-- later than now; the next alarm is at the first of these ends, and there is none only if nothing is
-- left to end.
pub alarm-IsAlarm :
    (now : ℕ) (d : Directory)
    → All (λ t. now < t) (deadlines (alarm now d))
      × IsAlarm now (deadlines (alarm now d)) (alarm now d).alarm
unfolding alarm schedule_next_alarm
alarm-IsAlarm now d =
    let e = expire_assignments now d in
    let later =
      All-append (λ t. now < t) _ _
        (All-append (λ t. now < t) _ _
          (All-append (λ t. now < t) _ _ (kept_later (λ j. j.expires_at) now e.jobs)
            (live_later now e.assignments (expire_assignments-done now d)))
          (kept_later (λ r. r.expires_at) now e.replays))
        (kept_later (λ c. c.created_at + creation_window_ms) now e.events) in
    (later, least-IsAlarm now _ later)
