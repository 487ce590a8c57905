-- ===== src/Swarm/Assignments/Retries.antt =====
-- `reconcile` of worker/swarm-directory.ts is idempotent.
use hive_sat.Prelude.{
  ℕ, ◌≡◌, refl, ◌∙◌, ◌==◌, ◌&&◌, Bool, true, false, List, [], ◌∷◌, Option, none, some, some_inj,
  find?, ltb, eq_self, if◌then◌else◌, Bool-cases, inl, inr,
}
use hive_sat.Prelude.Rows.{update}
use hive_sat.Swarm.State.{AssignmentRow, AssignmentStatus, Directory}
use hive_sat.Swarm.Directory.{is_live}
use hive_sat.Swarm.Assignments.{complete, reconcile_row, reconcile}

find?-update {ℓ} :
    {A : Type ℓ} (p q : A → Bool) (f : A → A)
    → ((x : A) → p (f x) ≡ p x)
    → (xs : List A) (a : A) → find? p xs ≡ some a
    → find? p (update q f xs) ≡ some (if q a then f a else a)
find?-update p q f same [] a h = cc
find?-update p q f same (x ∷ xs) a h = elim (Bool-cases (p x)) [
  | inr e ↦ elim (Bool-cases (q x)) [
    | inl g ↦ rw (g, same x, e) (find?-update p q f same xs a (rw e at h))
    | inr g ↦ rw (g, e) (find?-update p q f same xs a (rw e at h))
  ]
  | inl e ↦ elim (Bool-cases (q x)) [
    | inl g ↦ rw (← some_inj x a (rw e at h), g, same x, e)
    | inr g ↦ rw (← some_inj x a (rw e at h), g, e)
  ]
]

completed : ℕ → AssignmentRow → AssignmentRow
completed actual b = record b { status = AssignmentStatus.complete; actual_worker_ms = some actual }

-- The row of an assignment that is complete.
find?-complete :
    (session id actual : ℕ) (a : AssignmentRow) (d : Directory)
    → find? (λ b. b.assignment_id == id && b.session_id == session) d.assignments ≡ some a
    → find?
        (λ b. b.assignment_id == id && b.session_id == session)
        (complete a actual d).assignments
      ≡ some (completed actual a)
unfolding complete completed
find?-complete session id actual a d h =
    find?-update (λ b. b.assignment_id == id && b.session_id == session)
      (λ b. b.assignment_id == a.assignment_id) (completed actual) (λ b. refl) d.assignments a h
    ∙ rw (eq_self a.assignment_id)

-- A report that was taken is taken again, and nothing changes.
pub reconcile-twice :
    (session id actual : ℕ) (d : Directory)
    → (reconcile session id actual d).1 ≡ true
    → reconcile session id actual (reconcile session id actual d).0
      ≡ ((reconcile session id actual d).0, true)
unfolding reconcile reconcile_row completed
reconcile-twice session id actual d h =
    after (find? (λ b. b.assignment_id == id && b.session_id == session) d.assignments) refl h
  where
    after :
        (o : Option AssignmentRow)
        → find? (λ b. b.assignment_id == id && b.session_id == session) d.assignments ≡ o
        → (reconcile_row actual d o).1 ≡ true
        → reconcile session id actual (reconcile_row actual d o).0
          ≡ ((reconcile_row actual d o).0, true)
    after none e h = absurd (cc h)
    after (some a) e h = elim (Bool-cases (ltb a.reserved_worker_ms actual)) [
      | inl f ↦ absurd (cc (rw f at h))
      | inr f ↦ elim (Bool-cases (is_live a.status)) [
        | inl g ↦ rw (f, g, find?-complete session id actual a d e) (kept f)
        | inr g ↦ rw (f, g, e, f, g)
      ]
    ]
      where
        kept :
            ltb a.reserved_worker_ms actual ≡ false
            → reconcile_row actual (complete a actual d) (some (completed actual a))
              ≡ (complete a actual d, true)
        kept f = rw f
