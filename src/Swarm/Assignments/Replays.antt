-- ===== src/Swarm/Assignments/Replays.antt =====
-- The assignment operations of worker/swarm-directory.ts leave the Turnstile tokens alone.
use hive_sat.Prelude.{
  arith, ℕ, ◌≡◌, refl, ◌∙◌, ◌||◌, not, ltb, leb, filter, ◌==◌, List, [], ◌∷◌, Option, none, some,
  Bool-cases, inl, inr,
}
use hive_sat.Prelude.Rows.{count}
use hive_sat.Protocol.Capabilities.{WorkerCapabilities}
use hive_sat.Swarm.State.{AssignmentRow, Directory, PreviousSwarmAssignment, SwarmAssignmentResult}
use hive_sat.Swarm.FairScheduler.{Selected}
use hive_sat.Swarm.Directory.{is_active, is_pending, schedule_next_alarm}
use hive_sat.Swarm.Assignments.{
  expire_one, expire_each, is_overdue, expire_assignments, complete, reconcile_row, reconcile,
  reconcile_previous, reserve, serve, assign_within, commit, assign, activate_row, activate_within,
  activate,
}

expire_each-replays :
    (rest : List AssignmentRow) (d : Directory) → (expire_each rest d).replays ≡ d.replays
unfolding expire_each expire_one
expire_each-replays [] d = refl
expire_each-replays (a ∷ rest) d = expire_each-replays rest (expire_one a d)

pub expire_assignments-replays :
    (now : ℕ) (d : Directory) → (expire_assignments now d).replays ≡ d.replays
unfolding expire_assignments
expire_assignments-replays now d = expire_each-replays (filter (is_overdue now) d.assignments) d

reconcile_row-replays :
    (actual : ℕ) (d : Directory) (o : Option AssignmentRow)
    → (reconcile_row actual d o).0.replays ≡ d.replays
unfolding reconcile_row complete
reconcile_row-replays actual d none = refl
reconcile_row-replays actual d (some a) = ground arith

reconcile_previous-replays :
    (session : ℕ) (p : Option PreviousSwarmAssignment) (d : Directory)
    → (reconcile_previous session p d).0.replays ≡ d.replays
unfolding reconcile_previous reconcile
reconcile_previous-replays session none d = refl
reconcile_previous-replays session (some p) d = reconcile_row-replays p.active_worker_ms d _

serve-replays :
    (id session : ℕ) (capabilities : WorkerCapabilities) (now : ℕ) (d : Directory)
    (o : Option Selected)
    → (serve id session capabilities now d o).0.replays ≡ d.replays
unfolding serve reserve
serve-replays id session capabilities now d none = refl
serve-replays id session capabilities now d (some s) =
    elim (Bool-cases (ltb 0 (count (λ a. a.assignment_id == id) d.assignments))) [
      | inl e ↦ rw e
      | inr e ↦ rw e
    ]

assign_within-replays :
    (id session : ℕ) (capabilities : WorkerCapabilities) (previous : Option PreviousSwarmAssignment)
    (now : ℕ) (d : Directory)
    → (assign_within id session capabilities previous now d).0.replays ≡ d.replays
unfolding assign_within
assign_within-replays id session capabilities previous now d =
    let r = reconcile_previous session previous (expire_assignments now d) in
    let same =
      reconcile_previous-replays session previous (expire_assignments now d)
      ∙ expire_assignments-replays now d in
    elim (Bool-cases r.1) [
      | inl e ↦ rw e (serve-replays id session capabilities now r.0 _ ∙ same)
      | inr e ↦ rw e same
    ]

commit-replays :
    (d : Directory) (r : Directory × SwarmAssignmentResult)
    → r.0.replays ≡ d.replays
    → (commit d r).0.replays ≡ d.replays
unfolding commit schedule_next_alarm
commit-replays d (d', SwarmAssignmentResult.failed) h = refl
commit-replays d (d', SwarmAssignmentResult.no_work) h = h
commit-replays d (d', SwarmAssignmentResult.invalid_assignment) h = h
commit-replays d (d', SwarmAssignmentResult.assigned a) h = h

pub assign-replays :
    (id session : ℕ) (capabilities : WorkerCapabilities) (previous : Option PreviousSwarmAssignment)
    (now : ℕ) (d : Directory)
    → (assign id session capabilities previous now d).0.replays ≡ d.replays
unfolding assign
assign-replays id session capabilities previous now d =
    commit-replays d (assign_within id session capabilities previous now d)
      (assign_within-replays id session capabilities previous now d)

activate_row-replays :
    (now : ℕ) (d : Directory) (o : Option AssignmentRow)
    → (activate_row now d o).0.replays ≡ d.replays
unfolding activate_row
activate_row-replays now d none = refl
activate_row-replays now d (some a) = elim (Bool-cases (is_active a.status)) [
  | inl e ↦ rw e
  | inr e ↦ elim (Bool-cases (not (is_pending a.status) || leb a.expires_at now)) [
    | inl f ↦ rw (e, f)
    | inr f ↦ rw (e, f)
  ]
]

pub activate-replays :
    (id session job now : ℕ) (d : Directory) → (activate id session job now d).0.replays ≡ d.replays
unfolding activate activate_within
activate-replays id session job now d =
    activate_row-replays now (expire_assignments now d) _ ∙ expire_assignments-replays now d
