-- ===== src/Swarm/Machine/Turnstile.antt =====
-- The Turnstile tokens of worker/swarm-directory.ts: each serves once.
use hive_sat.Prelude.{
  ℕ, ◌≡◌, ◌<◌, ◌==◌, ◌&&◌, not, Bool, true, false, List, [], ◌∷◌, any, filter, ltb, leb, Bool-cases,
  inl, inr, arith,
}
use hive_sat.Prelude.Rows.{count}
use hive_sat.Swarm.State.{ReplayRow, Directory}
use hive_sat.Swarm.Directory.{consume_turnstile, close, set_eligible, mark_ready, rollback}
use hive_sat.Swarm.Directory.Admission.{admit-replays}
use hive_sat.Swarm.Assignments.{alarm}
use hive_sat.Swarm.Assignments.Replays.{
  assign-replays, activate-replays, expire_assignments-replays,
}
use hive_sat.Swarm.Machine.{Step, Steps}

-- The row of the token, kept until a time at least.
abbrev holds_until : ℕ → ℕ → ReplayRow → Bool
holds_until token until r = (r.token_digest == token) && leb until r.expires_at

abbrev Spent : ℕ → ℕ → List ReplayRow → Type 0
Spent token until rows = any (holds_until token until) rows ≡ true

-- What has not expired is kept.
Spent-filter :
    (token until now : ℕ) (rows : List ReplayRow)
    → now < until
    → Spent token until rows
    → Spent token until (filter (λ r. not (leb r.expires_at now)) rows)
Spent-filter token until now [] lt h = h
Spent-filter token until now (r ∷ rows) lt h = elim (Bool-cases (leb r.expires_at now)) [
  | inl e ↦ rw e (Spent-filter token until now rows lt (ground arith))
  | inr e ↦ rw e (ground (arith, Spent-filter token until now rows lt))
]

Spent-count :
    (token until : ℕ) (rows : List ReplayRow)
    → Spent token until rows
    → ltb 0 (count (λ r. r.token_digest == token) rows) ≡ true
Spent-count token until [] h = cc
Spent-count token until (r ∷ rows) h = ground (arith, Spent-count token until rows)

Spent-consumed :
    (token until other expires_at now : ℕ) (d : Directory)
    → now < until
    → Spent token until d.replays
    → Spent token until (consume_turnstile other expires_at now d).0.replays
unfolding consume_turnstile
Spent-consumed token until other expires_at now d lt h =
    let kept = filter (λ r. not (leb r.expires_at now)) d.replays in
    let k = Spent-filter token until now d.replays lt h in
    elim (Bool-cases (ltb 0 (count (λ r. r.token_digest == other) kept))) [
      | inl e ↦ rw e k
      | inr e ↦ rw e (ground (arith, k))
    ]

Spent-alarm :
    (token until now : ℕ) (d : Directory)
    → now < until
    → Spent token until d.replays
    → Spent token until (alarm now d).replays
unfolding alarm
Spent-alarm token until now d lt h =
    Spent-filter token until now _ lt (rw (expire_assignments-replays now d) h)

Spent-step :
    (token until : ℕ) {d : Directory} {now : ℕ} {d' : Directory}
    → now < until
    → Step d now d'
    → Spent token until d.replays
    → Spent token until d'.replays
unfolding close set_eligible mark_ready rollback
Spent-step token until {d} lt (Step.consumed other e now) h =
    Spent-consumed token until other e now d lt h
Spent-step token until {d} lt (Step.asked i fresh) h = rw (admit-replays i d) h
Spent-step token until lt (Step.closed id now) h = h
Spent-step token until lt (Step.ready id now) h = h
Spent-step token until lt (Step.marked id e now) h = h
Spent-step token until lt (Step.rolled_back id now) h = h
Spent-step token until {d} lt (Step.served id session worker p now) h =
    rw (assign-replays id session worker p now d) h
Spent-step token until {d} lt (Step.activated id session job now) h =
    rw (activate-replays id session job now d) h
Spent-step token until {d} lt (Step.rung now) h = Spent-alarm token until now d lt h

Spent-Steps :
    (token until : ℕ) {d d' : Directory}
    → Steps until d d'
    → Spent token until d.replays
    → Spent token until d'.replays
Spent-Steps token until Steps.stay h = h
Spent-Steps token until (Steps.then s lt step) h =
    Spent-step token until lt step (Spent-Steps token until s h)

consumed-Spent :
    (token until now : ℕ) (d : Directory)
    → (consume_turnstile token until now d).1 ≡ true
    → Spent token until (consume_turnstile token until now d).0.replays
unfolding consume_turnstile
consumed-Spent token until now d h =
    let kept = filter (λ r. not (leb r.expires_at now)) d.replays in
    elim (Bool-cases (ltb 0 (count (λ r. r.token_digest == token) kept))) [
      | inl e ↦ absurd (cc (rw e at h))
      | inr e ↦ rw e (ground arith)
    ]

refused :
    (token until expires_at now : ℕ) (d : Directory)
    → now < until
    → Spent token until d.replays
    → (consume_turnstile token expires_at now d).1 ≡ false
unfolding consume_turnstile
refused token until expires_at now d lt h =
    rw (Spent-count token until _ (Spent-filter token until now d.replays lt h))

-- A token that was accepted, to be kept until a time, is refused whenever it comes again before that
-- time, whatever the directory does in between.
pub consume_turnstile-once :
    (token until now expires_at later : ℕ) (d d' : Directory)
    → (consume_turnstile token until now d).1 ≡ true
    → Steps until (consume_turnstile token until now d).0 d'
    → later < until
    → (consume_turnstile token expires_at later d').1 ≡ false
consume_turnstile-once token until now expires_at later d d' h s lt =
    refused token until expires_at later d' lt
      (Spent-Steps token until s (consumed-Spent token until now d h))
