-- ===== src/Swarm/Machine.antt =====
-- The directory of worker/swarm-directory.ts as a machine: its operations in any order, each at a
-- time. The random id of a job that is admitted names no live assignment.
pub mod Turnstile
use hive_sat.Prelude.{true, ℕ, Bool, Option, [], none, ◌<◌}
use hive_sat.Protocol.Capabilities.{WorkerCapabilities}
use hive_sat.Swarm.State.{Directory, AdmissionInput, PreviousSwarmAssignment}
use hive_sat.Swarm.Directory.{consume_turnstile, admit, close, set_eligible, mark_ready, rollback}
use hive_sat.Swarm.Directory.Balance.{
  IsNew, admit-IsConsistent, close-IsConsistent, rollback-IsConsistent, set_eligible-IsConsistent,
  consume_turnstile-IsConsistent,
}
use hive_sat.Swarm.Assignments.{assign, activate, alarm}
use hive_sat.Swarm.Assignments.Balance.{
  assign-IsConsistent, activate-IsConsistent, alarm-IsConsistent,
}
use hive_sat.Swarm.Ledger.{IsConsistent}

abbrev pub empty_directory : Directory
empty_directory = record { jobs = []; events = []; assignments = []; replays = []; alarm = none }

-- An operation at a time.
pub data Step (d : Directory) : ℕ → Directory → Type 0 where
  consumed : (token expires_at now : ℕ) → Step d now (consume_turnstile token expires_at now d).0
  asked : (i : AdmissionInput) → IsNew i.job_id d → Step d i.created_at (admit i d).0
  closed : (id now : ℕ) → Step d now (close id d)
  ready : (id now : ℕ) → Step d now (mark_ready id now d).0
  marked : (id : ℕ) (eligible : Bool) (now : ℕ) → Step d now (set_eligible id eligible now d).0
  rolled_back : (id now : ℕ) → Step d now (rollback id d)
  served :
      (id session : ℕ) (capabilities : WorkerCapabilities)
      (previous : Option PreviousSwarmAssignment) (now : ℕ)
      → Step d now (assign id session capabilities previous now d).0
  activated : (id session job now : ℕ) → Step d now (activate id session job now d).0
  rung : (now : ℕ) → Step d now (alarm now d)

-- Steps at times before a limit.
pub data Steps (limit : ℕ) : Directory → Directory → Type 0 where
  stay : {d : Directory} → Steps limit d d
  then :
      {d d' d'' : Directory} {now : ℕ}
      → Steps limit d d'
      → now < limit
      → Step d' now d''
      → Steps limit d d''

mark_ready-IsConsistent :
    (id now : ℕ) (d : Directory) → IsConsistent d → IsConsistent (mark_ready id now d).0
unfolding mark_ready
mark_ready-IsConsistent id now d c = set_eligible-IsConsistent id true now d c

pub Step-IsConsistent :
    {d : Directory} {now : ℕ} {d' : Directory} → Step d now d' → IsConsistent d → IsConsistent d'
Step-IsConsistent {d} (consumed token e now) c = consume_turnstile-IsConsistent token e now d c
Step-IsConsistent {d} (asked i h) c = admit-IsConsistent i d c h
Step-IsConsistent {d} (closed id now) c = close-IsConsistent id d c
Step-IsConsistent {d} (ready id now) c = mark_ready-IsConsistent id now d c
Step-IsConsistent {d} (marked id e now) c = set_eligible-IsConsistent id e now d c
Step-IsConsistent {d} (rolled_back id now) c = rollback-IsConsistent id d c
Step-IsConsistent {d} (served id session worker p now) c =
    assign-IsConsistent id session worker p now d c
Step-IsConsistent {d} (activated id session job now) c =
    activate-IsConsistent id session job now d c
Step-IsConsistent {d} (rung now) c = alarm-IsConsistent now d c

-- In every directory that the operations lead to from an empty one, ids and digests are unique, the
-- counters of each job are the sums over its live assignments, no job has more workers than the
-- maximum, and none has more time reserved than it is charged.
pub Steps-IsConsistent :
    {limit : ℕ} {d : Directory} → Steps limit empty_directory d → IsConsistent d
Steps-IsConsistent stay = record {
  assignment_ids = tt;
  job_ids = tt;
  devices = tt;
  networks = tt;
  balanced = tt;
}
Steps-IsConsistent (then s lt step) = Step-IsConsistent step (Steps-IsConsistent s)
