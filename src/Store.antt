-- ===== src/Store.antt =====
-- The two databases that the repositories share, and methods that run a transaction on each in
-- turn: what one transaction has committed stays when a later one raises.
pub mod Schema
use agent_backend.Prelude.{Result, ok, err, List, Error, Bool, true, false}
use agent_backend.Sql.{Txn}
use Schema.{Task, Edge, Event, Approval, FileRow, Run, Chunk, Lease, Process, DeadLetter}

pub record QueueDb : Type 0 where
  pub tasks : List Task
  pub task_edges : List Edge
  pub task_events : List Event
  pub approvals : List Approval
  pub files : List FileRow
  pub ingestion_runs : List Run
  pub chunks : List Chunk

pub record ControlDb : Type 0 where
  pub leases : List Lease
  pub process_registry : List Process
  pub dead_letters : List DeadLetter

pub record Store : Type 0 where
  pub queue : QueueDb
  pub control : ControlDb

-- A method: its result or its exception, and the databases after it.
abbrev pub Method : Type 0 → Type 0
Method A = Store → Result A × Store

abbrev pub return : {A : Type 0} → A → Method A
return a s = (ok a, s)

abbrev pub raise : {A : Type 0} → Error → Method A
raise e s = (err e, s)

-- Raise unless the test holds.
abbrev pub ensure : Bool → Error → Method (Unit {0})
ensure true e s = (ok tt, s)
ensure false e s = (err e, s)

abbrev pub continue : {A B : Type 0} → Result A → (A → Method B) → Method B
continue (ok a) f s = f a s
continue (err e) f s = (err e, s)

infixl 10 ◌>>=◌ ◌>>◌
abbrev pub ◌>>=◌ : {A B : Type 0} → Method A → (A → Method B) → Method B
◌>>=◌ m f s = let (r, s') = m s in continue r f s'

abbrev pub ◌>>◌ : {B : Type 0} → Method (Unit {0}) → Method B → Method B
m >> k = m >>= λ _. k

-- A transaction on queue.db.
abbrev pub on_queue : {A : Type 0} → Txn QueueDb A → Method A
on_queue m s = elim (m s.queue) [ ok (a, q) ↦ (ok a, record s { queue = q }) | err e ↦ (err e, s) ]

-- A transaction on control.db; its statements have no constraint that can fail.
abbrev pub on_control : (ControlDb → ControlDb) → Method (Unit {0})
on_control f s = (ok tt, record s { control = f s.control })
