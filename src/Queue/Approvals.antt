-- ===== src/Queue/Approvals.antt =====
-- Approvals of tasks: the methods of `QueueRepository` on the table approvals, and the gate that
-- checks the hash (backend/python-daemon/orchestrator/queue_repo.py, hitl.py and approval.py).
use agent_backend.Prelude.{
  String, Bool, true, false, not, ◌&&◌, none, some, List, [], ◌∷◌, ◌++◌, ◌==◌, any, if◌then◌else◌,
  integrity_error, ok, err,
}
use agent_backend.Sql.{update, Txn}
use agent_backend.Store.{QueueDb, Method, return, ◌>>=◌, ◌>>◌, on_queue}
use agent_backend.Store.Schema.{
  Time, planning, pending_approval, Decision, pending, approved, denied, Approval,
}
use agent_backend.Queue.Tasks.{has_task, state_eq}
use agent_backend.Queue.Repo.{get_task, transition_task_state, reject_and_prune}

-- DiffApprovalEnvelope
pub record Envelope : Type 0 where
  pub base_snapshot_sha256 : String
  pub proposed_snapshot_sha256 : String
  pub diff_sha256 : String
  pub diff_hmac_sha256 : String

-- SHA-256 and HMAC-SHA-256 as hexadecimal texts (hashlib, hmac).
pub record Digests (Bytes : Type 0) : Type 0 where
  pub sha256_hex : Bytes → String
  pub hmac_hex : Bytes → Bytes → String

module _ {Bytes : Type 0} (digests : Digests Bytes) where
  unfoldable pub build_approval_envelope : Bytes → Bytes → Bytes → Bytes → Envelope
  build_approval_envelope secret base_bytes proposed_bytes diff_bytes = record {
    base_snapshot_sha256 = digests.sha256_hex base_bytes;
    proposed_snapshot_sha256 = digests.sha256_hex proposed_bytes;
    diff_sha256 = digests.sha256_hex diff_bytes;
    diff_hmac_sha256 = digests.hmac_hex secret diff_bytes;
  }

  unfoldable pub verify_approval : Bytes → Bytes → String → Bool
  verify_approval secret diff_bytes supplied = digests.hmac_hex secret diff_bytes == supplied

abbrev is_pending : Decision → Bool
is_pending pending = true
is_pending _ = false

abbrev pub decide_row : Decision → String → Time → Approval → Approval
decide_row decision decided_by now a = record a {
  decision = decision;
  decided_by = some decided_by;
  decided_at = some now;
}

-- UPDATE approvals … WHERE task_id = ? AND decision = 'PENDING'
unfoldable pub decide : String → Decision → String → Time → QueueDb → QueueDb
unfolding update
decide task_id decision decided_by now q = record q {
  approvals =
      update (λ a. a.task_id == task_id && is_pending a.decision)
        (decide_row decision decided_by now) q.approvals;
}

-- INSERT INTO approvals, with its primary and its foreign key.
unfoldable pub insert_approval : Approval → Txn QueueDb (Unit {0})
unfolding any has_task
insert_approval a q =
    if not (any (λ x. x.approval_id == a.approval_id) q.approvals) && has_task q a.task_id
    then ok (tt, record q { approvals = q.approvals ++ a ∷ [] })
    else err integrity_error

-- The approval is committed before the task moves.
unfoldable pub create_approval : String → String → Envelope → Time → Time → Time → Method (Unit {0})
unfolding insert_approval get_task transition_task_state
create_approval approval_id task_id envelope created now at = do
  task ← get_task task_id
  on_queue (
      insert_approval (record {
        approval_id = approval_id;
        task_id = task_id;
        diff_sha256 = envelope.diff_sha256;
        diff_hmac_sha256 = envelope.diff_hmac_sha256;
        base_snapshot_sha256 = envelope.base_snapshot_sha256;
        proposed_snapshot_sha256 = envelope.proposed_snapshot_sha256;
        decision = pending;
        decided_by = none;
        decided_at = none;
        created_at = created;
      }))
  transition_task_state task_id task.state pending_approval "approval_created" now at

unfoldable pub approve_task : String → String → Time → Time → Time → Method (Unit {0})
unfolding decide transition_task_state
approve_task task_id decided_by decided now at = do
  on_queue (λ q. ok (tt, decide task_id approved decided_by decided q))
  transition_task_state task_id pending_approval planning "approval_approved" now at

unfoldable pub reject_approval :
    String → String → String → Time → Time → (String → Time) → Method (List String)
unfolding decide reject_and_prune
reject_approval task_id decided_by reason decided now clock = do
  on_queue (λ q. ok (tt, decide task_id denied decided_by decided q))
  reject_and_prune task_id reason now clock

-- `ApprovalGate.wait_for_approval`: whether it waits at all.
unfoldable pub must_wait : String → Method Bool
unfolding get_task
must_wait task_id = do task ← get_task task_id; return (state_eq task.state pending_approval)

-- `ApprovalGate.authorize`. The event that wakes the waiters is not modelled.
unfoldable pub authorize :
    {Bytes : Type 0} (digests : Digests Bytes) (secret : Bytes) (task_id hash : String)
    (diff_bytes : Bytes) (decided now at : Time)
    → Method Bool
unfolding verify_approval approve_task
authorize digests secret task_id hash diff_bytes decided now at =
    let approve = (do approve_task task_id "stdin-or-socket" decided now at; return true) in
    if verify_approval digests secret diff_bytes hash then approve else return false
