-- ===== src/Queue/Calls.antt =====
-- Sequences of calls of the repository's methods that write, by any number of workers, one after
-- the other
-- (backend/python-daemon/orchestrator/queue_repo.py).
use agent_backend.Prelude.{
  ℕ, String, Option, List, [], ◌∷◌, ◌≡◌, refl, true, ok, inl, inr, arith, Bool-cases,
}
use agent_backend.Json.{Fields, Codec}
use agent_backend.Store.{Store, QueueDb, on_queue}
use agent_backend.Store.Schema.{Time, Real, State, RunState, FileRow, Chunk, ExitCode}
use agent_backend.Queue.Ingest.{
  start_ingestion_run, finish_ingestion_run, record_file_manifest, delete_file_manifest,
  chunk_known, record_chunks, delete_chunks_for_path, mark_rebuildable_runs_reconciled,
}
use agent_backend.Queue.Workers.{
  register_worker, heartbeat_worker, mark_stale_workers, mark_worker_exited,
}
use agent_backend.Queue.Approvals.{Envelope, create_approval, approve_task, reject_approval}
use agent_backend.Queue.Repo.{
  create_task, claim_ready_task, release_expired_leases, transition_task_state, set_task_state,
  complete_task, reject_and_prune, update_scores, add_negative_constraint, dead_letter,
}
use agent_backend.Queue.Steps.{Reach, here, next, elsewhere}
use agent_backend.Queue.Methods.{Reach-trans, Keeps, Keeps-on_queue}
use agent_backend.Queue.Keeping.{
  create_task-Keeps, claim_ready_task-Keeps, release_expired_leases-Keeps,
  transition_task_state-Keeps, set_task_state-Keeps, complete_task-Keeps, reject_and_prune-Keeps,
  update_scores-Keeps, add_negative_constraint-Keeps, dead_letter-Keeps, create_approval-Keeps,
  approve_task-Keeps, reject_approval-Keeps,
}
use agent_backend.Queue.Evolution.{Evolved}
use agent_backend.Queue.Steps.{history-Evolved}
use agent_backend.Queue.Soundness.{IsSound, history-IsSound}

-- A call, with its arguments and the readings of the clock.
pub data Call : Type 0 where
  creating :
      (codec : Codec) (task_id project_id title : String) (payload : Fields) (depth : ℕ)
      (parent_task_id : Option String) (now : Time)
      → Call
  claiming : (project_id worker_id : String) (lease_expires_at now : Time) → Call
  releasing : (now_iso : Time) (clock : String → Time) → Call
  moving : (task_id : String) (from_state to_state : State) (reason : String) (now at : Time) → Call
  setting : (task_id : String) (state : State) (now at : Time) → Call
  completing : (task_id : String) (now at : Time) → Call
  rejecting : (task_id reason : String) (now : Time) (clock : String → Time) → Call
  scoring : (task_id : String) (slr_score depth_penalty final_score : Real) (now : Time) → Call
  constraining : (task_id constraint : String) (now : Time) → Call
  burying : (task_id reason payload_json : String) (now : Time) → Call
  asking : (approval_id task_id : String) (envelope : Envelope) (created now at : Time) → Call
  approving : (task_id decided_by : String) (decided now at : Time) → Call
  denying : (task_id decided_by reason : String) (decided now : Time) (clock : String → Time) → Call
  running : (run_id project_id project_scope_hash target_path : String) (now : Time) → Call
  ending : (run_id : String) (state : RunState) (error : Option String) (now : Time) → Call
  noting_file : FileRow → Call
  forgetting_file : (project_scope_hash absolute_path : String) → Call
  noting_chunks : List Chunk → Call
  forgetting_chunks : (project_scope_hash absolute_path : String) → Call
  reconciling : (project_id : String) (now : Time) → Call
  registering : (worker_id command_json : String) (pid : ℕ) (now : Time) → Call
  beating : (worker_id : String) (pid : ℕ) (now now' : Time) → Call
  sweeping : (before : Time) → Call
  exiting : (pid : ℕ) (exit_code : ExitCode) (now : Time) → Call

-- The databases after a call, whether it returned or raised.
abbrev pub after : Call → Store → Store
after (creating codec k p title payload depth parent now) s =
    (create_task codec k p title payload depth parent now s).1
after (claiming p w e n) s = (claim_ready_task p w e n s).1
after (releasing now clock) s = (release_expired_leases now clock s).1
after (moving k from to why now at) s = (transition_task_state k from to why now at s).1
after (setting k state now at) s = (set_task_state k state now at s).1
after (completing k now at) s = (complete_task k now at s).1
after (rejecting k why now clock) s = (reject_and_prune k why now clock s).1
after (scoring k a b c now) s = (update_scores k a b c now s).1
after (constraining k constraint now) s = (add_negative_constraint k constraint now s).1
after (burying k why payload now) s = (dead_letter k why payload now s).1
after (asking a k envelope created now at) s = (create_approval a k envelope created now at s).1
after (approving k by decided now at) s = (approve_task k by decided now at s).1
after (denying k by why decided now clock) s = (reject_approval k by why decided now clock s).1
after (running r p scope path now) s = record s {
  queue = start_ingestion_run r p scope path now s.queue;
}
after (ending r state error now) s = record s {
  queue = finish_ingestion_run r state error now s.queue;
}
after (noting_file f) s = record s { queue = record_file_manifest f s.queue }
after (forgetting_file scope path) s = record s {
  queue = (delete_file_manifest scope path s.queue).1;
}
after (noting_chunks cs) s = (on_queue (record_chunks cs) s).1
after (forgetting_chunks scope path) s = record s {
  queue = (delete_chunks_for_path scope path s.queue).1;
}
after (reconciling p now) s = record s {
  queue = (mark_rebuildable_runs_reconciled p now s.queue).1;
}
after (registering w command pid now) s = record s {
  control = register_worker w command pid now s.control;
}
after (beating w pid now now') s = record s { control = heartbeat_worker w pid now now' s.control }
after (sweeping before) s = record s { control = (mark_stale_workers before s.control).1 }
after (exiting pid code now) s = record s { control = mark_worker_exited pid code now s.control }

abbrev pub after_all : List Call → Store → Store
after_all [] s = s
after_all (c ∷ cs) s = after_all cs (after c s)

-- Chunks touch neither tasks nor edges.
record_chunks-Step :
    (cs : List Chunk) (q q' : QueueDb)
    → record_chunks cs q ≡ ok (tt, q')
    → (q'.tasks ≡ q.tasks) × (q'.task_edges ≡ q.task_edges)
unfolding record_chunks
record_chunks-Step [] q q' h = (ground arith, ground arith)
record_chunks-Step (c ∷ cs) q q' h = elim (Bool-cases (chunk_known q c)) [
  | inr e ↦ absurd (cc (rw e at h))
  | inl e ↦ record_chunks-Step cs _ q' (rw e at h)
]

record_chunks-Keeps : (cs : List Chunk) → Keeps (on_queue (record_chunks cs))
record_chunks-Keeps cs =
    Keeps-on_queue (record_chunks cs)
      λ q q' _ h. let (tasks, edges) = record_chunks-Step cs q q' h in elsewhere tasks edges

-- A change of the other tables.
other_tables :
    (q q' : QueueDb) → q'.tasks ≡ q.tasks → q'.task_edges ≡ q.task_edges → Reach true q q'
other_tables q q' tasks edges = next here (elsewhere tasks edges)

after-Reach : (c : Call) (s : Store) → Reach true s.queue (after c s).queue
after-Reach (creating codec k p title payload depth parent now) s =
    create_task-Keeps codec k p title payload depth parent now s
after-Reach (claiming p w e n) s = claim_ready_task-Keeps p w e n s
after-Reach (releasing now clock) s = release_expired_leases-Keeps now clock s
after-Reach (moving k from to why now at) s = transition_task_state-Keeps k from to why now at s
after-Reach (setting k state now at) s = set_task_state-Keeps k state now at s
after-Reach (completing k now at) s = complete_task-Keeps k now at s
after-Reach (rejecting k why now clock) s = reject_and_prune-Keeps k why now clock s
after-Reach (scoring k a b c now) s = update_scores-Keeps k a b c now s
after-Reach (constraining k constraint now) s = add_negative_constraint-Keeps k constraint now s
after-Reach (burying k why payload now) s = dead_letter-Keeps k why payload now s
after-Reach (asking a k envelope created now at) s =
    create_approval-Keeps a k envelope created now at s
after-Reach (approving k by decided now at) s = approve_task-Keeps k by decided now at s
after-Reach (denying k by why decided now clock) s =
    reject_approval-Keeps k by why decided now clock s
after-Reach (running r p scope path now) s =
    other_tables s.queue (start_ingestion_run r p scope path now s.queue)
      (unfold start_ingestion_run in refl) (unfold start_ingestion_run in refl)
after-Reach (ending r state error now) s =
    other_tables s.queue (finish_ingestion_run r state error now s.queue)
      (unfold finish_ingestion_run in refl) (unfold finish_ingestion_run in refl)
after-Reach (noting_file f) s =
    other_tables s.queue (record_file_manifest f s.queue) (unfold record_file_manifest in refl)
      (unfold record_file_manifest in refl)
after-Reach (forgetting_file scope path) s =
    other_tables s.queue ((delete_file_manifest scope path s.queue).1)
      (unfold delete_file_manifest in refl) (unfold delete_file_manifest in refl)
after-Reach (noting_chunks cs) s = record_chunks-Keeps cs s
after-Reach (forgetting_chunks scope path) s =
    other_tables s.queue ((delete_chunks_for_path scope path s.queue).1)
      (unfold delete_chunks_for_path in refl) (unfold delete_chunks_for_path in refl)
after-Reach (reconciling p now) s =
    other_tables s.queue ((mark_rebuildable_runs_reconciled p now s.queue).1)
      (unfold mark_rebuildable_runs_reconciled in refl)
      (unfold mark_rebuildable_runs_reconciled in refl)
after-Reach (registering w command pid now) s = here
after-Reach (beating w pid now now') s = here
after-Reach (sweeping before) s = here
after-Reach (exiting pid code now) s = here

after_all-Reach : (cs : List Call) (s : Store) → Reach true s.queue (after_all cs s).queue
after_all-Reach [] s = here
after_all-Reach (c ∷ cs) s =
    Reach-trans s.queue (after c s).queue (after_all cs (after c s)).queue (after-Reach c s)
      (after_all-Reach cs (after c s))

-- After any sequence of calls of the methods of the repository that write, one call after the
-- other, also of calls that raise, a sound queue is sound again: task ids are unique, and each task
-- has both a lease owner and an expiry or neither. Every task is still there, with its project, its
-- parent, its payload and its date of creation, no revision and no reroll count has fallen, a
-- completed task is completed still, and a rejected or pruned one is not active again.
pub after_all-IsSound :
    (cs : List Call) (s : Store)
    → IsSound s.queue
    → IsSound (after_all cs s).queue × Evolved true s.queue (after_all cs s).queue
after_all-IsSound cs s h = (
  history-IsSound true s.queue (after_all cs s).queue h (after_all-Reach cs s),
  history-Evolved true s.queue (after_all cs s).queue (after_all-Reach cs s),
)
