-- ===== src/Queue/Repo.antt =====
-- `QueueRepository`: each method as the sequence of its transactions
-- (backend/python-daemon/orchestrator/queue_repo.py).
use agent_backend.Prelude.{
  ℕ, String, Option, none, some, List, [], ◌∷◌, ◌++◌, elem, length, ok, ◌+◌, invalid_transition,
  state_mismatch,
}
use agent_backend.Prelude.{sorted}
use agent_backend.Json
use agent_backend.Json.{Json, Items, Fields, Codec, null, num, str, arr, obj, nil, cons, end, field}
use agent_backend.Sql.{delete}
use agent_backend.Store.{ControlDb, Method, return, ensure, ◌>>=◌, ◌>>◌, on_queue, on_control}
use agent_backend.Store.Schema.{Time, Real, State, completed, Task}
use agent_backend.Queue.Tasks.{Claim, create, new_task, claim, allowed, state_eq}
use agent_backend.Queue.Moves.{
  release, write_state, write_completed, score_row, constrain_row, update_task, fetch_task,
}
use agent_backend.Queue.Prune.{prune, descendants}

-- DELETE FROM leases WHERE task_id = ?, for each of the ids
unfoldable pub drop_leases : List String → ControlDb → ControlDb
unfolding delete elem
drop_leases ids c = record c { leases = delete (λ l. elem l.task_id ids) c.leases }

unfoldable pub md5_novelty_hex : Codec → Json → String
md5_novelty_hex codec payload = codec.md5_hex (codec.compact payload)

abbrev text_or_null : Option String → Json
text_or_null none = null
text_or_null (some s) = str s

abbrev texts : List String → Items
texts [] = nil
texts (s ∷ ss) = cons (str s) (texts ss)

-- What the novelty of a task is the digest of.
unfoldable pub novelty_of : Fields → ℕ → Option String → Json
unfolding Json.get Json.keys sorted
novelty_of payload depth parent_task_id = obj (
    field "tool" (elim (Json.get "tool" payload) [ none ↦ null | some v ↦ v ])
      (field "arg_shape" (arr (texts (sorted (Json.keys payload))))
        (field "parent_task_id" (text_or_null parent_task_id) (field "depth" (num depth) end))))

unfoldable pub create_task :
    (codec : Codec) (task_id project_id title : String) (payload : Fields) (depth : ℕ)
    (parent_task_id : Option String) (now : Time)
    → Method (Unit {0})
unfolding new_task create md5_novelty_hex novelty_of
create_task codec task_id project_id title payload depth parent_task_id now =
    let novelty = md5_novelty_hex codec (novelty_of payload depth parent_task_id) in
    on_queue (
      create (
        new_task task_id project_id title (codec.dumps (obj payload)) novelty depth parent_task_id
          now))

unfoldable pub get_task : String → Method Task
unfolding fetch_task
get_task task_id = on_queue (fetch_task task_id)

-- The lease is written to control.db once the claim is committed.
unfoldable pub record_lease : String → Time → Time → Option Claim → Method (Unit {0})
record_lease worker_id expires_at now none = return tt
record_lease worker_id expires_at now (some c) = on_control (λ d. record d {
  leases =
      d.leases
      ++ record {
        task_id = c.task_id;
        worker_id = worker_id;
        acquired_at = now;
        expires_at = expires_at;
        heartbeat_at = now;
      }
        ∷ [];
})

unfoldable pub claim_ready_task : String → String → Time → Time → Method (Option Claim)
unfolding claim record_lease
claim_ready_task project_id worker_id lease_expires_at now = do
  result ← on_queue (claim project_id worker_id lease_expires_at now)
  record_lease worker_id lease_expires_at now result
  return result

unfoldable pub release_expired_leases : Time → (String → Time) → Method ℕ
unfolding release drop_leases
release_expired_leases now_iso clock = do
  task_ids ← on_queue (release now_iso clock)
  on_control (drop_leases task_ids)
  return (length task_ids)

-- The row is read outside of the transaction that writes, which does not test the state again.
unfoldable pub transition_task_state :
    String → State → State → String → Time → Time → Method (Unit {0})
unfolding allowed fetch_task write_state
transition_task_state task_id from_state to_state reason now at = do
  ensure (allowed from_state to_state) invalid_transition
  row ← on_queue (fetch_task task_id)
  ensure (state_eq row.state from_state) state_mismatch
  on_queue (write_state task_id from_state to_state reason now at)

unfoldable pub set_task_state : String → State → Time → Time → Method (Unit {0})
unfolding get_task transition_task_state
set_task_state task_id state now at = do
  task ← get_task task_id
  transition_task_state task_id task.state state "set_task_state" now at

unfoldable pub complete_task : String → Time → Time → Method (Unit {0})
unfolding allowed fetch_task write_completed drop_leases
complete_task task_id now at = do
  row ← on_queue (fetch_task task_id)
  ensure (allowed row.state completed) invalid_transition
  on_queue (write_completed task_id row.state now at)
  on_control (drop_leases (task_id ∷ []))

unfoldable pub reject_and_prune : String → String → Time → (String → Time) → Method (List String)
unfolding descendants prune drop_leases
reject_and_prune task_id reason now clock = do
  below ← (λ s. (descendants task_id s.queue, s))
  on_queue (prune task_id reason below now clock)
  on_control (drop_leases (task_id ∷ below))
  return below

unfoldable pub update_scores : String → Real → Real → Real → Time → Method (Unit {0})
unfolding update_task score_row
update_scores task_id slr_score depth_penalty final_score now =
    on_queue
      (λ q. ok (tt, update_task task_id (score_row slr_score depth_penalty final_score now) q))

-- The task is read on one connection, and the constraints and the count are written on another.
unfoldable pub add_negative_constraint : String → String → Time → Method ℕ
unfolding get_task constrain_row update_task
add_negative_constraint task_id constraint now = do
  task ← get_task task_id
  let constraints = task.negative_constraints ++ constraint ∷ []
  let reroll_count = task.reroll_count + 1
  on_queue (λ q. ok (tt, update_task task_id (constrain_row constraints reroll_count now) q))
  return reroll_count

unfoldable pub dead_letter : String → String → String → Time → Method (Unit {0})
dead_letter task_id reason payload_json now = on_control (λ d. record d {
  dead_letters =
      d.dead_letters
      ++ record {
        task_id = task_id;
        reason = reason;
        payload_json = payload_json;
        created_at = now;
      }
        ∷ [];
})
