-- ===== src/Queue/Exclusive.antt =====
-- Two claims in a row do not hand out the same task
-- (backend/python-daemon/orchestrator/queue_repo.py).
use mathlib.Core.Option
use agent_backend.Prelude.{Option, String, ◌≡◌, ◌≢◌, some, none, ok, ◌∙◌, sym, ap}
use agent_backend.Sql.Rows.{Among, find-Among}
use agent_backend.Store.{QueueDb}
use agent_backend.Store.Schema.{Time, Task}
use agent_backend.Queue.Tasks.{Claim, claim, lease_task, find_task}
use agent_backend.Queue.Claiming.{UniqueTasks, claim-Claimed, IsReady}

abbrev owner : Option Task → Option (Option String)
owner = Option.map (λ t. t.lease_owner)

-- A claimed task is taken out of the ready ones, whatever project asks.
claimed-not-ready :
    (p w : String) (e n : Time) (q q' : QueueDb) (c : Claim)
    → UniqueTasks q
    → claim p w e n q ≡ ok (some c, q')
    → (p' : String) (t : Task) → Among t q'.tasks
    → IsReady q' p' t
    → t.task_id ≢ c.task_id
unfolding find_task lease_task
claimed-not-ready p w e n q q' c u h p' t m r same =
    let d = claim-Claimed p w e n q q' c u h in
    let named : c.task_id ≡ d.task.task_id = ap (λ (x : Claim). x.task_id) d.returned in
    let found = find-Among (λ (x : Task). x.task_id) q'.tasks d.unique m in
    let free = r.unleased in
    let held : owner (find_task d.task.task_id q') ≡ some (some w) = ap owner d.leased in
    let open_row : owner (find_task t.task_id q') ≡ some none = ap owner found ∙ ap some free in
    let names : t.task_id ≡ d.task.task_id = same ∙ named in
    cc (ap (λ k. owner (find_task k q')) names, held, open_row)

-- Two claims in a row, by whatever workers and for whatever projects, hand out different tasks.
pub claim-exclusive :
    (p p' w w' : String) (e e' n n' : Time) (q q' q'' : QueueDb) (c c' : Claim)
    → UniqueTasks q
    → claim p w e n q ≡ ok (some c, q')
    → claim p' w' e' n' q' ≡ ok (some c', q'')
    → c'.task_id ≢ c.task_id
claim-exclusive p p' w w' e e' n n' q q' q'' c c' u h h' same =
    let d = claim-Claimed p w e n q q' c u h in
    let d' = claim-Claimed p' w' e' n' q' q'' c' d.unique h' in
    let named : c'.task_id ≡ d'.task.task_id =
      unfold lease_task in ap (λ (x : Claim). x.task_id) d'.returned in
    claimed-not-ready p w e n q q' c u h p' d'.task d'.among d'.ready (sym named ∙ same)
