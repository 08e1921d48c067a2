-- ===== src/Queue/Keeping.antt =====
-- What each method of the repository does to queue.db is a history of steps
-- (backend/python-daemon/orchestrator/queue_repo.py).
use agent_backend.Prelude.{
  ℕ, String, ◌≡◌, refl, Option, none, some, [], ◌∷◌, ap, sym, subst, ok, inl, inr, Option-cases,
  arith, length, true, ◌++◌, ◌+◌, invalid_transition, state_mismatch,
}
use agent_backend.Json.{Fields, Codec, obj}
use agent_backend.Store.{QueueDb, Store, ensure, ◌>>=◌, return, ◌>>◌, on_queue, on_control}
use agent_backend.Store.Schema.{
  Time, Real, State, completed, Decision, Task, Approval, pending, approved, denied, planning,
  pending_approval,
}
use agent_backend.Queue.Moves.{
  fetch_task, update_task, score_row, release, write_state, write_completed,
}
use agent_backend.Queue.Tasks.{allowed, state_eq, find_task, Claim, claim, create, new_task}
use agent_backend.Queue.Prune.{prune, descendants}
use agent_backend.Queue.Outcomes.{fetch-none, fetch-some, write_state-ok}
use agent_backend.Queue.Approvals.{
  Envelope, create_approval, approve_task, reject_approval, decide, insert_approval,
}
use agent_backend.Queue.Repo.{
  drop_leases, md5_novelty_hex, novelty_of, create_task, get_task, record_lease, claim_ready_task,
  release_expired_leases, transition_task_state, set_task_state, complete_task, reject_and_prune,
  update_scores, add_negative_constraint, dead_letter,
}
use agent_backend.Queue.Steps.{
  Step, creates, claims, releases, transitions, completes, prunes, constrains, scores, elsewhere,
  here, next,
}
use agent_backend.Queue.Methods.{
  Keeps, Keeps-return, Keeps-on_control, Keeps-bind, Keeps-on_queue, KeepsFrom, KeepsFrom-ensure,
  KeepsFrom-fetch,
}

fetch_task-same : (k : String) (q q' : QueueDb) (t : Task) → fetch_task k q ≡ ok (t, q') → q ≡ q'
fetch_task-same k q q' t h = elim (Option-cases (find_task k q)) [
  | inl e ↦ absurd (cc (fetch-none k q e))
  | inr (u, e) ↦ cc (fetch-some k q e)
]

pub get_task-Keeps : (k : String) → Keeps (get_task k)
unfolding get_task
get_task-Keeps k = Keeps-on_queue (fetch_task k) λ q q' t h.
    let same = fetch_task-same k q q' t h in subst (Step true q) same (elsewhere refl refl)

pub create_task-Keeps :
    (codec : Codec) (k p title : String) (payload : Fields) (depth : ℕ) (parent : Option String)
    (now : Time)
    → Keeps (create_task codec k p title payload depth parent now)
unfolding create_task
create_task-Keeps codec k p title payload depth parent now =
    let text = codec.dumps (obj payload) in
    let novelty = md5_novelty_hex codec (novelty_of payload depth parent) in
    let t = new_task k p title text novelty depth parent now in
    Keeps-on_queue (create t) λ q q' _ h. creates k p title text novelty depth parent now t refl h

record_lease-Keeps : (w : String) (e n : Time) (c : Option Claim) → Keeps (record_lease w e n c)
unfolding record_lease
record_lease-Keeps w e n none s = here
record_lease-Keeps w e n (some c) s = here

pub claim_ready_task-Keeps : (p w : String) (e n : Time) → Keeps (claim_ready_task p w e n)
unfolding claim_ready_task
claim_ready_task-Keeps p w e n =
    Keeps-bind (on_queue (claim p w e n)) (λ r. record_lease w e n r >> return r)
      (Keeps-on_queue (claim p w e n) λ q q' r h. claims p w e n r h)
      λ r.
        Keeps-bind (record_lease w e n r) (λ _. return r) (record_lease-Keeps w e n r)
          λ _. Keeps-return r

pub release_expired_leases-Keeps :
    (now : Time) (clock : String → Time) → Keeps (release_expired_leases now clock)
unfolding release_expired_leases
release_expired_leases-Keeps now clock =
    Keeps-bind (on_queue (release now clock))
      (λ ids. on_control (drop_leases ids) >> return (length ids))
      (Keeps-on_queue (release now clock) λ q q' ids h. releases now clock ids h)
      λ ids. Keeps-on_control (drop_leases ids)

-- The write of a transition, right after its row was read.
written :
    (k : String) (s s' : State) (why : String) (now at : Time) (store : Store)
    → allowed s s' ≡ true
    → (row : Task) → find_task k store.queue ≡ some row
    → state_eq row.state s ≡ true
    → KeepsFrom store (on_queue (write_state k s s' why now at))
written k s s' why now at store e row found same =
    let wrote = write_state-ok k s s' why now at store.queue found in
    rw (on_queue, wrote)
      (next here (transitions k s s' why now at e (λ _. (row, found, same)) wrote))

pub transition_task_state-Keeps :
    (k : String) (s s' : State) (why : String) (now at : Time)
    → Keeps (transition_task_state k s s' why now at)
unfolding transition_task_state
transition_task_state-Keeps k s s' why now at store =
    let write = on_queue (write_state k s s' why now at) in
    let rest = λ (row : Task). ensure (state_eq row.state s) state_mismatch >> write in
    KeepsFrom-ensure (allowed s s') invalid_transition (on_queue (fetch_task k) >>= rest) store λ e.
      KeepsFrom-fetch k rest store λ row found.
        KeepsFrom-ensure (state_eq row.state s) state_mismatch write store
          λ same. written k s s' why now at store e row found same

pub set_task_state-Keeps :
    (k : String) (s : State) (now at : Time) → Keeps (set_task_state k s now at)
unfolding set_task_state
set_task_state-Keeps k s now at =
    Keeps-bind (get_task k) (λ t. transition_task_state k t.state s "set_task_state" now at)
      (get_task-Keeps k) λ t. transition_task_state-Keeps k t.state s "set_task_state" now at

pub complete_task-Keeps : (k : String) (now at : Time) → Keeps (complete_task k now at)
unfolding complete_task
complete_task-Keeps k now at store =
    let drop = on_control (drop_leases (k ∷ [])) in
    let write = λ (row : Task). on_queue (write_completed k row.state now at) >> drop in
    KeepsFrom-fetch k (λ row. ensure (allowed row.state completed) invalid_transition >> write row)
      store
      λ row found.
        KeepsFrom-ensure (allowed row.state completed) invalid_transition (write row) store λ e.
          Keeps-bind (on_queue (write_completed k row.state now at)) (λ _. drop)
            (Keeps-on_queue (write_completed k row.state now at)
              λ q q' _ h. completes k row.state now at e h)
            (λ _. Keeps-on_control (drop_leases (k ∷ []))) store

pub reject_and_prune-Keeps :
    (k why : String) (now : Time) (clock : String → Time) → Keeps (reject_and_prune k why now clock)
unfolding reject_and_prune
reject_and_prune-Keeps k why now clock =
    Keeps-bind (λ s. (descendants k s.queue, s))
      (λ below.
        on_queue (prune k why below now clock)
        >> (on_control (drop_leases (k ∷ below)) >> return below))
      (λ s. here)
      λ below.
        Keeps-bind (on_queue (prune k why below now clock))
          (λ _. on_control (drop_leases (k ∷ below)) >> return below)
          (Keeps-on_queue (prune k why below now clock) λ q q' _ h. prunes k why below now clock h)
          λ _. Keeps-on_control (drop_leases (k ∷ below))

pub update_scores-Keeps :
    (k : String) (a b c : Real) (now : Time) → Keeps (update_scores k a b c now)
unfolding update_scores
update_scores-Keeps k a b c now =
    Keeps-on_queue (λ q. ok (tt, update_task k (score_row a b c now) q))
      λ q q' _ h.
        let wrote : update_task k (score_row a b c now) q ≡ q' = cc in
        scores k a b c now (sym wrote)

pub add_negative_constraint-Keeps :
    (k constraint : String) (now : Time) → Keeps (add_negative_constraint k constraint now)
unfolding add_negative_constraint get_task
add_negative_constraint-Keeps k constraint now store = KeepsFrom-fetch k _ store λ row found.
    next here (
      constrains k (row.negative_constraints ++ constraint ∷ []) (row.reroll_count + 1) now
        (λ _. (row, found, refl)) refl)

pub dead_letter-Keeps :
    (k why payload : String) (now : Time) → Keeps (dead_letter k why payload now)
unfolding dead_letter
dead_letter-Keeps k why payload now s = here

insert_approval-Step :
    (a : Approval) (q q' : QueueDb) → insert_approval a q ≡ ok (tt, q') → Step true q q'
unfolding insert_approval
insert_approval-Step a q q' h = elsewhere (ground arith) (ground arith)

decide-Keeps :
    (k : String) (d : Decision) (by : String) (now : Time)
    → Keeps (on_queue (λ q. ok (tt, decide k d by now q)))
unfolding decide
decide-Keeps k d by now =
    Keeps-on_queue (λ q. ok (tt, decide k d by now q))
      λ q q' _ h.
        let wrote : decide k d by now q ≡ q' = cc in
        elsewhere (ap (λ (x : QueueDb). x.tasks) (sym wrote))
          (ap (λ (x : QueueDb). x.task_edges) (sym wrote))

pub create_approval-Keeps :
    (a k : String) (envelope : Envelope) (created now at : Time)
    → Keeps (create_approval a k envelope created now at)
unfolding create_approval
create_approval-Keeps a k envelope created now at =
    let row : Approval = record {
      approval_id = a;
      task_id = k;
      diff_sha256 = envelope.diff_sha256;
      diff_hmac_sha256 = envelope.diff_hmac_sha256;
      base_snapshot_sha256 = envelope.base_snapshot_sha256;
      proposed_snapshot_sha256 = envelope.proposed_snapshot_sha256;
      decision = pending;
      decided_by = none;
      decided_at = none;
      created_at = created;
    } in
    let move =
      λ (t : Task). transition_task_state k t.state pending_approval "approval_created" now at in
    Keeps-bind (get_task k) (λ t. on_queue (insert_approval row) >> move t) (get_task-Keeps k)
      λ t.
        Keeps-bind (on_queue (insert_approval row)) (λ _. move t)
          (Keeps-on_queue (insert_approval row) λ q q' _ h. insert_approval-Step row q q' h)
          λ _. transition_task_state-Keeps k t.state pending_approval "approval_created" now at

pub approve_task-Keeps :
    (k by : String) (decided now at : Time) → Keeps (approve_task k by decided now at)
unfolding approve_task
approve_task-Keeps k by decided now at =
    Keeps-bind (on_queue (λ q. ok (tt, decide k approved by decided q)))
      (λ _. transition_task_state k pending_approval planning "approval_approved" now at)
      (decide-Keeps k approved by decided)
      λ _. transition_task_state-Keeps k pending_approval planning "approval_approved" now at

pub reject_approval-Keeps :
    (k by why : String) (decided now : Time) (clock : String → Time)
    → Keeps (reject_approval k by why decided now clock)
unfolding reject_approval
reject_approval-Keeps k by why decided now clock =
    Keeps-bind (on_queue (λ q. ok (tt, decide k denied by decided q)))
      (λ _. reject_and_prune k why now clock) (decide-Keeps k denied by decided)
      λ _. reject_and_prune-Keeps k why now clock
