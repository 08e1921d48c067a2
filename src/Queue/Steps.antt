-- ===== src/Queue/Steps.antt =====
-- The steps of queue.db: every transaction that writes to its tasks, and any change of its other
-- tables (backend/python-daemon/orchestrator/queue_repo.py).
use agent_backend.Prelude.{
  Bool, true, ℕ, ◌+◌, String, ◌≡◌, refl, ◌≢◌, inl, inr, Option, some, List, [], ◌∷◌, arith, ◌==◌,
  eq_iff, Option-cases, ◌∙◌, ap, sym, ok, subst,
}
use agent_backend.Sql.{find-append}
use agent_backend.Sql.Inversion.{>>=-eq-ok}
use agent_backend.Store.{QueueDb}
use agent_backend.Store.Schema.{Time, Real, State, completed, Task, Details, pruned_by, refused}
use agent_backend.Queue.Tasks.{
  Claim, create, new_task, claim, allowed, state_eq, find_task, record_task_event,
}
use agent_backend.Queue.Moves.{
  update_task, release, release_all, expired_ids, release_lease, set_state, complete_row,
  write_state, write_completed, constrain_row, score_row,
}
use agent_backend.Queue.Prune.{prune, prune_all, prune_one, reject_row, prune_row}
use agent_backend.Queue.Claiming.{
  candidates, after_claim, claim-some, claim-none, leased_row, lease-keeps-id,
}
use agent_backend.Queue.Commits.{
  create-ok, record_task_event-ok, write_state-wrote, write_completed-wrote,
}
use agent_backend.Queue.Outcomes.{find_task-id, log_event}
use agent_backend.Queue.Evolution.{
  Evolves, Evolves-refl, Evolved, Evolved-refl, Evolved-trans, Evolved-tasks, Evolved-update,
  lease_task-Evolves, release_lease-Evolves, complete_row-Evolves, set_state-Evolves,
  score_row-Evolves, constrain_row-Evolves, reject_row-Evolves, prune_row-Evolves,
}

-- `alone` says that no other connection has written between the statements of the method; without
-- it, the row that a transition, a completion or a constraint has read may be an earlier one.
pub data Step (alone : Bool) (q q' : QueueDb) : Type 0 where
  creates :
      (task_id project_id title payload_json novelty_md5 : String) (depth : ℕ)
      (parent_task_id : Option String) (now : Time) (t : Task)
      → t ≡ new_task task_id project_id title payload_json novelty_md5 depth parent_task_id now
      → create t q ≡ ok (tt, q')
      → Step alone q q'
  claims :
      (project_id worker_id : String) (expires_at now : Time) (r : Option Claim)
      → claim project_id worker_id expires_at now q ≡ ok (r, q')
      → Step alone q q'
  releases :
      (now_iso : Time) (clock : String → Time) (ids : List String)
      → release now_iso clock q ≡ ok (ids, q')
      → Step alone q q'
  transitions :
      (k : String) (from_state to_state : State) (reason : String) (now at : Time)
      → allowed from_state to_state ≡ true
      → (alone ≡ true
          → (row : Task) × (find_task k q ≡ some row) × (state_eq row.state from_state ≡ true))
      → write_state k from_state to_state reason now at q ≡ ok (tt, q')
      → Step alone q q'
  completes :
      (k : String) (from_state : State) (now at : Time)
      → allowed from_state completed ≡ true
      → write_completed k from_state now at q ≡ ok (tt, q')
      → Step alone q q'
  prunes :
      (root reason : String) (below : List String) (now : Time) (clock : String → Time)
      → prune root reason below now clock q ≡ ok (tt, q')
      → Step alone q q'
  constrains :
      (k : String) (constraints : List String) (reroll_count : ℕ) (now : Time)
      → (alone ≡ true
          → (row : Task) × (find_task k q ≡ some row) × (reroll_count ≡ row.reroll_count + 1))
      → q' ≡ update_task k (constrain_row constraints reroll_count now) q
      → Step alone q q'
  scores :
      (k : String) (a b c : Real) (now : Time)
      → q' ≡ update_task k (score_row a b c now) q
      → Step alone q q'
  elsewhere : q'.tasks ≡ q.tasks → q'.task_edges ≡ q.task_edges → Step alone q q'

pub data Reach (alone : Bool) (q : QueueDb) : QueueDb → Type 0 where
  here : Reach alone q q
  next : {q' q'' : QueueDb} → Reach alone q q' → Step alone q' q'' → Reach alone q q''

-- A state that may move on is not that of a completed task.
still_open :
    (s s' : State) (row t : Task)
    → allowed s s' ≡ true
    → state_eq row.state s ≡ true
    → row ≡ t
    → t.state ≢ completed
unfolding allowed
still_open s s' row t e same at h = ground arith

module _ (alone : Bool) where
  release_all-Evolved :
      (clock : String → Time) (ids : List String) (q : QueueDb)
      → Evolved alone q (release_all clock ids q)
  unfolding release_all
  release_all-Evolved clock [] q = Evolved-refl alone q
  release_all-Evolved clock (k ∷ ks) q =
      let q' = update_task k (release_lease (clock k)) q in
      Evolved-trans alone q q' _
        (Evolved-update alone _ (release_lease (clock k)) (λ t. refl) q
          (λ j t _ _. release_lease-Evolves alone (clock k) t))
        (release_all-Evolved clock ks q')

  prune_one-Evolved :
      (root why : String) (now : Time) (k : String) (q : QueueDb)
      → Evolved alone q (prune_one root why now k q)
  unfolding prune_one
  prune_one-Evolved root why now k q =
      Evolved-update alone _ (prune_row root why now) (λ t. refl) q
        (λ j t _ _. prune_row-Evolves alone root why now t)

  prune_all-Evolved :
      (root why : String) (now : Time) (clock : String → Time) (ks : List String) (q : QueueDb)
      {r : Unit {0} × QueueDb}
      → prune_all root why now clock ks q ≡ ok r
      → Evolved alone q r.1
  unfolding prune_all
  prune_all-Evolved root why now clock [] q h = subst (Evolved alone q) (cc) (Evolved-refl alone q)
  prune_all-Evolved root why now clock (k ∷ ks) q h =
      let q1 = prune_one root why now k q in
      let (_, s, e, h1) = >>=-eq-ok (record_task_event k (pruned_by root why) (clock k)) _ q1 h in
      let logged = ap (λ (d : QueueDb). d.tasks) (record_task_event-ok k _ (clock k) q1 e) in
      Evolved-trans alone q q1 _ (prune_one-Evolved root why now k q) (
        Evolved-trans alone q1 s _ (Evolved-tasks alone q1 s logged)
          (prune_all-Evolved root why now clock ks s h1))

  module _ (q : QueueDb) where
    creates-Evolved : (t : Task) {q' : QueueDb} → create t q ≡ ok (tt, q') → Evolved alone q q'
    creates-Evolved t h k u found =
        let made = create-ok t q h in
        let grown = find-append (λ (x : Task). x.task_id) k q.tasks (t ∷ []) in
        (u, rw made.2 (unfold find_task in rw (grown, found)), Evolves-refl alone u)

    claims-Evolved :
        (p w : String) (e n : Time) {r : Option Claim} {q' : QueueDb}
        → claim p w e n q ≡ ok (r, q')
        → Evolved alone q q'
    claims-Evolved p w e n {r} {q'} h = elim (Option-cases (candidates p w e n q)) [
      | inl c ↦
          let same : q ≡ q' = cc (claim-none p w e n q c) in
          subst (Evolved alone q) same (Evolved-refl alone q)
      | inr (t, c) ↦
          let same : after_claim p w e n q t ≡ q' = cc (claim-some p w e n q t c) in
          subst (Evolved alone q) same (
            Evolved-update alone _ (leased_row p w e n) (lease-keeps-id w e n) q
              (λ j u _ _. lease_task-Evolves alone w e n u))
    ]

    update_task-Evolved :
        (k : String) (f : Task → Task) (keeps : (t : Task) → (f t).task_id ≡ t.task_id)
        → ((t : Task) → find_task k q ≡ some t → Evolves alone t (f t))
        → Evolved alone q (update_task k f q)
    unfolding update_task
    update_task-Evolved k f keeps ev =
        Evolved-update alone (λ r. r.task_id == k) f keeps q
          λ j t found hit.
            ev t (rw (sym ((eq_iff t.task_id k).0 hit) ∙ find_task-id j q found) found)

    logged-Evolved :
        (k : String) (d : Details) (at : Time) (q' : QueueDb)
        → Evolved alone q q'
        → Evolved alone q (log_event k d at q')
    logged-Evolved k d at q' ev = Evolved-trans alone q q' _ ev (Evolved-tasks alone q' _ refl)

    transitions-Evolved :
        (k : String) (s s' : State) (why : String) (now at : Time) {q' : QueueDb}
        → allowed s s' ≡ true
        → (alone ≡ true → (row : Task) × (find_task k q ≡ some row) × (state_eq row.state s ≡ true))
        → write_state k s s' why now at q ≡ ok (tt, q')
        → Evolved alone q q'
    unfolding set_state
    transitions-Evolved k s s' why now at e read h =
        subst (Evolved alone q) (sym (write_state-wrote k s s' why now at q h)) (
          logged-Evolved k _ at _ (
            update_task-Evolved k (set_state s' now) (λ _. refl)
              λ t there. set_state-Evolves alone s' now t λ a.
                let (row, found, same) = read a in
                still_open s s' row t e same (cc (found, there))))

    completes-Evolved :
        (k : String) (s : State) (now at : Time) {q' : QueueDb}
        → write_completed k s now at q ≡ ok (tt, q')
        → Evolved alone q q'
    unfolding complete_row
    completes-Evolved k s now at h =
        subst (Evolved alone q) (sym (write_completed-wrote k s now at q h)) (
          logged-Evolved k _ at _ (
            update_task-Evolved k (complete_row now) (λ _. refl)
              λ t _. complete_row-Evolves alone now t))

    constrains-Evolved :
        (k : String) (cs : List String) (n : ℕ) (now : Time)
        → (alone ≡ true → (row : Task) × (find_task k q ≡ some row) × (n ≡ row.reroll_count + 1))
        → Evolved alone q (update_task k (constrain_row cs n now) q)
    unfolding constrain_row
    constrains-Evolved k cs n now read =
        update_task-Evolved k (constrain_row cs n now) (λ _. refl)
          λ t there. constrain_row-Evolves alone cs n now t λ a.
            let (row, found, count) = read a in
            let same : row ≡ t = cc (found, there) in rw (count, same) (omega arith)

    releases-Evolved :
        (now_iso : Time) (clock : String → Time) {ids : List String} {q' : QueueDb}
        → release now_iso clock q ≡ ok (ids, q')
        → Evolved alone q q'
    unfolding release
    releases-Evolved now_iso clock h =
        subst (Evolved alone q) (cc) (release_all-Evolved clock (expired_ids now_iso q) q)

    prunes-Evolved :
        (root why : String) (below : List String) (now : Time) (clock : String → Time)
        {r : Unit {0} × QueueDb}
        → prune root why below now clock q ≡ ok r
        → Evolved alone q r.1
    unfolding prune
    prunes-Evolved root why below now clock h =
        let q1 = update_task root (reject_row why now) q in
        let (_, s, e, h1) = >>=-eq-ok (record_task_event root (refused why) (clock root)) _ q1 h in
        let logged =
          ap (λ (d : QueueDb). d.tasks) (record_task_event-ok root _ (clock root) q1 e) in
        Evolved-trans alone q q1 _
          (update_task-Evolved root (reject_row why now) (λ _. refl)
            λ t _. reject_row-Evolves alone why now t)
          (Evolved-trans alone q1 s _ (Evolved-tasks alone q1 s logged)
            (prune_all-Evolved root why now clock below s h1))

  -- A step keeps every task, and each moves on only as `Evolves` allows.
  Step-Evolved : (q q' : QueueDb) → Step alone q q' → Evolved alone q q'
  Step-Evolved q q' (creates _ _ _ _ _ _ _ _ t new h) = creates-Evolved q t h
  Step-Evolved q q' (claims p w e n r h) = claims-Evolved q p w e n h
  Step-Evolved q q' (releases now clock ids h) = releases-Evolved q now clock h
  Step-Evolved q q' (transitions k s s' why now at e read h) =
      transitions-Evolved q k s s' why now at e read h
  Step-Evolved q q' (completes k s now at e h) = completes-Evolved q k s now at h
  Step-Evolved q q' (prunes root why below now clock h) =
      prunes-Evolved q root why below now clock h
  Step-Evolved q q' (constrains k cs n now read e) =
      subst (Evolved alone q) (sym e) (constrains-Evolved q k cs n now read)
  Step-Evolved q q' (scores k a b c now e) = subst (Evolved alone q) (sym e) (
      update_task-Evolved q k (score_row a b c now) (unfold score_row in λ _. refl)
        (λ t _. score_row-Evolves alone a b c now t))
  Step-Evolved q q' (elsewhere same edges) = Evolved-tasks alone q q' same

-- Through any history of the queue, with the statements of its methods interleaved in any way, a
-- task that was there stays, with its project, its parent, its payload and its date of creation,
-- its revision never falls, and a rejected or pruned task never becomes active again. If besides no
-- other connection writes between what a method reads and what it then writes, the reroll count of
-- a task never falls either, and a completed task stays completed.
pub history-Evolved : (alone : Bool) (q q' : QueueDb) → Reach alone q q' → Evolved alone q q'
history-Evolved alone q q' here = Evolved-refl alone q
history-Evolved alone q q' (next {q' = m} r s) =
    Evolved-trans alone q m q' (history-Evolved alone q m r) (Step-Evolved alone m q' s)
