-- ===== src/Queue/Soundness.antt =====
-- What holds of queue.db between two transactions
-- (backend/python-daemon/orchestrator/queue_repo.py).
use agent_backend.Prelude.{
  String, ◌≡◌, refl, inl, inr, Bool, Option, none, List, [], ◌∷◌, arith, Bool-cases, Option-cases,
  ap, sym, ok, subst,
}
use agent_backend.Sql.{update}
use agent_backend.Sql.Inversion.{>>=-eq-ok}
use agent_backend.Store.{QueueDb}
use agent_backend.Store.Schema.{Time, Task, Details, pruned_by, refused}
use agent_backend.Queue.Tasks.{
  Claim, create, new_task, claim, find_task, record_task_event, lease_task,
}
use agent_backend.Queue.Moves.{
  update_task, release, release_all, expired_ids, release_lease, set_state, complete_row,
  constrain_row, score_row,
}
use agent_backend.Queue.Prune.{prune, prune_all, prune_one, reject_row, prune_row}
use agent_backend.Queue.Claiming.{
  candidates, after_claim, claim-some, claim-none, leased_row, lease-keeps-id,
}
use agent_backend.Queue.Commits.{
  create-ok, record_task_event-ok, write_state-wrote, write_completed-wrote,
}
use agent_backend.Queue.Claiming.{UniqueTasks}
use agent_backend.Queue.Steps.{
  Step, Reach, creates, claims, releases, transitions, completes, prunes, constrains, scores,
  elsewhere, here, next,
}
use agent_backend.Sql.{find}
use agent_backend.Sql.Rows.{Among, IsUnique-update, IsUnique-append, Among-update, Among-append}
use agent_backend.Prelude.{is_none}
use agent_backend.Queue.Outcomes.{has_task-find, log_event}

-- A lease has an owner exactly when it has an end, so that a lease that nobody gives back ends.
abbrev pub IsPaired : Task → Type 0
IsPaired t = is_none t.lease_owner ≡ is_none t.lease_expires_at

pub record IsSound (q : QueueDb) : Type 0 where
  pub unique : UniqueTasks q
  pub paired : (t : Task) → Among t q.tasks → IsPaired t

abbrev Preserved : QueueDb → QueueDb → Type 0
Preserved q q' = IsSound q → IsSound q'

tasks-Preserved : (q q' : QueueDb) → q'.tasks ≡ q.tasks → Preserved q q'
tasks-Preserved q q' e h = record { unique = rw e h.unique; paired = λ t m. h.paired t (rw e at m) }

update-Preserved :
    (p : Task → Bool) (f : Task → Task) (q : QueueDb)
    → ((t : Task) → (f t).task_id ≡ t.task_id)
    → ((t : Task) → IsPaired t → IsPaired (f t))
    → Preserved q (record q { tasks = update p f q.tasks })
update-Preserved p f q keeps pairs h = record {
  unique = IsUnique-update (λ t. t.task_id) p f keeps q.tasks h.unique;
  paired = λ t m.
      let (s, old, e) = Among-update p f q.tasks m in
      subst IsPaired e (elim (Bool-cases (p s)) [
        | inl c ↦ rw c (pairs s (h.paired s old))
        | inr c ↦ rw c (h.paired s old)
      ]);
}

creates-Preserved :
    (t : Task) (q : QueueDb) {q' : QueueDb} → IsPaired t → create t q ≡ ok (tt, q') → Preserved q q'
creates-Preserved t q pair h s =
    let (absent, _, wrote) = create-ok t q h in
    let fresh : find (λ (x : Task). x.task_id) t.task_id q.tasks ≡ none =
      unfold find_task in ground (arith, has_task-find q t.task_id) in
    record {
      unique = rw wrote (IsUnique-append (λ (x : Task). x.task_id) q.tasks t s.unique fresh);
      paired = λ u m. elim (Among-append q.tasks (t ∷ []) u (rw wrote at m)) [
        | inl old ↦ s.paired u old
        | inr new ↦ elim new [ inl e ↦ rw (← e) pair | inr none_left ↦ absurd none_left ]
      ];
    }

logged-Preserved :
    (k : String) (d : Details) (at : Time) (q q' : QueueDb)
    → Preserved q q'
    → Preserved q (log_event k d at q')
logged-Preserved k d at q q' f h = tasks-Preserved q' _ refl (f h)

update_task-Preserved :
    (k : String) (f : Task → Task) (q : QueueDb)
    → ((t : Task) → (f t).task_id ≡ t.task_id)
    → ((t : Task) → IsPaired t → IsPaired (f t))
    → Preserved q (update_task k f q)
unfolding update_task
update_task-Preserved k f q keeps pairs = update-Preserved _ f q keeps pairs

claims-Preserved :
    (p w : String) (e n : Time) (q : QueueDb) {r : Option Claim} {q' : QueueDb}
    → claim p w e n q ≡ ok (r, q')
    → Preserved q q'
unfolding lease_task
claims-Preserved p w e n q {r} {q'} h = elim (Option-cases (candidates p w e n q)) [
  | inl c ↦ tasks-Preserved q q' (cc (claim-none p w e n q c))
  | inr (t, c) ↦
      let same : after_claim p w e n q t ≡ q' = cc (claim-some p w e n q t c) in
      subst (Preserved q) same
        (update-Preserved _ (leased_row p w e n) q (lease-keeps-id w e n) (λ u _. refl))
]

release_all-Preserved :
    (clock : String → Time) (ids : List String) (q : QueueDb)
    → Preserved q (release_all clock ids q)
unfolding release_all
release_all-Preserved clock [] q h = h
release_all-Preserved clock (k ∷ ks) q h =
    release_all-Preserved clock ks (update_task k (release_lease (clock k)) q)
      (update_task-Preserved k (release_lease (clock k)) q (λ t. refl) (λ t _. refl) h)

prune_all-Preserved :
    (root why : String) (now : Time) (clock : String → Time) (ks : List String) (q : QueueDb)
    {r : Unit {0} × QueueDb}
    → prune_all root why now clock ks q ≡ ok r
    → Preserved q r.1
unfolding prune_all
prune_all-Preserved root why now clock [] q h s = subst IsSound (cc) s
prune_all-Preserved root why now clock (k ∷ ks) q h s =
    let q1 = prune_one root why now k q in
    let (_, q2, e, h1) = >>=-eq-ok (record_task_event k (pruned_by root why) (clock k)) _ q1 h in
    let logged = ap (λ (d : QueueDb). d.tasks) (record_task_event-ok k _ (clock k) q1 e) in
    prune_all-Preserved root why now clock ks q2 h1 (
      tasks-Preserved q1 q2 logged
        (update-Preserved _ (prune_row root why now) q (λ t. refl) (λ t _. refl) s))

prunes-Preserved :
    (root why : String) (below : List String) (now : Time) (clock : String → Time) (q : QueueDb)
    {r : Unit {0} × QueueDb}
    → prune root why below now clock q ≡ ok r
    → Preserved q r.1
unfolding prune
prunes-Preserved root why below now clock q h s =
    let q1 = update_task root (reject_row why now) q in
    let (_, q2, e, h1) = >>=-eq-ok (record_task_event root (refused why) (clock root)) _ q1 h in
    let logged = ap (λ (d : QueueDb). d.tasks) (record_task_event-ok root _ (clock root) q1 e) in
    prune_all-Preserved root why now clock below q2 h1 (
      tasks-Preserved q1 q2 logged
        (update_task-Preserved root (reject_row why now) q (λ t. refl) (λ t _. refl) s))

-- Every step keeps the keys of the tasks different and their leases whole.
pub Step-Preserved : (alone : Bool) (q q' : QueueDb) → Step alone q q' → Preserved q q'
unfolding new_task set_state complete_row constrain_row score_row release
Step-Preserved alone q q' (creates _ _ _ _ _ _ _ _ t new h) = creates-Preserved t q (rw new) h
Step-Preserved alone q q' (claims p w e n r h) = claims-Preserved p w e n q h
Step-Preserved alone q q' (releases now clock ids h) =
    subst (Preserved q) (cc) (release_all-Preserved clock (expired_ids now q) q)
Step-Preserved alone q q' (transitions k s s' why now at e read h) =
    subst (Preserved q) (sym (write_state-wrote k s s' why now at q h)) (
      logged-Preserved k _ at q _
        (update_task-Preserved k (set_state s' now) q (λ t. refl) (λ t p. p)))
Step-Preserved alone q q' (completes k s now at e h) =
    subst (Preserved q) (sym (write_completed-wrote k s now at q h)) (
      logged-Preserved k _ at q _
        (update_task-Preserved k (complete_row now) q (λ t. refl) (λ t _. refl)))
Step-Preserved alone q q' (prunes root why below now clock h) =
    prunes-Preserved root why below now clock q h
Step-Preserved alone q q' (constrains k cs n now read e) =
    subst (Preserved q) (sym e)
      (update_task-Preserved k (constrain_row cs n now) q (λ t. refl) (λ t _. refl))
Step-Preserved alone q q' (scores k a b c now e) =
    subst (Preserved q) (sym e)
      (update_task-Preserved k (score_row a b c now) q (λ t. refl) (λ t p. p))
Step-Preserved alone q q' (elsewhere same edges) = tasks-Preserved q q' same

-- Every history from a sound queue ends in a sound one, with the statements of the methods
-- interleaved in any way.
pub history-IsSound : (alone : Bool) (q q' : QueueDb) → IsSound q → Reach alone q q' → IsSound q'
history-IsSound alone q q' h here = h
history-IsSound alone q q' h (next {q' = m} r s) =
    Step-Preserved alone m q' s (history-IsSound alone q m h r)
