-- ===== src/Queue/Evolution.antt =====
-- How a task may change, whatever the repository does to it
-- (backend/python-daemon/orchestrator/queue_repo.py).
use agent_backend.Prelude.{
  ℕ, ◌≤◌, String, ◌≡◌, refl, ◌≢◌, ◌⊎◌, inl, inr, Bool, true, some, List, arith, Bool-cases, ◌∙◌,
}
use agent_backend.Sql.{update, find-update}
use agent_backend.Store.{QueueDb}
use agent_backend.Store.Schema.{Time, Real, State, completed, active, Task}
use agent_backend.Queue.Tasks.{allowed, find_task, lease_task}
use agent_backend.Queue.Moves.{release_lease, set_state, complete_row, score_row, constrain_row}
use agent_backend.Queue.Prune.{reject_row, prune_row}

-- The order in which a task's state may go.
abbrev pub Follows : State → State → Type 0
Follows s s' = (s ≡ s') ⊎ (allowed s s' ≡ true)

-- `alone` says that no other connection has written between the statements of a method.
pub record Evolves (alone : Bool) (t t' : Task) : Type 0 where
  pub task_id : t'.task_id ≡ t.task_id
  pub project_id : t'.project_id ≡ t.project_id
  pub parent_task_id : t'.parent_task_id ≡ t.parent_task_id
  pub payload_json : t'.payload_json ≡ t.payload_json
  pub created_at : t'.created_at ≡ t.created_at
  pub revision : t.revision ≤ t'.revision
  pub reroll_count : alone ≡ true → t.reroll_count ≤ t'.reroll_count
  pub completed_stays : alone ≡ true → t.state ≡ completed → t'.state ≡ completed
  pub pruned_stays : t.resolution ≢ active → t'.resolution ≢ active

pub Evolves-refl : (alone : Bool) (t : Task) → Evolves alone t t
Evolves-refl alone t = record {
  task_id = refl;
  project_id = refl;
  parent_task_id = refl;
  payload_json = refl;
  created_at = refl;
  revision = omega arith;
  reroll_count = λ a. omega arith;
  completed_stays = λ a h. h;
  pruned_stays = λ h. h;
}

pub Evolves-trans :
    {alone : Bool} {t t' t'' : Task}
    → Evolves alone t t'
    → Evolves alone t' t''
    → Evolves alone t t''
Evolves-trans a b = record {
  task_id = b.task_id ∙ a.task_id;
  project_id = b.project_id ∙ a.project_id;
  parent_task_id = b.parent_task_id ∙ a.parent_task_id;
  payload_json = b.payload_json ∙ a.payload_json;
  created_at = b.created_at ∙ a.created_at;
  revision = omega (arith, a.revision, b.revision);
  reroll_count = λ h. omega (arith, a.reroll_count h, b.reroll_count h);
  completed_stays = λ h e. b.completed_stays h (a.completed_stays h e);
  pruned_stays = λ h. b.pruned_stays (a.pruned_stays h);
}

-- The rows that the statements write.
pub lease_task-Evolves :
    (alone : Bool) (w : String) (e n : Time) (t : Task) → Evolves alone t (lease_task w e n t)
unfolding lease_task
lease_task-Evolves alone w e n t = ground arith

pub release_lease-Evolves :
    (alone : Bool) (n : Time) (t : Task) → Evolves alone t (release_lease n t)
unfolding release_lease
release_lease-Evolves alone n t = ground arith

pub complete_row-Evolves : (alone : Bool) (n : Time) (t : Task) → Evolves alone t (complete_row n t)
unfolding complete_row
complete_row-Evolves alone n t = ground arith

pub set_state-Evolves :
    (alone : Bool) (s : State) (n : Time) (t : Task)
    → (alone ≡ true → t.state ≢ completed)
    → Evolves alone t (set_state s n t)
unfolding set_state
set_state-Evolves alone s n t h = ground arith

pub score_row-Evolves :
    (alone : Bool) (a b c : Real) (n : Time) (t : Task) → Evolves alone t (score_row a b c n t)
unfolding score_row
score_row-Evolves alone a b c n t = ground arith

pub constrain_row-Evolves :
    (alone : Bool) (cs : List String) (r : ℕ) (n : Time) (t : Task)
    → (alone ≡ true → t.reroll_count ≤ r)
    → Evolves alone t (constrain_row cs r n t)
unfolding constrain_row
constrain_row-Evolves alone cs r n t h = ground arith

pub reject_row-Evolves :
    (alone : Bool) (why : String) (n : Time) (t : Task) → Evolves alone t (reject_row why n t)
unfolding reject_row
reject_row-Evolves alone why n t = ground arith

pub prune_row-Evolves :
    (alone : Bool) (root why : String) (n : Time) (t : Task)
    → Evolves alone t (prune_row root why n t)
unfolding prune_row
prune_row-Evolves alone root why n t = ground arith

-- Every task of the first database is still in the second, further on.
abbrev pub Evolved : Bool → QueueDb → QueueDb → Type 0
Evolved alone q q' =
    (k : String) (t : Task)
    → find_task k q ≡ some t
    → (t' : Task) × (find_task k q' ≡ some t') × Evolves alone t t'

pub Evolved-refl : (alone : Bool) (q : QueueDb) → Evolved alone q q
Evolved-refl alone q k t h = (t, h, Evolves-refl alone t)

pub Evolved-trans :
    (alone : Bool) (q q' q'' : QueueDb)
    → Evolved alone q q'
    → Evolved alone q' q''
    → Evolved alone q q''
Evolved-trans alone q q' q'' f g k t h =
    let (t', h', e) = f k t h in let (t'', h'', e') = g k t' h' in (t'', h'', Evolves-trans e e')

-- Only the table tasks counts.
pub Evolved-tasks : (alone : Bool) (q q' : QueueDb) → q'.tasks ≡ q.tasks → Evolved alone q q'
unfolding find_task
Evolved-tasks alone q q' e k t h = (t, rw e h, Evolves-refl alone t)

pub Evolved-update :
    (alone : Bool) (p : Task → Bool) (f : Task → Task)
    (keeps : (t : Task) → (f t).task_id ≡ t.task_id) (q : QueueDb)
    → ((k : String) (t : Task) → find_task k q ≡ some t → p t ≡ true → Evolves alone t (f t))
    → Evolved alone q (record q { tasks = update p f q.tasks })
Evolved-update alone p f keeps q ev k t h =
    let now = find-update (λ (r : Task). r.task_id) p f keeps k q.tasks in
    elim (Bool-cases (p t)) [
      | inl e ↦ (f t, unfold find_task in rw (now, h, e), ev k t h e)
      | inr e ↦ (t, unfold find_task in rw (now, h, e), Evolves-refl alone t)
    ]
