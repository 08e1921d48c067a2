-- ===== src/Queue/Fates.antt =====
-- What the loop of `reject_and_prune` does to the rows
-- (backend/python-daemon/orchestrator/queue_repo.py).
use mathlib.Core.Option
use agent_backend.Prelude.{
  String, ◌≡◌, refl, ap, sym, ◌∙◌, inl, inr, Bool, true, false, not, ◌&&◌, none, some, List, [],
  ◌∷◌, arith, ◌==◌, eq_iff, elem, any, if◌then◌else◌, is_none, Bool-cases, Option-cases, ==-self,
  ok,
}
use agent_backend.Sql.{find-update, ◌>>=◌}
use agent_backend.Store.{QueueDb}
use agent_backend.Store.Schema.{Time, Task, Details, pruned_by}
use agent_backend.Queue.Tasks.{is_active, find_task, has_task, record_task_event}
use agent_backend.Queue.Moves.{update_task}
use agent_backend.Queue.Prune.{reject_row, prune_row, prune_one, prune_all}
use agent_backend.Queue.Outcomes.{has_task-find, find_task-update_task, log_event}

-- What becomes of a row when the ids are pruned.
abbrev pub pruned_with : String → String → Time → List String → Task → Task
pruned_with root reason now ids t =
    if elem t.task_id ids && is_active t.resolution then prune_row root reason now t else t

-- What becomes of a row when `root` is rejected and `below` are its descendants.
abbrev pub fate : String → String → Time → List String → Task → Task
fate root reason now below t =
    if t.task_id == root
    then pruned_with root reason now below (reject_row reason now t)
    else pruned_with root reason now below t

pub map_self :
    {A : Type 0} (f : A → A) (o : Option.Option A) → ((a : A) → f a ≡ a) → o ≡ Option.map f o
map_self f none h = refl
map_self f (some a) h = ap some (sym (h a))

pub map_step :
    {A : Type 0} (f g h : A → A) (o : Option.Option A)
    → ((a : A) → g (f a) ≡ h a)
    → Option.map g (Option.map f o) ≡ Option.map h o
map_step f g h none e = refl
map_step f g h (some a) e = ap some (e a)

pub is_none-map :
    {A : Type 0} (f : A → A) (o : Option.Option A) → is_none (Option.map f o) ≡ is_none o
is_none-map f none = refl
is_none-map f (some a) = refl

pub Bool_ext : (a b : Bool) → (a ≡ true → b ≡ true) → (b ≡ true → a ≡ true) → a ≡ b
Bool_ext true b f g = sym (f refl)
Bool_ext false true f g = g refl
Bool_ext false false f g = refl

pub find_task-log :
    (j k : String) (d : Details) (at : Time) (q : QueueDb)
    → find_task j (log_event k d at q) ≡ find_task j q
unfolding find_task
find_task-log j k d at q = refl

pub has_task-log :
    (j k : String) (d : Details) (at : Time) (q : QueueDb)
    → has_task (log_event k d at q) j ≡ has_task q j
unfolding has_task
has_task-log j k d at q = refl

pub has_task-update_task :
    (k : String) (f : Task → Task) (keeps : (t : Task) → (f t).task_id ≡ t.task_id) (q : QueueDb)
    (j : String)
    → has_task (update_task k f q) j ≡ has_task q j
has_task-update_task k f keeps q j =
    has_task-find (update_task k f q) j
    ∙ ap (λ o. not (is_none o)) (find_task-update_task k f keeps q j)
    ∙ ap not (is_none-map _ (find_task j q))
    ∙ sym (has_task-find q j)

module _ (root reason : String) (now : Time) where
  find_task-prune_one :
      (child j : String) (q : QueueDb)
      → find_task j (prune_one root reason now child q)
        ≡ Option.map
            (λ r.
              if r.task_id == child && is_active r.resolution
              then prune_row root reason now r
              else r)
            (find_task j q)
  unfolding find_task prune_one
  find_task-prune_one child j q =
      find-update (λ t. t.task_id) (λ r. r.task_id == child && is_active r.resolution)
        (prune_row root reason now) (λ r. unfold prune_row in refl) j q.tasks

  pruned_with_step :
      (child : String) (ids : List String) (t : Task)
      → pruned_with root reason now ids
          (if t.task_id == child && is_active t.resolution then prune_row root reason now t else t)
        ≡ pruned_with root reason now (child ∷ ids) t
  unfolding prune_row elem any
  pruned_with_step child ids t = elim (Bool-cases (is_active t.resolution)) [
    | inl a ↦ elim (Bool-cases (t.task_id == child)) [
      | inl e ↦ ground (arith, a, e, eq_iff t.task_id child, eq_iff child t.task_id)
      | inr e ↦ ground (arith, a, e, eq_iff t.task_id child, eq_iff child t.task_id)
    ]
    | inr a ↦ ground (arith, a)
  ]

  has_task-prune_one :
      (child : String) (q : QueueDb) (k : String)
      → has_task q k ≡ true
      → has_task (prune_one root reason now child q) k ≡ true
  has_task-prune_one child q k h =
      let found = has_task-find q k in
      let after = find_task-prune_one child k q in
      elim (Option-cases (find_task k q)) [
        | inl e ↦ absurd (cc (h, rw e at found))
        | inr (t, e) ↦ rw (has_task-find (prune_one root reason now child q) k, after, e) refl
      ]

  record-prune_one :
      (clock : String → Time) (child : String) (q : QueueDb)
      → has_task q child ≡ true
      → record_task_event child
          (pruned_by root reason)
          (clock child)
          (prune_one root reason now child q)
        ≡ ok (
          tt,
          log_event child (pruned_by root reason) (clock child) (prune_one root reason now child q),
        )
  unfolding record_task_event
  record-prune_one clock child q h = rw (has_task-prune_one child q child h)

  -- The loop prunes every task that it is given, if it is there and active.
  pub prune_all-outcome :
      (clock : String → Time) (ids : List String) (q : QueueDb)
      → ((k : String) → elem k ids ≡ true → has_task q k ≡ true)
      → (q' : QueueDb) × (prune_all root reason now clock ids q ≡ ok (tt, q'))
        × ((j : String)
            → find_task j q' ≡ Option.map (pruned_with root reason now ids) (find_task j q))
  unfolding prune_all
  prune_all-outcome clock [] q h = (
    q,
    refl,
    λ j. map_self (pruned_with root reason now []) (find_task j q) (λ t. unfold elem any in refl),
  )
  prune_all-outcome clock (child ∷ ids) q h =
      let q1 = prune_one root reason now child q in
      let q2 = log_event child (pruned_by root reason) (clock child) q1 in
      let step =
        record-prune_one clock child q (h child (unfold elem any in rw (==-self child) refl)) in
      let (q', run, found) = prune_all-outcome clock ids q2 (λ k m.
        has_task-log k child (pruned_by root reason) (clock child) q1
        ∙ has_task-prune_one child q k (h k (unfold elem any in ground (arith, m)))) in
      (
        q',
        rw (step, ◌>>=◌) run,
        λ j.
            found j
            ∙ ap (Option.map (pruned_with root reason now ids)) (
                find_task-log j child (pruned_by root reason) (clock child) q1
                ∙ find_task-prune_one child j q)
            ∙ map_step _ (pruned_with root reason now ids)
                (pruned_with root reason now (child ∷ ids)) (find_task j q)
                (pruned_with_step child ids),
      )
