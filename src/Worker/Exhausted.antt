-- ===== src/Worker/Exhausted.antt =====
-- What becomes of a task whose rerolls are used up
-- (backend/python-daemon/orchestrator/execution_loop.py).
use agent_backend.Prelude.{
  ℕ, ◌≤◌, ◌+◌, String, ◌≡◌, refl, Bool, true, false, not, ◌&&◌, some, List, [], ◌∷◌, ◌++◌, arith,
  ◌==◌, any, ltb, ok, ap, ◌∙◌, ==-self,
}
use agent_backend.Sql.{update}
use agent_backend.Store.{QueueDb, Store, Method, ◌>>=◌, continue, on_queue}
use agent_backend.Store.Schema.{Time, planning, active, Task, DeadLetter}
use agent_backend.Queue.Tasks.{find_task, is_blocked, is_ready, is_done}
use agent_backend.Json.{str, num, obj, field, end}
use agent_backend.Queue.Moves.{update_task, constrain_row}
use agent_backend.Queue.Outcomes.{fetch-some, find_task-update_task_self, find_task-id}
use agent_backend.Queue.Repo.{get_task, add_negative_constraint, dead_letter}
use agent_backend.Worker.Loop.{Outside, Action, dead_lettered, settle, handle_validation_failure}

module _ {A : Type 0} where
  any-update :
      (g p : A → Bool) (f : A → A) (rs : List A)
      → ((r : A) → g (f r) ≡ g r)
      → any g (update p f rs) ≡ any g rs
  unfolding any update
  any-update g p f [] same = refl
  any-update g p f (r ∷ rs) same = ground (arith, any-update g p f rs same, same r)

  any-ext : (g h : A → Bool) (xs : List A) → ((x : A) → g x ≡ h x) → any g xs ≡ any h xs
  unfolding any
  any-ext g h [] same = refl
  any-ext g h (x ∷ xs) same = rw (same x, any-ext g h xs same)

-- A constraint blocks and frees no task.
blocked-constrained :
    (k j : String) (cs : List String) (n : ℕ) (now : Time) (q : QueueDb)
    → is_blocked (update_task k (constrain_row cs n now) q) j ≡ is_blocked q j
unfolding is_blocked update_task constrain_row
blocked-constrained k j cs n now q = any-ext _ _ q.task_edges λ e.
    ap (λ b. e.child == j && b)
      (any-update (λ p. p.task_id == e.parent && not (is_done p)) (λ r. r.task_id == k)
        (constrain_row cs n now) q.tasks (λ r. refl))

-- A constraint on a task that is there.
constrain_run :
    (k text : String) (now : Time) (s : Store) (row : Task)
    → find_task k s.queue ≡ some row
    → add_negative_constraint k text now s ≡ (
      ok (row.reroll_count + 1),
      record s {
        queue =
            update_task k
              (constrain_row (row.negative_constraints ++ text ∷ []) (row.reroll_count + 1) now)
              s.queue;
      },
    )
unfolding add_negative_constraint get_task
constrain_run k text now s row found =
    rw (◌>>=◌, continue, on_queue, fetch-some k s.queue found) refl

bind-ok :
    {A B : Type 0} (m : Method A) (f : A → Method B) (s : Store) {a : A} {s' : Store}
    → m s ≡ (ok a, s')
    → (m >>= f) s ≡ f a s'
bind-ok m f s e = rw (e, ◌>>=◌) refl

module _ (outside : Outside) (max_rerolls : ℕ) (k failure_text : String) (now later : Time) where
  abbrev pub handled : Method Action
  handled = handle_validation_failure outside max_rerolls k failure_text now later

  -- The dead letter of a task whose rerolls are used up.
  abbrev pub last_letter : ℕ → DeadLetter
  last_letter reroll_count = record {
    task_id = k;
    reason = "schema_validation_failed: reroll_limit_exhausted";
    payload_json =
        outside.codec.dumps
          (obj (field "failure" (str failure_text) (field "reroll_count" (num reroll_count) end)));
    created_at = later;
  }

  abbrev constrained : Task → QueueDb → QueueDb
  constrained row q =
      update_task k
        (constrain_row (row.negative_constraints ++ outside.constraint_text failure_text ∷ [])
          (row.reroll_count + 1) now)
        q

  handled-settle :
      (s : Store) (row : Task)
      → find_task k s.queue ≡ some row
      → handled s
        ≡ settle outside.codec max_rerolls k failure_text
            (row.reroll_count + 1)
            later
            (record s { queue = constrained row s.queue })
  unfolding handle_validation_failure
  handled-settle s row found =
      let text = outside.constraint_text failure_text in
      bind-ok (add_negative_constraint k text now)
        (λ n. settle outside.codec max_rerolls k failure_text n later) s
        (constrain_run k text now s row found)

  handled-run :
      (s : Store) (row : Task)
      → find_task k s.queue ≡ some row
      → max_rerolls ≤ row.reroll_count
      → ((handled s).0 ≡ ok dead_lettered)
        × ((handled s).1.control ≡ record s.control {
          dead_letters = s.control.dead_letters ++ last_letter (row.reroll_count + 1) ∷ [];
        })
        × ((handled s).1.queue ≡ constrained row s.queue)
  unfolding settle dead_letter
  handled-run s row found full =
      let over : ltb max_rerolls (row.reroll_count + 1) ≡ true = ground arith in
      (
        rw (handled-settle s row found, settle, over) refl,
        rw (handled-settle s row found, settle, over) refl,
        rw (handled-settle s row found, settle, over) refl,
      )

  -- If a task that waits, is active and is blocked by no other has been rerolled max_rerolls times,
  -- its next validation failure appends a dead letter for it with the failure and the count of
  -- rerolls, changes nothing else in control.db, and leaves the task ready to be claimed again.
  pub handled-ready :
      (s : Store) (row : Task)
      → find_task k s.queue ≡ some row
      → row.state ≡ planning
      → row.resolution ≡ active
      → is_blocked s.queue k ≡ false
      → max_rerolls ≤ row.reroll_count
      → ((handled s).0 ≡ ok dead_lettered)
        × ((handled s).1.control ≡ record s.control {
          dead_letters = s.control.dead_letters ++ last_letter (row.reroll_count + 1) ∷ [];
        })
        × (t : Task) × (find_task k (handled s).1.queue ≡ some t)
        × (is_ready (handled s).1.queue row.project_id t ≡ true)
  unfolding constrain_row is_ready
  handled-ready s row found waits live free full =
      let (dead, letter, wrote) = handled-run s row found full in
      let cs = row.negative_constraints ++ outside.constraint_text failure_text ∷ [] in
      let write = constrain_row cs (row.reroll_count + 1) now in
      let there = find_task-update_task_self k write (λ t. refl) s.queue found in
      let open_row : is_blocked (constrained row s.queue) row.task_id ≡ false =
        blocked-constrained k row.task_id cs (row.reroll_count + 1) now s.queue
        ∙ rw (find_task-id k s.queue found) free in
      (
        dead,
        letter,
        write row,
        rw wrote there,
        rw wrote (ground (arith, open_row, waits, live, ==-self row.project_id)),
      )
