-- ===== src/Queue/Claiming.antt =====
-- What `claim_ready_task` hands out
-- (backend/python-daemon/orchestrator/queue_repo.py).
use mathlib.Core.Option
use agent_backend.Prelude.{
  ◌≤◌, String, ◌≡◌, refl, ◌≢◌, ◌↔◌, inl, inr, true, false, not, ◌&&◌, Option, none, some, arith,
  ◌==◌, eq_iff, if◌then◌else◌, any, Bool-cases, Option-cases, ok, sym, ◌∙◌, subst, ==-self,
  ==-of_ne,
}
use agent_backend.Sql.{select, update, earliest, find-update, find-key}
use agent_backend.Sql.Rows.{
  Among, IsUnique, earliest-Among, earliest-le, earliest-none, select-Among, Among-select,
  find-Among, IsUnique-update, any-false, any-of-none,
}
use agent_backend.Store.{QueueDb}
use agent_backend.Store.Schema.{Time, planning, completed, active, Task, Edge}
use agent_backend.Queue.Tasks.{
  Claim, claim_of, is_done, is_blocked, is_ready, lease_task, claim, find_task,
}

-- A task that may be handed out: it waits in the project, nobody holds it, and each task that an
-- edge leads from is completed and not pruned.
pub record IsReady (q : QueueDb) (project_id : String) (t : Task) : Type 0 where
  pub in_project : t.project_id ≡ project_id
  pub waits : t.state ≡ planning
  pub live : t.resolution ≡ active
  pub unleased : t.lease_owner ≡ none
  pub parents_done :
      (e : Edge)
      → Among e q.task_edges
      → e.child ≡ t.task_id
      → (p : Task) → Among p q.tasks
      → p.task_id ≡ e.parent
      → (p.state ≡ completed) × (p.resolution ≡ active)

is_done-true : (p : Task) → (is_done p ≡ true) ↔ ((p.state ≡ completed) × (p.resolution ≡ active))
is_done-true p = ground arith

module _ (q : QueueDb) (k : String) where
  abbrev Unblocked : Type 0
  Unblocked =
      (e : Edge)
      → Among e q.task_edges
      → e.child ≡ k
      → (p : Task) → Among p q.tasks
      → p.task_id ≡ e.parent
      → (p.state ≡ completed) × (p.resolution ≡ active)

  Unblocked-of-test : is_blocked q k ≡ false → Unblocked
  unfolding is_blocked
  Unblocked-of-test h e me ek p mp pk =
      let open_parent = λ (r : Task). r.task_id == e.parent && not (is_done r) in
      let no_edge = any-false _ q.task_edges h e me in
      let here = (eq_iff e.child k).1 ek in
      let parents : any open_parent q.tasks ≡ false = rw here at no_edge in
      let at_p = any-false open_parent q.tasks parents p mp in
      ground (arith, at_p, eq_iff p.task_id e.parent)

  test-of-Unblocked : Unblocked → is_blocked q k ≡ false
  unfolding is_blocked
  test-of-Unblocked h = any-of-none _ q.task_edges λ e me. elim (Bool-cases (e.child == k)) [
    | inr other ↦ rw other
    | inl here ↦ rw here (
        any-of-none _ q.tasks λ p mp. elim (Bool-cases (p.task_id == e.parent)) [
          | inr other ↦ rw other
          | inl named ↦ rw (
            named,
            (is_done-true p).1
                (h e me ((eq_iff e.child k).0 here) p mp ((eq_iff p.task_id e.parent).0 named)),
          )
        ])
  ]

-- The WHERE clause of the query, read as a condition on rows.
pub is_ready_iff :
    (q : QueueDb) (project_id : String) (t : Task)
    → (is_ready q project_id t ≡ true) ↔ IsReady q project_id t
unfolding is_ready
is_ready_iff q project_id t = (
  λ h. record {
    in_project = ground (arith, eq_iff t.project_id project_id);
    waits = ground arith;
    live = ground arith;
    unleased = ground arith;
    parents_done = Unblocked-of-test q t.task_id (ground arith);
  },
  λ r.
      let free = test-of-Unblocked q t.task_id r.parents_done in
      ground
        (arith, free, r.in_project, r.waits, r.live, r.unleased, eq_iff t.project_id project_id),
)

-- PRIMARY KEY of tasks.
abbrev pub UniqueTasks : QueueDb → Type 0
UniqueTasks q = IsUnique (λ t. t.task_id) q.tasks

pub lease-keeps-id : (w : String) (e n : Time) (t : Task) → (lease_task w e n t).task_id ≡ t.task_id
unfolding lease_task
lease-keeps-id w e n t = refl

module _ (project_id worker_id : String) (expires_at now : Time) where
  abbrev pub leased_row : Task → Task
  leased_row = lease_task worker_id expires_at now

  -- What a claim that hands out a task has done.
  pub record Claimed (q : QueueDb) (c : Claim) (q' : QueueDb) : Type 0 where
    pub task : Task
    pub among : Among task q.tasks
    pub ready : IsReady q project_id task
    pub oldest :
        (u : Task) → Among u q.tasks → IsReady q project_id u → task.created_at ≤ u.created_at
    pub returned : c ≡ claim_of (leased_row task)
    pub leased : find_task task.task_id q' ≡ some (leased_row task)
    pub others : (k : String) → k ≢ task.task_id → find_task k q' ≡ find_task k q
    pub rest : q' ≡ record q { tasks = q'.tasks }
    pub unique : UniqueTasks q'

  abbrev pub candidates : QueueDb → Option Task
  candidates q = earliest (λ t. t.created_at) (select (is_ready q project_id) q.tasks)

  abbrev pub after_claim : QueueDb → Task → QueueDb
  after_claim q t = record q { tasks = update (λ r. r.task_id == t.task_id) leased_row q.tasks }

  -- What the statement leaves in each row.
  find-after_claim :
      (q : QueueDb) (t : Task) (k : String)
      → find_task k (after_claim q t)
        ≡ Option.map (λ r. if r.task_id == t.task_id then leased_row r else r) (find_task k q)
  unfolding find_task
  find-after_claim q t k =
      find-update (λ r. r.task_id) _ leased_row (lease-keeps-id worker_id expires_at now) k q.tasks

  find-after_claim_self :
      (q : QueueDb) (t : Task)
      → UniqueTasks q
      → Among t q.tasks
      → find_task t.task_id (after_claim q t) ≡ some (leased_row t)
  find-after_claim_self q t u m =
      let found : find_task t.task_id q ≡ some t =
        unfold find_task in find-Among (λ r. r.task_id) q.tasks u m in
      rw (find-after_claim q t t.task_id, found, ==-self t.task_id)

  find-after_claim_other :
      (q : QueueDb) (t : Task) (k : String)
      → k ≢ t.task_id
      → find_task k (after_claim q t) ≡ find_task k q
  find-after_claim_other q t k h = elim (Option-cases (find_task k q)) [
    | inl e ↦ rw (find-after_claim q t k, e)
    | inr (r, e) ↦
        let named : r.task_id ≡ k = unfold find_task in find-key (λ x. x.task_id) k q.tasks e in
        rw (find-after_claim q t k, e, ==-of_ne r.task_id t.task_id (λ p. h (sym named ∙ p)))
  ]

  pub claim-some :
      (q : QueueDb) (t : Task)
      → candidates q ≡ some t
      → claim project_id worker_id expires_at now q
        ≡ ok (Option.map claim_of (find_task t.task_id (after_claim q t)), after_claim q t)
  unfolding claim
  claim-some q t e = rw (e, claim)

  pub claim-none :
      (q : QueueDb)
      → candidates q ≡ none
      → claim project_id worker_id expires_at now q ≡ ok (none, q)
  unfolding claim
  claim-none q e = rw (e, claim)

  chosen-Claimed :
      (q : QueueDb) (t : Task)
      → UniqueTasks q
      → candidates q ≡ some t
      → Claimed q (claim_of (leased_row t)) (after_claim q t)
  chosen-Claimed q t u e =
      let m = select-Among (is_ready q project_id) q.tasks (earliest-Among _ _ e) in
      record {
        task = t;
        among = m.0;
        ready = (is_ready_iff q project_id t).0 m.1;
        oldest = λ v mv rv.
            earliest-le _ _ e v (Among-select _ q.tasks mv ((is_ready_iff q project_id v).1 rv));
        returned = refl;
        leased = find-after_claim_self q t u m.0;
        others = find-after_claim_other q t;
        rest = refl;
        unique = IsUnique-update _ _ leased_row (lease-keeps-id worker_id expires_at now) q.tasks u;
      }

  -- A claim that returns a task has chosen the oldest ready one and leased it, and only it.
  pub claim-Claimed :
      (q q' : QueueDb) (c : Claim)
      → UniqueTasks q
      → claim project_id worker_id expires_at now q ≡ ok (some c, q')
      → Claimed q c q'
  claim-Claimed q q' c u h = elim (Option-cases (candidates q)) [
    | inl e ↦ absurd (cc (claim-none q e))
    | inr (t, e) ↦
        let m = select-Among (is_ready q project_id) q.tasks (earliest-Among _ _ e) in
        let same_c : claim_of (leased_row t) ≡ c =
          cc (claim-some q t e, find-after_claim_self q t u m.0) in
        let same_q : after_claim q t ≡ q' = cc (claim-some q t e) in
        subst (λ x. Claimed q x q') same_c
          (subst (λ x. Claimed q (claim_of (leased_row t)) x) same_q (chosen-Claimed q t u e))
  ]

  -- A claim comes back empty, and changes nothing, exactly when no task is ready.
  pub claim-none_iff :
      (q : QueueDb)
      → UniqueTasks q
      → (claim project_id worker_id expires_at now q ≡ ok (none, q))
        ↔ ((t : Task) → Among t q.tasks → ¬ IsReady q project_id t)
  claim-none_iff q u = (
    λ h t m r. elim (Option-cases (candidates q)) [
      | inl e ↦ earliest-none _ _ e t (Among-select _ q.tasks m ((is_ready_iff q project_id t).1 r))
      | inr (v, e) ↦
          let mv = select-Among (is_ready q project_id) q.tasks (earliest-Among _ _ e) in
          cc (claim-some q v e, find-after_claim_self q v u mv.0)
    ],
    λ none_ready. elim (Option-cases (candidates q)) [
      | inl e ↦ claim-none q e
      | inr (v, e) ↦
          let mv = select-Among (is_ready q project_id) q.tasks (earliest-Among _ _ e) in
          absurd (none_ready v mv.0 ((is_ready_iff q project_id v).0 mv.1))
    ],
  )
