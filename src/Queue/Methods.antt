-- ===== src/Queue/Methods.antt =====
-- Methods as histories of steps of queue.db, whether they return or raise: what composes them
-- (backend/python-daemon/orchestrator/queue_repo.py and hitl.py).
use agent_backend.Prelude.{
  String, ◌≡◌, refl, Bool, true, false, some, inl, inr, Option-cases, Result, ok, err, Error,
}
use agent_backend.Sql.{Txn}
use agent_backend.Store.{
  QueueDb, ControlDb, Store, Method, return, continue, ensure, ◌>>◌, ◌>>=◌, on_queue, on_control,
}
use agent_backend.Store.Schema.{Task}
use agent_backend.Queue.Tasks.{find_task}
use agent_backend.Queue.Moves.{fetch_task}
use agent_backend.Queue.Outcomes.{fetch-none, fetch-some}
use agent_backend.Queue.Steps.{Step, Reach, here, next}

pub Reach-trans : (q q' q'' : QueueDb) → Reach true q q' → Reach true q' q'' → Reach true q q''
Reach-trans q q' q'' a here = a
Reach-trans q q' q'' a (next {q' = m} b s) = next (Reach-trans q q' m a b) s

-- Whatever the method returns or raises, queue.db has gone on by steps, when no other connection
-- writes meanwhile.
abbrev pub Keeps : {A : Type 0} → Method A → Type 0
Keeps m = (s : Store) → Reach true s.queue (m s).1.queue

pub Keeps-return : {A : Type 0} (a : A) → Keeps (return a)
Keeps-return a s = here

pub Keeps-on_control : (f : ControlDb → ControlDb) → Keeps (on_control f)
Keeps-on_control f s = here

continue-Keeps :
    {A B : Type 0} (r : Result A) (f : A → Method B) (q : QueueDb) (s : Store)
    → Reach true q s.queue
    → ((a : A) → Keeps (f a))
    → Reach true q (continue r f s).1.queue
continue-Keeps (ok a) f q s h k = Reach-trans q s.queue (f a s).1.queue h (k a s)
continue-Keeps (err e) f q s h k = h

pub Keeps-bind :
    {A B : Type 0} (m : Method A) (f : A → Method B)
    → Keeps m
    → ((a : A) → Keeps (f a))
    → Keeps (m >>= f)
Keeps-bind m f h k s = continue-Keeps (m s).0 f s.queue (m s).1 (h s) k

pub Keeps-on_queue :
    {A : Type 0} (m : Txn QueueDb A)
    → ((q q' : QueueDb) (a : A) → m q ≡ ok (a, q') → Step true q q')
    → Keeps (on_queue m)
Keeps-on_queue {A = A} m h s = go (m s.queue) refl
  where
    go : (r : Result (A × QueueDb)) → m s.queue ≡ r → Reach true s.queue (on_queue m s).1.queue
    go (ok (a, q)) e = rw (e, on_queue) (next here (h s.queue q a e))
    go (err x) e = rw (e, on_queue) here

-- The same from one database.
abbrev pub KeepsFrom : {A : Type 0} → Store → Method A → Type 0
KeepsFrom s m = Reach true s.queue (m s).1.queue

pub KeepsFrom-ensure :
    {A : Type 0} (b : Bool) (e : Error) (m : Method A) (s : Store)
    → (b ≡ true → KeepsFrom s m)
    → KeepsFrom s (ensure b e >> m)
KeepsFrom-ensure true e m s h = h refl
KeepsFrom-ensure false e m s h = here

-- The row that is read is that of the database.
pub KeepsFrom-fetch :
    {A : Type 0} (k : String) (f : Task → Method A) (s : Store)
    → ((t : Task) → find_task k s.queue ≡ some t → KeepsFrom s (f t))
    → KeepsFrom s (on_queue (fetch_task k) >>= f)
KeepsFrom-fetch k f s h = elim (Option-cases (find_task k s.queue)) [
  | inl e ↦ rw (on_queue, fetch-none k s.queue e) here
  | inr (t, e) ↦ rw (on_queue, fetch-some k s.queue e) (h t e)
]
