-- ===== src/Worker/Answered.antt =====
-- What a worker does with a task whose tool has answered
-- (backend/python-daemon/orchestrator/worker.py and execution_loop.py).
use agent_backend.Prelude.{
  ℕ, String, ◌≡◌, refl, ◌≢◌, true, false, Option, none, some, Result, ok, err, attribute_error,
}
use agent_backend.Json
use agent_backend.Json.{Json, Fields, null, bool, num, str, arr, obj}
use agent_backend.Store.{Store, return, continue, ◌>>=◌}
use agent_backend.Store.Schema.{Time}
use agent_backend.Queue.Tasks.{Claim}
use agent_backend.Queue.Repo.{complete_task}
use agent_backend.Queue.Moved.{Completed, complete_task-Completed}
use agent_backend.Worker.Loop.{
  Outside, result, finished, Round, ran, succeeded, close_task, after_call, execute_tool_for_task,
  read_payload, run_task,
}

-- The round's result, unless the completion raised.
abbrev pub closing : Result (Unit {0}) → Round → Result Round
closing (ok u) r = ok r
closing (err e) r = err e

-- What becomes of the task `k` when its tool has given the value, in the databases that the tool
-- has left.
pub data Closed (k : String) (now at : Time) (s : Store)
    : Json → Result Round × Store → Type 0 where
  not_failed :
      (fields : Fields) (r : Result (Unit {0})) (s' : Store)
      → Json.get "ok" fields ≢ some (bool false)
      → Completed k now at s (r, s')
      → Closed k now at s (obj fields) (closing r (ran k (finished (obj fields))), s')
  failed :
      (fields : Fields)
      → Json.get "ok" fields ≡ some (bool false)
      → Closed k now at s (obj fields) (ok (ran k (finished (obj fields))), s)
  no_dict :
      (v : Json)
      → ((fields : Fields) → v ≢ obj fields)
      → Closed k now at s v (err attribute_error, s)

module _ (k : String) (now at : Time) (s : Store) where
  after_completion :
      (fields : Fields) (p : Result (Unit {0}) × Store)
      → Json.get "ok" fields ≢ some (bool false)
      → Completed k now at s p
      → Closed k now at s
          (obj fields)
          (continue p.0 (λ _. return (ran k (finished (obj fields)))) p.1)
  after_completion fields (ok u, s') h c = not_failed fields (ok u) s' h c
  after_completion fields (err e, s') h c = not_failed fields (err e) s' h c

  close_fields :
      (fields : Fields) (o : Option Json)
      → Json.get "ok" fields ≡ o
      → Closed k now at s (obj fields) (close_task k (finished (obj fields)) now at s)
  unfolding close_task succeeded
  close_fields fields none e =
      rw (close_task, e)
        (after_completion fields (complete_task k now at s) (λ h. absurd (cc (h, e)))
          (complete_task-Completed k now at s))
  close_fields fields (some (bool false)) e = rw (close_task, e) (failed fields e)
  close_fields fields (some (bool true)) e =
      rw (close_task, e)
        (after_completion fields (complete_task k now at s) (λ h. absurd (cc (h, e)))
          (complete_task-Completed k now at s))
  close_fields fields (some null) e =
      rw (close_task, e)
        (after_completion fields (complete_task k now at s) (λ h. absurd (cc (h, e)))
          (complete_task-Completed k now at s))
  close_fields fields (some (num n)) e =
      rw (close_task, e)
        (after_completion fields (complete_task k now at s) (λ h. absurd (cc (h, e)))
          (complete_task-Completed k now at s))
  close_fields fields (some (str t)) e =
      rw (close_task, e)
        (after_completion fields (complete_task k now at s) (λ h. absurd (cc (h, e)))
          (complete_task-Completed k now at s))
  close_fields fields (some (arr vs)) e =
      rw (close_task, e)
        (after_completion fields (complete_task k now at s) (λ h. absurd (cc (h, e)))
          (complete_task-Completed k now at s))
  close_fields fields (some (obj fs)) e =
      rw (close_task, e)
        (after_completion fields (complete_task k now at s) (λ h. absurd (cc (h, e)))
          (complete_task-Completed k now at s))

  pub close_task-Closed : (v : Json) → Closed k now at s v (close_task k (finished v) now at s)
  unfolding close_task succeeded
  close_task-Closed (obj fields) = close_fields fields (Json.get "ok" fields) refl
  close_task-Closed null = no_dict null (λ fields e. absurd (cc (e)))
  close_task-Closed (bool b) = no_dict (bool b) (λ fields e. absurd (cc (e)))
  close_task-Closed (num n) = no_dict (num n) (λ fields e. absurd (cc (e)))
  close_task-Closed (str t) = no_dict (str t) (λ fields e. absurd (cc (e)))
  close_task-Closed (arr vs) = no_dict (arr vs) (λ fields e. absurd (cc (e)))

-- A task that a worker has claimed, whose payload names a tool and whose tool has given a value, is
-- completed if the value is a dict whose entry "ok" is not False, in the databases that the tool
-- has left, with everything that a completion writes and raises; if the entry is False nothing is
-- written, and the task keeps its lease; and a value that is no dict raises and writes nothing.
pub run_task-Closed :
    (outside : Outside) (max_rerolls : ℕ) (clock : ℕ → Time) (c : Claim) (name : String)
    (args : Fields) (s s' : Store) (v : Json)
    → read_payload (outside.codec.loads c.payload_json) ≡ some (name, args)
    → outside.call_mcp_tool name args s ≡ (ok (result v), s')
    → Closed c.task_id (clock 7) (clock 8) s' v (run_task outside max_rerolls clock c s)
unfolding run_task execute_tool_for_task after_call
run_task-Closed outside max_rerolls clock c name args s s' v reads answers =
    rw (run_task, reads, ◌>>=◌, continue, answers)
      (close_task-Closed c.task_id (clock 7) (clock 8) s' v)
