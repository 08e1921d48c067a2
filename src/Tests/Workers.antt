-- ===== src/Tests/Workers.antt =====
-- A sequence of calls, a round of a worker, and a task that keeps failing.
use agent_backend.Prelude.{◌+◌, ◌≡◌, refl, true, false, some, ok, List, [], ◌∷◌, arith}
use agent_backend.Json.{Fields, Codec, bool, str, obj, end, field}
use agent_backend.Store.{Store}
use agent_backend.Store.Schema.{planning, pending_approval, Task}
use agent_backend.Queue.Tasks.{claim_of, find_task, is_blocked, is_ready}
use agent_backend.Queue.Moves.{fetch_task}
use agent_backend.Queue.Evolution.{Evolved}
use agent_backend.Queue.Soundness.{IsSound}
use agent_backend.Queue.Calls.{
  Call, claiming, moving, rejecting, completing, after_all, after_all-IsSound,
}
use agent_backend.Worker.Loop.{
  Outside, result, finished, ran, read_payload, run_task, run_once, dead_lettered,
}
use agent_backend.Worker.Answered.{Closed, run_task-Closed}
use agent_backend.Worker.Exhausted.{handled, last_letter, handled-ready}
use agent_backend.Tests.Samples.{root_task, queue}
use agent_backend.Tests.Tasks.{queue-IsSound, root_in_queue}

abbrev store : Store
store = record {
  queue = queue;
  control = record { leases = []; process_registry = []; dead_letters = [] };
}

-- The third call raises: the other task waits for no approval.
abbrev calls : List Call
calls =
    claiming "p" "w" 90 20
    ∷ completing "root" 21 22
    ∷ moving "other" pending_approval planning "resume" 23 24
    ∷ rejecting "leaf" "stale" 25 (λ _. 26)
    ∷ []

after_all-IsSound_example :
    IsSound (after_all calls store).queue × Evolved true queue (after_all calls store).queue
after_all-IsSound_example = after_all-IsSound calls store queue-IsSound

abbrev codec : Codec
codec = record {
  dumps = λ v. "text";
  loads = λ s. some (obj (field "tool" (str "mcp_list_capabilities") end));
  compact = λ v. "text";
  md5_hex = λ s. s;
}

abbrev fine : Fields
fine = field "ok" (bool true) end

-- Tools that succeed and leave the databases alone.
abbrev outside : Outside
outside = record {
  codec = codec;
  call_mcp_tool = λ name args s. (ok (result (obj fine)), s);
  exception_text = λ s. s;
  constraint_text = λ s. s;
  plus_seconds = λ t n. t + n;
}

-- The worker takes the root and runs its tool.
one_round :
    (run_once outside 2 60 "p" "w" 7 (λ n. 20 + n) (λ _. 22) store).0
    ≡ ok (ran "root" (finished (obj fine)))
unfolding run_once is_blocked find_task fetch_task agent_backend.Json.get
one_round = refl

reads_payload : read_payload (codec.loads "{}") ≡ some ("mcp_list_capabilities", end)
unfolding read_payload agent_backend.Json.get
reads_payload = refl

run_task-Closed_example :
    Closed "root" 27 28 store
      (obj fine)
      (run_task outside 2 (λ n. 20 + n) (claim_of root_task) store)
run_task-Closed_example =
    run_task-Closed outside 2 (λ n. 20 + n) (claim_of root_task) "mcp_list_capabilities" end store
      store (obj fine) reads_payload refl

root_unblocked : is_blocked queue "root" ≡ false
unfolding is_blocked
root_unblocked = refl

handled-ready_example :
    ((handled outside 0 "root" "bad" 30 31 store).0 ≡ ok dead_lettered)
    × ((handled outside 0 "root" "bad" 30 31 store).1.control
        ≡ record store.control { dead_letters = last_letter outside 0 "root" "bad" 30 31 1 ∷ [] })
    × (t : Task) × (find_task "root" (handled outside 0 "root" "bad" 30 31 store).1.queue ≡ some t)
    × (is_ready (handled outside 0 "root" "bad" 30 31 store).1.queue "p" t ≡ true)
handled-ready_example =
    handled-ready outside 0 "root" "bad" 30 31 store root_task root_in_queue refl refl
      root_unblocked (omega arith)
