-- ===== src/Lib.antt =====
-- The task queue of the backend daemon, its task graph, and the rules that decide which tools,
-- commands and capabilities may run without a person; the compiler of pipelines and the runner of
-- workflows; the memory of the projects; and the services that apply approved patches.
--
-- The daemon (backend/python-daemon/orchestrator) keeps its tasks in the SQLite database queue.db
-- and what the workers do in control.db. Workers claim tasks, complete them, reject them with all
-- their descendants, or send them through an approval. Before a tool runs, the rules of the
-- sandbox, of the approvals, of the commands and of the agent workflow are asked. At startup every
-- template of a pipeline is tried and registered as verified or quarantined. The runner of workflows
-- asks the capability policy, compiles a pipeline and calls its tools one by one, filling
-- the arguments of each with the results of the earlier ones.
--
-- Files, and the code that they model (paths below backend/python-daemon/orchestrator):
--   Store, Store/Schema   db_bootstrap.py: the tables as lists of rows, the databases as records of
--                         tables, and methods that run a transaction on each database in turn
--   Sql                   the statements of SQL that the repository uses: SELECT, UPDATE, DELETE,
--                         and a transaction that commits or raises and then changes nothing
--   Queue/Tasks           queue_repo.py: create_task, _record_task_event, claim_ready_task
--   Queue/Moves           release_expired_leases, transition_task_state, complete_task,
--                         update_scores, add_negative_constraint
--   Queue/Prune           reject_and_prune, _descendants
--   Queue/Repo            the methods of QueueRepository, over the transactions above
--   Queue/Approvals       approvals in queue_repo.py, approval.py, and the gate in hitl.py
--   Queue/Ingest          ingestion runs, files and chunks
--   Queue/Workers         the process registry
--   Queue/Listing         the methods that list rows
--   Queue/Methods, Calls  sequences of calls of those methods
--   Worker/Recovery       recovery.py
--   Worker/Loop           worker.py, execution_loop.py, reroll.py: a round of a worker
--   Pipeline/Variables    the regular expression of pipeline/compiler.py
--   Pipeline/Models       pipeline/models.py
--   Pipeline/Compiler     pipeline/compiler.py
--   Pipeline/Names, Loader   pipeline/loader.py
--   Capabilities/Models, Registry, Loader   capabilities/models.py, schema.py, registry.py, loader.py
--   Dag/Descend           dag_runtime.py, and graphlib's TopologicalSorter as it is used there
--   Policy/Sandbox        sandbox/policy.py
--   Policy/Approval       approvals/policy.py, approvals/models.py
--   Policy/GitCommands    patching/git_guardrails.py
--   Policy/Capabilities   capabilities/policy.py
--   Policy/Integrations   integrations/policy.py
--   Policy/Tools          agent_workflow/policies.py
--   Memory/Schema, Partitions, Records   db_bootstrap.py, active_partition/repo.py, memory/repo.py
--   Memory/Mapper, Activation   active_partition/mapper.py and service.py
--   Memory/Polls, Watcher   active_partition/watcher.py: the result of a poll, and a poll
--   Memory/Commit         memory/service.py
--   Patching/Schema, Repo   patching/models.py and repo.py
--   Patching/Os           what the patch services use of the disk and of programs, as an interface
--   Patching/Snapshots, Rollback   patching/snapshots.py and rollback.py
--   Patching/Diffs, Validation, TestRunner   patching/validation.py and test_runner.py
--   Patching/Authorize, Outcomes, Apply   patching/apply.py: the checks of an approved patch, what
--                         a call returns, and the rest
--   Workflow/Compaction   agent_workflow/compaction.py
--   Workflow/Args, State, Steps, Runner   agent_workflow/runner.py and state.py: a run of a pipeline
--   Prelude, Json         shared names, errors as values, JSON values
--   Tests                 runs on small inputs
-- The other files of Queue, Dag, Sql, Policy, Pipeline, Capabilities, Worker, Memory, Patching and
-- Workflow hold lemmas and theorems on those.
--
-- How the model reads the code:
--   * A table is the list of its rows in the order in which they were written; among tasks of the
--     same creation date a claim takes the first of that order. SQLite is not the repository's
--     code: its primary and foreign keys are tests that raise an integrity error.
--   * A time is the rank of its ISO text, and each reading of the clock is an argument. A REAL
--     column is the bit pattern of the double; no arithmetic is done on it. The random ids of
--     events, leases and dead letters, which nothing reads, are left out, and the constraints of a
--     task are kept decoded. Digests and json.dumps are parameters (Queue.Approvals.Digests,
--     Json.Codec), and so is str.lower.
--   * A method is a sequence of reads and of transactions: what one has committed stays when the
--     next raises. Transactions do not interleave, since SQLite has one writer at a time, but what
--     a method has read before its transaction may be old when it writes: the steps of
--     Queue.Steps.Step with `alone` false are the transactions with any such reading, and with
--     `alone` true those of methods that run one after the other.
--   * The `while` loop of _collect_descendants has fuel twice the number of edges: each round
--     takes an entry of the stack or follows the edges of a new node. The rounds of static_order
--     have fuel the number of nodes, since each takes one. The recursive query of _descendants has
--     one level more than there are tasks, which is enough without cycles
--     (Dag.Levels.reachable_edges_iff); on a cycle SQLite would not end, and the model runs out of
--     fuel.
--   * The worker's tools, which run programs and may use the databases, are a parameter, as are the
--     texts of exceptions and the addition of seconds to a time (Worker.Loop.Outside).
--   * Inside one round of static_order the nodes keep the order of the graph; graphlib's order
--     there is that of a set, which no theorem uses.
--   * The patch services run on an interface of the disk (Patching.Os): each call returns a result or
--     the text of an exception, with the disk after it, and the laws that the theorems use say what
--     a call that succeeds does to the files that can be read. Paths are in the style of POSIX; the
--     rollback resolves them by the symbolic links of the disk as it is then. Random ids and dates
--     are arguments.
--   * YAML, the JSON schema and the directory of the templates are an interface
--     (Pipeline.Loader.Templates). A scalar of YAML that JSON lacks, such as a date, stands as a
--     number, whose texts are those of the interface; what json.dumps raises on it is a parameter
--     (Capabilities.Loader.Messages).
--   * What the transactions of an activation raise is a parameter (Memory.Activation.Service).
--   * The vector index is an interface with a state (Memory.Commit.Vectors).
--   * A poll of the watcher is a function of what the file system answers to it.
--   * The runner of workflows has an interface to the executor of the tools, to the file of its state
--     and to the reports that are attached when the loop is over (Workflow.State.Services); runs in
--     which the state cannot be saved or a report cannot be attached are not modelled. Python's str
--     of a value that is no text is a parameter.
--
-- Not modelled: the events that wake coroutines and the threads that repeat a round or a poll; the
-- epistemic scores, which compute on doubles; the registry and selection of skills; the snapshots
-- and the ingestor of conversations, whose rules are regular expressions on free text; the
-- generation and administration of patches, code review and code intelligence, the ingestion of
-- files and research, which are mostly calls of files, of programs and of models; and the adapters
-- of services, the shims and the entry points, which only pass calls on.
pub mod Prelude
pub mod Json
pub mod Sql
pub mod Store
pub mod Queue
pub mod Dag
pub mod Policy
pub mod Pipeline
pub mod Worker
pub mod Memory
pub mod Patching
pub mod Capabilities
pub mod Workflow
pub mod Tests
