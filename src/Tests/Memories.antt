-- ===== src/Tests/Memories.antt =====
-- Partitions, memories and the watcher on small inputs.
use agent_backend.Prelude.{
  ℕ, ◌+◌, ◌≤◌, String, ◌≡◌, refl, none, some, List, [], ◌∷◌, length, done, raised, if◌then◌else◌,
  eqb,
}
use agent_backend.Json.{null, end, Codec}
use agent_backend.Store.Schema.{Time}
use agent_backend.Memory.Schema.{ActivePartition, MemoryDb, MemoryRecord, index_pending}
use agent_backend.Memory.Partitions.{get_active_partition}
use agent_backend.Memory.Mapper.{Outside}
use agent_backend.Memory.Activation.{Service, set_active_from_conversation_path}
use agent_backend.Memory.Records.{list_memory_records_for_reindex}
use agent_backend.Memory.Commit.{Vectors, CommitRequest, rebuild_memory_index_for_project}
use agent_backend.Memory.Views.{Command, set, clear, perform_all, change_all, perform_all-refines}
use agent_backend.Memory.Registered.{IsActivation, set_active-IsActivation}
use agent_backend.Memory.Counting.{wins, losses, takes, rebuild-counts}

abbrev empty_db : MemoryDb
empty_db = record {
  memory_projects = [];
  active_partitions = [];
  conversation_events = [];
  memory_records = [];
}

abbrev here : ActivePartition
here = record {
  client_id = "local-lmstudio";
  active_project_id = some "lmstudio-notes";
  active_project_scope_hash = some "5c0pe";
  active_conversation_id = none;
  conversation_path = none;
  confidence = "high";
  source_event = "manual_override";
  updated_at = 3;
}

abbrev commands : List Command
commands = set here ∷ set (record here { client_id = "other" }) ∷ clear "other" ∷ []

perform_all-refines_example :
    get_active_partition "local-lmstudio" (perform_all commands empty_db)
    ≡ change_all commands (λ j. get_active_partition j empty_db) "local-lmstudio"
perform_all-refines_example = perform_all-refines commands empty_db "local-lmstudio"

active_after : get_active_partition "local-lmstudio" (perform_all commands empty_db) ≡ some here
unfolding perform_all get_active_partition
active_after = refl

abbrev codec : Codec
codec = record { dumps = λ j. "{}"; loads = λ s. some null; compact = λ j. "{}"; md5_hex = λ s. s }

abbrev chat : List String
chat = "chats" ∷ "Notes" ∷ "a.conversation.json" ∷ []

abbrev outside : Outside
outside = record { lower = λ s. "notes"; sha1_hex = λ s. s; resolve = λ s. chat; codec = codec }

abbrev service : Service
service = record {
  outside = outside;
  conversations_root = "chats" ∷ [];
  client_id = "local-lmstudio";
  allowed_roots = "/work" ∷ [];
  fault = λ n. none;
}

abbrev clock : ℕ → Time
clock n = 5

set_active-IsActivation_example : IsActivation "local-lmstudio" empty_db (
    set_active_from_conversation_path service "/chats/Notes/a.conversation.json" "manual" clock
      empty_db)
set_active-IsActivation_example =
    set_active-IsActivation service "/chats/Notes/a.conversation.json" "manual" clock empty_db

-- An index that keeps count of the chunks and refuses the third.
abbrev vectors : Vectors
vectors = record {
  Index = ℕ;
  upsert_chunks = λ project scope doc n.
      if eqb n 2 then (raised "collection is full", n) else (done null, n + 1);
  search = λ project query k scope n. (done [], n);
}

abbrev request : CommitRequest
request = record {
  category = "decision";
  content = "Keep the queue in SQLite.";
  confidence_score = 1;
  metadata = end;
  memory_id = "m1";
  created_at = 7;
  indexed_at = 8;
}

abbrev with_partition : MemoryDb
with_partition = record empty_db { active_partitions = here ∷ [] }

abbrev memory : String → MemoryRecord
memory id = record {
  memory_id = id;
  project_id = "lmstudio-notes";
  project_scope_hash = "5c0pe";
  memory_type = "summary";
  source = "memory_record";
  content = "A summary.";
  content_sha1 = "";
  metadata = end;
  confidence_score = 1;
  created_at = 1;
  index_status = index_pending;
  indexed_at = none;
  index_error = none;
}

abbrev with_memories : MemoryDb
with_memories = record empty_db { memory_records = memory "m1" ∷ memory "m2" ∷ memory "m3" ∷ [] }

rebuild-counts_example :
    let out =
      (rebuild_memory_index_for_project vectors
        (λ s. s)
        "c"
        (λ k. 9)
        "5c0pe"
        200
        with_memories
        0).0 in
    let listed = list_memory_records_for_reindex (some "5c0pe") 200 with_memories in
    (out.indexed_count ≡ wins (takes vectors (λ s. s) "c" listed 0))
    × (out.failed_count ≡ losses (takes vectors (λ s. s) "c" listed 0))
    × (length (takes vectors (λ s. s) "c" listed 0) ≡ length listed)
    × (length listed ≤ 500)
    × (1 ≤ 200 → length listed ≤ 200)
rebuild-counts_example = rebuild-counts vectors (λ s. s) "c" (λ k. 9) "5c0pe" 200 with_memories 0

all_three : length (list_memory_records_for_reindex (some "5c0pe") 200 with_memories) ≡ 3
unfolding list_memory_records_for_reindex
all_three = refl
