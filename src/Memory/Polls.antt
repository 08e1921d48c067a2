-- ===== src/Memory/Polls.antt =====
-- What a poll of `ActivePartitionWatcher` returns, from the payload of the service
-- (backend/python-daemon/orchestrator/active_partition/watcher.py).
use agent_backend.Prelude.{String, Bool, true, false, Option, none, some, ◌==◌, if◌then◌else◌}
use agent_backend.Memory.Schema.{ActivePartition}
use agent_backend.Memory.Mapper.{Parts, path_text, NullStatus, policy_block, needs_project_folder}

-- The dict that a poll returns; the columns of the project and of the scope are those of the
-- payload.
pub record WatchResult : Type 0 where
  pub ok : Bool
  pub status : String
  pub conversation_path : Option String
  pub project_id : Option String
  pub scope_hash : Option String
  pub message : String

abbrev pub result : Bool → String → Option String → String → WatchResult
result ok status path message = record {
  ok = ok;
  status = status;
  conversation_path = path;
  project_id = none;
  scope_hash = none;
  message = message;
}

-- The entries of a payload that the method reads; `none` is a missing key.
pub record Payload : Type 0 where
  pub ok : Option Bool
  pub status : Option String
  pub message : Option String
  pub active_project_id : Option String
  pub active_project_scope_hash : Option String

abbrev pub null_status : NullStatus → String
null_status policy_block = "POLICY_BLOCK"
null_status needs_project_folder = "NEEDS_PROJECT_FOLDER"

abbrev pub null_message : NullStatus → String
null_message policy_block =
    "Conversation path must be under the configured LM Studio conversations root."
null_message needs_project_folder =
    "Move this chat into an LM Studio folder to enable persistent project memory."

-- ActivePartition.to_dict
abbrev pub payload_of : ActivePartition → Payload
payload_of p = record {
  ok = none;
  status = none;
  message = none;
  active_project_id = p.active_project_id;
  active_project_scope_hash = p.active_project_scope_hash;
}

-- ActivePartitionServiceError.to_dict, with its defaults.
abbrev pub payload_of_error : NullStatus → Payload
payload_of_error s = record {
  ok = some false;
  status = some (null_status s);
  message = some (null_message s);
  active_project_id = none;
  active_project_scope_hash = none;
}

-- `x or y` on texts
abbrev pub text_or : Option String → String → String
text_or none t = t
text_or (some s) t = if s == "" then t else s

abbrev pub is_true : Option Bool → Bool
is_true none = false
is_true (some b) = b

-- `str(payload.get("status") or ("OK" if payload.get("ok") else "ERROR"))`
unfoldable pub status_of : Payload → String
status_of p = text_or p.status (if is_true p.ok then "OK" else "ERROR")

abbrev pub bool_or : Option Bool → Bool → Bool
bool_or none b = b
bool_or (some a) b = a

abbrev pub known_status : String → Bool
known_status s = if s == "OK" then true else s == "MAPPED"

-- `bool(payload.get("ok", status in {"OK", "MAPPED"}))`
unfoldable pub ok_of : Payload → Bool
unfolding status_of
ok_of p = bool_or p.ok (known_status (status_of p))

unfoldable pub payload_result : Payload → Parts → WatchResult
unfolding ok_of status_of path_text
payload_result p path = record {
  ok = ok_of p;
  status = status_of p;
  conversation_path = some (path_text path);
  project_id = p.active_project_id;
  scope_hash = p.active_project_scope_hash;
  message = text_or p.message (status_of p);
}
