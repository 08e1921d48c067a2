-- ===== src/Memory/Watcher.antt =====
-- `ActivePartitionWatcher`, but for its thread
-- (backend/python-daemon/orchestrator/active_partition/watcher.py).
use Prim.Native.String.{compare, ◌++◌ as ◌++ˢ◌}
use Prim.Native.Nat.{Ordering}
use agent_backend.Prelude.{
  ℕ, String, Bool, true, false, ◌&&◌, Option, none, some, List, [], ◌∷◌, ◌==◌, ltb, eqb,
  if◌then◌else◌, is_none,
}
use agent_backend.Store.Schema.{Time}
use agent_backend.Memory.Schema.{MemoryDb}
use agent_backend.Memory.Mapper.{Parts, path_text, relative_to}
use agent_backend.Memory.Activation.{
  Service, Activation, activated, refused, crashed, set_active_from_conversation_path,
}
use agent_backend.Memory.Polls.{
  WatchResult, result, payload_of, payload_of_error, ok_of, payload_result,
}

pub record Stat : Type 0 where
  pub st_size : ℕ
  pub st_mtime_ns : ℕ

-- The fields _last_applied_path and _last_applied_mtime_ns, which are set together.
abbrev pub Applied : Type 0
Applied = Option (String × ℕ)

-- What one poll sees of the file: its resolved path, the two readings of _is_settled and the one
-- after them, each `none` when `stat` raises.
pub record Sight : Type 0 where
  pub candidate : Parts
  pub first : Option Stat
  pub second : Option Stat
  pub third : Option Stat

pub record Watch : Type 0 where
  pub service : Service
  pub watch_root : Parts
  pub settle_ms : ℕ

abbrev same_stat : Option Stat → Option Stat → Bool
same_stat (some a) (some b) = eqb a.st_size b.st_size && eqb a.st_mtime_ns b.st_mtime_ns
same_stat _ _ = false

unfoldable pub is_settled : ℕ → Sight → Bool
is_settled settle_ms w = if ltb 0 settle_ms then same_stat w.first w.second else true

-- The outcome of the service: what is remembered, and the result; `none` is an exception that goes
-- on to run_until_stopped, which logs it.
abbrev pub after_activation :
    Parts → ℕ → Applied → Activation × MemoryDb → Option WatchResult × Applied × MemoryDb
after_activation path mtime last (crashed text, d) = (none, last, d)
after_activation path mtime last (refused s p, d) = (
  some (payload_result (payload_of_error s) path),
  (if ok_of (payload_of_error s) then some (path_text path, mtime) else last),
  d,
)
after_activation path mtime last (activated p, d) = (
  some (payload_result (payload_of p) path),
  (if ok_of (payload_of p) then some (path_text path, mtime) else last),
  d,
)

abbrev pub is_applied : Applied → String → ℕ → Bool
is_applied none path mtime = false
is_applied (some (p, t)) path mtime = p == path && eqb t mtime

abbrev pub apply_file :
    Watch
    → Parts
    → Option Stat
    → (ℕ → Time)
    → Applied
    → MemoryDb
    → Option WatchResult × Applied × MemoryDb
apply_file v path none now last d =
    (some (result false "FILE_UNAVAILABLE" (some (path_text path)) "unavailable"), last, d)
apply_file v path (some t) now last d =
    let again = after_activation path t.st_mtime_ns last (
      set_active_from_conversation_path v.service (path_text path) "lmstudio_conversation_watcher"
        now d) in
    if is_applied last (path_text path) t.st_mtime_ns
    then (
      some (result true "UNCHANGED" (some (path_text path)) "Newest conversation already applied."),
      last,
      d,
    )
    else again

unfoldable pub handle_conversation_path :
    Watch → Sight → (ℕ → Time) → Applied → MemoryDb → Option WatchResult × Applied × MemoryDb
unfolding relative_to is_settled set_active_from_conversation_path payload_result path_text ok_of
handle_conversation_path v w now last d =
    let applied = apply_file v w.candidate w.third now last d in
    if is_none (relative_to w.candidate v.watch_root)
    then (
      some (
          result false "POLICY_BLOCK" (some (path_text w.candidate))
            "Conversation path is outside watcher root."),
      last,
      d,
    )
    else if is_settled v.settle_ms w
    then applied
    else (
      some (
          result true "UNSTABLE" (some (path_text w.candidate))
            "Conversation file is still changing; skipped this poll."),
      last,
      d,
    )

abbrev later : ℕ → String → ℕ → String → Bool
later t p u q =
    if ltb u t
    then true
    else if ltb t u
    then false
    else elim (compare p q) [ Ordering.gt ↦ true | _ ↦ false ]

abbrev newer : ℕ × Parts → Option (ℕ × Parts) → ℕ × Parts
newer item none = item
newer (t, p) (some (u, q)) = if later t (path_text p) u (path_text q) then (t, p) else (u, q)

-- The loop of _newest_conversation_file over the files that are found; `none` is an entry that is
-- no file or cannot be read.
unfoldable pub newest : Option (ℕ × Parts) → List (Option (ℕ × Parts)) → Option (ℕ × Parts)
unfolding path_text
newest best [] = best
newest best (none ∷ items) = newest best items
newest best (some item ∷ items) = newest (some (newer item best)) items

abbrev pub poll_newest :
    Watch
    → (Parts → Sight)
    → Option (ℕ × Parts)
    → (ℕ → Time)
    → Applied
    → MemoryDb
    → Option WatchResult × Applied × MemoryDb
poll_newest v look none now last d = (
  some (result true "NO_CONVERSATIONS_FOUND" none "No *.conversation.json files found."),
  last,
  d,
)
poll_newest v look (some (t, path)) now last d = handle_conversation_path v (look path) now last d

-- `root_exists` and `found` are what the file system answers, and `look` what a poll then sees of a
-- file.
unfoldable pub poll_once :
    Watch
    → (root_exists : Bool) (found : List (Option (ℕ × Parts))) (look : Parts → Sight) → (ℕ → Time)
    → Applied
    → MemoryDb
    → Option WatchResult × Applied × MemoryDb
unfolding newest handle_conversation_path path_text
poll_once v root_exists found look now last d =
    let polled = poll_newest v look (newest none found) now last d in
    if root_exists then polled else (
      some (
          result false "CONVERSATIONS_ROOT_NOT_FOUND" none
            ("Conversation root not found: " ++ˢ path_text v.watch_root)),
      last,
      d,
    )
