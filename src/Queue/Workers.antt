-- ===== src/Queue/Workers.antt =====
-- The registry of worker processes in control.db
-- (backend/python-daemon/orchestrator/queue_repo.py).
use agent_backend.Prelude.{
  ℕ, String, Bool, true, false, ◌&&◌, none, some, [], ◌∷◌, ◌++◌, ◌==◌, eqb, ltb,
}
use agent_backend.Sql.{update, delete, rowcount}
use agent_backend.Store.{ControlDb}
use agent_backend.Store.Schema.{Time, WorkerStatus, alive, stale, exited, ExitCode, Process}

abbrev pub is_alive : WorkerStatus → Bool
is_alive alive = true
is_alive _ = false

-- INSERT OR REPLACE INTO process_registry
unfoldable pub register_worker : String → String → ℕ → Time → ControlDb → ControlDb
unfolding delete
register_worker worker_id command_json pid now c = record c {
  process_registry =
      delete (λ p. eqb p.pid pid) c.process_registry
      ++ record {
        pid = pid;
        worker_id = worker_id;
        command_json = command_json;
        started_at = now;
        heartbeat_at = some now;
        status = alive;
        exited_at = none;
        exit_code = none;
        orphaned = 0;
      }
        ∷ [];
}

abbrev pub beat_row : Time → Process → Process
beat_row now p = record p { heartbeat_at = some now; status = alive }

-- The clock is read for each of the two statements.
unfoldable pub heartbeat_worker : String → ℕ → Time → Time → ControlDb → ControlDb
unfolding update
heartbeat_worker worker_id pid now now' c = record c {
  process_registry =
      update (λ p. p.worker_id == worker_id && eqb p.pid pid) (beat_row now) c.process_registry;
  leases = update (λ l. l.worker_id == worker_id) (λ l. record l { heartbeat_at = now' }) c.leases;
}

abbrev pub is_stale_at : Time → Process → Bool
is_stale_at before p =
    is_alive p.status && elim p.heartbeat_at [ none ↦ false | some t ↦ ltb t before ]

abbrev pub stale_row : Process → Process
stale_row p = record p { status = stale }

unfoldable pub mark_stale_workers : Time → ControlDb → ℕ × ControlDb
unfolding update rowcount
mark_stale_workers before c = (
  rowcount (is_stale_at before) c.process_registry,
  record c { process_registry = update (is_stale_at before) stale_row c.process_registry },
)

abbrev pub exit_row : ExitCode → Time → Process → Process
exit_row exit_code now p = record p {
  status = exited;
  exited_at = some now;
  exit_code = some exit_code;
}

unfoldable pub mark_worker_exited : ℕ → ExitCode → Time → ControlDb → ControlDb
unfolding update
mark_worker_exited pid exit_code now c = record c {
  process_registry = update (λ p. eqb p.pid pid) (exit_row exit_code now) c.process_registry;
}
