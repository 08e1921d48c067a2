-- ===== src/Worker/Recovery.antt =====
-- `RecoveryService.recover_once`
-- (backend/python-daemon/orchestrator/recovery.py).
use agent_backend.Prelude.{ℕ, ◌+◌, String, Bool, true, false, Option, none, some, List, [], ◌∷◌, ok}
use agent_backend.Store.{ControlDb, Store, Method, ◌>>=◌}
use agent_backend.Store.Schema.{Time, WorkerStatus, alive, stale, ExitCode, Process}
use agent_backend.Queue.Repo.{release_expired_leases}
use agent_backend.Queue.Workers.{mark_stale_workers, mark_worker_exited}
use agent_backend.Queue.Listing.{list_worker_status}
use agent_backend.Queue.Steps.{here, history-Evolved}
use agent_backend.Queue.Soundness.{IsSound, history-IsSound}
use agent_backend.Queue.Evolution.{Evolved}
use agent_backend.Queue.Methods.{Keeps, Keeps-bind}
use agent_backend.Queue.Keeping.{release_expired_leases-Keeps}

pub record Recovered : Type 0 where
  pub released_leases : ℕ
  pub stale_workers : ℕ
  pub reaped_processes : ℕ

abbrev is_reapable : WorkerStatus → Bool
is_reapable alive = true
is_reapable stale = true
is_reapable _ = false

-- `reap_once` is ZombieReaper.reap_once, which waits for a process: a pid with its exit code, or
-- nothing.
module _ (reap_once : ℕ → Option (ℕ × ExitCode)) (clock : ℕ → Time) where
  unfoldable pub reap : Option (ℕ × ExitCode) → ControlDb → ℕ × ControlDb
  unfolding mark_worker_exited
  reap none c = (0, c)
  reap (some (pid, code)) c = (1, mark_worker_exited pid code (clock pid) c)

  unfoldable pub reap_worker : Process → ControlDb → ℕ × ControlDb
  unfolding reap
  reap_worker w c = elim (is_reapable w.status) [ true ↦ reap (reap_once w.pid) c | false ↦ (0, c) ]

  unfoldable pub reap_all : List Process → ControlDb → ℕ × ControlDb
  unfolding reap_worker
  reap_all [] c = (0, c)
  reap_all (w ∷ ws) c =
      let (n, c') = reap_worker w c in let (m, c'') = reap_all ws c' in (n + m, c'')

  -- All that follows the release: the stale workers, then the processes that have ended.
  unfoldable pub sweep : Time → ℕ → Method Recovered
  unfolding mark_stale_workers list_worker_status reap_all
  sweep stale_before count s =
      let (stale_count, c) = mark_stale_workers stale_before s.control in
      let (reaped, c') = reap_all (list_worker_status c) c in
      (
        ok (record {
          released_leases = count;
          stale_workers = stale_count;
          reaped_processes = reaped;
        }),
        record s { control = c' },
      )

  unfoldable pub recover_once : Time → Time → (String → Time) → Method Recovered
  unfolding release_expired_leases sweep
  recover_once lease_now stale_before released =
      release_expired_leases lease_now released >>= λ count. sweep stale_before count

  sweep-Keeps : (stale_before : Time) (count : ℕ) → Keeps (sweep stale_before count)
  unfolding sweep
  sweep-Keeps stale_before count s = here

  recover_once-Keeps :
      (lease_now stale_before : Time) (released : String → Time)
      → Keeps (recover_once lease_now stale_before released)
  unfolding recover_once
  recover_once-Keeps lease_now stale_before released =
      Keeps-bind (release_expired_leases lease_now released) (λ count. sweep stale_before count)
        (release_expired_leases-Keeps lease_now released) (λ count. sweep-Keeps stale_before count)

  -- A recovery keeps a sound queue sound, and every task that was there is still there and further
  -- on.
  pub recover_once-IsSound :
      (lease_now stale_before : Time) (released : String → Time) (s : Store)
      → IsSound s.queue
      → IsSound (recover_once lease_now stale_before released s).1.queue
        × Evolved true s.queue (recover_once lease_now stale_before released s).1.queue
  recover_once-IsSound lease_now stale_before released s h =
      let run = recover_once-Keeps lease_now stale_before released s in
      (history-IsSound true s.queue _ h run, history-Evolved true s.queue _ run)
