-- ===== src/Queue/Releasing.antt =====
-- What `release_expired_leases` does to each task
-- (backend/python-daemon/orchestrator/queue_repo.py).
use mathlib.Core.Option
use agent_backend.Prelude.{◌<◌, ◌↔◌, String, ◌≡◌, refl, inl, inr, true, some, arith, Option-cases}
use agent_backend.Store.{Store}
use agent_backend.Store.Schema.{Time, Task}
use agent_backend.Queue.Moves.{lease_expired}

-- A lease that is over: it has an owner, and an end before the date.
abbrev pub HasExpired : Time → Task → Type 0
HasExpired now_iso t =
    (worker : String) × (end : Time) × (t.lease_owner ≡ some worker)
    × (t.lease_expires_at ≡ some end)
    × (end < now_iso)

pub lease_expired_iff :
    (now_iso : Time) (t : Task) → (lease_expired now_iso t ≡ true) ↔ HasExpired now_iso t
unfolding lease_expired
lease_expired_iff now_iso t = elim (Option-cases t.lease_owner) [
  | inl e ↦ rw e ((λ h. absurd (cc (h))), λ x. absurd (cc (e, x.2)))
  | inr (w, e) ↦ elim (Option-cases t.lease_expires_at) [
    | inl f ↦ rw (e, f) ((λ h. absurd (cc (h))), λ x. absurd (cc (f, x.3)))
    | inr (d, f) ↦
        rw (e, f)
          (
            (λ h. (w, d, refl, refl, ground arith)),
            λ x. let same : d ≡ x.1 = cc (x.3) in ground (arith, x.4),
          )
  ]
]
