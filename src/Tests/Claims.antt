-- ===== src/Tests/Claims.antt =====
-- Two workers that claim, and a queue with nothing to claim.
use agent_backend.Prelude.{◌≡◌, ◌≢◌, ◌↔◌, refl, none, some, ok, [], ◌∷◌}
use agent_backend.Sql.{find}
use agent_backend.Store.{Store}
use agent_backend.Store.Schema.{Task}
use agent_backend.Sql.Rows.{Among}
use agent_backend.Queue.Tasks.{Claim, is_blocked, claim, claim_of}
use agent_backend.Queue.Claiming.{UniqueTasks, IsReady, Claimed, claim-Claimed, claim-none_iff}
use agent_backend.Queue.Exclusive.{claim-exclusive}
use agent_backend.Queue.Moves.{expired_ids}
use agent_backend.Tests.Samples.{root_task, other_task, queue, queue_1, queue_2, leased}

abbrev claim_1 : Claim
claim_1 = claim_of (leased 90 20 root_task)

abbrev claim_2 : Claim
claim_2 = claim_of (leased 91 21 other_task)

pub queue-UniqueTasks : UniqueTasks queue
unfolding find
queue-UniqueTasks = (refl, (refl, (refl, tt)))

queue_2-UniqueTasks : UniqueTasks queue_2
unfolding find
queue_2-UniqueTasks = (refl, (refl, (refl, tt)))

pub first_claim : claim "p" "w" 90 20 queue ≡ ok (some claim_1, queue_1)
unfolding claim is_blocked
first_claim = refl

-- The leaf waits for its parent, so that the second claim takes the other task.
pub second_claim : claim "p" "w" 91 21 queue_1 ≡ ok (some claim_2, queue_2)
unfolding claim is_blocked
second_claim = refl

third_claim : claim "p" "w" 92 22 queue_2 ≡ ok (none, queue_2)
unfolding claim is_blocked
third_claim = refl

claim-Claimed_example : Claimed "p" "w" 90 20 queue claim_1 queue_1
claim-Claimed_example =
    claim-Claimed "p" "w" 90 20 queue queue_1 claim_1 queue-UniqueTasks first_claim

claim-none_iff_example :
    (claim "p" "w" 92 22 queue_2 ≡ ok (none, queue_2))
    ↔ ((t : Task) → Among t queue_2.tasks → ¬ IsReady queue_2 "p" t)
claim-none_iff_example = claim-none_iff "p" "w" 92 22 queue_2 queue_2-UniqueTasks

claim-exclusive_example : claim_2.task_id ≢ claim_1.task_id
claim-exclusive_example =
    claim-exclusive "p" "p" "w" "w" 90 91 20 21 queue queue_1 queue_2 claim_1 claim_2
      queue-UniqueTasks first_claim second_claim

-- At 91 the lease of the root is over, and that of the other task is not.
expired_only_root : expired_ids 91 queue_2 ≡ "root" ∷ []
unfolding expired_ids
expired_only_root = refl

-- A store with that queue.
abbrev lent : Store
lent = record {
  queue = queue_2;
  control = record { leases = []; process_registry = []; dead_letters = [] };
}
