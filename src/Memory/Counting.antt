-- ===== src/Memory/Counting.antt =====
-- How much rebuilding the index does (backend/python-daemon/orchestrator/memory/service.py).
use agent_backend.Json.{Json}
use agent_backend.Prelude.{
  refl, ap, Attempt, done, raised, ℕ, zero, suc, ◌+◌, ◌≤◌, String, ◌≡◌, Bool, true, false, some,
  List, [], ◌∷◌, arith, ltb, ◌&&◌, ◌∙◌, length,
}
use agent_backend.Store.Schema.{Time}
use agent_backend.Queue.Listing.{limit_to, order_by}
use agent_backend.Sql.{select}
use agent_backend.Memory.Schema.{MemoryRecord, MemoryDb}
use agent_backend.Memory.Records.{clamp_to, needs_index, in_scope, list_memory_records_for_reindex}
use agent_backend.Memory.Commit.{
  Vectors, Counts, index_one, count_one, reindex_all, rebuild_memory_index_for_project, memory_doc,
}

length-limit_to : {A : Type 0} (n : ℕ) (xs : List A) → length (limit_to n xs) ≤ n
length-limit_to n [] = omega arith
length-limit_to zero (x ∷ xs) = omega arith
length-limit_to (suc n) (x ∷ xs) = omega (arith, length-limit_to n xs)

clamp_to-le : (most limit : ℕ) → 1 ≤ most → clamp_to most limit ≤ most
clamp_to-le most limit h = ground arith

zero_add : (n : ℕ) → 0 + n ≡ n
zero_add n = omega arith

clamp_to-limit : (most limit : ℕ) → 1 ≤ limit → clamp_to most limit ≤ limit
clamp_to-limit most limit h = ground arith

-- How many are true, and how many are false.
unfoldable pub wins : List Bool → ℕ
wins [] = 0
wins (true ∷ bs) = suc (wins bs)
wins (false ∷ bs) = wins bs

unfoldable pub losses : List Bool → ℕ
losses [] = 0
losses (true ∷ bs) = losses bs
losses (false ∷ bs) = suc (losses bs)

abbrev is_done : {A : Type 0} → Attempt A → Bool
is_done (done a) = true
is_done (raised text) = false

module _ (vectors : Vectors) (sha1_hex : String → String) (client_id : String) where
  -- Which of the records the index takes, when they are offered in their order.
  unfoldable pub takes : List MemoryRecord → vectors.Index → List Bool
  takes [] v = []
  takes (r ∷ rs) v =
      let (answer, v') = vectors.upsert_chunks r.project_id r.project_scope_hash (memory_doc r) v in
      is_done answer ∷ takes rs v'

  length-takes : (rs : List MemoryRecord) (v : vectors.Index) → length (takes rs v) ≡ length rs
  unfolding takes
  length-takes [] v = refl
  length-takes (r ∷ rs) v = ap suc (length-takes rs _)

  reindex_one :
      (clock : String → Time) (r : MemoryRecord) (rs : List MemoryRecord)
      (c : Counts vectors sha1_hex client_id) (d : MemoryDb) (x : Attempt Json × vectors.Index)
      → ((c' : Counts vectors sha1_hex client_id) (d' : MemoryDb) (v' : vectors.Index)
          → ((reindex_all vectors sha1_hex client_id clock rs c' d' v').0.indexed_count
              ≡ c'.indexed_count + wins (takes rs v'))
            × ((reindex_all vectors sha1_hex client_id clock rs c' d' v').0.failed_count
                ≡ c'.failed_count + losses (takes rs v')))
      → let one = index_one vectors sha1_hex client_id r (clock r.memory_id) d x in
        let out =
          (reindex_all vectors sha1_hex client_id clock rs
            (count_one vectors sha1_hex client_id one.0 c)
            one.1
            one.2).0 in
        (out.indexed_count ≡ c.indexed_count + wins (is_done x.0 ∷ takes rs x.1))
        × (out.failed_count ≡ c.failed_count + losses (is_done x.0 ∷ takes rs x.1))
  unfolding wins losses
  reindex_one clock r rs c d (done a, v) h =
      let (i, f) = h (record c { indexed_count = c.indexed_count + 1 }) _ v in (i ∙ omega arith, f)
  reindex_one clock r rs c d (raised text, v) h =
      let (i, f) = h (record c { failed_count = c.failed_count + 1 }) _ v in (i, f ∙ omega arith)

  reindex_all-counts :
      (clock : String → Time) (rs : List MemoryRecord) (c : Counts vectors sha1_hex client_id)
      (d : MemoryDb) (v : vectors.Index)
      → ((reindex_all vectors sha1_hex client_id clock rs c d v).0.indexed_count
          ≡ c.indexed_count + wins (takes rs v))
        × ((reindex_all vectors sha1_hex client_id clock rs c d v).0.failed_count
            ≡ c.failed_count + losses (takes rs v))
  unfolding reindex_all takes wins losses
  reindex_all-counts clock [] c d v = (omega arith, omega arith)
  reindex_all-counts clock (r ∷ rs) c d v =
      reindex_one clock r rs c d
        (vectors.upsert_chunks r.project_id r.project_scope_hash (memory_doc r) v)
        (λ c' d' v'. reindex_all-counts clock rs c' d' v')

  -- Rebuilding an index offers each record that it lists once, in their order: the count of the
  -- indexed ones is the number of records that the index takes, the count of the failed ones the
  -- number of those that it refuses, and these are all the listed records. There are at most 500
  -- of them, and at most as many as the limit if this is not zero.
  pub rebuild-counts :
      (clock : String → Time) (scope : String) (limit : ℕ) (d : MemoryDb) (v : vectors.Index)
      → let listed = list_memory_records_for_reindex (some scope) limit d in
        let out =
          (rebuild_memory_index_for_project vectors sha1_hex client_id clock scope limit d v).0 in
        (out.indexed_count ≡ wins (takes listed v))
        × (out.failed_count ≡ losses (takes listed v))
        × (length (takes listed v) ≡ length listed)
        × (length listed ≤ 500)
        × (1 ≤ limit → length listed ≤ limit)
  unfolding rebuild_memory_index_for_project list_memory_records_for_reindex
  rebuild-counts clock scope limit d v =
      let (i, f) =
        reindex_all-counts clock (list_memory_records_for_reindex (some scope) limit d)
          (record { indexed_count = 0; failed_count = 0 }) d v in
      let listed = length-limit_to (clamp_to 500 limit) (
        order_by (λ (a : MemoryRecord) b. ltb b.created_at a.created_at)
          (select (λ r. needs_index r && in_scope (some scope) r) d.memory_records)) in
      (
        i ∙ zero_add _,
        f ∙ zero_add _,
        length-takes (list_memory_records_for_reindex (some scope) limit d) v,
        omega (arith, listed, clamp_to-le 500 limit (omega arith)),
        λ h. omega (arith, listed, clamp_to-limit 500 limit h),
      )
