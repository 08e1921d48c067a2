-- ===== src/Memory/Views.antt =====
-- The table active_partitions as a map from clients to partitions
-- (backend/python-daemon/orchestrator/active_partition/repo.py).
use agent_backend.Prelude.{
  String, ◌≡◌, refl, inl, inr, Option, none, some, List, [], ◌∷◌, ◌==◌, eq_iff, if◌then◌else◌,
  Bool-cases, Option-cases, ◌∙◌, ap, sym,
}
use agent_backend.Sql.{find-key}
use agent_backend.Sql.Upsert.{find-upsert, find-delete}
use agent_backend.Memory.Schema.{ActivePartition, MemoryDb}
use agent_backend.Memory.Partitions.{
  client, renew_partition, set_active_partition, get_active_partition, clear_active_partition,
}

-- What a client of the repository may ask to be changed.
pub data Command : Type 0 where
  set : ActivePartition → Command
  clear : String → Command

unfoldable pub perform : Command → MemoryDb → MemoryDb
unfolding set_active_partition clear_active_partition
perform (set p) d = set_active_partition p d
perform (clear client_id) d = clear_active_partition client_id d

unfoldable pub perform_all : List Command → MemoryDb → MemoryDb
unfolding perform
perform_all [] d = d
perform_all (c ∷ cs) d = perform_all cs (perform c d)

-- The specification: a map, which a command changes at one client.
abbrev pub View : Type 0
View = String → Option ActivePartition

abbrev pub change : Command → View → View
change (set p) v k = if p.client_id == k then some p else v k
change (clear client_id) v k = if client_id == k then none else v k

abbrev pub change_all : List Command → View → View
change_all [] v = v
change_all (c ∷ cs) v = change_all cs (change c v)

renew_self : (p old : ActivePartition) → client old ≡ p.client_id → renew_partition old p ≡ p
renew_self p old same = ap (λ (k : String). record p { client_id = k }) same

pub get-set :
    (p : ActivePartition) (d : MemoryDb) (k : String)
    → get_active_partition k (set_active_partition p d)
      ≡ (if p.client_id == k then some p else get_active_partition k d)
unfolding get_active_partition set_active_partition
get-set p d k =
    find-upsert client renew_partition p k d.active_partitions (λ x. refl)
    ∙ elim (Option-cases (get_active_partition k d)) [
      | inl e ↦ rw (e, get_active_partition) refl
      | inr (old, e) ↦ elim (Bool-cases (p.client_id == k)) [
        | inl s ↦
            rw
              (
                e,
                s,
                get_active_partition,
                renew_self p old
                    (find-key client k d.active_partitions e ∙ sym ((eq_iff p.client_id k).0 s)),
              )
              refl
        | inr s ↦ rw (s) refl
      ]
    ]

get-clear :
    (client_id : String) (d : MemoryDb) (k : String)
    → get_active_partition k (clear_active_partition client_id d)
      ≡ (if client_id == k then none else get_active_partition k d)
unfolding get_active_partition clear_active_partition
get-clear client_id d k = find-delete client client_id k d.active_partitions

perform-change :
    (c : Command) (d : MemoryDb) (v : View)
    → ((k : String) → get_active_partition k d ≡ v k)
    → (k : String) → get_active_partition k (perform c d) ≡ change c v k
unfolding perform
perform-change (set p) d v h k = get-set p d k ∙ rw (h k) refl
perform-change (clear client_id) d v h k = get-clear client_id d k ∙ rw (h k) refl

change_all-from :
    (cs : List Command) (d : MemoryDb) (v : View)
    → ((k : String) → get_active_partition k d ≡ v k)
    → (k : String) → get_active_partition k (perform_all cs d) ≡ change_all cs v k
unfolding perform_all
change_all-from [] d v h k = h k
change_all-from (c ∷ cs) d v h k =
    change_all-from cs (perform c d) (change c v) (perform-change c d v h) k

-- After any sequence of calls of set_active_partition and clear_active_partition,
-- get_active_partition returns for each client what a map from clients to partitions would hold
-- after the same assignments and removals.
pub perform_all-refines :
    (cs : List Command) (d : MemoryDb) (k : String)
    → get_active_partition k (perform_all cs d) ≡ change_all cs (λ j. get_active_partition j d) k
perform_all-refines cs d k = change_all-from cs d (λ j. get_active_partition j d) (λ j. refl) k
