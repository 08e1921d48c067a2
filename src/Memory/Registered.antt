-- ===== src/Memory/Registered.antt =====
-- What activating a conversation leaves
-- (backend/python-daemon/orchestrator/active_partition/service.py).
use agent_backend.Prelude.{
  ◌⊎◌, [], ◌∷◌, ◌++◌, ℕ, String, ◌≡◌, refl, inl, inr, some, ◌==◌, if◌then◌else◌, Option-cases, ◌∙◌,
  ap, sym, ==-self, Attempt, done, raised,
}
use agent_backend.Sql.{find, find-key}
use agent_backend.Sql.Upsert.{find-upsert}
use agent_backend.Store.Schema.{Time}
use agent_backend.Memory.Schema.{MemoryProject, ActivePartition, ConversationEvent, MemoryDb}
use agent_backend.Memory.Partitions.{
  upsert_memory_project, set_active_partition, get_active_partition, record_conversation_event,
  renew_project, dated,
}
use agent_backend.Memory.Mapper.{Mapping, mapped, unmapped, PartitionMapping, map_conversation}
use agent_backend.Memory.Activation.{
  Service, Activation, activated, refused, crashed, folder_partition, activate_folder,
  activation_of, on_mapping, set_active_from_conversation_path, folder_project,
}
use agent_backend.Memory.Views.{get-set}

abbrev pub scope_of : MemoryProject → String
scope_of p = p.project_scope_hash

-- The project of a partition is in the table of projects.
abbrev pub IsRegistered : ActivePartition → MemoryDb → Type 0
IsRegistered p d =
    (project : MemoryProject) × (find scope_of project.project_scope_hash d.memory_projects
      ≡ some project)
    × (p.active_project_id ≡ some project.project_id)
    × (p.active_project_scope_hash ≡ some project.project_scope_hash)

-- The client has switched to the partition, the others keep theirs, and its project is registered.
abbrev pub Switched : String → ActivePartition → MemoryDb → MemoryDb → Type 0
Switched client_id p d d' =
    ((k : String)
      → get_active_partition k d' ≡ (if client_id == k then some p else get_active_partition k d))
    × IsRegistered p d'

abbrev pub IsKept : MemoryDb → MemoryDb → Type 0
IsKept d d' = (k : String) → get_active_partition k d' ≡ get_active_partition k d

-- The outcome of an activation from the database `d`, by the service of the client.
abbrev pub IsActivation : String → MemoryDb → Activation × MemoryDb → Type 0
IsActivation client_id d (activated p, d') =
    Switched client_id p d d'
    × (e : ConversationEvent) × (d'.conversation_events ≡ d.conversation_events ++ e ∷ [])
IsActivation client_id d (refused status path, d') = d' ≡ d
IsActivation client_id d (crashed text, d') =
    (d'.conversation_events ≡ d.conversation_events)
    × (IsKept d d' ⊎ ((p : ActivePartition) × Switched client_id p d d'))

module _ (s : Service) (m : PartitionMapping) (ev : String) (now : ℕ → Time) (d : MemoryDb) where
  -- The database after the first transaction, and after the second.
  abbrev with_project : MemoryDb
  with_project = upsert_memory_project (folder_project s m now) (now 0) (now 1) d

  abbrev partition : ActivePartition
  partition = folder_partition s m ev (now 2)

  abbrev with_partition : MemoryDb
  with_partition = set_active_partition partition with_project

  with_project-IsKept : IsKept d with_project
  unfolding upsert_memory_project get_active_partition
  with_project-IsKept k = refl

  registered :
      (project : MemoryProject) × (find scope_of m.project_scope_hash with_partition.memory_projects
        ≡ some project)
      × (m.project_id ≡ project.project_id)
      × (m.project_scope_hash ≡ project.project_scope_hash)
  unfolding set_active_partition upsert_memory_project
  registered =
      let new = dated (folder_project s m now) (now 0) (now 1) in
      let found =
        find-upsert scope_of renew_project new m.project_scope_hash d.memory_projects (λ x. refl) in
      elim (Option-cases (find scope_of m.project_scope_hash d.memory_projects)) [
        | inl e ↦ (new, found ∙ rw (==-self m.project_scope_hash, e) refl, refl, refl)
        | inr (old, e) ↦
            let same = find-key scope_of m.project_scope_hash d.memory_projects e in
            (
              renew_project old new,
              found ∙ rw (==-self m.project_scope_hash, e) refl,
              refl,
              sym same,
            )
      ]

  with_partition-Switched : Switched s.client_id partition d with_partition
  with_partition-Switched =
      let (project, found, same_id, same_scope) = registered in
      (
        λ k.
            get-set partition with_project k
            ∙ ap (λ o. if s.client_id == k then some partition else o) (with_project-IsKept k),
        (project, rw (← same_scope) found, ap some same_id, ap some same_scope),
      )

  events_kept : with_partition.conversation_events ≡ d.conversation_events
  unfolding upsert_memory_project set_active_partition
  events_kept = refl

  activate_folder-IsActivation :
      IsActivation s.client_id d (activation_of partition (activate_folder s m ev now d))
  unfolding activate_folder upsert_memory_project set_active_partition record_conversation_event
      get_active_partition
  activate_folder-IsActivation = elim (Option-cases (s.fault 0)) [
    | inr (text, e) ↦ rw (e) (refl, inl (λ k. refl))
    | inl e ↦ elim (Option-cases (s.fault 1)) [
      | inr (text, f) ↦ rw (e, f) (refl, inl (with_project-IsKept))
      | inl f ↦ elim (Option-cases (s.fault 2)) [
        | inr (text, g) ↦ rw (e, f, g) (events_kept, inr (partition, with_partition-Switched))
        | inl g ↦ rw (e, f, g) (with_partition-Switched, _, refl)
      ]
    ]
  ]

on_mapping-IsActivation :
    (s : Service) (ev : String) (now : ℕ → Time) (d : MemoryDb) (r : Attempt Mapping)
    → IsActivation s.client_id d (on_mapping s ev now d r)
on_mapping-IsActivation s ev now d (raised text) = (refl, inl (λ k. refl))
on_mapping-IsActivation s ev now d (done (unmapped status p)) = refl
on_mapping-IsActivation s ev now d (done (mapped m)) = activate_folder-IsActivation s m ev now d

-- If setting the active conversation succeeds, the client's active partition is the returned one,
-- the other clients keep theirs, the project of the partition is registered under its scope, and
-- one event is recorded; if it is refused, the database is as before. If it raises, in whichever
-- of its transactions, no event is recorded, and either every client keeps its partition, or only
-- this client has switched, to a partition whose project is registered.
pub set_active-IsActivation :
    (s : Service) (path ev : String) (now : ℕ → Time) (d : MemoryDb)
    → IsActivation s.client_id d (set_active_from_conversation_path s path ev now d)
unfolding set_active_from_conversation_path
set_active-IsActivation s path ev now d =
    on_mapping-IsActivation s ev now d (map_conversation s.outside s.conversations_root path)
