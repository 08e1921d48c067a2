-- ===== src/Capabilities/Rows.antt =====
-- What the registry finds after a manifest is stored.
use agent_backend.Prelude.{
  String, ◌≡◌, ◌≢◌, refl, sym, ap, ◌∙◌, inl, inr, Bool, true, false, Option, none, some, List, [],
  ◌==◌, elem, if◌then◌else◌, ==-of_ne, Option-cases,
}
use agent_backend.Sql.{find}
use agent_backend.Sql.Upsert.{upsert, find-upsert, merged}
use agent_backend.Store.Schema.{Time}
use agent_backend.Capabilities.Models.{
  CapabilityManifest, validate_capability_manifest, valid_risk_tiers, valid_statuses,
}
use agent_backend.Capabilities.Registry.{
  Row, row_key, row_of, renew_row, row_to_manifest, stored, upsert_manifest, get_capability,
}

-- The manifest of a row that may be there.
abbrev manifest_in : Option Row → Option CapabilityManifest
manifest_in none = none
manifest_in (some r) = some (row_to_manifest r)

get_capability-find :
    (k : String) (rows : List Row) → get_capability k rows ≡ manifest_in (find row_key k rows)
unfolding get_capability
get_capability-find k rows = elim (Option-cases (find row_key k rows)) [
  | inl e ↦ rw (e, get_capability)
  | inr (r, e) ↦ rw (e, get_capability)
]

manifest_in-merged :
    (m : CapabilityManifest) (now : Time) (b : Bool) (o : Option Row)
    → manifest_in (if b then some (merged row_key renew_row (row_of m now) o) else o)
      ≡ (if b then some m else manifest_in o)
manifest_in-merged m now true none = refl
manifest_in-merged m now true (some r) = refl
manifest_in-merged m now false o = refl

-- A valid manifest that json.dumps takes is stored, and found under its id.
pub upsert_manifest-valid :
    (dumps_error : CapabilityManifest → Option String) (m : CapabilityManifest) (now : Time)
    (rows : List Row)
    → validate_capability_manifest m ≡ []
    → dumps_error m ≡ none
    → (rows' : List Row) × (upsert_manifest dumps_error m now rows ≡ stored rows')
      × ((k : String)
          → get_capability k rows'
            ≡ (if m.capability_id == k then some m else get_capability k rows))
unfolding upsert_manifest
upsert_manifest-valid dumps_error m now rows valid dumps =
    let rows' = upsert row_key renew_row (row_of m now) rows in
    (
      rows',
      rw (valid, dumps) refl,
      λ k.
          get_capability-find k rows'
          ∙ ap manifest_in (find-upsert row_key renew_row (row_of m now) k rows (λ x. refl))
          ∙ manifest_in-merged m now (m.capability_id == k) (find row_key k rows)
          ∙ ap (λ o. if m.capability_id == k then some m else o) (sym (get_capability-find k rows)),
    )

pub validate-nil :
    (m : CapabilityManifest)
    → m.capability_id ≢ ""
    → m.version ≢ ""
    → elem m.risk_tier valid_risk_tiers ≡ true
    → elem m.status valid_statuses ≡ true
    → validate_capability_manifest m ≡ []
unfolding validate_capability_manifest
validate-nil m i v r s = rw (==-of_ne m.capability_id "" i, ==-of_ne m.version "" v, r, s) refl
