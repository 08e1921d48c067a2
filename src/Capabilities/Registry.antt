-- ===== src/Capabilities/Registry.antt =====
-- `CapabilityRegistry`
-- (backend/python-daemon/orchestrator/capabilities/registry.py).
use Prim.Native.String.{compare}
use Prim.Native.Nat.{Ordering}
use agent_backend.Prelude.{
  String, Bool, true, false, ◌&&◌, Option, none, some, List, [], ◌∷◌, map, ◌==◌, any, elem,
  if◌then◌else◌,
}
use agent_backend.Sql.{find, select, update, delete}
use agent_backend.Sql.Upsert.{upsert}
use agent_backend.Store.Schema.{Time}
use agent_backend.Queue.Listing.{order_by}
use agent_backend.Capabilities.Models.{
  CapabilityType, same_type, CapabilityManifest, valid_statuses, ManifestError,
  validate_capability_manifest,
}

-- A row of capability_manifests. `manifest_json` is kept decoded; the columns that repeat a field
-- of it, and that only the filters of SELECT read, are capability_type and status.
pub record Row : Type 0 where
  pub capability_id : String
  pub capability_type : CapabilityType
  pub manifest_json : CapabilityManifest
  pub status : String
  pub created_at : Time
  pub updated_at : Time

abbrev pub row_key : Row → String
row_key r = r.capability_id

abbrev pub row_of : CapabilityManifest → Time → Row
row_of m now = record {
  capability_id = m.capability_id;
  capability_type = m.capability_type;
  manifest_json = m;
  status = m.status;
  created_at = now;
  updated_at = now;
}

-- DO UPDATE SET: all but the key and the creation date.
abbrev pub renew_row : Row → Row → Row
renew_row old new = record new { capability_id = old.capability_id; created_at = old.created_at }

-- CapabilitySchemaError, by the errors that were found; the TypeError of json.dumps; or the new rows.
pub data Upserted : Type 0 where
  invalid : List ManifestError → Upserted
  not_json : String → Upserted
  stored : List Row → Upserted

abbrev pub store_json : Option String → CapabilityManifest → Time → List Row → Upserted
store_json none m now rows = stored (upsert row_key renew_row (row_of m now) rows)
store_json (some e) m now rows = not_json e

abbrev pub store_valid :
    Option String → List ManifestError → CapabilityManifest → Time → List Row → Upserted
store_valid dumps_error [] m now rows = store_json dumps_error m now rows
store_valid dumps_error (e ∷ es) m now rows = invalid (e ∷ es)

-- `dumps_error` is the text of what json.dumps raises on a manifest, if it does.
unfoldable pub upsert_manifest :
    (CapabilityManifest → Option String) → CapabilityManifest → Time → List Row → Upserted
unfolding validate_capability_manifest upsert
upsert_manifest dumps_error m now rows =
    store_valid (dumps_error m) (validate_capability_manifest m) m now rows

-- `_row_to_manifest`
abbrev pub row_to_manifest : Row → CapabilityManifest
row_to_manifest r = record r.manifest_json { status = r.status }

unfoldable pub get_capability : String → List Row → Option CapabilityManifest
unfolding find
get_capability capability_id rows = elim (find row_key capability_id rows) [
  | none ↦ none
  | some r ↦ some (row_to_manifest r)
]

abbrev pub type_matches : Option CapabilityType → Row → Bool
type_matches none r = true
type_matches (some t) r = same_type r.capability_type t

abbrev pub status_matches : Option String → Row → Bool
status_matches none r = true
status_matches (some s) r = r.status == s

-- Whether `a` stands behind `b` in ORDER BY capability_id.
abbrev pub id_behind : Row → Row → Bool
id_behind a b = elim (compare a.capability_id b.capability_id) [ Ordering.gt ↦ true | _ ↦ false ]

abbrev pub status_known : Option String → Bool
status_known none = true
status_known (some s) = elem s valid_statuses

unfoldable pub list_all : Option CapabilityType → Option String → List Row → List CapabilityManifest
unfolding select elem
list_all capability_type status rows =
    let found = map row_to_manifest (
      order_by id_behind
        (select (λ r. type_matches capability_type r && status_matches status r) rows)) in
    if status_known status then found else []

-- UPDATE … SET status = ?, updated_at = ? WHERE capability_id = ?, and `rowcount > 0`.
unfoldable pub set_status : String → String → Time → List Row → Bool × List Row
unfolding any update
set_status status capability_id now rows = (
  any (λ r. r.capability_id == capability_id) rows,
  update (λ r. r.capability_id == capability_id)
      (λ r. record r { status = status; updated_at = now }) rows,
)

-- `reason` is not stored.
abbrev pub quarantine : String → String → Time → List Row → Bool × List Row
quarantine capability_id reason now rows = set_status "quarantined" capability_id now rows

abbrev pub disable : String → Time → List Row → Bool × List Row
disable capability_id now rows = set_status "disabled" capability_id now rows

abbrev pub enable : String → Time → List Row → Bool × List Row
enable capability_id now rows = set_status "verified" capability_id now rows

unfoldable pub delete_capability : String → List Row → Bool × List Row
unfolding any delete
delete_capability capability_id rows = (
  any (λ r. r.capability_id == capability_id) rows,
  delete (λ r. r.capability_id == capability_id) rows,
)
