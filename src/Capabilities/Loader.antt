-- ===== src/Capabilities/Loader.antt =====
-- `CapabilityLoader`, with a loader and a compiler of pipelines, as the daemon starts it
-- (backend/python-daemon/orchestrator/capabilities/loader.py).
use Prim.Native.String.{◌++◌ as ◌++ˢ◌}
use agent_backend.Prelude.{
  ℕ, suc, String, Bool, true, false, Option, none, some, List, [], ◌∷◌, ◌++◌, ◌==◌, if◌then◌else◌,
  Attempt, done, raised, take_text,
}
use agent_backend.Json.{Json, bool, str, obj, Fields, end, field, get}
use agent_backend.Store.Schema.{Time}
use agent_backend.Workflow.Compaction.{text_of, get_or}
use agent_backend.Pipeline.Models.{PipelineDefinition, CompileError, CompiledPlan, Outcome}
use agent_backend.Pipeline.Compiler.{compile}
use agent_backend.Pipeline.Loader.{
  Templates, LoadError, Loading, loaded, refused, load, list_templates,
}
use agent_backend.Capabilities.Models.{
  CapabilityManifest, adapter, pipeline_template, ManifestError,
}
use agent_backend.Capabilities.Registry.{Row, Upserted, invalid, not_json, stored, upsert_manifest}

-- The texts of the exceptions; json.dumps raises one on a manifest with a value that JSON lacks,
-- such as a date of YAML.
pub record Messages : Type 0 where
  pub dumps_error : CapabilityManifest → Option String
  pub load_message : LoadError → String
  pub compile_message : CompileError → String

abbrev pub startup_vars : List (String × String)
startup_vars =
    ("objective", "startup validation")
    ∷ ("target_repo", "/__startup_validation__")
    ∷ ("profile", "safe")
    ∷ ("session_path", "/__session__")
    ∷ ("max_chars", "2000")
    ∷ []

-- What the `try` block leaves: `raw`, and the text of its exception.
pub record Checked : Type 0 where
  pub raw : Fields
  pub validation_error : Option String

-- The counters and the list of errors.
pub record Import : Type 0 where
  pub imported : ℕ
  pub quarantined : ℕ
  pub errors : List String

-- The dict that is returned, or the exception of the registry.
pub data ImportEnd : Type 0 where
  finished : Import → ImportEnd
  schema_error : List ManifestError → ImportEnd
  type_error : String → ImportEnd

abbrev pub status_after : Option String → String
status_after none = "verified"
status_after (some e) = "quarantined"

abbrev pub is_executable : Option String → Bool
is_executable none = true
is_executable (some e) = false

abbrev pub error_entry : Option String → Fields
error_entry none = end
error_entry (some e) = if e == "" then end else field "validation_error" (str (take_text 500 e)) end

abbrev pub counted : String → Option String → Import → Import
counted id none i = record i { imported = suc i.imported }
counted id (some e) i = record i {
  quarantined = suc i.quarantined;
  errors = i.errors ++ (id ++ˢ (": " ++ˢ e)) ∷ [];
}

module _ (t : Templates) (messages : Messages) (allowed_tools : Option (List String)) where
  abbrev pub compile_error : Outcome CompiledPlan → Option String
  compile_error (Outcome.done plan) = none
  compile_error (Outcome.failed e) = some (messages.compile_message e)

  abbrev pub load_error : Loading PipelineDefinition → Option String
  load_error (loaded d) = compile_error (compile allowed_tools d startup_vars)
  load_error (refused e) = some (messages.load_message e)

  abbrev pub check_raw : String → Attempt Json → Checked
  check_raw id (raised e) = record { raw = end; validation_error = some e }
  check_raw id (done (obj raw)) = record { raw = raw; validation_error = load_error (load t id) }
  check_raw id (done _) = record { raw = end; validation_error = some "not a YAML mapping" }

  -- The `try` block.
  unfoldable pub check_template : String → Checked
  unfolding load compile
  check_template id = check_raw id (t.read id)

  abbrev pub manifest_of : String → Checked → CapabilityManifest
  manifest_of id c = record {
    capability_id = "pipeline." ++ˢ id;
    capability_type = pipeline_template;
    version = text_of t.show (get_or "version" (str "0.0.0") c.raw);
    name = text_of t.show (get_or "name" (str id) c.raw);
    description = text_of t.show (get_or "description" (str "") c.raw);
    risk_tier = "T1";
    requires_approval = false;
    network_access = false;
    writes_external_state = false;
    metadata = field "pipeline_id" (get_or "pipeline_id" (str id) c.raw) (
        field "executable" (bool (is_executable c.validation_error))
          (error_entry c.validation_error));
    status = status_after c.validation_error;
    source_path = none;
  }

  abbrev pub after_upsert :
      Upserted
      → Import
      → List Row
      → (Import → List Row → ImportEnd × List Row)
      → ImportEnd × List Row
  after_upsert (invalid es) i rows next = (schema_error es, rows)
  after_upsert (not_json e) i rows next = (type_error e, rows)
  after_upsert (stored rows') i rows next = next i rows'

  -- The loop over the ids.
  unfoldable pub import_all :
      (String → Time) → List String → Import → List Row → ImportEnd × List Row
  unfolding check_template upsert_manifest get
  import_all clock [] i rows = (finished i, rows)
  import_all clock (id ∷ ids) i rows =
      let c : Checked = check_template id in
      let skipped : ImportEnd × List Row = import_all clock ids i rows in
      let upserted : ImportEnd × List Row =
        after_upsert (upsert_manifest messages.dumps_error (manifest_of id c) (clock id) rows)
          (counted id c.validation_error i) rows (import_all clock ids) in
      if t.exists id then upserted else skipped

  unfoldable pub import_pipeline_templates : (String → Time) → List Row → ImportEnd × List Row
  unfolding import_all list_templates
  import_pipeline_templates clock rows =
      let none_yet : Import = record { imported = 0; quarantined = 0; errors = [] } in
      let all : ImportEnd × List Row = import_all clock (list_templates t) none_yet rows in
      if t.is_dir then all else (finished none_yet, rows)

-- `register_adapter`, with every argument given.
abbrev pub adapter_manifest :
    (capability_id name description version risk_tier : String)
    → (requires_approval network_access writes_external_state : Bool) → Option String
    → Option Fields
    → CapabilityManifest
adapter_manifest capability_id name description version risk_tier requires_approval network_access
      writes_external_state source_path metadata =
    record {
      capability_id = capability_id;
      capability_type = adapter;
      version = version;
      name = name;
      description = description;
      risk_tier = risk_tier;
      requires_approval = requires_approval;
      network_access = network_access;
      writes_external_state = writes_external_state;
      metadata = elim metadata [ none ↦ end | some fs ↦ fs ];
      status = "verified";
      source_path = source_path;
    }
