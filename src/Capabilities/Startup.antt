-- ===== src/Capabilities/Startup.antt =====
-- The import at startup, and the policy that reads what it has stored.
use text.Mathlib.TextLemmas.{append_cancel_left, append-eq-nil_iff}
use agent_backend.Prelude.{
  String, ◌≡◌, ◌≢◌, refl, sym, ap, ◌∙◌, subst, ◌↔◌, inl, inr, Bool, true, false, ◌&&◌, Option, none,
  some, List, [], ◌∷◌, arith, ◌==◌, eq_iff, elem, any, if◌then◌else◌, ==-self, ==-of_ne, Bool-cases,
  Attempt, done, raised,
}
use agent_backend.Json.{Json, null, bool, num, str, arr, obj, Fields}
use agent_backend.Store.Schema.{Time}
use agent_backend.Pipeline.Models.{PipelineDefinition, CompiledPlan, Outcome}
use agent_backend.Pipeline.Compiler.{compile}
use agent_backend.Pipeline.Loader.{Templates, Loading, loaded, refused, load, list_templates}
use agent_backend.Policy.Capabilities.{
  enforce_capability_policy, capability_of, check_pipeline_policy,
}
use agent_backend.Capabilities.Models.{
  CapabilityManifest, validate_capability_manifest, valid_statuses,
}
use agent_backend.Capabilities.Registry.{Row, get_capability}
use agent_backend.Capabilities.Rows.{upsert_manifest-valid, validate-nil}
use agent_backend.Capabilities.Loader.{
  Messages, startup_vars, Checked, Import, finished, status_after, counted, compile_error,
  load_error, check_raw, check_template, manifest_of, import_all, import_pipeline_templates,
}

capability_of_inj : (a b : String) → capability_of a ≡ capability_of b → a ≡ b
capability_of_inj a b e = append_cancel_left "pipeline." a b e

capability_of-ne : (a : String) → capability_of a ≢ ""
capability_of-ne a e =
    let parts = (append-eq-nil_iff {p = "pipeline."} {q = a}).0 e in absurd (cc (parts.0))

if_true : {A : Type 0} (b : Bool) (x y : A) → b ≡ true → (if b then x else y) ≡ x
if_true true x y h = refl
if_true false x y h = absurd (cc)

status_after-known : (o : Option String) → elem (status_after o) valid_statuses ≡ true
unfolding elem any
status_after-known none = refl
status_after-known (some e) = refl

module _ (t : Templates) (messages : Messages) (allowed_tools : Option (List String)) where
  abbrev pub stored_for : String → CapabilityManifest
  stored_for id =
      manifest_of t messages allowed_tools id (check_template t messages allowed_tools id)

  -- What the registry has under a key after the import of the ids, from what it had.
  abbrev pub expected : List String → String → Option CapabilityManifest → Option CapabilityManifest
  expected [] k o = o
  expected (id ∷ ids) k o =
      expected ids k (if t.exists id && capability_of id == k then some (stored_for id) else o)

  stored_for-valid :
      (id : String)
      → (stored_for id).version ≢ ""
      → validate_capability_manifest (stored_for id) ≡ []
  stored_for-valid id v =
      validate-nil (stored_for id) (capability_of-ne id) v (unfold elem any in refl)
        (status_after-known (check_template t messages allowed_tools id).validation_error)

  -- The version is not empty, and json.dumps takes the manifest.
  abbrev pub IsStorable : String → Type 0
  IsStorable id = ((stored_for id).version ≢ "") × (messages.dumps_error (stored_for id) ≡ none)

  import_all-outcome :
      (clock : String → Time) (ids : List String) (i : Import) (rows : List Row)
      → ((id : String) → elem id ids ≡ true → IsStorable id)
      → (i' : Import) × (rows' : List Row) × (import_all t messages allowed_tools clock ids i rows
          ≡ (finished i', rows'))
        × ((k : String) → get_capability k rows' ≡ expected ids k (get_capability k rows))
  unfolding import_all
  import_all-outcome clock [] i rows v = (i, rows, refl, λ k. refl)
  import_all-outcome clock (id ∷ ids) i rows v =
      let later : (j : String) → elem j ids ≡ true → IsStorable j =
        λ j m. v j (unfold elem any in ground (arith, m)) in
      elim (Bool-cases (t.exists id)) [
        | inr e ↦
            let (i', rows', run, found) = import_all-outcome clock ids i rows later in
            (i', rows', rw e run, λ k. rw e (found k))
        | inl e ↦
            let c : Checked = check_template t messages allowed_tools id in
            let (rows1, put, got) =
              let this = v id (unfold elem any in rw (==-self id) refl) in
              upsert_manifest-valid messages.dumps_error (stored_for id) (clock id) rows
                (stored_for-valid id this.0) this.1 in
            let (i', rows', run, found) =
              import_all-outcome clock ids (counted id c.validation_error i) rows1 later in
            (i', rows', rw (e, put) run, λ k. found k ∙ rw e (ap (λ o. expected ids k o) (got k)))
      ]

  -- What is under the key of no listed id stays.
  expected_kept :
      (ids : List String) (k : String) (o : Option CapabilityManifest)
      → ((id : String) → elem id ids ≡ true → capability_of id ≢ k)
      → expected ids k o ≡ o
  unfolding elem any
  expected_kept [] k o h = refl
  expected_kept (j ∷ ids) k o h =
      let off = ==-of_ne (capability_of j) k (h j (rw (==-self j) refl)) in
      let here : (if t.exists j && capability_of j == k then some (stored_for j) else o) ≡ o =
        ground (arith, off) in
      ap (λ x. expected ids k x) here ∙ expected_kept ids k o (λ id m. h id (ground (arith, m)))

  -- A template that the import finds is stored under its id.
  expected_listed :
      (ids : List String) (id : String) (o : Option CapabilityManifest)
      → elem id ids ≡ true
      → t.exists id ≡ true
      → expected ids (capability_of id) o ≡ some (stored_for id)
  unfolding elem any
  expected_listed [] id o m x = absurd (cc)
  expected_listed (j ∷ ids) id o m x = elim (Bool-cases (elem id ids)) [
    | inl e ↦ expected_listed ids id _ e x
    | inr e ↦
        let same : j ≡ id = (eq_iff j id).0 (ground (arith, m, e)) in
        subst
          (λ k.
            expected ids (capability_of id)
              (if t.exists k && capability_of k == capability_of id then some (stored_for k) else o)
            ≡ some (stored_for id))
          (sym same)
          (rw (x, ==-self (capability_of id))
            (expected_kept ids (capability_of id) (some (stored_for id)) (λ i mi p.
              absurd (cc (e, subst (λ y. elem y ids ≡ true) (capability_of_inj i id p) mi)))))
  ]

  -- A template that is read as a mapping, loaded and compiled with the startup's variables.
  pub record StartsUp (id : String) : Type 0 where
    pub raw : Fields
    pub definition : PipelineDefinition
    pub plan : CompiledPlan
    pub read : t.read id ≡ done (obj raw)
    pub loads : load t id ≡ loaded definition
    pub compiles : compile allowed_tools definition startup_vars ≡ Outcome.done plan

  load_error-StartsUp :
      (id : String) (raw : Fields) (d : PipelineDefinition) (o : Outcome CompiledPlan)
      → t.read id ≡ done (obj raw)
      → load t id ≡ loaded d
      → compile allowed_tools d startup_vars ≡ o
      → compile_error t messages allowed_tools o ≡ none
      → StartsUp id
  load_error-StartsUp id raw d (Outcome.done plan) r l c h = record {
    raw = raw;
    definition = d;
    plan = plan;
    read = r;
    loads = l;
    compiles = c;
  }
  load_error-StartsUp id raw d (Outcome.failed e) r l c h = absurd (cc)

  check_raw-StartsUp :
      (id : String) (raw : Fields) (m : Loading PipelineDefinition)
      → t.read id ≡ done (obj raw)
      → load t id ≡ m
      → load_error t messages allowed_tools m ≡ none
      → StartsUp id
  check_raw-StartsUp id raw (loaded d) r l h =
      load_error-StartsUp id raw d (compile allowed_tools d startup_vars) r l refl h
  check_raw-StartsUp id raw (refused e) r l h = absurd (cc)

  check-StartsUp :
      (id : String) (a : Attempt Json)
      → t.read id ≡ a
      → (check_raw t messages allowed_tools id a).validation_error ≡ none
      → StartsUp id
  check-StartsUp id (raised e) r h = absurd (cc)
  check-StartsUp id (done (obj raw)) r h = check_raw-StartsUp id raw (load t id) r refl h
  check-StartsUp id (done null) r h = absurd (cc)
  check-StartsUp id (done (bool b)) r h = absurd (cc)
  check-StartsUp id (done (num n)) r h = absurd (cc)
  check-StartsUp id (done (str s)) r h = absurd (cc)
  check-StartsUp id (done (arr vs)) r h = absurd (cc)

  StartsUp-check :
      (id : String)
      → StartsUp id
      → (check_template t messages allowed_tools id).validation_error ≡ none
  unfolding check_template
  StartsUp-check id s = rw (s.read, s.loads, s.compiles) refl

  -- The policy on a manifest that the import has stored.
  enforce_stored :
      (id : String) (o : Option String)
      → (check_template t messages allowed_tools id).validation_error ≡ o
      → (enforce_capability_policy (stored_for id) ≡ none) ↔ (o ≡ none)
  unfolding enforce_capability_policy elem any
  enforce_stored id none e =
      let same =
        ap (λ o. enforce_capability_policy (record (stored_for id) { status = status_after o }))
          e in
      (λ h. refl, λ h. same)
  enforce_stored id (some x) e =
      let same =
        ap (λ o. enforce_capability_policy (record (stored_for id) { status = status_after o }))
          e in
      (λ h. absurd (cc (same, h)), λ h. absurd (cc (h)))

  policy_found :
      (id : String) (rows : List Row) (m : CapabilityManifest)
      → get_capability (capability_of id) rows ≡ some m
      → check_pipeline_policy id (some (λ k. get_capability k rows)) ≡ enforce_capability_policy m
  unfolding check_pipeline_policy
  policy_found id rows m e = rw (e, check_pipeline_policy)

  policy-StartsUp :
      (id : String) (rows : List Row)
      → get_capability (capability_of id) rows ≡ some (stored_for id)
      → (check_pipeline_policy id (some (λ k. get_capability k rows)) ≡ none) ↔ StartsUp id
  unfolding check_template
  policy-StartsUp id rows e =
      let same = policy_found id rows (stored_for id) e in
      let c =
        enforce_stored id (check_template t messages allowed_tools id).validation_error refl in
      (
        λ h. check-StartsUp id (t.read id) refl (c.0 (sym same ∙ h)),
        λ s. same ∙ c.1 (StartsUp-check id s),
      )

  -- If the directory is there, and no listed template has an empty version or a value that
  -- json.dumps does not take, the import at startup ends without an exception. Then the policy lets a listed template pass exactly if it was read as
  -- a mapping, loaded, and compiled with the variables of the startup, whatever the registry had
  -- before; and what is under the key of no listed template stays as it was.
  pub import-policy :
      (clock : String → Time) (rows : List Row)
      → t.is_dir ≡ true
      → ((id : String) → elem id (list_templates t) ≡ true → IsStorable id)
      → (i : Import) × (rows' : List Row) × (import_pipeline_templates t messages allowed_tools
            clock rows
          ≡ (finished i, rows'))
        × ((id : String)
            → elem id (list_templates t) ≡ true
            → t.exists id ≡ true
            → (check_pipeline_policy id (some (λ k. get_capability k rows')) ≡ none) ↔ StartsUp id)
        × ((k : String)
            → ((id : String) → elem id (list_templates t) ≡ true → capability_of id ≢ k)
            → get_capability k rows' ≡ get_capability k rows)
  unfolding import_pipeline_templates
  import-policy clock rows there versions =
      let (i, rows', run, found) =
        import_all-outcome clock (list_templates t)
          (record { imported = 0; quarantined = 0; errors = [] }) rows versions in
      (
        i,
        rows',
        if_true t.is_dir _ _ there ∙ run,
        λ id m x.
            policy-StartsUp id rows'
              (found (capability_of id) ∙ expected_listed (list_templates t) id _ m x),
        λ k off. found k ∙ expected_kept (list_templates t) k (get_capability k rows) off,
      )
