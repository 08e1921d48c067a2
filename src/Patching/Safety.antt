-- ===== src/Patching/Safety.antt =====
-- When a patch touches anything (backend/python-daemon/orchestrator/patching/apply.py).
use agent_backend.Prelude.{String, ◌≡◌, refl, ◌⊎◌, inl, inr, List, Attempt}
use agent_backend.Memory.Commit.{Vectors}
use agent_backend.Patching.Os.{Os}
use agent_backend.Patching.Authorize.{
  Ready, Checked, stopped, crashed, ready, check_patch, IsAuthorized,
}
use agent_backend.Patching.Authorized.{check_patch-IsAuthorized}
use agent_backend.Patching.Apply.{World, ApplyService, apply_checked, apply_approved_patch}
use agent_backend.Patching.Outcomes.{CallDraws, Outcome}

module _ (os : Os) (vectors : Vectors) where
  -- Nothing has changed, or the stored bytes of the patch are those of an approval.
  abbrev pub IsUntouchedOrAuthorized :
      List String
      → String
      → String
      → String
      → World os vectors
      → Attempt Outcome × World os vectors
      → Type 0
  IsUntouchedOrAuthorized roots repo patch_id approval_id w (r, w') =
      (w' ≡ w)
      ⊎ ((a : Ready os) × IsAuthorized os roots repo w.place.disk patch_id approval_id w.place.db a)

  by_check :
      (service : ApplyService os vectors) (draws : CallDraws) (repo patch_id approval_id : String)
      (w : World os vectors) (c : Checked os)
      → check_patch os service.allowed_roots repo w.place.disk patch_id approval_id w.place.db ≡ c
      → IsUntouchedOrAuthorized service.allowed_roots repo patch_id approval_id w
          (apply_checked os vectors service draws repo approval_id c w)
  by_check service draws repo patch_id approval_id w (stopped f) h = inl refl
  by_check service draws repo patch_id approval_id w (crashed text) h = inl refl
  by_check service draws repo patch_id approval_id w (ready a) h = inr (
    a,
    check_patch-IsAuthorized os service.allowed_roots repo w.place.disk patch_id approval_id
        w.place.db a h,
  )

  -- apply_approved_patch changes the disk, the tables, the memories or the index only for a target
  -- below an allowed root and a recorded patch whose stored file, outside of the target, has the
  -- SHA-256 of the patch and of an approval that is recorded, approved and of this patch, and whose
  -- text passes the validation.
  pub apply-IsUntouchedOrAuthorized :
      (service : ApplyService os vectors) (draws : CallDraws) (patch_id approval_id : String)
      (target_repo : String) (w : World os vectors)
      → IsUntouchedOrAuthorized service.allowed_roots
          (os.resolve target_repo)
          patch_id
          approval_id
          w
          (apply_approved_patch os vectors service draws patch_id approval_id target_repo w)
  unfolding apply_approved_patch
  apply-IsUntouchedOrAuthorized service draws patch_id approval_id target_repo w =
      by_check service draws (os.resolve target_repo) patch_id approval_id w
        (check_patch os service.allowed_roots (os.resolve target_repo) w.place.disk patch_id
          approval_id w.place.db)
        refl
