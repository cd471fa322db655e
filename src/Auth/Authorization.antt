-- ===== src/Auth/Authorization.antt =====
-- internal/service/system/authorizationSvc.go: the decisions.
pub mod Decision
use personal_assistant.Base.{
  ℕ, Bool, true, false, ◌||◌, ◌∷◌, ◌++◌, Option, none, some, ◌==◌, nat_key, if◌then◌else◌,
}
use personal_assistant.Base.Text.{Text, is_nil, trim_space}
use personal_assistant.Base.Result.{Result, ok, err, ◌>>=◌}
use personal_assistant.Auth.Casbin.{
  CasbinError, action_access, action_operate, build_subject, has_permission,
}
use personal_assistant.Auth.Roles.{
  Repos, Org, RepoError, record_not_found, repo_failed, Code, internal_error, permission_denied,
  invalid_params, org_not_found, db_error, Fault, casbin, capability_empty, biz, get_user_subject,
  load_global_roles,
}

abbrev pub from_casbin : Result CasbinError Bool → Result Fault Bool
from_casbin (err problem) = err (casbin problem)
from_casbin (ok allowed) = ok allowed

unfoldable pub check_user_api_permission : Repos → ℕ → Text → Text → Result Fault Bool
check_user_api_permission r user_id api_path method = do
  named ← get_user_subject r user_id
  from_casbin (has_permission r.enforcer named.0 (api_path ++ 58 ∷ method) action_access)

unfoldable pub check_subject_capability : Repos → Text → Text → Result Fault Bool
check_subject_capability r subject capability_code =
    if is_nil (trim_space subject) || is_nil (trim_space capability_code)
    then err capability_empty
    else from_casbin
        (has_permission r.enforcer (trim_space subject) (trim_space capability_code) action_operate)

unfoldable pub check_user_capability_in_org : Repos → ℕ → ℕ → Text → Result Fault Bool
check_user_capability_in_org r user_id org_id capability_code =
    check_subject_capability r (build_subject user_id org_id) capability_code

-- bizerrors.Wrap: the error with a code in front of it.
abbrev pub wrap {ℓ} : {A : Type ℓ} → Code → Result Fault A → Result Fault A
wrap code (err problem) = err (biz code)
wrap code (ok value) = ok value

abbrev pub found_org : Result RepoError (Option Org) → Result Fault Org
found_org (err record_not_found) = err (biz org_not_found)
found_org (err repo_failed) = err (biz db_error)
found_org (ok none) = err (biz org_not_found)
found_org (ok (some org)) = ok org

-- The decision once the organisation is read.
unfoldable pub decide_in_org : Repos → ℕ → ℕ → Text → Org → Result Fault Bool
decide_in_org r operator_id org_id capability_code org =
    if operator_id == org.owner_id
    then ok true
    else (wrap db_error (load_global_roles r operator_id) >>= λ loaded.
        if loaded.1
        then ok true
        else wrap internal_error
            (check_user_capability_in_org r operator_id org_id capability_code))

-- `none` is a nil service.
unfoldable pub can_operate_org_capability : Option Repos → ℕ → ℕ → Text → Result Fault Bool
can_operate_org_capability none operator_id org_id capability_code = err (biz internal_error)
can_operate_org_capability (some r) operator_id org_id capability_code =
    if is_nil (trim_space capability_code)
    then err (biz invalid_params)
    else (found_org (r.org_by_id org_id) >>= decide_in_org r operator_id org_id capability_code)

abbrev pub permitted : Bool → Result {0, 0} Fault Unit
permitted true = ok tt
permitted false = err (biz permission_denied)

unfoldable pub authorize_org_capability : Option Repos → ℕ → ℕ → Text → Result {0, 0} Fault Unit
authorize_org_capability s operator_id org_id capability_code =
    can_operate_org_capability s operator_id org_id capability_code >>= permitted
