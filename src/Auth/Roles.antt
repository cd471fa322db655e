-- ===== src/Auth/Roles.antt =====
-- internal/service/system/authorizationSvc.go: the roles and the subject of a user. What the
-- repositories and the enforcer answer during a request is a record of functions.
use personal_assistant.Base.{
  ℕ, Bool, false, ◌||◌, List, [], ◌∷◌, ◌++◌, Option, none, some, ◌==◌, nat_key, if◌then◌else◌,
}
use personal_assistant.Base.Text.{Text, lit, text_key}
use personal_assistant.Base.Result.{Result, ok, err, ◌>>=◌}
use personal_assistant.Auth.Casbin.{CasbinError, Enforcer, build_subject}

pub record Role : Type 0 where
  pub id : ℕ
  pub code : Text

pub record Org : Type 0 where
  pub id : ℕ
  pub owner_id : ℕ

pub record User : Type 0 where
  pub id : ℕ
  pub current_org_id : Option ℕ

pub data RepoError : Type 0 where
  record_not_found repo_failed : RepoError

-- What a request reads. A pointer that the source tests for nil is an option.
pub record Repos : Type 0 where
  pub global_roles : ℕ → Result RepoError (List (Option Role))
  pub org_roles : ℕ → ℕ → Result RepoError (List (Option Role))
  pub org_by_id : ℕ → Result RepoError (Option Org)
  pub user_by_id : ℕ → Result RepoError (Option User)
  pub enforcer : Option Enforcer

-- The codes of pkg/errors.
pub data Code : Type 0 where
  login_required unauthorized internal_error permission_denied invalid_params : Code
  org_not_found db_error : Code

-- The errors of the service; text that a wrap adds to an error is left out.
pub data Fault : Type 0 where
  repo : RepoError → Fault
  casbin : CasbinError → Fault
  user_missing org_unset capability_empty : Fault
  biz : Code → Fault

-- consts.RoleCodeSuperAdmin
abbrev pub super_admin : Text
super_admin = lit "super_admin"

unfoldable pub has_super : List (Option Role) → Bool
has_super [] = false
has_super (none ∷ roles) = has_super roles
has_super (some role ∷ roles) = role.code == super_admin || has_super roles

unfoldable pub to_role_slice : List (Option Role) → List Role
to_role_slice [] = []
to_role_slice (none ∷ roles) = to_role_slice roles
to_role_slice (some role ∷ roles) = role ∷ to_role_slice roles

abbrev pub from_repo {ℓ} : {A : Type ℓ} → Result RepoError A → Result Fault A
from_repo (err problem) = err (repo problem)
from_repo (ok value) = ok value

unfoldable pub load_global_roles : Repos → ℕ → Result Fault (List (Option Role) × Bool)
load_global_roles r user_id = do
  roles ← from_repo (r.global_roles user_id)
  ok (roles, has_super roles)

abbrev pub subject_of_user : ℕ → Option User → Result Fault (Text × ℕ)
subject_of_user user_id none = err user_missing
subject_of_user user_id (some user) = elim user.current_org_id [
  | none ↦ err org_unset
  | some org_id ↦ ok (build_subject user_id org_id, org_id)
]

unfoldable pub get_user_subject : Repos → ℕ → Result Fault (Text × ℕ)
get_user_subject r user_id = from_repo (r.user_by_id user_id) >>= subject_of_user user_id

abbrev pub only_global : List (Option Role) → Result Fault (List Role)
only_global [] = err org_unset
only_global (role ∷ roles) = ok (to_role_slice (role ∷ roles))

abbrev pub with_org_roles :
    Repos → ℕ → List (Option Role) → Result Fault (Text × ℕ) → Result Fault (List Role)
with_org_roles r user_id global (err problem) = only_global global
with_org_roles r user_id global (ok (subject, org_id)) =
    if org_id == 0
    then only_global global
    else (from_repo (r.org_roles user_id org_id) >>= λ org. ok (to_role_slice (global ++ org)))

unfoldable pub get_user_roles : Repos → ℕ → Result Fault (List Role)
get_user_roles r user_id = do
  loaded ← load_global_roles r user_id
  if loaded.1
      then ok (to_role_slice loaded.0)
      else with_org_roles r user_id loaded.0 (get_user_subject r user_id)

unfoldable pub is_super_admin : Repos → ℕ → Result Fault Bool
is_super_admin r user_id = load_global_roles r user_id >>= λ loaded. ok loaded.1
