-- ===== src/Auth/Gate.antt =====
-- internal/middleware/permissionMW.go: the permission middleware. A request is let through (c.Next)
-- or aborted with a code. An expired timeout shows as an error of the repositories.
pub mod Exact
pub mod Siblings
use personal_assistant.Base.{
  ℕ, leb, Bool, true, false, ◌&&◌, ◌||◌, List, [], ◌∷◌, ◌++◌, Option, none, some, ◌==◌, nat_key,
  if◌then◌else◌,
}
use personal_assistant.Base.Text.{Text, lit, is_nil, text_key, has_prefix}
use personal_assistant.Base.Maps.{Map, get, put, del}
use personal_assistant.Base.Result.{Result, ok, err}
use personal_assistant.Auth.Roles.{
  Repos, Role, Code, login_required, unauthorized, internal_error, permission_denied, Fault,
  super_admin, get_user_roles,
}
use personal_assistant.Auth.Authorization.{check_user_api_permission}

-- What the middleware reads of the gin context. `claims` is `none` when the key is missing, and
-- `some none` when its value is not of type *JwtCustomClaims.
pub record Request : Type 0 where
  pub method : Text
  pub url_path : Text
  pub full_path : Text
  pub claims : Option (Option ℕ)

pub data Outcome : Type 0 where
  next : Outcome
  aborted : Code → Outcome

abbrev pub default_white_list : Map Text Bool
default_white_list =
    (lit "POST:/api/v1/auth/login", true)
    ∷ (lit "POST:/api/v1/auth/register", true)
    ∷ (lit "GET:/api/v1/health", true)
    ∷ (lit "GET:/api/v1/ping", true)
    ∷ (lit "GET:/api/v1/public/*", true)
    ∷ []

-- The text before a final "/*" of a pattern longer than that.
unfoldable pub wildcard_prefix : Text → Option Text
wildcard_prefix [] = none
wildcard_prefix (c ∷ []) = none
wildcard_prefix (c ∷ d ∷ []) = none
wildcard_prefix (c ∷ d ∷ e ∷ []) = if d == 47 && e == 42 then some (c ∷ []) else none
wildcard_prefix (c ∷ d ∷ e ∷ f ∷ rest) = elim (wildcard_prefix (d ∷ e ∷ f ∷ rest)) [
  | none ↦ none
  | some prefix ↦ some (c ∷ prefix)
]

unfoldable pub match_pattern : Text → Text → Bool
match_pattern pattern target = elim (wildcard_prefix pattern) [
  | none ↦ pattern == target
  | some prefix ↦ has_prefix target prefix
]

abbrev pub route_key : Text → Text → Text
route_key method path = method ++ 58 ∷ path

unfoldable pub add_white_list_route : Text → Text → Map Text Bool → Map Text Bool
add_white_list_route method path white_list = put (route_key method path) true white_list

unfoldable pub remove_white_list_route : Text → Text → Map Text Bool → Map Text Bool
remove_white_list_route method path white_list = del (route_key method path) white_list

unfoldable pub matches_some : Map Text Bool → Text → Bool
matches_some [] target = false
matches_some ((pattern, listed) ∷ rest) target =
    match_pattern pattern target || matches_some rest target

abbrev pub is_listed : Option Bool → Bool
is_listed none = false
is_listed (some listed) = listed

-- checkWhiteList, negated: the route passes without a check.
unfoldable pub is_white_listed : Map Text Bool → Request → Bool
is_white_listed white_list request =
    is_listed (get (route_key request.method request.url_path) white_list)
    || matches_some white_list (route_key request.method request.url_path)

unfoldable pub has_super_code : List Role → Bool
has_super_code [] = false
has_super_code (role ∷ roles) =
    role.code == super_admin || role.code == lit "SuperAdmin" || has_super_code roles

-- c.FullPath(), or the path of the URL when no route matched.
unfoldable pub api_path_of : Request → Text
api_path_of request = if is_nil request.full_path then request.url_path else request.full_path

abbrev pub outcome_of : Result Fault Bool → Outcome
outcome_of (err problem) = aborted internal_error
outcome_of (ok true) = next
outcome_of (ok false) = aborted permission_denied

unfoldable pub check_api_permission : Repos → Request → ℕ → Outcome
check_api_permission r request user_id =
    outcome_of (check_user_api_permission r user_id (api_path_of request) request.method)

-- loadUserRoles and checkSuperUser.
abbrev pub with_roles : Repos → Request → ℕ → Result Fault (List Role) → Outcome
with_roles r request user_id (err problem) = aborted internal_error
with_roles r request user_id (ok roles) =
    if has_super_code roles then next else check_api_permission r request user_id

-- extractUserInfo
abbrev pub with_claims : Repos → Request → Option (Option ℕ) → Outcome
with_claims r request none = aborted login_required
with_claims r request (some none) = aborted unauthorized
with_claims r request (some (some user_id)) =
    with_roles r request user_id (get_user_roles r user_id)

unfoldable pub check_permission : Map Text Bool → Repos → Request → Outcome
check_permission white_list r request =
    if is_white_listed white_list request then next else with_claims r request request.claims
