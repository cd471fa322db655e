-- ===== src/Auth/Gate/Siblings.antt =====
-- The wildcard of the white list of internal/middleware/permissionMW.go.
use personal_assistant.Base.{◌≡◌, refl, ap, ◌∙◌, Bool, true, false, ◌||◌, ◌++◌}
use personal_assistant.Base.Text.{Text, lit, text_key, text_eq, has_prefix}
use personal_assistant.Base.Maps.{get}
use personal_assistant.Auth.Roles.{Repos}
use personal_assistant.Auth.Gate.{
  Request, next, default_white_list, match_pattern, wildcard_prefix, matches_some, is_listed,
  route_key, is_white_listed, check_permission,
}

or_true : (b : Bool) → (b || true) ≡ true
or_true true = refl
or_true false = refl

opens : Text → Bool
opens key = is_listed (get key default_white_list) || matches_some default_white_list key

opens_public : (tail : Text) → opens (lit "GET:/api/v1/public" ++ tail) ≡ true
unfolding opens get matches_some match_pattern wildcard_prefix has_prefix text_eq
opens_public tail = or_true _

listed :
    (request : Request) (tail : Text)
    → request.method ≡ lit "GET"
    → request.url_path ≡ lit "/api/v1/public" ++ tail
    → is_white_listed default_white_list request ≡ true
unfolding is_white_listed opens
listed request tail m p =
    ap opens (ap (λ x. route_key x request.url_path) m ∙ ap (route_key (lit "GET")) p)
    ∙ opens_public tail

-- With the default white list, every GET request whose path starts with /api/v1/public,
-- whatever comes behind it, passes the middleware without claims, roles or a policy.
pub public_opens_siblings :
    (r : Repos) (request : Request) (tail : Text)
    → request.method ≡ lit "GET"
    → request.url_path ≡ lit "/api/v1/public" ++ tail
    → check_permission default_white_list r request ≡ next
unfolding check_permission
public_opens_siblings r request tail m p = rw (listed request tail m p) refl
