-- ===== src/Auth/Tests.antt =====
-- A small organisation, and the theorems of the authorization modules at it.
use personal_assistant.Base.{
  ℕ, ◌≡◌, ◌≢◌, refl, false, none, some, [], Option, arith, ◌==◌, nat_eq, Bool-cases, inl, inr, ap,
  ◌↔◌, if◌then◌else◌,
}
use personal_assistant.Base.Text.{
  Text, lit, text_key, text_eq, text_eq_iff, is_nil, trim_space, trim_left, trim_right, is_space,
  has_prefix,
}
use personal_assistant.Base.Result.{ok, err}
use personal_assistant.Auth.Casbin.{Enforcer, build_subject}
use personal_assistant.Auth.Subjects.{build_subject-injective}
use personal_assistant.Auth.Roles.{Repos, Org, record_not_found, login_required}
use personal_assistant.Auth.Authorization.{authorize_org_capability}
use personal_assistant.Auth.Authorization.Decision.{
  MayOperate, as_owner, authorize_exact, grants_are_isolated, with_enforcer,
}
use personal_assistant.Auth.Gate.{
  Request, next, aborted, default_white_list, is_white_listed, matches_some, match_pattern,
  wildcard_prefix, check_permission,
}
use personal_assistant.Base.Maps.{get}
use personal_assistant.Auth.Gate.Exact.{MayPass, check_permission_exact}
use personal_assistant.Auth.Gate.Siblings.{public_opens_siblings}

-- One subject may operate.
abbrev only : Text → Enforcer
only subject asked object action = some (asked == subject)

abbrev company : Org
company = record { id = 1; owner_id = 4 }

abbrev repos : Repos
repos = record {
  global_roles = λ u. ok [];
  org_roles = λ u o. ok [];
  org_by_id = λ o. if nat_eq o 1 then ok (some company) else err record_not_found;
  user_by_id = λ u. ok (some (record { id = u; current_org_id = some 1 }));
  enforcer = some (only (lit "5@1"));
}

abbrev request : Text → Text → Option (Option ℕ) → Request
request method path claims = record {
  method = method;
  url_path = path;
  full_path = path;
  claims = claims;
}

abbrev nobody : Enforcer
nobody subject object action = some false

nobody_else : (s t : Text) → s ≢ t → (s == t) ≡ false
nobody_else s t n = elim (Bool-cases (s == t)) [
  | inl q ↦ absurd (n ((text_eq_iff s t).0 q))
  | inr q ↦ q
]

abbrev anna : ℕ
anna = 1

abbrev home : ℕ
home = 23

build_subject-injective_example : (anna ≡ anna) × (home ≡ home)
build_subject-injective_example = build_subject-injective anna home anna home refl

authorize_exact_example :
    (authorize_org_capability (some repos) 4 1 (lit "post") ≡ ok tt)
    ↔ ((is_nil (trim_space (lit "post")) ≡ false) × MayOperate repos 4 1 (lit "post"))
authorize_exact_example = authorize_exact repos 4 1 (lit "post")

owner_passes : authorize_org_capability (some repos) 4 1 (lit "post") ≡ ok tt
unfolding trim_space trim_left trim_right is_space
owner_passes = authorize_exact_example.1 (refl, as_owner company refl refl)

grants_are_isolated_example :
    authorize_org_capability
      (some (with_enforcer repos (only (build_subject 5 1))))
      9
      1
      (lit "post")
    ≡ authorize_org_capability (some (with_enforcer repos nobody)) 9 1 (lit "post")
grants_are_isolated_example =
    grants_are_isolated repos (only (build_subject 5 1)) nobody 9 1 5 1 (lit "post")
      (λ q. omega (arith, q.0)) (λ s o a n. ap some (nobody_else s (build_subject 5 1) n))

check_permission_exact_example :
    (check_permission default_white_list repos
        (request (lit "GET") (lit "/api/v1/public/logo") none)
      ≡ next)
    ↔ MayPass default_white_list repos (request (lit "GET") (lit "/api/v1/public/logo") none)
check_permission_exact_example =
    check_permission_exact default_white_list repos
      (request (lit "GET") (lit "/api/v1/public/logo") none)

public_opens_siblings_example :
    check_permission default_white_list repos
      (request (lit "GET") (lit "/api/v1/publicity/draft") none)
    ≡ next
public_opens_siblings_example =
    public_opens_siblings repos (request (lit "GET") (lit "/api/v1/publicity/draft") none)
      (lit "ity/draft") refl refl

no_claims :
    check_permission default_white_list repos (request (lit "GET") (lit "/api/v1/user") none)
    ≡ aborted login_required
unfolding check_permission is_white_listed get matches_some match_pattern wildcard_prefix has_prefix
    text_eq
no_claims = refl
