-- ===== src/Auth/Gate/Exact.antt =====
-- CheckPermission of internal/middleware/permissionMW.go: which requests reach the handler.
use personal_assistant.Base.{
  ℕ, ◌≡◌, ◌↔◌, refl, sym, ap, ◌∙◌, Bool, true, false, ◌∷◌, ◌++◌, List, [], Option, none, some, inl,
  inr, arith, Bool-cases, if◌then◌else◌,
}
use personal_assistant.Base.Maps.{Map}
use personal_assistant.Base.Text.{Text, is_nil, is_space, trim_left, trim_right, trim_space}
use personal_assistant.Base.Result.{Result, ok, err, ◌>>=◌}
use personal_assistant.Auth.Casbin.{
  Enforcer, CasbinError, action_access, answer, build_subject, enforcer_is_nil, has_permission,
}
use personal_assistant.Auth.Subjects.{trim-action_access, trim-build_subject, is_nil-build_subject}
use personal_assistant.Auth.Roles.{
  Repos, RepoError, Code, internal_error, Role, User, Fault, from_repo, get_user_roles,
  get_user_subject, subject_of_user,
}
use personal_assistant.Auth.Authorization.{from_casbin, check_user_api_permission}
use personal_assistant.Auth.Gate.{
  Request, Outcome, next, aborted, is_white_listed, has_super_code, api_path_of, outcome_of,
  check_api_permission, check_permission, with_claims, with_roles,
}

-- A text with a colon in it is not blank.
trim_right_colon : (xs ys : Text) → is_nil (trim_right (xs ++ 58 ∷ ys)) ≡ false
unfolding trim_right is_space
trim_right_colon [] ys = refl
trim_right_colon (x ∷ xs) ys = ground (arith, trim_right_colon xs ys)

trim_left_colon : (xs ys : Text) → is_nil (trim_right (trim_left (xs ++ 58 ∷ ys))) ≡ false
unfolding trim_left is_space
trim_left_colon [] ys = trim_right_colon [] ys
trim_left_colon (x ∷ xs) ys = elim (Bool-cases (is_space x)) [
  | inl q ↦ rw q (trim_left_colon xs ys)
  | inr q ↦ rw q (trim_right_colon (x ∷ xs) ys)
]

is_nil-trim_colon : (xs ys : Text) → is_nil (trim_space (xs ++ 58 ∷ ys)) ≡ false
unfolding trim_space
is_nil-trim_colon xs ys = trim_left_colon xs ys

-- The enforcer's answer on the route for the user in the organisation.
abbrev route_granted : Option Enforcer → ℕ → ℕ → Text → Result CasbinError Bool
route_granted none user_id org_id route = err enforcer_is_nil
route_granted (some enforcer) user_id org_id route =
    answer (enforcer (build_subject user_id org_id) (trim_space route) action_access)

route_lem :
    (held : Option Enforcer) (u o : ℕ) (path method : Text)
    → has_permission held (build_subject u o) (path ++ 58 ∷ method) action_access
      ≡ route_granted held u o (path ++ 58 ∷ method)
unfolding has_permission
route_lem none u o path method = refl
route_lem (some e) u o path method = rw (trim-build_subject u o) (
    rw (is_nil-build_subject u o) (rw (is_nil-trim_colon path method) (rw trim-action_access refl)))

-- Why a request may reach the handler.
pub data MayPass (white_list : Map Text Bool) (r : Repos) (request : Request) : Type 0 where
  by_listing : is_white_listed white_list request ≡ true → MayPass white_list r request
  by_role :
      (user_id : ℕ) (roles : List Role)
      → request.claims ≡ some (some user_id)
      → get_user_roles r user_id ≡ ok roles
      → has_super_code roles ≡ true
      → MayPass white_list r request
  by_policy :
      (user_id org_id : ℕ) (roles : List Role) (user : User) (enforcer : Enforcer)
      → request.claims ≡ some (some user_id)
      → get_user_roles r user_id ≡ ok roles
      → r.user_by_id user_id ≡ ok (some user)
      → user.current_org_id ≡ some org_id
      → r.enforcer ≡ some enforcer
      → enforcer
          (build_subject user_id org_id)
          (trim_space (api_path_of request ++ 58 ∷ request.method))
          action_access
        ≡ some true
      → MayPass white_list r request

abort_is_not_next : {code : Code} → ¬ (aborted code ≡ next)
abort_is_not_next q = cc

otherwise : (x : Outcome) {y z : Outcome} {b : Bool} → b ≡ false → (if b then x else y) ≡ z → y ≡ z
otherwise x q k = ground (arith, q, k)

module _ (white_list : Map Text Bool) (r : Repos) (request : Request) where
  unlisted :
      is_white_listed white_list request ≡ false
      → check_permission white_list r request ≡ with_claims r request request.claims
  unfolding check_permission
  unlisted q = rw q refl

  of_user :
      (user_id : ℕ) (roles : List Role)
      → is_white_listed white_list request ≡ false
      → request.claims ≡ some (some user_id)
      → get_user_roles r user_id ≡ ok roles
      → check_permission white_list r request ≡ with_roles r request user_id (ok roles)
  of_user user_id roles q c g =
      unlisted q ∙ (ap (with_claims r request) c ∙ ap (with_roles r request user_id) g)

  by_policy_lem :
      (user_id org_id : ℕ) (user : User) (enforcer : Enforcer)
      → r.user_by_id user_id ≡ ok (some user)
      → user.current_org_id ≡ some org_id
      → r.enforcer ≡ some enforcer
      → enforcer
          (build_subject user_id org_id)
          (trim_space (api_path_of request ++ 58 ∷ request.method))
          action_access
        ≡ some true
      → check_api_permission r request user_id ≡ next
  unfolding check_api_permission check_user_api_permission get_user_subject
  by_policy_lem user_id org_id user e f o h a = rw f (
      rw o (
        ap (λ x. outcome_of (from_casbin x))
          (route_lem r.enforcer user_id org_id (api_path_of request) request.method)
        ∙ rw h (rw a refl)))

  listed : is_white_listed white_list request ≡ true → check_permission white_list r request ≡ next
  unfolding check_permission
  listed q = rw q refl

  complete : MayPass white_list r request → check_permission white_list r request ≡ next
  complete reason = elim (Bool-cases (is_white_listed white_list request)) [
    | inl q ↦ listed q
    | inr q ↦ by_reason q reason
  ]
    where
      by_reason :
          is_white_listed white_list request ≡ false
          → MayPass white_list r request
          → check_permission white_list r request ≡ next
      by_reason q (by_listing l) = listed l
      by_reason q (by_role user_id roles c g s) = of_user user_id roles q c g ∙ rw s refl
      by_reason q (by_policy user_id org_id roles user e c g f o h a) =
          of_user user_id roles q c g ∙ (elim (Bool-cases (has_super_code roles)) [
            | inl s ↦ rw s refl
            | inr s ↦ rw s (by_policy_lem user_id org_id user e f o h a)
          ])

  sound_grant :
      (user_id org_id : ℕ) (roles : List Role) (user : User)
      → request.claims ≡ some (some user_id)
      → get_user_roles r user_id ≡ ok roles
      → r.user_by_id user_id ≡ ok (some user)
      → user.current_org_id ≡ some org_id
      → (held : Option Enforcer) → r.enforcer ≡ held
      → outcome_of (
          from_casbin
            (route_granted held user_id org_id (api_path_of request ++ 58 ∷ request.method)))
        ≡ next
      → MayPass white_list r request
  sound_grant user_id org_id roles user c g f o none h k = absurd cc
  sound_grant user_id org_id roles user c g f o (some e) h k =
      by_policy user_id org_id roles user e c g f o h (
        granted_true
          (e (build_subject user_id org_id)
            (trim_space (api_path_of request ++ 58 ∷ request.method)) action_access)
          k)
    where
      granted_true :
          (given : Option Bool) → outcome_of (from_casbin (answer given)) ≡ next → given ≡ some true
      granted_true none q = absurd cc
      granted_true (some true) q = refl
      granted_true (some false) q = absurd cc

  abbrev ask : Text × ℕ → Result Fault Bool
  ask named =
      from_casbin (
        has_permission r.enforcer named.0 (api_path_of request ++ 58 ∷ request.method)
          action_access)

  sound_org :
      (user_id : ℕ) (roles : List Role) (user : User)
      → request.claims ≡ some (some user_id)
      → get_user_roles r user_id ≡ ok roles
      → r.user_by_id user_id ≡ ok (some user)
      → (current : Option ℕ) → user.current_org_id ≡ current
      → outcome_of (subject_of_user user_id (some user) >>= ask) ≡ next
      → MayPass white_list r request
  sound_org user_id roles user c g f none o k = absurd (abort_is_not_next (sym no_org ∙ k))
    where
      no_org : outcome_of (subject_of_user user_id (some user) >>= ask) ≡ aborted internal_error
      no_org = rw o refl
  sound_org user_id roles user c g f (some org_id) o k =
      sound_grant user_id org_id roles user c g f o r.enforcer refl (sym with_org ∙ k)
    where
      with_org :
          outcome_of (subject_of_user user_id (some user) >>= ask)
          ≡ outcome_of (
              from_casbin (
                route_granted r.enforcer user_id org_id
                  (api_path_of request ++ 58 ∷ request.method)))
      with_org = rw o (
          ap (λ x. outcome_of (from_casbin x))
            (route_lem r.enforcer user_id org_id (api_path_of request) request.method))

  sound_user :
      (user_id : ℕ) (roles : List Role)
      → request.claims ≡ some (some user_id)
      → get_user_roles r user_id ≡ ok roles
      → (found : Result RepoError (Option User)) → r.user_by_id user_id ≡ found
      → outcome_of ((from_repo found >>= subject_of_user user_id) >>= ask) ≡ next
      → MayPass white_list r request
  sound_user user_id roles c g (err problem) f k = absurd cc
  sound_user user_id roles c g (ok none) f k = absurd cc
  sound_user user_id roles c g (ok (some user)) f k =
      sound_org user_id roles user c g f user.current_org_id refl k

  sound_roles :
      (user_id : ℕ)
      → request.claims ≡ some (some user_id)
      → (loaded : Result Fault (List Role)) → get_user_roles r user_id ≡ loaded
      → with_roles r request user_id loaded ≡ next
      → MayPass white_list r request
  unfolding check_api_permission check_user_api_permission get_user_subject
  sound_roles user_id c (err problem) g k = absurd cc
  sound_roles user_id c (ok roles) g k = elim (Bool-cases (has_super_code roles)) [
    | inl s ↦ by_role user_id roles c g s
    | inr s ↦ sound_user user_id roles c g (r.user_by_id user_id) refl (otherwise _ s k)
  ]

  sound_claims :
      (claims : Option (Option ℕ))
      → request.claims ≡ claims
      → with_claims r request claims ≡ next
      → MayPass white_list r request
  sound_claims none c k = absurd cc
  sound_claims (some none) c k = absurd cc
  sound_claims (some (some user_id)) c k = sound_roles user_id c (get_user_roles r user_id) refl k

  sound : check_permission white_list r request ≡ next → MayPass white_list r request
  unfolding check_permission
  sound k = elim (Bool-cases (is_white_listed white_list request)) [
    | inl q ↦ by_listing q
    | inr q ↦ sound_claims request.claims refl (otherwise _ q k)
  ]

-- The permission middleware lets a request through to the handler if and only if its route is
-- on the white list, or it carries claims of a user whose roles load and hold a super
-- administrator's code, or it carries claims of a user whose roles load, who has a current
-- organisation, and whose subject in it the enforcer grants access to the trimmed route.
pub check_permission_exact :
    (white_list : Map Text Bool) (r : Repos) (request : Request)
    → (check_permission white_list r request ≡ next) ↔ MayPass white_list r request
check_permission_exact white_list r request =
    (sound white_list r request, complete white_list r request)
