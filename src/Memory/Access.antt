-- ===== src/Memory/Access.antt =====
-- internal/service/system/aiMemoryPolicy.go: the resolution of a scope and the check of an access.
pub mod Exact
pub mod Resolved
use personal_assistant.Base.{
  ℕ, Bool, true, false, not, ◌&&◌, ◌||◌, List, [], ◌∷◌, Option, none, some, ◌==◌, nat_key, ltb,
  if◌then◌else◌,
}
use personal_assistant.Base.Text.{Text, is_nil, text_key, trim_space}
use personal_assistant.Memory.Types.{
  ScopeType, self_scope, org_scope, platform_ops, other_scope, Visibility, self_visible,
  org_visible, super_admin_visible, other_visibility, SourceKind, Reason, allow_self_scope,
  allow_org_scope, allow_platform_ops_scope, deny_permission_dependency_missing,
  deny_scope_mismatch, deny_visibility_mismatch, deny_not_super_admin,
  deny_not_in_approved_org_scope, AccessContext, Decision, ScopeDecision, VisibilityDecision,
  AccessTarget, ScopeInput, allow, deny, build_self_scope_key, build_org_scope_key,
  build_platform_ops_scope_key,
}

abbrev pub is_empty {ℓ} : {A : Type ℓ} → List A → Bool
is_empty [] = true
is_empty (x ∷ xs) = false

unfoldable pub holds_id : ℕ → List ℕ → Bool
holds_id org_id [] = false
holds_id org_id (approved ∷ rest) = approved == org_id || holds_id org_id rest

unfoldable pub holds_key : Text → List Text → Bool
holds_key scope_key [] = false
holds_key scope_key (approved ∷ rest) = trim_space approved == scope_key || holds_key scope_key rest

unfoldable pub is_approved_org_scope : ℕ → AccessContext → Bool
is_approved_org_scope org_id access =
    holds_id org_id access.approved_org_ids
    || holds_key (build_org_scope_key org_id) access.approved_org_scope_keys

abbrev pub has_no_org_scopes : AccessContext → Bool
has_no_org_scopes access =
    is_empty access.approved_org_scope_keys && is_empty access.approved_org_ids

abbrev pub deny_scope : Reason → ScopeDecision
deny_scope code = record {
  decision = deny code;
  scope_type = other_scope [];
  scope_key = [];
  user_id = none;
  org_id = none;
}

abbrev pub self_scope_of : ℕ → ScopeDecision
self_scope_of user_id = record {
  decision = allow allow_self_scope;
  scope_type = self_scope;
  scope_key = build_self_scope_key user_id;
  user_id = some user_id;
  org_id = none;
}

abbrev pub org_scope_of : ScopeInput → ℕ → ScopeDecision
org_scope_of input org_id = record {
  decision = allow allow_org_scope;
  scope_type = org_scope;
  scope_key = build_org_scope_key org_id;
  user_id = input.user_id;
  org_id = some org_id;
}

abbrev pub platform_scope_of : ScopeInput → ScopeDecision
platform_scope_of input = record {
  decision = allow allow_platform_ops_scope;
  scope_type = platform_ops;
  scope_key = build_platform_ops_scope_key;
  user_id = input.user_id;
  org_id = none;
}

-- A user id that is missing or zero stands for the principal's.
abbrev pub names_another : ℕ → Option ℕ → Bool
names_another user_id none = false
names_another user_id (some named) = ltb 0 named && not (named == user_id)

abbrev pub resolve_org : ScopeInput → AccessContext → Option ℕ → ScopeDecision
resolve_org input access none = deny_scope deny_permission_dependency_missing
resolve_org input access (some org_id) =
    if org_id == 0 || has_no_org_scopes access
    then deny_scope deny_permission_dependency_missing
    else if not (is_approved_org_scope org_id access)
    then deny_scope deny_not_in_approved_org_scope
    else org_scope_of input org_id

abbrev pub resolve_type : ScopeInput → AccessContext → ScopeType → ScopeDecision
resolve_type input access self_scope =
    if access.principal.user_id == 0
    then deny_scope deny_permission_dependency_missing
    else if names_another access.principal.user_id input.user_id
    then deny_scope deny_scope_mismatch
    else self_scope_of access.principal.user_id
resolve_type input access org_scope = resolve_org input access input.org_id
resolve_type input access platform_ops =
    if not access.allow_platform_ops
    then deny_scope deny_permission_dependency_missing
    else if not access.principal.is_super_admin
    then deny_scope deny_not_super_admin
    else platform_scope_of input
resolve_type input access (other_scope name) = deny_scope deny_scope_mismatch

unfoldable pub resolve_scope : ScopeInput → AccessContext → ScopeDecision
resolve_scope input access = resolve_type input access input.scope_type

abbrev pub visibility_of : ScopeType → VisibilityDecision
visibility_of self_scope = record { decision = allow allow_self_scope; visibility = self_visible }
visibility_of org_scope = record { decision = allow allow_org_scope; visibility = org_visible }
visibility_of platform_ops = record {
  decision = allow allow_platform_ops_scope;
  visibility = super_admin_visible;
}
visibility_of (other_scope name) = record {
  decision = deny deny_visibility_mismatch;
  visibility = other_visibility [];
}

-- The source kind is not read.
unfoldable pub resolve_visibility : ScopeDecision → SourceKind → VisibilityDecision
resolve_visibility scope source =
    if not scope.decision.allowed
    then record { decision = scope.decision; visibility = other_visibility [] }
    else visibility_of scope.scope_type

abbrev pub is_self_visible : Visibility → Bool
is_self_visible self_visible = true
is_self_visible _ = false

abbrev pub is_org_visible : Visibility → Bool
is_org_visible org_visible = true
is_org_visible _ = false

abbrev pub is_super_admin_visible : Visibility → Bool
is_super_admin_visible super_admin_visible = true
is_super_admin_visible _ = false

abbrev pub evaluate_self : AccessTarget → AccessContext → Option ℕ → Decision
evaluate_self target access none = deny deny_permission_dependency_missing
evaluate_self target access (some user_id) =
    if access.principal.user_id == 0 || user_id == 0
    then deny deny_permission_dependency_missing
    else if not (trim_space target.scope_key == build_self_scope_key user_id)
        || not (user_id == access.principal.user_id)
    then deny deny_scope_mismatch
    else if not (is_self_visible target.visibility)
    then deny deny_visibility_mismatch
    else allow allow_self_scope

abbrev pub evaluate_org : AccessTarget → AccessContext → Option ℕ → Decision
evaluate_org target access none = deny deny_permission_dependency_missing
evaluate_org target access (some org_id) =
    if org_id == 0 || is_nil (trim_space target.scope_key) || has_no_org_scopes access
    then deny deny_permission_dependency_missing
    else if not (target.scope_key == build_org_scope_key org_id)
    then deny deny_scope_mismatch
    else if not (is_org_visible target.visibility)
    then deny deny_visibility_mismatch
    else if not (is_approved_org_scope org_id access)
    then deny deny_not_in_approved_org_scope
    else allow allow_org_scope

abbrev pub evaluate_platform : AccessTarget → AccessContext → Decision
evaluate_platform target access =
    if not access.allow_platform_ops
    then deny deny_permission_dependency_missing
    else if not access.principal.is_super_admin
    then deny deny_not_super_admin
    else if not (target.scope_key == build_platform_ops_scope_key)
    then deny deny_scope_mismatch
    else if not (is_super_admin_visible target.visibility)
    then deny deny_visibility_mismatch
    else allow allow_platform_ops_scope

abbrev pub evaluate_type : AccessTarget → AccessContext → ScopeType → Decision
evaluate_type target access self_scope = evaluate_self target access target.user_id
evaluate_type target access org_scope = evaluate_org target access target.org_id
evaluate_type target access platform_ops = evaluate_platform target access
evaluate_type target access (other_scope name) = deny deny_scope_mismatch

-- evaluateMemoryAccess, which CanReadMemory and CanWriteMemory both return.
unfoldable pub evaluate_memory_access : AccessTarget → AccessContext → Decision
evaluate_memory_access target access = evaluate_type target access target.scope_type

abbrev pub new_memory_access_target : ScopeDecision → VisibilityDecision → AccessTarget
new_memory_access_target scope visible = record {
  scope_type = scope.scope_type;
  scope_key = scope.scope_key;
  visibility = visible.visibility;
  user_id = scope.user_id;
  org_id = scope.org_id;
}
