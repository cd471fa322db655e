-- ===== src/Memory/Access/Exact.antt =====
-- evaluateMemoryAccess of internal/service/system/aiMemoryPolicy.go: who reaches a memory.
use personal_assistant.Base.{
  of_not, ℕ, ◌≡◌, refl, Bool, true, false, not, ◌||◌, Option, none, some, ◌==◌, nat_key, nat_eq_iff,
  arith, if◌then◌else◌, ◌<◌,
}
use personal_assistant.Base.Text.{is_nil, text_key, text_eq_iff, trim_space}
use personal_assistant.Memory.Types.{
  ScopeType, self_scope, org_scope, platform_ops, other_scope, Visibility, self_visible,
  org_visible, super_admin_visible, other_visibility, Reason, AccessContext, Decision, AccessTarget,
  deny, build_self_scope_key, build_org_scope_key, build_platform_ops_scope_key,
}
use personal_assistant.Memory.Access.{
  is_approved_org_scope, has_no_org_scopes, is_self_visible, is_org_visible, is_super_admin_visible,
  evaluate_self, evaluate_org, evaluate_platform, evaluate_type, evaluate_memory_access,
}

-- Why an access is allowed.
pub data MayAccess (target : AccessTarget) (access : AccessContext) : Type 0 where
  own_memory :
      (user_id : ℕ)
      → target.scope_type ≡ self_scope
      → target.user_id ≡ some user_id
      → user_id ≡ access.principal.user_id
      → 0 < user_id
      → trim_space target.scope_key ≡ build_self_scope_key user_id
      → target.visibility ≡ self_visible
      → MayAccess target access
  org_memory :
      (org_id : ℕ)
      → target.scope_type ≡ org_scope
      → target.org_id ≡ some org_id
      → 0 < org_id
      → is_approved_org_scope org_id access ≡ true
      → target.scope_key ≡ build_org_scope_key org_id
      → target.visibility ≡ org_visible
      → MayAccess target access
  platform_memory :
      target.scope_type ≡ platform_ops
      → access.allow_platform_ops ≡ true
      → access.principal.is_super_admin ≡ true
      → target.scope_key ≡ build_platform_ops_scope_key
      → target.visibility ≡ super_admin_visible
      → MayAccess target access

passed :
    (b : Bool) (code : Reason) (d : Decision)
    → (if b then deny code else d).allowed ≡ true
    → (b ≡ false) × (d.allowed ≡ true)
passed true code d h = absurd cc
passed false code d h = (refl, h)

is_self-visible : (v : Visibility) → not (is_self_visible v) ≡ false → v ≡ self_visible
is_self-visible self_visible h = refl
is_self-visible org_visible h = absurd cc
is_self-visible super_admin_visible h = absurd cc
is_self-visible (other_visibility name) h = absurd cc

is_org-visible : (v : Visibility) → not (is_org_visible v) ≡ false → v ≡ org_visible
is_org-visible org_visible h = refl
is_org-visible self_visible h = absurd cc
is_org-visible super_admin_visible h = absurd cc
is_org-visible (other_visibility name) h = absurd cc

is_super_admin-visible :
    (v : Visibility) → not (is_super_admin_visible v) ≡ false → v ≡ super_admin_visible
is_super_admin-visible super_admin_visible h = refl
is_super_admin-visible self_visible h = absurd cc
is_super_admin-visible org_visible h = absurd cc
is_super_admin-visible (other_visibility name) h = absurd cc

neither : (a b : Bool) → (a || b) ≡ false → (a ≡ false) × (b ≡ false)
neither true b h = absurd cc
neither false b h = (refl, h)

module _ (target : AccessTarget) (access : AccessContext) where
  self_sound :
      (named : Option ℕ)
      → target.user_id ≡ named
      → target.scope_type ≡ self_scope
      → (evaluate_self target access named).allowed ≡ true
      → MayAccess target access
  self_sound none n s h = absurd cc
  self_sound (some user_id) n s h =
      let first = passed _ _ _ h in
      let second = passed _ _ _ first.1 in
      let third = passed _ _ _ second.1 in
      let zeros = neither _ _ first.0 in
      let keys = neither _ _ second.0 in
      own_memory user_id s n ((nat_eq_iff user_id access.principal.user_id).0 (of_not _ keys.1))
        (positive user_id zeros.1)
        ((text_eq_iff (trim_space target.scope_key) (build_self_scope_key user_id)).0
          (of_not _ keys.0))
        (is_self-visible target.visibility third.0)
    where
      positive : (n : ℕ) → (n == 0) ≡ false → 0 < n
      positive n q = ground (arith, q)

  org_sound :
      (named : Option ℕ)
      → target.org_id ≡ named
      → target.scope_type ≡ org_scope
      → (evaluate_org target access named).allowed ≡ true
      → MayAccess target access
  org_sound none n s h = absurd cc
  org_sound (some org_id) n s h =
      let first =
        passed (org_id == 0 || is_nil (trim_space target.scope_key) || has_no_org_scopes access) _ _
          h in
      let second = passed _ _ _ first.1 in
      let third = passed _ _ _ second.1 in
      let fourth = passed _ _ _ third.1 in
      org_memory org_id s n
        (positive org_id (is_nil (trim_space target.scope_key)) (has_no_org_scopes access) first.0)
        (of_not _ fourth.0)
        ((text_eq_iff target.scope_key (build_org_scope_key org_id)).0 (of_not _ second.0))
        (is_org-visible target.visibility third.0)
    where
      positive : (n : ℕ) (b c : Bool) → (n == 0 || b || c) ≡ false → 0 < n
      positive n b c q = ground (arith, q)

  platform_sound :
      target.scope_type ≡ platform_ops
      → (evaluate_platform target access).allowed ≡ true
      → MayAccess target access
  platform_sound s h =
      let first = passed _ _ _ h in
      let second = passed _ _ _ first.1 in
      let third = passed _ _ _ second.1 in
      let fourth = passed _ _ _ third.1 in
      platform_memory s (of_not _ first.0) (of_not _ second.0)
        ((text_eq_iff target.scope_key build_platform_ops_scope_key).0 (of_not _ third.0))
        (is_super_admin-visible target.visibility fourth.0)

  type_sound :
      (kind : ScopeType)
      → target.scope_type ≡ kind
      → (evaluate_type target access kind).allowed ≡ true
      → MayAccess target access
  type_sound self_scope s h = self_sound target.user_id refl s h
  type_sound org_scope s h = org_sound target.org_id refl s h
  type_sound platform_ops s h = platform_sound s h
  type_sound (other_scope name) s h = absurd cc

-- If the policy allows an access to a memory, then either it is the principal's own (the
-- target's user is the principal, is not zero, and scope key and visibility say so), or it
-- belongs to an organisation that is approved for the principal and carries its scope key and
-- visibility, or it is the platform's and a super administrator with explicit authorization
-- asks.
pub memory_access_sound :
    (target : AccessTarget) (access : AccessContext)
    → (evaluate_memory_access target access).allowed ≡ true
    → MayAccess target access
unfolding evaluate_memory_access
memory_access_sound target access h = type_sound target access target.scope_type refl h
