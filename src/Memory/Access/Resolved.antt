-- ===== src/Memory/Access/Resolved.antt =====
-- ResolveScope and ResolveVisibility of internal/service/system/aiMemoryPolicy.go: what they allow, the
-- access check allows too.
use personal_assistant.Base.{
  of_not, ℕ, ◌≡◌, refl, sym, subst, ◌∙◌, Bool, true, false, not, ◌||◌, Option, none, some, ◌==◌,
  ==_self, nat_key, if◌then◌else◌,
}
use personal_assistant.Base.Text.{
  is_nil, is_space, text_key, text_eq, trim_space, trim_space-IsSolid,
}
use personal_assistant.Base.Decimal.{show_nat-IsSolid}
use personal_assistant.Memory.Types.{
  ScopeType, self_scope, org_scope, platform_ops, other_scope, SourceKind, AccessContext, Decision,
  ScopeInput, ScopeDecision, Reason, build_self_scope_key, build_org_scope_key,
}
use personal_assistant.Memory.Access.{
  is_approved_org_scope, has_no_org_scopes, self_scope_of, org_scope_of, platform_scope_of,
  resolve_type, resolve_org, resolve_scope, resolve_visibility, evaluate_memory_access,
  new_memory_access_target, deny_scope,
}

pub trim-self_key :
    (user_id : ℕ) → trim_space (build_self_scope_key user_id) ≡ build_self_scope_key user_id
unfolding build_self_scope_key is_space
trim-self_key user_id = trim_space-IsSolid _ (
  refl,
  (refl, (refl, (refl, (refl, (refl, (refl, (refl, (refl, (refl, show_nat-IsSolid user_id))))))))),
)

pub trim-org_key :
    (org_id : ℕ) → trim_space (build_org_scope_key org_id) ≡ build_org_scope_key org_id
unfolding build_org_scope_key is_space
trim-org_key org_id = trim_space-IsSolid _ (refl, (refl, (refl, (refl, show_nat-IsSolid org_id))))

is_nil-org_key : (org_id : ℕ) → is_nil (build_org_scope_key org_id) ≡ false
unfolding build_org_scope_key
is_nil-org_key org_id = refl

entered :
    (b : Bool) (code : Reason) (d : ScopeDecision)
    → (if b then deny_scope code else d).decision.allowed ≡ true
    → (b ≡ false) × (((if b then deny_scope code else d) ≡ d) × (d.decision.allowed ≡ true))
entered true code d h = absurd cc
entered false code d h = (refl, (refl, h))

skipped : (a b : Bool) → (a || b) ≡ false → (a || false || b) ≡ false
skipped true b h = absurd cc
skipped false b h = h

-- The access check on the target that a scope decision makes.
abbrev checked : ScopeDecision → SourceKind → AccessContext → Decision
checked scope source access =
    evaluate_memory_access (new_memory_access_target scope (resolve_visibility scope source)) access

module _ (input : ScopeInput) (access : AccessContext) (source : SourceKind) where
  self_passes :
      (access.principal.user_id == 0) ≡ false
      → (checked (self_scope_of access.principal.user_id) source access).allowed ≡ true
  unfolding evaluate_memory_access resolve_visibility
  self_passes z = rw (trim-self_key access.principal.user_id) (
      rw (==_self (build_self_scope_key access.principal.user_id))
        (rw (==_self access.principal.user_id) (rw z refl)))

  self_allowed :
      (resolve_type input access self_scope).decision.allowed ≡ true
      → (checked (resolve_type input access self_scope) source access).allowed ≡ true
  self_allowed h =
      let first = entered _ _ _ h in
      let second = entered _ _ _ first.1.1 in
      subst (λ scope. (checked scope source access).allowed ≡ true) (sym (first.1.0 ∙ second.1.0))
        (self_passes first.0)

  org_passes :
      (org_id : ℕ)
      → (org_id == 0 || has_no_org_scopes access) ≡ false
      → is_approved_org_scope org_id access ≡ true
      → (checked (org_scope_of input org_id) source access).allowed ≡ true
  unfolding evaluate_memory_access resolve_visibility
  org_passes org_id z a = rw (trim-org_key org_id) (
      rw (is_nil-org_key org_id) (
        rw (==_self (build_org_scope_key org_id))
          (rw a (rw (skipped (org_id == 0) (has_no_org_scopes access) z) refl))))

  org_allowed :
      (named : Option ℕ)
      → (resolve_org input access named).decision.allowed ≡ true
      → (checked (resolve_org input access named) source access).allowed ≡ true
  org_allowed none h = absurd cc
  org_allowed (some org_id) h =
      let first = entered (org_id == 0 || has_no_org_scopes access) _ _ h in
      let second = entered (not (is_approved_org_scope org_id access)) _ _ first.1.1 in
      subst (λ scope. (checked scope source access).allowed ≡ true) (sym (first.1.0 ∙ second.1.0))
        (org_passes org_id first.0 (of_not _ second.0))

  platform_passes :
      access.allow_platform_ops ≡ true
      → access.principal.is_super_admin ≡ true
      → (checked (platform_scope_of input) source access).allowed ≡ true
  unfolding evaluate_memory_access resolve_visibility text_eq
  platform_passes p q = rw p (rw q refl)

  platform_allowed :
      (resolve_type input access platform_ops).decision.allowed ≡ true
      → (checked (resolve_type input access platform_ops) source access).allowed ≡ true
  platform_allowed h =
      let first = entered (not access.allow_platform_ops) _ _ h in
      let second = entered (not access.principal.is_super_admin) _ _ first.1.1 in
      subst (λ scope. (checked scope source access).allowed ≡ true) (sym (first.1.0 ∙ second.1.0))
        (platform_passes (of_not _ first.0) (of_not _ second.0))

  type_allowed :
      (kind : ScopeType)
      → (resolve_type input access kind).decision.allowed ≡ true
      → (checked (resolve_type input access kind) source access).allowed ≡ true
  type_allowed self_scope h = self_allowed h
  type_allowed org_scope h = org_allowed input.org_id h
  type_allowed platform_ops h = platform_allowed h
  type_allowed (other_scope name) h = absurd cc

-- Whenever the policy resolves a scope, the access check allows the target made of this scope
-- and its visibility, so that the two independent checks agree on what may be written.
pub resolved_is_writable :
    (input : ScopeInput) (access : AccessContext) (source : SourceKind)
    → (resolve_scope input access).decision.allowed ≡ true
    → (evaluate_memory_access
        (new_memory_access_target
          (resolve_scope input access)
          (resolve_visibility (resolve_scope input access) source))
        access).allowed
      ≡ true
unfolding resolve_scope
resolved_is_writable input access source h = type_allowed input access source input.scope_type h
