-- ===== src/Auth/Authorization/Decision.antt =====
-- CanOperateOrgCapability of internal/service/system/authorizationSvc.go: who is let through.
use personal_assistant.Base.{
  ℕ, ◌≡◌, ◌≢◌, ◌↔◌, refl, sym, ap, ◌∙◌, Bool, true, false, List, Option, none, some, inl, inr,
  arith, Bool-cases, nat_eq_iff, ◌==◌, nat_key, if◌then◌else◌,
}
use personal_assistant.Base.Text.{Text, is_nil, trim_space, trim_space_idem}
use personal_assistant.Base.Result.{Result, ok, err, ◌>>=◌}
use personal_assistant.Auth.Casbin.{
  Enforcer, CasbinError, enforcer_is_nil, action_operate, answer, build_subject, has_permission,
}
use personal_assistant.Auth.Subjects.{
  build_subject-injective, trim-action_operate, trim-build_subject, is_nil-build_subject,
}
use personal_assistant.Auth.Roles.{
  Repos, RepoError, record_not_found, repo_failed, Role, Org, Fault, has_super, load_global_roles,
  biz, invalid_params, db_error, internal_error,
}
use personal_assistant.Auth.Authorization.{
  from_casbin, check_subject_capability, check_user_capability_in_org, decide_in_org, wrap,
  found_org, can_operate_org_capability, authorize_org_capability, permitted,
}

-- The enforcer's answer on the subject of the user in the organisation.
abbrev pub granted : Option Enforcer → ℕ → ℕ → Text → Result CasbinError Bool
granted none user_id org_id capability = err enforcer_is_nil
granted (some enforcer) user_id org_id capability =
    answer (enforcer (build_subject user_id org_id) capability action_operate)

has_permission_lem :
    (held : Option Enforcer) (u o : ℕ) (capability : Text)
    → is_nil capability ≡ false
    → trim_space capability ≡ capability
    → has_permission held (build_subject u o) capability action_operate
      ≡ granted held u o capability
unfolding has_permission
has_permission_lem none u o capability h t = refl
has_permission_lem (some e) u o capability h t = rw t (
    rw (trim-build_subject u o)
      (rw h (rw (is_nil-build_subject u o) (rw trim-action_operate refl))))

pub check_capability_lem :
    (r : Repos) (u o : ℕ) (capability : Text)
    → is_nil (trim_space capability) ≡ false
    → check_user_capability_in_org r u o capability
      ≡ from_casbin (granted r.enforcer u o (trim_space capability))
unfolding check_user_capability_in_org check_subject_capability
check_capability_lem r u o capability h = rw (trim-build_subject u o) (
    rw (is_nil-build_subject u o)
      (rw h (ap from_casbin (has_permission_lem r.enforcer u o _ h (trim_space_idem capability)))))

-- Who may operate a capability of an organisation.
pub data MayOperate (r : Repos) (u o : ℕ) (capability : Text) : Type 0 where
  as_owner :
      (org : Org) → r.org_by_id o ≡ ok (some org) → u ≡ org.owner_id → MayOperate r u o capability
  as_super :
      (org : Org) (roles : List (Option Role))
      → r.org_by_id o ≡ ok (some org)
      → r.global_roles u ≡ ok roles
      → has_super roles ≡ true
      → MayOperate r u o capability
  as_granted :
      (org : Org) (roles : List (Option Role)) (enforcer : Enforcer)
      → r.org_by_id o ≡ ok (some org)
      → r.global_roles u ≡ ok roles
      → r.enforcer ≡ some enforcer
      → enforcer (build_subject u o) (trim_space capability) action_operate ≡ some true
      → MayOperate r u o capability

abbrev refused : Fault → Result Fault Bool
refused problem = err problem

err_is_not_ok : {problem : Fault} → ¬ (refused problem ≡ ok true)
err_is_not_ok q = cc

module _ (r : Repos) (u o : ℕ) (capability : Text) where
  -- The decision on one that neither owns the organisation nor is a super administrator.
  decide_by_grant :
      (org : Org) (roles : List (Option Role))
      → (u == org.owner_id) ≡ false
      → r.global_roles u ≡ ok roles
      → has_super roles ≡ false
      → is_nil (trim_space capability) ≡ false
      → decide_in_org r u o capability org
        ≡ wrap internal_error (from_casbin (granted r.enforcer u o (trim_space capability)))
  unfolding decide_in_org load_global_roles
  decide_by_grant org roles n g s h =
      rw n (rw g (rw s (ap (wrap internal_error) (check_capability_lem r u o capability h))))

  decide_of_super :
      (org : Org) (roles : List (Option Role))
      → (u == org.owner_id) ≡ false
      → r.global_roles u ≡ ok roles
      → has_super roles ≡ true
      → decide_in_org r u o capability org ≡ ok true
  unfolding decide_in_org load_global_roles
  decide_of_super org roles n g s = rw n (rw g (rw s refl))

  decide_of_owner :
      (org : Org) → (u == org.owner_id) ≡ true → decide_in_org r u o capability org ≡ ok true
  unfolding decide_in_org
  decide_of_owner org n = rw n refl

  decide_of_error :
      (org : Org) (problem : RepoError)
      → (u == org.owner_id) ≡ false
      → r.global_roles u ≡ err problem
      → decide_in_org r u o capability org ≡ err (biz db_error)
  unfolding decide_in_org load_global_roles
  decide_of_error org problem n g = rw n (rw g refl)

  decide_found :
      (org : Org)
      → r.org_by_id o ≡ ok (some org)
      → is_nil (trim_space capability) ≡ false
      → can_operate_org_capability (some r) u o capability ≡ decide_in_org r u o capability org
  unfolding can_operate_org_capability
  decide_found org f h = rw h (rw f refl)

  sound_grant :
      (org : Org) (roles : List (Option Role))
      → r.org_by_id o ≡ ok (some org)
      → r.global_roles u ≡ ok roles
      → (held : Option Enforcer) → r.enforcer ≡ held
      → wrap internal_error (from_casbin (granted held u o (trim_space capability))) ≡ ok true
      → MayOperate r u o capability
  sound_grant org roles f g none q h = absurd cc
  sound_grant org roles f g (some e) q h =
      as_granted org roles e f g q
        (answer_true (e (build_subject u o) (trim_space capability) action_operate) h)
    where
      answer_true :
          (given : Option Bool)
          → wrap internal_error (from_casbin (answer given)) ≡ ok true
          → given ≡ some true
      answer_true none k = absurd cc
      answer_true (some true) k = refl
      answer_true (some false) k = absurd cc

  sound_loaded :
      (org : Org)
      → (u == org.owner_id) ≡ false
      → is_nil (trim_space capability) ≡ false
      → r.org_by_id o ≡ ok (some org)
      → (found : Result RepoError (List (Option Role))) → r.global_roles u ≡ found
      → decide_in_org r u o capability org ≡ ok true
      → MayOperate r u o capability
  sound_loaded org n b f (err problem) g h =
      absurd (err_is_not_ok (sym (decide_of_error org problem n g) ∙ h))
  sound_loaded org n b f (ok roles) g h = elim (Bool-cases (has_super roles)) [
    | inl s ↦ as_super org roles f g s
    | inr s ↦
        sound_grant org roles f g r.enforcer refl (sym (decide_by_grant org roles n g s b) ∙ h)
  ]

  sound_decide :
      (org : Org)
      → is_nil (trim_space capability) ≡ false
      → r.org_by_id o ≡ ok (some org)
      → decide_in_org r u o capability org ≡ ok true
      → MayOperate r u o capability
  sound_decide org b f h = elim (Bool-cases (u == org.owner_id)) [
    | inl n ↦ as_owner org f ((nat_eq_iff u org.owner_id).0 n)
    | inr n ↦ sound_loaded org n b f (r.global_roles u) refl h
  ]

  sound_found :
      is_nil (trim_space capability) ≡ false
      → (found : Result RepoError (Option Org)) → r.org_by_id o ≡ found
      → (found_org found >>= decide_in_org r u o capability) ≡ ok true
      → MayOperate r u o capability
  sound_found b (err record_not_found) f h = absurd cc
  sound_found b (err repo_failed) f h = absurd cc
  sound_found b (ok none) f h = absurd cc
  sound_found b (ok (some org)) f h = sound_decide org b f h

  sound :
      can_operate_org_capability (some r) u o capability ≡ ok true
      → (is_nil (trim_space capability) ≡ false) × MayOperate r u o capability
  unfolding can_operate_org_capability
  sound h = elim (Bool-cases (is_nil (trim_space capability))) [
    | inl b ↦ absurd (blank_fails _ b h)
    | inr b ↦ (b, sound_found b (r.org_by_id o) refl (filled _ b h))
  ]
    where
      blank_fails :
          (x : Result Fault Bool) {b : Bool}
          → b ≡ true
          → ¬ ((if b then err (biz invalid_params) else x) ≡ ok true)
      blank_fails x q k = ground (arith, q, k)

      filled :
          (x : Result Fault Bool) {y z : Result Fault Bool} {b : Bool}
          → b ≡ false
          → (if b then x else y) ≡ z
          → y ≡ z
      filled x q k = ground (arith, q, k)

  complete :
      is_nil (trim_space capability) ≡ false
      → MayOperate r u o capability
      → can_operate_org_capability (some r) u o capability ≡ ok true
  complete b (as_owner org f q) =
      decide_found org f b ∙ decide_of_owner org ((nat_eq_iff u org.owner_id).1 q)
  complete b (as_super org roles f g s) =
      decide_found org f b ∙ (elim (Bool-cases (u == org.owner_id)) [
        | inl n ↦ decide_of_owner org n
        | inr n ↦ decide_of_super org roles n g s
      ])
  complete b (as_granted org roles enforcer f g q a) =
      decide_found org f b ∙ (elim (Bool-cases (u == org.owner_id)) [
        | inl n ↦ decide_of_owner org n
        | inr n ↦ elim (Bool-cases (has_super roles)) [
          | inl s ↦ decide_of_super org roles n g s
          | inr s ↦ decide_by_grant org roles n g s b ∙ rw q (rw a refl)
        ]
      ])

  permitted_iff :
      (answered : Result Fault Bool) → (answered >>= permitted ≡ ok tt) ↔ (answered ≡ ok true)
  permitted_iff (err problem) = (λ q. absurd cc, λ q. absurd cc)
  permitted_iff (ok true) = (λ q. refl, λ q. refl)
  permitted_iff (ok false) = (λ q. absurd cc, λ q. absurd cc)

-- A service that is set up authorizes a user for a capability of an organisation if and only if
-- the capability's code is not blank, the organisation is found, and the user owns it, or the
-- user's global roles load and hold the super administrator, or they load and the enforcer lets
-- the user's subject in this organisation operate the trimmed capability.
pub authorize_exact :
    (r : Repos) (u o : ℕ) (capability : Text)
    → (authorize_org_capability (some r) u o capability ≡ ok tt)
      ↔ ((is_nil (trim_space capability) ≡ false) × MayOperate r u o capability)
unfolding authorize_org_capability
authorize_exact r u o capability = (
  λ q. sound r u o capability ((permitted_iff r u o capability _).0 q),
  λ q. (permitted_iff r u o capability _).1 (complete r u o capability q.0 q.1),
)

abbrev pub with_enforcer : Repos → Enforcer → Repos
with_enforcer r enforcer = record r { enforcer = some enforcer }

granted_elsewhere :
    (e e2 : Enforcer) (u o v p : ℕ) (capability : Text)
    → ¬ ((u ≡ v) × (o ≡ p))
    → ((subject object action : Text)
        → subject ≢ build_subject v p
        → e subject object action ≡ e2 subject object action)
    → granted (some e) u o capability ≡ granted (some e2) u o capability
granted_elsewhere e e2 u o v p capability other agree = ap answer (
    agree (build_subject u o) capability action_operate
      (λ q. other (build_subject-injective u o v p q)))

same_capability :
    (r : Repos) (e e2 : Enforcer) (u o v p : ℕ) (capability : Text)
    → ¬ ((u ≡ v) × (o ≡ p))
    → ((subject object action : Text)
        → subject ≢ build_subject v p
        → e subject object action ≡ e2 subject object action)
    → check_user_capability_in_org (with_enforcer r e) u o capability
      ≡ check_user_capability_in_org (with_enforcer r e2) u o capability
unfolding check_user_capability_in_org check_subject_capability
same_capability r e e2 u o v p capability other agree =
    elim (Bool-cases (is_nil (trim_space capability))) [
      | inl b ↦ rw (trim-build_subject u o) (rw (is_nil-build_subject u o) (rw b refl))
      | inr b ↦
          check_capability_lem (with_enforcer r e) u o capability b
          ∙ (ap from_casbin (granted_elsewhere e e2 u o v p (trim_space capability) other agree)
              ∙ sym (check_capability_lem (with_enforcer r e2) u o capability b))
    ]

abbrev loaded_with : Result Fault Bool → List (Option Role) × Bool → Result Fault Bool
loaded_with decided loaded = if loaded.1 then ok true else wrap internal_error decided

-- If two enforcers answer alike on every subject but that of a user v in an organisation p,
-- then for every other pair of a user u and an organisation o the authorization of a capability
-- comes out the same under both.
pub grants_are_isolated :
    (r : Repos) (e e2 : Enforcer) (u o v p : ℕ) (capability : Text)
    → ¬ ((u ≡ v) × (o ≡ p))
    → ((subject object action : Text)
        → subject ≢ build_subject v p
        → e subject object action ≡ e2 subject object action)
    → authorize_org_capability (some (with_enforcer r e)) u o capability
      ≡ authorize_org_capability (some (with_enforcer r e2)) u o capability
unfolding authorize_org_capability can_operate_org_capability decide_in_org load_global_roles
grants_are_isolated r e e2 u o v p capability other agree =
    ap
      (λ decided.
        (if is_nil (trim_space capability)
          then err (biz invalid_params)
          else (found_org (r.org_by_id o) >>= λ org.
              if u == org.owner_id
              then ok true
              else (wrap db_error (load_global_roles r u) >>= loaded_with decided)))
        >>= permitted)
      (same_capability r e e2 u o v p capability other agree)
