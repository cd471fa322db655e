-- ===== src/Memory/Tests.antt =====
-- The theorems of the memory policy at small inputs.
use personal_assistant.Base.{◌≡◌, ◌↔◌, refl, true, false, not, ◌&&◌, [], ◌∷◌, none, some}
use personal_assistant.Base.Text.{Text, lit}
use personal_assistant.Base.Int.{pos}
use personal_assistant.Memory.Types.{
  self_scope, org_scope, explicit_user_statement, admin_set, model_inferred, semantic,
  AccessContext, AccessTarget, ScopeInput, FactCandidate, FactVersion, TtlHint, self_visible,
  build_self_scope_key,
}
use personal_assistant.Memory.Access.{
  evaluate_memory_access, is_approved_org_scope, holds_id, resolve_scope, resolve_visibility,
  new_memory_access_target,
}
use personal_assistant.Memory.Access.Exact.{MayAccess, memory_access_sound}
use personal_assistant.Memory.Access.Resolved.{resolved_is_writable}
use personal_assistant.Memory.Store.{
  is_forbidden_memory_source, is_low_value, scope_input_of, should_store_fact, store_fact_exact,
}
use personal_assistant.Memory.Document.{
  DocumentCandidate, is_summary, is_low_document, document_scope, should_store_document,
}
use personal_assistant.Memory.Document.Exact.{store_document_exact}
use personal_assistant.Memory.Override.{should_override_fact}
use personal_assistant.Memory.Override.Exact.{Overrides, override_exact}
use personal_assistant.Memory.Ttl.{Clock, resolve_ttl}
use personal_assistant.Memory.Ttl.Bounds.{IsBounded, resolve_ttl-IsBounded}

abbrev anna : AccessContext
anna = record {
  principal = record { user_id = 7; is_super_admin = false };
  approved_org_scope_keys = [];
  approved_org_ids = 3 ∷ [];
  allow_platform_ops = false;
}

abbrev own_target : AccessTarget
own_target = record {
  scope_type = self_scope;
  scope_key = build_self_scope_key 7;
  visibility = self_visible;
  user_id = some 7;
  org_id = none;
}

abbrev own_input : ScopeInput
own_input = record { scope_type = self_scope; user_id = none; org_id = none }

abbrev org_input : ScopeInput
org_input = record { scope_type = org_scope; user_id = none; org_id = some 3 }

resolved_is_writable_example :
    (evaluate_memory_access
      (new_memory_access_target
        (resolve_scope org_input anna)
        (resolve_visibility (resolve_scope org_input anna) admin_set))
      anna).allowed
    ≡ true
unfolding resolve_scope is_approved_org_scope holds_id
resolved_is_writable_example = resolved_is_writable org_input anna admin_set refl

resolved_own :
    (evaluate_memory_access
      (new_memory_access_target
        (resolve_scope own_input anna)
        (resolve_visibility (resolve_scope own_input anna) admin_set))
      anna).allowed
    ≡ true
unfolding resolve_scope
resolved_own = resolved_is_writable own_input anna admin_set refl

memory_access_sound_example : MayAccess own_target anna
unfolding resolve_scope resolve_visibility
memory_access_sound_example = memory_access_sound own_target anna resolved_own

abbrev candidate : FactCandidate
candidate = record {
  scope_type = self_scope;
  user_id = none;
  org_id = none;
  namespace = lit "user_preference";
  fact_key = lit "tone";
  fact_value_json = lit "1";
  confidence = record { mantissa = pos 3; exponent = 2 };
  ttl_hint = none;
  source_kind = explicit_user_statement;
  low_value = false;
  truth_conflict = false;
}

store_fact_exact_example : (should_store_fact candidate anna).allowed ≡ (
    not (is_forbidden_memory_source candidate.source_kind)
    && not candidate.truth_conflict
    && not (is_low_value candidate)
    && (resolve_scope (scope_input_of candidate) anna).decision.allowed)
store_fact_exact_example = store_fact_exact candidate anna

abbrev guessed : FactVersion
guessed = record { value_json = lit "1"; source_kind = model_inferred }

abbrev stated : FactVersion
stated = record { value_json = lit "2"; source_kind = explicit_user_statement }

override_exact_example :
    ((should_override_fact guessed stated self_scope).allowed ≡ true)
    ↔ Overrides guessed stated self_scope
override_exact_example = override_exact guessed stated self_scope

abbrev clock : Clock
clock = record { now = 1000; parse_until_date = λ text. none; days_in = λ time. 0 }

abbrev forever : TtlHint
forever = record { kind = lit "duration"; value = pos 5000; unit = lit "Days"; until_date = [] }

resolve_ttl-IsBounded_example :
    IsBounded 1000 (resolve_ttl clock (lit "oj_goal") semantic (some forever))
resolve_ttl-IsBounded_example = resolve_ttl-IsBounded clock (lit "oj_goal") semantic (some forever)

abbrev constant_hash : Text → Text
constant_hash text = lit "ab"

abbrev unchanged : Text → Text
unchanged text = text

abbrev document : DocumentCandidate
document = record {
  scope_type = org_scope;
  user_id = none;
  org_id = some 3;
  memory_type = semantic;
  topic = lit "onboarding";
  summary = [];
  content_text = lit "read the handbook";
  confidence = record { mantissa = pos 3; exponent = 2 };
  ttl_hint = none;
  source_kind = admin_set;
  source_id = [];
  low_value = false;
  truth_conflict = false;
}

store_document_exact_example :
    (should_store_document constant_hash unchanged document anna).decision.allowed ≡ (
      not (is_summary document.memory_type)
      && not (is_forbidden_memory_source document.source_kind)
      && not document.truth_conflict
      && not (is_low_document document)
      && (document_scope document anna).decision.allowed)
store_document_exact_example =
    store_document_exact constant_hash unchanged (λ text. refl) document anna
