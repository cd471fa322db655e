-- ===== src/Memory/Override.antt =====
-- ShouldOverrideFact of internal/service/system/aiMemoryPolicy.go.
pub mod Ranking
pub mod Exact
use personal_assistant.Base.{
  ℕ, ◌≡◌, ◌≢◌, ◌↔◌, refl, Bool, true, false, ltb, ◌==◌, ◌<◌, arith, if◌then◌else◌,
}
use personal_assistant.Base.Text.{Text, is_nil, text_key, text_eq_iff, trim_space}
use personal_assistant.Memory.Types.{
  ScopeType, self_scope, org_scope, platform_ops, other_scope, SourceKind, explicit_user_statement,
  admin_set, tool_verified_summary, model_inferred, raw_trace_payload, full_tool_output,
  other_source, Reason, Decision, FactVersion, allow, deny, deny_low_value_content, skip_same_value,
  skip_lower_priority_source, override_explicit_user_statement, override_admin_set,
  allow_same_priority,
}

abbrev pub private_priority : SourceKind → ℕ
private_priority explicit_user_statement = 4
private_priority admin_set = 3
private_priority tool_verified_summary = 2
private_priority model_inferred = 1
private_priority _ = 0

abbrev pub public_priority : SourceKind → ℕ
public_priority admin_set = 4
public_priority explicit_user_statement = 3
public_priority tool_verified_summary = 2
public_priority model_inferred = 1
public_priority _ = 0

-- The source tests the namespace of a self scope, with one result for both answers.
unfoldable pub memory_source_priority : ScopeType → SourceKind → ℕ
memory_source_priority org_scope = public_priority
memory_source_priority platform_ops = public_priority
memory_source_priority self_scope = private_priority
memory_source_priority (other_scope name) = private_priority

abbrev pub override_reason_code : SourceKind → Reason
override_reason_code explicit_user_statement = override_explicit_user_statement
override_reason_code admin_set = override_admin_set
override_reason_code _ = allow_same_priority

abbrev pub compare_priorities : ℕ → ℕ → SourceKind → Decision
compare_priorities current candidate source =
    if ltb candidate current
    then deny skip_lower_priority_source
    else if ltb current candidate
    then allow (override_reason_code source)
    else allow allow_same_priority

unfoldable pub should_override_fact : FactVersion → FactVersion → ScopeType → Decision
should_override_fact current candidate scope_type =
    if is_nil (trim_space candidate.value_json)
    then deny deny_low_value_content
    else if trim_space current.value_json == trim_space candidate.value_json
    then deny skip_same_value
    else compare_priorities (memory_source_priority scope_type current.source_kind)
        (memory_source_priority scope_type candidate.source_kind) candidate.source_kind
