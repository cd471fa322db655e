-- ===== src/Memory/Store.antt =====
-- ShouldStoreFact of internal/service/system/aiMemoryPolicy.go.
use personal_assistant.Base.{
  ℕ, ◌≡◌, refl, Bool, true, false, not, ◌&&◌, ◌||◌, Option, none, some, ◌==◌, ltb, arith,
  if◌then◌else◌, ◌*◌, Bool-cases, inl, inr,
}
use Prim.Native.Nat.{◌^◌}
use personal_assistant.Base.Text.{lit, is_nil, text_key, trim_space}
use personal_assistant.Base.Int.{ℤ, pos, negsuc}
use personal_assistant.Memory.Types.{
  ScopeType, self_scope, org_scope, platform_ops, other_scope, AccessTarget, SourceKind,
  raw_trace_payload, full_tool_output, Float, AccessContext, Decision, ScopeDecision,
  VisibilityDecision, ScopeInput, TtlHint, FactCandidate, allow, deny, deny_forbidden_source,
  deny_truth_conflict, deny_low_value_content, allow_store_fact,
}
use personal_assistant.Memory.Access.{
  resolve_scope, resolve_visibility, visibility_of, evaluate_type, evaluate_memory_access,
  new_memory_access_target,
}
use personal_assistant.Memory.Access.Resolved.{resolved_is_writable}

abbrev pub is_forbidden_memory_source : SourceKind → Bool
is_forbidden_memory_source raw_trace_payload = true
is_forbidden_memory_source full_tool_output = true
is_forbidden_memory_source _ = false

-- 0 < confidence and confidence < 0.5
abbrev pub is_below_half : ℤ → ℕ → Bool
is_below_half (pos mantissa) exponent = ltb 0 mantissa && ltb (2 * mantissa) (2 ^ exponent)
is_below_half (negsuc n) exponent = false

unfoldable pub is_memory_confidence_too_low : Float → Bool
is_memory_confidence_too_low confidence = is_below_half confidence.mantissa confidence.exponent

unfoldable pub is_session_only_ttl_hint : Option TtlHint → Bool
is_session_only_ttl_hint none = false
is_session_only_ttl_hint (some hint) = hint.kind == lit "session_only"

abbrev pub is_low_value : FactCandidate → Bool
is_low_value candidate =
    candidate.low_value
    || is_nil (trim_space candidate.namespace)
    || is_nil (trim_space candidate.fact_key)
    || is_nil (trim_space candidate.fact_value_json)
    || is_memory_confidence_too_low candidate.confidence
    || is_session_only_ttl_hint candidate.ttl_hint

abbrev pub scope_input_of : FactCandidate → ScopeInput
scope_input_of candidate = record {
  scope_type = candidate.scope_type;
  user_id = candidate.user_id;
  org_id = candidate.org_id;
}

abbrev pub if_writable : Decision → Decision
if_writable write = if not write.allowed then write else allow allow_store_fact

abbrev pub if_visible : ScopeDecision → VisibilityDecision → AccessContext → Decision
if_visible scope visible access =
    if not visible.decision.allowed
    then visible.decision
    else if_writable (evaluate_memory_access (new_memory_access_target scope visible) access)

abbrev pub if_scoped : ScopeDecision → SourceKind → AccessContext → Decision
if_scoped scope source access =
    if not scope.decision.allowed
    then scope.decision
    else if_visible scope (resolve_visibility scope source) access

unfoldable pub should_store_fact : FactCandidate → AccessContext → Decision
should_store_fact candidate access =
    if is_forbidden_memory_source candidate.source_kind
    then deny deny_forbidden_source
    else if candidate.truth_conflict
    then deny deny_truth_conflict
    else if is_low_value candidate
    then deny deny_low_value_content
    else if_scoped (resolve_scope (scope_input_of candidate) access) candidate.source_kind access

visible_if_checked :
    (target : AccessTarget) (access : AccessContext) (kind : ScopeType)
    → (evaluate_type target access kind).allowed ≡ true
    → (visibility_of kind).decision.allowed ≡ true
visible_if_checked target access self_scope h = refl
visible_if_checked target access org_scope h = refl
visible_if_checked target access platform_ops h = refl
visible_if_checked target access (other_scope name) h = absurd cc

pub visible_of_target :
    (target : AccessTarget) (access : AccessContext)
    → (evaluate_memory_access target access).allowed ≡ true
    → (visibility_of target.scope_type).decision.allowed ≡ true
unfolding evaluate_memory_access
visible_of_target target access h = visible_if_checked target access target.scope_type h

stored_if_scoped :
    (scope visible write : Decision)
    → (scope.allowed ≡ true → visible.allowed ≡ true)
    → (scope.allowed ≡ true → write.allowed ≡ true)
    → (if not scope.allowed
        then scope
        else if not visible.allowed
        then visible
        else if_writable write).allowed
      ≡ scope.allowed
stored_if_scoped scope visible write v w = elim (Bool-cases scope.allowed) [
  | inl q ↦ ground (arith, q, v q, w q)
  | inr q ↦ ground (arith, q)
]

pub visible_if_allowed :
    (scope : ScopeDecision) (source : SourceKind)
    → scope.decision.allowed ≡ true
    → (visibility_of scope.scope_type).decision.allowed ≡ true
    → (resolve_visibility scope source).decision.allowed ≡ true
unfolding resolve_visibility
visible_if_allowed scope source q v = ground (arith, q, v)

scoped_lem :
    (input : ScopeInput) (source : SourceKind) (access : AccessContext)
    → (if_scoped (resolve_scope input access) source access).allowed
      ≡ (resolve_scope input access).decision.allowed
scoped_lem input source access =
    stored_if_scoped (resolve_scope input access).decision
      (resolve_visibility (resolve_scope input access) source).decision
      (evaluate_memory_access
        (new_memory_access_target (resolve_scope input access)
          (resolve_visibility (resolve_scope input access) source))
        access)
      (λ q.
        visible_if_allowed (resolve_scope input access) source q
          (visible_of_target _ access (resolved_is_writable input access source q)))
      (λ q. resolved_is_writable input access source q)

filters_lem :
    (a b c : Bool) (x : Decision) (r : Bool)
    → x.allowed ≡ r
    → (if a
        then deny deny_forbidden_source
        else if b
        then deny deny_truth_conflict
        else if c
        then deny deny_low_value_content
        else x).allowed
      ≡ (not a && not b && not c && r)
filters_lem true b c x r q = refl
filters_lem false true c x r q = refl
filters_lem false false true x r q = refl
filters_lem false false false x r q = q

-- The policy stores a fact candidate if and only if its source is not forbidden, it does not
-- conflict with the truth source, it is not of low value, and its scope resolves; the later
-- checks of visibility and of writing never refuse it.
pub store_fact_exact :
    (candidate : FactCandidate) (access : AccessContext)
    → (should_store_fact candidate access).allowed ≡ (
        not (is_forbidden_memory_source candidate.source_kind)
        && not candidate.truth_conflict
        && not (is_low_value candidate)
        && (resolve_scope (scope_input_of candidate) access).decision.allowed)
unfolding should_store_fact
store_fact_exact candidate access =
    filters_lem _ _ _ _ _ (scoped_lem (scope_input_of candidate) candidate.source_kind access)
