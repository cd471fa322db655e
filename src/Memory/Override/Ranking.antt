-- ===== src/Memory/Override/Ranking.antt =====
-- The order of the sources of a memory, apart from the numbers of aiMemoryPolicy.go.
use personal_assistant.Base.{◌≡◌, ◌↔◌, refl, ◌<◌, arith}
use personal_assistant.Base.Text.{text_key}
use personal_assistant.Memory.Types.{
  ScopeType, self_scope, org_scope, platform_ops, other_scope, SourceKind, explicit_user_statement,
  admin_set, tool_verified_summary, model_inferred, raw_trace_payload, full_tool_output,
  other_source,
}
use personal_assistant.Memory.Override.{private_priority, public_priority, memory_source_priority}

-- Organisations' memories and the platform's.
abbrev IsPublic : ScopeType → Type 0
IsPublic org_scope = Unit
IsPublic platform_ops = Unit
IsPublic self_scope = ⊥
IsPublic (other_scope name) = ⊥

abbrev IsPrivate : ScopeType → Type 0
IsPrivate org_scope = ⊥
IsPrivate platform_ops = ⊥
IsPrivate self_scope = Unit
IsPrivate (other_scope name) = Unit

abbrev IsUnranked : SourceKind → Type 0
IsUnranked raw_trace_payload = Unit
IsUnranked full_tool_output = Unit
IsUnranked (other_source name) = Unit
IsUnranked _ = ⊥

-- Which source outranks which: what a user states and what an administrator sets outrank the summary of
-- a tool, this outranks what a model infers, and this any other source; between the first two, the
-- administrator comes first in public scopes, and the user in the others.
pub data Outranks (scope : ScopeType) : SourceKind → SourceKind → Type 0 where
  set_over_stated : IsPublic scope → Outranks scope admin_set explicit_user_statement
  stated_over_set : IsPrivate scope → Outranks scope explicit_user_statement admin_set
  set_over_verified : Outranks scope admin_set tool_verified_summary
  stated_over_verified : Outranks scope explicit_user_statement tool_verified_summary
  verified_over_inferred : Outranks scope tool_verified_summary model_inferred
  inferred_over_unranked : (s : SourceKind) → IsUnranked s → Outranks scope model_inferred s
  through : {a b c : SourceKind} → Outranks scope a b → Outranks scope b c → Outranks scope a c

unranked_lowest :
    (s : SourceKind) → IsUnranked s → (private_priority s ≡ 0) × (public_priority s ≡ 0)
unranked_lowest explicit_user_statement u = absurd u
unranked_lowest admin_set u = absurd u
unranked_lowest tool_verified_summary u = absurd u
unranked_lowest model_inferred u = absurd u
unranked_lowest raw_trace_payload u = (refl, refl)
unranked_lowest full_tool_output u = (refl, refl)
unranked_lowest (other_source name) u = (refl, refl)

apart : (scope : ScopeType) → IsPrivate scope → IsPublic scope → ⊥
apart org_scope p q = p
apart platform_ops p q = p
apart self_scope p q = q
apart (other_scope name) p q = q

private_falls :
    (scope : ScopeType)
    → IsPrivate scope
    → (a b : SourceKind) → Outranks scope a b
    → private_priority b < private_priority a
private_falls scope p _ _ (set_over_stated q) = absurd (apart scope p q)
private_falls scope p _ _ (stated_over_set q) = omega arith
private_falls scope p _ _ set_over_verified = omega arith
private_falls scope p _ _ stated_over_verified = omega arith
private_falls scope p _ _ verified_over_inferred = omega arith
private_falls scope p _ _ (inferred_over_unranked s u) = omega (arith, (unranked_lowest s u).0)
private_falls scope p _ _ (through {a} {b} {c} h g) =
    omega (arith, private_falls scope p a b h, private_falls scope p b c g)

public_falls :
    (scope : ScopeType)
    → IsPublic scope
    → (a b : SourceKind) → Outranks scope a b
    → public_priority b < public_priority a
public_falls scope p _ _ (set_over_stated q) = omega arith
public_falls scope p _ _ (stated_over_set q) = absurd (apart scope q p)
public_falls scope p _ _ set_over_verified = omega arith
public_falls scope p _ _ stated_over_verified = omega arith
public_falls scope p _ _ verified_over_inferred = omega arith
public_falls scope p _ _ (inferred_over_unranked s u) = omega (arith, (unranked_lowest s u).1)
public_falls scope p _ _ (through {a} {b} {c} h g) =
    omega (arith, public_falls scope p a b h, public_falls scope p b c g)

over_unranked :
    (scope : ScopeType) (a s : SourceKind)
    → Outranks scope a model_inferred
    → IsUnranked s
    → Outranks scope a s
over_unranked scope a s h u = through h (inferred_over_unranked s u)

set_over_inferred : (scope : ScopeType) → Outranks scope admin_set model_inferred
set_over_inferred scope = through set_over_verified verified_over_inferred

stated_over_inferred : (scope : ScopeType) → Outranks scope explicit_user_statement model_inferred
stated_over_inferred scope = through stated_over_verified verified_over_inferred

private_rises :
    (scope : ScopeType)
    → IsPrivate scope
    → (a b : SourceKind) → private_priority b < private_priority a
    → Outranks scope a b
private_rises scope p explicit_user_statement admin_set q = stated_over_set p
private_rises scope p explicit_user_statement tool_verified_summary q = stated_over_verified
private_rises scope p explicit_user_statement model_inferred q = stated_over_inferred scope
private_rises scope p explicit_user_statement raw_trace_payload q =
    over_unranked scope explicit_user_statement raw_trace_payload (stated_over_inferred scope) tt
private_rises scope p explicit_user_statement full_tool_output q =
    over_unranked scope explicit_user_statement full_tool_output (stated_over_inferred scope) tt
private_rises scope p explicit_user_statement (other_source other) q =
    over_unranked scope explicit_user_statement (other_source other) (stated_over_inferred scope) tt
private_rises scope p admin_set tool_verified_summary q = set_over_verified
private_rises scope p admin_set model_inferred q = set_over_inferred scope
private_rises scope p admin_set raw_trace_payload q =
    over_unranked scope admin_set raw_trace_payload (set_over_inferred scope) tt
private_rises scope p admin_set full_tool_output q =
    over_unranked scope admin_set full_tool_output (set_over_inferred scope) tt
private_rises scope p admin_set (other_source other) q =
    over_unranked scope admin_set (other_source other) (set_over_inferred scope) tt
private_rises scope p tool_verified_summary model_inferred q = verified_over_inferred
private_rises scope p tool_verified_summary raw_trace_payload q =
    over_unranked scope tool_verified_summary raw_trace_payload verified_over_inferred tt
private_rises scope p tool_verified_summary full_tool_output q =
    over_unranked scope tool_verified_summary full_tool_output verified_over_inferred tt
private_rises scope p tool_verified_summary (other_source other) q =
    over_unranked scope tool_verified_summary (other_source other) verified_over_inferred tt
private_rises scope p model_inferred raw_trace_payload q =
    inferred_over_unranked raw_trace_payload tt
private_rises scope p model_inferred full_tool_output q = inferred_over_unranked full_tool_output tt
private_rises scope p model_inferred (other_source other) q =
    inferred_over_unranked (other_source other) tt
private_rises scope p a b q = absurd (omega arith)

public_rises :
    (scope : ScopeType)
    → IsPublic scope
    → (a b : SourceKind) → public_priority b < public_priority a
    → Outranks scope a b
public_rises scope p explicit_user_statement tool_verified_summary q = stated_over_verified
public_rises scope p explicit_user_statement model_inferred q = stated_over_inferred scope
public_rises scope p explicit_user_statement raw_trace_payload q =
    over_unranked scope explicit_user_statement raw_trace_payload (stated_over_inferred scope) tt
public_rises scope p explicit_user_statement full_tool_output q =
    over_unranked scope explicit_user_statement full_tool_output (stated_over_inferred scope) tt
public_rises scope p explicit_user_statement (other_source other) q =
    over_unranked scope explicit_user_statement (other_source other) (stated_over_inferred scope) tt
public_rises scope p admin_set explicit_user_statement q = set_over_stated p
public_rises scope p admin_set tool_verified_summary q = set_over_verified
public_rises scope p admin_set model_inferred q = set_over_inferred scope
public_rises scope p admin_set raw_trace_payload q =
    over_unranked scope admin_set raw_trace_payload (set_over_inferred scope) tt
public_rises scope p admin_set full_tool_output q =
    over_unranked scope admin_set full_tool_output (set_over_inferred scope) tt
public_rises scope p admin_set (other_source other) q =
    over_unranked scope admin_set (other_source other) (set_over_inferred scope) tt
public_rises scope p tool_verified_summary model_inferred q = verified_over_inferred
public_rises scope p tool_verified_summary raw_trace_payload q =
    over_unranked scope tool_verified_summary raw_trace_payload verified_over_inferred tt
public_rises scope p tool_verified_summary full_tool_output q =
    over_unranked scope tool_verified_summary full_tool_output verified_over_inferred tt
public_rises scope p tool_verified_summary (other_source other) q =
    over_unranked scope tool_verified_summary (other_source other) verified_over_inferred tt
public_rises scope p model_inferred raw_trace_payload q =
    inferred_over_unranked raw_trace_payload tt
public_rises scope p model_inferred full_tool_output q = inferred_over_unranked full_tool_output tt
public_rises scope p model_inferred (other_source other) q =
    inferred_over_unranked (other_source other) tt
public_rises scope p a b q = absurd (omega arith)

-- The numbers of the code rank the sources as said.
pub priority_iff :
    (scope : ScopeType) (a b : SourceKind)
    → (memory_source_priority scope b < memory_source_priority scope a) ↔ Outranks scope a b
unfolding memory_source_priority
priority_iff org_scope a b = (public_rises org_scope tt a b, public_falls org_scope tt a b)
priority_iff platform_ops a b = (public_rises platform_ops tt a b, public_falls platform_ops tt a b)
priority_iff self_scope a b = (private_rises self_scope tt a b, private_falls self_scope tt a b)
priority_iff (other_scope name) a b =
    (private_rises (other_scope name) tt a b, private_falls (other_scope name) tt a b)
