-- ===== src/Memory/Override/Exact.antt =====
-- ShouldOverrideFact of aiMemoryPolicy.go: when a candidate may replace a fact.
use personal_assistant.Base.{
  ℕ, ◌≡◌, ◌≢◌, ◌↔◌, refl, Bool, true, false, ◌==◌, ◌<◌, arith, if◌then◌else◌,
}
use personal_assistant.Base.Text.{Text, is_nil, text_key, text_eq_iff, trim_space}
use personal_assistant.Memory.Types.{
  ScopeType, SourceKind, FactVersion, deny, deny_low_value_content, skip_same_value,
}
use personal_assistant.Memory.Override.{
  memory_source_priority, compare_priorities, should_override_fact,
}
use personal_assistant.Memory.Override.Ranking.{Outranks, priority_iff}

-- The candidate may replace the current fact.
abbrev pub Overrides : FactVersion → FactVersion → ScopeType → Type 0
Overrides current candidate scope_type =
    (is_nil (trim_space candidate.value_json) ≡ false)
    × ((trim_space current.value_json ≢ trim_space candidate.value_json)
        × (Outranks scope_type current.source_kind candidate.source_kind → ⊥))

priorities_iff :
    (c d : ℕ) (source : SourceKind) → ((compare_priorities c d source).allowed ≡ true) ↔ (d < c → ⊥)
priorities_iff c d source = ground arith

decided_iff :
    (blank same : Bool) (c d : ℕ) (source : SourceKind)
    → ((if blank
          then deny deny_low_value_content
          else if same
          then deny skip_same_value
          else compare_priorities c d source).allowed
        ≡ true)
      ↔ ((blank ≡ false) × ((same ≡ false) × (d < c → ⊥)))
decided_iff true same c d source = (λ q. absurd cc, λ q. absurd cc)
decided_iff false true c d source = (λ q. absurd cc, λ q. absurd cc)
decided_iff false false c d source =
    (λ q. (refl, (refl, (priorities_iff c d source).0 q)), λ q. (priorities_iff c d source).1 q.1.1)

differ_iff : (a b : Text) → ((a == b) ≡ false) ↔ (a ≢ b)
differ_iff a b = ground (arith, text_eq_iff a b)

-- A candidate may replace a fact if and only if its trimmed value is not empty and differs from
-- the current one, and its source is not outranked in the scope by that of the current fact,
-- where what a user states and what an administrator sets outrank the summary of a tool, this
-- outranks what a model infers, and this any other source; and between the first two, the
-- administrator outranks the user in the scopes of organisations and of the platform, and the
-- user the administrator in all others.
pub override_exact :
    (current candidate : FactVersion) (scope_type : ScopeType)
    → ((should_override_fact current candidate scope_type).allowed ≡ true)
      ↔ Overrides current candidate scope_type
unfolding should_override_fact
override_exact current candidate scope_type = (
  λ q.
      let (filled, (differ, high)) = (decided_iff _ _ _ _ _).0 q in
      (filled, ((differ_iff _ _).0 differ, λ above. high (rank.1 above))),
  λ (filled, (differ, high)).
      (decided_iff _ _ _ _ _).1 (filled, ((differ_iff _ _).1 differ, λ lower. high (rank.0 lower))),
)
  where
    rank :
        (memory_source_priority scope_type candidate.source_kind
          < memory_source_priority scope_type current.source_kind)
        ↔ Outranks scope_type current.source_kind candidate.source_kind
    rank = priority_iff scope_type current.source_kind candidate.source_kind
