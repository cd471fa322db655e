-- ===== src/Memory/Ttl.antt =====
-- ResolveTTL of internal/service/system/aiMemoryPolicy.go: when a memory expires. Times count
-- nanoseconds. `time.Parse` and the rounding of a difference to days are a parameter.
pub mod Bounds
use personal_assistant.Base.{
  ℕ, zero, suc, Bool, true, false, not, ◌&&◌, ◌||◌, List, [], ◌∷◌, Option, none, some, ◌==◌, ltb,
  leb, arith, if◌then◌else◌, ◌*◌, ◌+◌, ◌-◌, ◌≤◌, map,
}
use personal_assistant.Base.Text.{Text, lit, is_nil, text_key, trim_space}
use personal_assistant.Base.Int.{ℤ, pos, negsuc}
use personal_assistant.Memory.Types.{
  MemoryType, entity, session_summary, episodic, semantic, incident, procedural, faq, other_type,
  TtlHint,
}

pub record Clock : Type 0 where
  pub now : ℕ
  pub parse_until_date : Text → Option ℕ
  pub days_in : ℕ → ℕ

abbrev pub day : ℕ
day = 86400000000000

unfoldable pub is_one_of : Text → List Text → Bool
is_one_of text [] = false
is_one_of text (name ∷ names) = text == name || is_one_of text names

abbrev pub persistent_namespaces : List Text
persistent_namespaces =
    lit "user_preference" ∷ lit "org_profile" ∷ lit "ops_incident" ∷ lit "ops_runbook" ∷ []

abbrev pub is_session_summary : MemoryType → Bool
is_session_summary session_summary = true
is_session_summary _ = false

unfoldable pub default_ttl : ℕ → Text → Option ℕ
default_ttl now namespace =
    if is_one_of namespace persistent_namespaces
    then none
    else if namespace == lit "oj_goal"
    then some (now + 30 * day)
    else if namespace == lit "oj_profile"
    then some (now + 60 * day)
    else if namespace == lit "org_learning_pattern"
    then some (now + 14 * day)
    else none

unfoldable pub ttl_persistent_allowed : Text → MemoryType → Bool
ttl_persistent_allowed namespace memory_type =
    is_one_of namespace persistent_namespaces
    || is_nil namespace && not (is_session_summary memory_type)

abbrev pub type_bounds : MemoryType → Option (ℕ × ℕ)
type_bounds episodic = some (1, 180)
type_bounds incident = some (7, 365)
type_bounds procedural = some (7, 365)
type_bounds _ = none

unfoldable pub ttl_duration_bounds : Text → MemoryType → Option (ℕ × ℕ)
ttl_duration_bounds namespace memory_type =
    if namespace == lit "oj_goal"
    then some (1, 90)
    else if namespace == lit "oj_profile"
    then some (7, 180)
    else if namespace == lit "org_learning_pattern"
    then some (1, 60)
    else if is_nil namespace
    then type_bounds memory_type
    else none

-- strings.ToLower on ASCII; no other letter has a lower case that stands in a unit below.
abbrev lower : ℕ → ℕ
lower c = if leb 65 c && leb c 90 then c + 32 else c

abbrev pub days_of_value : ℤ → Option ℕ
days_of_value (pos zero) = none
days_of_value (pos (suc n)) = some (suc n)
days_of_value (negsuc n) = none

unfoldable pub ttl_hint_duration_days : TtlHint → Option ℕ
ttl_hint_duration_days hint =
    if is_one_of (map lower (trim_space hint.unit)) ([] ∷ lit "day" ∷ lit "days" ∷ lit "d" ∷ [])
    then days_of_value hint.value
    else none

unfoldable pub clamp_memory_ttl_days : ℕ → ℕ → ℕ → ℕ
clamp_memory_ttl_days days min max =
    if ltb days min then min else if ltb max days then max else days

abbrev pub after_now : Clock → Option ℕ → Option ℕ
after_now clock none = none
after_now clock (some until) =
    if ltb clock.now until then some (clock.days_in (until - clock.now)) else none

abbrev pub parse_trimmed : Clock → Text → Option ℕ
parse_trimmed clock text = if is_nil text then none else clock.parse_until_date text

unfoldable pub hinted_days : Clock → Text → TtlHint → Option ℕ
hinted_days clock kind hint =
    if kind == lit "duration"
    then ttl_hint_duration_days hint
    else if kind == lit "until_date"
    then after_now clock (parse_trimmed clock (trim_space hint.until_date))
    else none

abbrev pub expiry : ℕ → Option (ℕ × ℕ) → Option ℕ → Option (Option ℕ)
expiry now none days = none
expiry now (some (min, max)) none = none
expiry now (some (min, max)) (some days) =
    some (some (now + clamp_memory_ttl_days days min max * day))

-- `none` is a hint that is not taken; the time within is the expiry, none for a persistent memory.
abbrev pub resolve_kind : Clock → Text → MemoryType → Text → TtlHint → Option (Option ℕ)
resolve_kind clock namespace memory_type kind hint =
    if is_one_of kind ([] ∷ lit "default" ∷ lit "session_only" ∷ [])
    then none
    else if kind == lit "persistent"
    then (if ttl_persistent_allowed namespace memory_type then some none else none)
    else expiry clock.now (ttl_duration_bounds namespace memory_type) (hinted_days clock kind hint)

unfoldable pub resolve_ttl_hint : Clock → Text → MemoryType → Option TtlHint → Option (Option ℕ)
resolve_ttl_hint clock namespace memory_type none = none
resolve_ttl_hint clock namespace memory_type (some hint) =
    resolve_kind clock namespace memory_type (trim_space hint.kind) hint

abbrev pub or_default : Option (Option ℕ) → Option ℕ → Option ℕ
or_default none otherwise = otherwise
or_default (some decided) otherwise = decided

unfoldable pub resolve_ttl : Clock → Text → MemoryType → Option TtlHint → Option ℕ
resolve_ttl clock namespace memory_type hint =
    or_default (resolve_ttl_hint clock (trim_space namespace) memory_type hint)
      (default_ttl clock.now (trim_space namespace))
