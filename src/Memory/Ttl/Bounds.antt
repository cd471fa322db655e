-- ===== src/Memory/Ttl/Bounds.antt =====
-- ResolveTTL of internal/service/system/aiMemoryPolicy.go: how long a memory lives.
use personal_assistant.Base.{
  ℕ, Bool, true, false, [], ◌∷◌, Option, none, some, ◌==◌, arith, if◌then◌else◌, ◌*◌, ◌+◌, ◌≤◌,
}
use personal_assistant.Base.Text.{Text, lit, is_nil, text_key, trim_space}
use personal_assistant.Memory.Types.{
  MemoryType, entity, session_summary, episodic, semantic, incident, procedural, faq, other_type,
  TtlHint,
}
use personal_assistant.Memory.Ttl.{
  Clock, day, is_one_of, persistent_namespaces, default_ttl, ttl_persistent_allowed, type_bounds,
  ttl_duration_bounds, clamp_memory_ttl_days, hinted_days, expiry, resolve_ttl_hint, or_default,
  resolve_ttl,
}

-- A persistent memory, or one that expires between one day and a year from now.
abbrev pub IsBounded : ℕ → Option ℕ → Type 0
IsBounded now none = Unit
IsBounded now (some time) = (now + day ≤ time) × (time ≤ now + 365 * day)

module _ (now : ℕ) where
  default_shape :
      (a b c d : Bool)
      → IsBounded now (
          if a
          then none
          else if b
          then some (now + 30 * day)
          else if c
          then some (now + 60 * day)
          else if d
          then some (now + 14 * day)
          else none)
  default_shape true b c d = tt
  default_shape false true c d = (omega arith, omega arith)
  default_shape false false true d = (omega arith, omega arith)
  default_shape false false false true = (omega arith, omega arith)
  default_shape false false false false = tt

  default_ttl-IsBounded : (namespace : Text) → IsBounded now (default_ttl now namespace)
  unfolding default_ttl
  default_ttl-IsBounded namespace =
      default_shape (is_one_of namespace persistent_namespaces) (namespace == lit "oj_goal")
        (namespace == lit "oj_profile") (namespace == lit "org_learning_pattern")

  -- What a hint decides, if it is taken.
  abbrev TakenIsBounded : Option (Option ℕ) → Type 0
  TakenIsBounded none = Unit
  TakenIsBounded (some decided) = IsBounded now decided

  abbrev AreBounds : Option (ℕ × ℕ) → Type 0
  AreBounds none = Unit
  AreBounds (some (min, max)) = (1 ≤ min) × ((min ≤ max) × (max ≤ 365))

  clamp-bounds :
      (days min max : ℕ)
      → min ≤ max
      → (min ≤ clamp_memory_ttl_days days min max) × (clamp_memory_ttl_days days min max ≤ max)
  unfolding clamp_memory_ttl_days
  clamp-bounds days min max h = (ground (arith, h), ground (arith, h))

  expiry-TakenIsBounded :
      (bounds : Option (ℕ × ℕ)) (days : Option ℕ)
      → AreBounds bounds
      → TakenIsBounded (expiry now bounds days)
  expiry-TakenIsBounded none days h = tt
  expiry-TakenIsBounded (some (min, max)) none h = tt
  expiry-TakenIsBounded (some (min, max)) (some days) h =
      let c = clamp-bounds days min max h.1.0 in (omega (arith, c, h), omega (arith, c, h))

  bounds_shape :
      (a b c d : Bool) (otherwise : Option (ℕ × ℕ))
      → AreBounds otherwise
      → AreBounds (
          if a
          then some (1, 90)
          else if b
          then some (7, 180)
          else if c
          then some (1, 60)
          else if d
          then otherwise
          else none)
  bounds_shape true b c d otherwise h = (omega arith, (omega arith, omega arith))
  bounds_shape false true c d otherwise h = (omega arith, (omega arith, omega arith))
  bounds_shape false false true d otherwise h = (omega arith, (omega arith, omega arith))
  bounds_shape false false false true otherwise h = h
  bounds_shape false false false false otherwise h = tt

  type-AreBounds : (memory_type : MemoryType) → AreBounds (type_bounds memory_type)
  type-AreBounds entity = tt
  type-AreBounds session_summary = tt
  type-AreBounds episodic = (omega arith, (omega arith, omega arith))
  type-AreBounds semantic = tt
  type-AreBounds procedural = (omega arith, (omega arith, omega arith))
  type-AreBounds incident = (omega arith, (omega arith, omega arith))
  type-AreBounds faq = tt
  type-AreBounds (other_type name) = tt

  duration-AreBounds :
      (namespace : Text) (memory_type : MemoryType)
      → AreBounds (ttl_duration_bounds namespace memory_type)
  unfolding ttl_duration_bounds
  duration-AreBounds namespace memory_type =
      bounds_shape (namespace == lit "oj_goal") (namespace == lit "oj_profile")
        (namespace == lit "org_learning_pattern") (is_nil namespace) (type_bounds memory_type)
        (type-AreBounds memory_type)

  kind_shape :
      (a b c : Bool) (otherwise : Option (Option ℕ))
      → TakenIsBounded otherwise
      → TakenIsBounded
          (if a then none else if b then (if c then some none else none) else otherwise)
  kind_shape true b c otherwise h = tt
  kind_shape false true true otherwise h = tt
  kind_shape false true false otherwise h = tt
  kind_shape false false c otherwise h = h

  or_default-IsBounded :
      (taken : Option (Option ℕ)) (otherwise : Option ℕ)
      → TakenIsBounded taken
      → IsBounded now otherwise
      → IsBounded now (or_default taken otherwise)
  or_default-IsBounded none otherwise h k = k
  or_default-IsBounded (some decided) otherwise h k = h

hint-TakenIsBounded :
    (clock : Clock) (namespace : Text) (memory_type : MemoryType) (hint : Option TtlHint)
    → TakenIsBounded clock.now (resolve_ttl_hint clock namespace memory_type hint)
unfolding resolve_ttl_hint
hint-TakenIsBounded clock namespace memory_type none = tt
hint-TakenIsBounded clock namespace memory_type (some hint) =
    kind_shape clock.now (is_one_of kind ([] ∷ lit "default" ∷ lit "session_only" ∷ []))
      (kind == lit "persistent") (ttl_persistent_allowed namespace memory_type)
      (expiry clock.now bounds days)
      (expiry-TakenIsBounded clock.now bounds days
        (duration-AreBounds clock.now namespace memory_type))
  where
    kind : Text
    kind = trim_space hint.kind

    bounds : Option (ℕ × ℕ)
    bounds = ttl_duration_bounds namespace memory_type

    days : Option ℕ
    days = hinted_days clock kind hint

-- Whatever hint, namespace and memory type are given, and however dates are read, a memory
-- either has no expiry or expires between one day and 365 days from now.
pub resolve_ttl-IsBounded :
    (clock : Clock) (namespace : Text) (memory_type : MemoryType) (hint : Option TtlHint)
    → IsBounded clock.now (resolve_ttl clock namespace memory_type hint)
unfolding resolve_ttl
resolve_ttl-IsBounded clock namespace memory_type hint =
    or_default-IsBounded clock.now (resolve_ttl_hint clock (trim_space namespace) memory_type hint)
      (default_ttl clock.now (trim_space namespace))
      (hint-TakenIsBounded clock (trim_space namespace) memory_type hint)
      (default_ttl-IsBounded clock.now (trim_space namespace))
