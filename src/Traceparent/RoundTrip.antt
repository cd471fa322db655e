-- ===== src/Traceparent/RoundTrip.antt =====
-- ParseTraceparent and BuildTraceparent of pkg/observability/w3c/w3c.go, one after the other.
use personal_assistant.Base.{
  ℕ, ◌≡◌, refl, sym, ap, subst, ◌∙◌, Bool, true, false, not, ◌&&◌, ◌⊎◌, [], ◌∷◌, ◌++◌, some, ◌==◌,
  if◌then◌else◌, Bool-cases, inl, inr,
}
use personal_assistant.Base.Text.{Text, lit, text_key, text_eq, trim_space-IsSolid, IsSolid}
use personal_assistant.Traceparent.{
  TraceContext, all_hex, is_hex_digit, is_hex, is_all_zero, split, normalized, is_valid_trace_id,
  is_valid_span_id, normalize_trace_flags, parse_fields, parse_parts, parse_traceparent,
  build_traceparent,
}
use personal_assistant.Traceparent.Hex.{
  all_hex-IsSolid, normalized-hex, split-append, split-hex, is_hex-all_hex, join-IsSolid,
}

both : (a b : Bool) → (a && b) ≡ true → (a ≡ true) × (b ≡ true)
both true b h = (refl, h)
both false b h = absurd cc

abbrev context : Text → Text → Text → TraceContext
context trace_id span_id flags = record {
  trace_id = trace_id;
  span_id = span_id;
  trace_flags = flags;
  trace_state = [];
}

default_version :
    (all_hex (lit "00") ≡ true) × ((is_hex (lit "00") 2 ≡ true) × ((lit "00" == lit "ff") ≡ false))
unfolding all_hex is_hex is_hex_digit text_eq
default_version = (refl, (refl, refl))

-- The header of four fields.
abbrev joined : Text → Text → Text → Text → Text
joined v t s f = v ++ 45 ∷ (t ++ 45 ∷ (s ++ 45 ∷ f))

joined-IsSolid :
    (v t s f : Text)
    → all_hex v ≡ true
    → all_hex t ≡ true
    → all_hex s ≡ true
    → all_hex f ≡ true
    → IsSolid (joined v t s f)
joined-IsSolid v t s f a b c d = join-IsSolid v (t ++ 45 ∷ (s ++ 45 ∷ f)) (all_hex-IsSolid v a) (
    join-IsSolid t (s ++ 45 ∷ f) (all_hex-IsSolid t b)
      (join-IsSolid s f (all_hex-IsSolid s c) (all_hex-IsSolid f d)))

split-joined :
    (v t s f : Text)
    → all_hex v ≡ true
    → all_hex t ≡ true
    → all_hex s ≡ true
    → all_hex f ≡ true
    → split (joined v t s f) ≡ v ∷ t ∷ s ∷ f ∷ []
split-joined v t s f a b c d =
    split-append v (t ++ 45 ∷ (s ++ 45 ∷ f)) a
    ∙ ap (λ x. v ∷ x)
        (split-append t (s ++ 45 ∷ f) b
          ∙ ap (λ x. t ∷ x) (split-append s f c ∙ ap (λ x. s ∷ x) (split-hex f d)))

module _ (lower_other : ℕ → ℕ) where
  trace-all_hex :
      (text : Text)
      → is_valid_trace_id lower_other text ≡ true
      → all_hex (normalized lower_other text) ≡ true
  unfolding is_valid_trace_id
  trace-all_hex text h = is_hex-all_hex _ 32 (both _ _ h).0

  span-all_hex :
      (text : Text)
      → is_valid_span_id lower_other text ≡ true
      → all_hex (normalized lower_other text) ≡ true
  unfolding is_valid_span_id
  span-all_hex text h = is_hex-all_hex _ 16 (both _ _ h).0

  trace_again :
      (text : Text)
      → is_valid_trace_id lower_other text ≡ true
      → is_valid_trace_id lower_other (normalized lower_other text) ≡ true
  unfolding is_valid_trace_id
  trace_again text h =
      ap (λ x. is_hex x 32 && not (is_all_zero x))
        (normalized-hex lower_other _ (is_hex-all_hex _ 32 (both _ _ h).0))
      ∙ h

  span_again :
      (text : Text)
      → is_valid_span_id lower_other text ≡ true
      → is_valid_span_id lower_other (normalized lower_other text) ≡ true
  unfolding is_valid_span_id
  span_again text h =
      ap (λ x. is_hex x 16 && not (is_all_zero x))
        (normalized-hex lower_other _ (is_hex-all_hex _ 16 (both _ _ h).0))
      ∙ h

  flags-is_hex : (flags : Text) → is_hex (normalize_trace_flags lower_other flags) 2 ≡ true
  unfolding normalize_trace_flags is_hex all_hex is_hex_digit
  flags-is_hex flags =
      chosen (normalized lower_other flags) (Bool-cases (is_hex (normalized lower_other flags) 2))
    where
      chosen :
          (text : Text)
          → (is_hex text 2 ≡ true) ⊎ (is_hex text 2 ≡ false)
          → is_hex (if not (is_hex text 2) then lit "01" else text) 2 ≡ true
      chosen text (inl q) =
          subst (λ b. is_hex (if not b then lit "01" else text) 2 ≡ true) (sym q) q
      chosen text (inr q) =
          subst (λ b. is_hex (if not b then lit "01" else text) 2 ≡ true) (sym q) refl

  accepted :
      (version trace_id span_id flags : Text)
      → (is_hex version 2 ≡ true)
      → ((version == lit "ff") ≡ false)
      → is_valid_trace_id lower_other trace_id ≡ true
      → is_valid_span_id lower_other span_id ≡ true
      → is_hex flags 2 ≡ true
      → parse_fields lower_other version trace_id span_id flags
        ≡ some (context trace_id span_id flags)
  accepted version trace_id span_id flags a b c d e = rw a (rw b (rw c (rw d (rw e refl))))

  fields_normal :
      (v t s f : Text)
      → all_hex v ≡ true
      → all_hex t ≡ true
      → all_hex s ≡ true
      → all_hex f ≡ true
      → parse_parts lower_other (v ∷ t ∷ s ∷ f ∷ []) ≡ parse_fields lower_other v t s f
  fields_normal v t s f a b c d = rw (normalized-hex lower_other v a) (
      rw (normalized-hex lower_other t b)
        (rw (normalized-hex lower_other s c) (rw (normalized-hex lower_other f d) refl)))

  parse-joined :
      (v t s f : Text)
      → all_hex v ≡ true
      → all_hex t ≡ true
      → all_hex s ≡ true
      → all_hex f ≡ true
      → parse_traceparent lower_other (joined v t s f) ≡ parse_fields lower_other v t s f
  unfolding parse_traceparent
  parse-joined v t s f a b c d =
      ap (λ x. parse_parts lower_other (split x))
        (trim_space-IsSolid (joined v t s f) (joined-IsSolid v t s f a b c d))
      ∙ (ap (parse_parts lower_other) (split-joined v t s f a b c d)
          ∙ fields_normal v t s f a b c d)

  build_lem :
      (tc : TraceContext)
      → is_valid_trace_id lower_other tc.trace_id ≡ true
      → is_valid_span_id lower_other tc.span_id ≡ true
      → build_traceparent lower_other tc
        ≡ joined
            (lit "00")
            (normalized lower_other tc.trace_id)
            (normalized lower_other tc.span_id)
            (normalize_trace_flags lower_other tc.trace_flags)
  unfolding build_traceparent
  build_lem tc h k = rw (trace_again tc.trace_id h) (rw (span_again tc.span_id k) refl)

-- If the ids of a trace context are valid, the header that is built from it parses, to the
-- context with its ids trimmed and in lower case, its flags normalized (01 where they are no
-- two hex digits) and no trace state.
pub parse-build :
    (lower_other : ℕ → ℕ) (tc : TraceContext)
    → is_valid_trace_id lower_other tc.trace_id ≡ true
    → is_valid_span_id lower_other tc.span_id ≡ true
    → parse_traceparent lower_other (build_traceparent lower_other tc)
      ≡ some (record {
        trace_id = normalized lower_other tc.trace_id;
        span_id = normalized lower_other tc.span_id;
        trace_flags = normalize_trace_flags lower_other tc.trace_flags;
        trace_state = [];
      })
parse-build lower_other tc h k =
    ap (parse_traceparent lower_other) (build_lem lower_other tc h k)
    ∙ (parse-joined lower_other (lit "00") _ _ _ default_version.0
          (trace-all_hex lower_other tc.trace_id h) (span-all_hex lower_other tc.span_id k)
          (is_hex-all_hex _ 2 (flags-is_hex lower_other tc.trace_flags))
        ∙ accepted lower_other (lit "00") _ _ _ default_version.1.0 default_version.1.1
            (trace_again lower_other tc.trace_id h) (span_again lower_other tc.span_id k)
            (flags-is_hex lower_other tc.trace_flags))
