-- ===== src/Traceparent.antt =====
-- pkg/observability/w3c/w3c.go: the W3C traceparent header. `strings.ToLower` outside ASCII is a
-- parameter.
pub mod Hex
pub mod RoundTrip
pub mod RandomId
mod Tests
use personal_assistant.Base.{
  ℕ, leb, nat_eq, Bool, true, false, not, ◌&&◌, ◌||◌, List, [], ◌∷◌, ◌++◌, map, Option, none, some,
  ◌==◌, nat_key, length, if◌then◌else◌, ◌+◌,
}
use personal_assistant.Base.Text.{Text, lit, text_key, trim_space}

pub record TraceContext : Type 0 where
  pub trace_id : Text
  pub span_id : Text
  pub trace_flags : Text
  pub trace_state : Text

unfoldable pub is_hex_digit : ℕ → Bool
is_hex_digit c = leb 48 c && leb c 57 || leb 97 c && leb c 102

unfoldable pub all_hex : Text → Bool
all_hex [] = true
all_hex (c ∷ cs) = is_hex_digit c && all_hex cs

-- The source counts and tests bytes; a character outside ASCII has bytes that are no hex digits.
unfoldable pub is_hex : Text → ℕ → Bool
is_hex text size = length text == size && all_hex text

unfoldable pub is_all_zero : Text → Bool
is_all_zero [] = true
is_all_zero (c ∷ cs) = c == 48 && is_all_zero cs

abbrev pub add_to_first : ℕ → List Text → List Text
add_to_first c [] = (c ∷ []) ∷ []
add_to_first c (word ∷ words) = (c ∷ word) ∷ words

-- strings.Split(text, "-")
unfoldable pub split : Text → List Text
split [] = [] ∷ []
split (c ∷ cs) = let rest = split cs in if c == 45 then [] ∷ rest else add_to_first c rest

module _ (lower_other : ℕ → ℕ) where
  unfoldable pub to_lower_char : ℕ → ℕ
  to_lower_char c = if leb 65 c && leb c 90 then c + 32 else if leb 128 c then lower_other c else c

  -- strings.ToLower(strings.TrimSpace(text))
  unfoldable pub normalized : Text → Text
  normalized text = map to_lower_char (trim_space text)

  unfoldable pub is_valid_trace_id : Text → Bool
  is_valid_trace_id text = is_hex (normalized text) 32 && not (is_all_zero (normalized text))

  unfoldable pub is_valid_span_id : Text → Bool
  is_valid_span_id text = is_hex (normalized text) 16 && not (is_all_zero (normalized text))

  unfoldable pub normalize_trace_flags : Text → Text
  normalize_trace_flags flags =
      if not (is_hex (normalized flags) 2) then lit "01" else normalized flags

  abbrev pub parse_fields : Text → Text → Text → Text → Option TraceContext
  parse_fields version trace_id span_id flags =
      if not (is_hex version 2) || version == lit "ff"
      then none
      else if not (is_valid_trace_id trace_id)
      then none
      else if not (is_valid_span_id span_id)
      then none
      else if not (is_hex flags 2)
      then none
      else some
          (record { trace_id = trace_id; span_id = span_id; trace_flags = flags; trace_state = [] })

  abbrev pub parse_parts : List Text → Option TraceContext
  parse_parts (version ∷ trace_id ∷ span_id ∷ flags ∷ []) =
      parse_fields (normalized version) (normalized trace_id) (normalized span_id)
        (normalized flags)
  parse_parts _ = none

  unfoldable pub parse_traceparent : Text → Option TraceContext
  parse_traceparent header = parse_parts (split (trim_space header))

  unfoldable pub build_traceparent : TraceContext → Text
  build_traceparent tc =
      if not (is_valid_trace_id (normalized tc.trace_id))
        || not (is_valid_span_id (normalized tc.span_id))
      then []
      else lit "00"
        ++ 45
          ∷ (normalized tc.trace_id
              ++ 45 ∷ (normalized tc.span_id ++ 45 ∷ normalize_trace_flags tc.trace_flags))
