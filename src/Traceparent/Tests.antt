-- ===== src/Traceparent/Tests.antt =====
-- A traceparent header, and the theorems at it.
use personal_assistant.Base.{true, ◌∷◌, List, none, All, ◌<◌, inl, arith, ℕ, ◌≡◌, refl, some, []}
use personal_assistant.Base.Text.{Text, lit, trim_space, trim_left, trim_right, is_space}
use personal_assistant.Traceparent.{
  TraceContext, is_hex, all_hex, is_hex_digit, is_all_zero, to_lower_char, normalized,
  is_valid_trace_id, is_valid_span_id, normalize_trace_flags, parse_traceparent, build_traceparent,
}
use personal_assistant.Traceparent.RandomId.{
  encode_to_string, hex_digit, new_random_id, new_trace_id_total,
}
use personal_assistant.Traceparent.RoundTrip.{parse-build}

same_letter : ℕ → ℕ
same_letter c = c

abbrev incoming : TraceContext
incoming = record {
  trace_id = lit " 4BF92F3577B34DA6A3CE929D0E0E4736";
  span_id = lit "00f067aa0ba902b7";
  trace_flags = lit "zz";
  trace_state = [];
}

parse-build_example :
    parse_traceparent same_letter (build_traceparent same_letter incoming)
    ≡ some (record {
      trace_id = normalized same_letter incoming.trace_id;
      span_id = normalized same_letter incoming.span_id;
      trace_flags = normalize_trace_flags same_letter incoming.trace_flags;
      trace_state = [];
    })
unfolding is_valid_trace_id is_valid_span_id normalized to_lower_char is_hex all_hex is_hex_digit
    is_all_zero trim_space trim_left trim_right is_space
parse-build_example = parse-build same_letter incoming refl refl

abbrev ones : List ℕ
ones = 1 ∷ 1 ∷ 1 ∷ 1 ∷ 1 ∷ 1 ∷ 1 ∷ 1 ∷ 1 ∷ 1 ∷ 1 ∷ 1 ∷ 1 ∷ 1 ∷ 1 ∷ 1 ∷ []

small : All (λ byte. byte < 256) ones
small = (
  omega arith,
  (
    omega arith,
    (
      omega arith,
      (
        omega arith,
        (
          omega arith,
          (
            omega arith,
            (
              omega arith,
              (
                omega arith,
                (
                  omega arith,
                  (
                    omega arith,
                    (
                      omega arith,
                      (omega arith, (omega arith, (omega arith, (omega arith, (omega arith, tt))))),
                    ),
                  ),
                ),
              ),
            ),
          ),
        ),
      ),
    ),
  ),
)

new_trace_id_total_example :
    (id : Text) × ((new_random_id (none ∷ some ones ∷ []) ≡ some id)
      × (is_valid_trace_id same_letter id ≡ true))
unfolding encode_to_string hex_digit is_all_zero
new_trace_id_total_example =
    new_trace_id_total same_letter (none ∷ some ones ∷ []) (tt, ((refl, small), tt)) (inl refl)
