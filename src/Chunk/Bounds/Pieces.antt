-- ===== src/Chunk/Bounds/Pieces.antt =====
-- chunker.go: the windows, units and lines that a text is cut into are within the limit.
use personal_assistant.Base.{
  ℕ, zero, suc, ltb, leb, nat_eq, ◌≡◌, ◌≤◌, ◌<◌, Bool, true, false, List, [], ◌∷◌, ◌++◌, length,
  All, All-append, All-flat_map, arith, if◌then◌else◌, ◌||◌, by_test, Bool-cases, inl, inr,
}
use personal_assistant.Base.Text.{Text, is_nil, trim_space}
use personal_assistant.Base.Split.{length-trim_space, trim_blanks}
use personal_assistant.Chunk.Lines.{newline, normalize_inline_text, split_raw_lines}
use personal_assistant.Chunk.Units.{
  keep, take, drop, window_loop, window_step, split_by_rune_window, fit_or, soft_units,
  strong_units, split_narrative_units, finished, line_step, line_loop,
  split_code_group_by_line_window,
}

-- A text of at most `max` characters.
abbrev pub Fits : ℕ → Text → Type 0
Fits max text = length text ≤ max

length-take : (n : ℕ) (text : Text) → length (take n text) ≤ n
unfolding take
length-take zero text = omega arith
length-take (suc n) [] = omega arith
length-take (suc n) (c ∷ cs) = omega (arith, length-take n cs)

module _ (max : ℕ) where
  pub finished-Fits : (current : Text) → Fits max current → All (Fits max) (finished current)
  finished-Fits current h = chosen (is_nil (trim_space current))
    where
      chosen : (b : Bool) → All (Fits max) (if b then [] else current ∷ [])
      chosen true = tt
      chosen false = (h, tt)

  pub choose-Fits :
      (b : Bool) (xs ys : List Text)
      → All (Fits max) xs
      → All (Fits max) ys
      → All (Fits max) (if b then xs else ys)
  choose-Fits true xs ys h k = h
  choose-Fits false xs ys h k = k

  pub trim-Fits : (text : Text) → Fits max text → Fits max (trim_space text)
  trim-Fits text h = omega (arith, length-trim_space text, h)

  keep-Fits :
      (part : Text) (rest : List Text)
      → Fits max part
      → All (Fits max) rest
      → All (Fits max) (keep part rest)
  keep-Fits part rest h k = choose-Fits (is_nil part) rest (part ∷ rest) k (h, k)

  window_loop-Fits :
      (fuel step : ℕ) (runes : Text) → All (Fits max) (window_loop fuel max step runes)
  unfolding window_loop
  window_loop-Fits zero step runes = tt
  window_loop-Fits (suc fuel) step runes =
      let rest = window_loop fuel max step (drop step runes) in
      choose-Fits (is_nil runes) []
        (keep (trim_space (take max runes)) (if leb (length runes) max then [] else rest)) tt
        (keep-Fits (trim_space (take max runes)) _
          (trim-Fits (take max runes) (length-take max runes))
          (choose-Fits (leb (length runes) max) [] rest tt
            (window_loop-Fits fuel step (drop step runes))))

  short-Fits :
      (text : Text) (xs : List Text)
      → All (Fits max) xs
      → All (Fits max) (if leb (length text) max then text ∷ [] else xs)
  short-Fits text xs h = elim (Bool-cases (leb (length text) max)) [
    | inl q ↦ rw q (within (length text) q, tt)
    | inr q ↦ rw q h
  ]
    where
      within : (n : ℕ) → leb n max ≡ true → n ≤ max
      within n q = ground (arith, q)

  pub split_by_rune_window-Fits :
      (value : Text) (overlap : ℕ) → All (Fits max) (split_by_rune_window value max overlap)
  unfolding split_by_rune_window
  split_by_rune_window-Fits value overlap = elim (Bool-cases (leb (length value) max)) [
    | inl q ↦ rw q (trim-Fits value (within (length value) q), tt)
    | inr q ↦ rw q (window_loop-Fits (length value) (window_step max overlap) value)
  ]
    where
      within : (n : ℕ) → leb n max ≡ true → n ≤ max
      within n q = ground (arith, q)

  pub fit_or-Fits :
      (unit : Text) (pieces : List Text)
      → All (Fits max) pieces
      → All (Fits max) (fit_or max unit pieces)
  fit_or-Fits unit pieces h = choose-Fits (is_nil unit) [] _ tt (short-Fits unit pieces h)

  soft_units-Fits : (unit : Text) → All (Fits max) (soft_units max unit)
  unfolding soft_units
  soft_units-Fits unit = fit_or-Fits _ _ (split_by_rune_window-Fits (normalize_inline_text unit) 0)

  strong_units-Fits : (unit : Text) → All (Fits max) (strong_units max unit)
  unfolding strong_units
  strong_units-Fits unit =
      fit_or-Fits _ _ (All-flat_map (Fits max) (soft_units max) soft_units-Fits _)

  pub split_narrative_units-Fits :
      (value : Text) → 0 < max → All (Fits max) (split_narrative_units value max)
  unfolding split_narrative_units
  split_narrative_units-Fits value h = choose-Fits (is_nil (normalize_inline_text value)) [] _ tt (
      positive (normalize_inline_text value) _
        (All-flat_map (Fits max) (strong_units max) strong_units-Fits _))
    where
      within : (n : ℕ) → (nat_eq max 0 || leb n max) ≡ true → n ≤ max
      within n q = ground (arith, q, h)

      positive :
          (text : Text) (units : List Text)
          → All (Fits max) units
          → All (Fits max) (if nat_eq max 0 || leb (length text) max then text ∷ [] else units)
      positive text units k = elim (Bool-cases (nat_eq max 0 || leb (length text) max)) [
        | inl q ↦ rw q (within (length text) q, tt)
        | inr q ↦ rw q k
      ]

  -- What is written out and what is gathered are within the limit.
  abbrev pub StateFits : List Text × Text → Type 0
  StateFits state = All (Fits max) state.0 × Fits max state.1

  line_step-Fits : (current line : Text) → Fits max current → StateFits (line_step max current line)
  line_step-Fits current line h =
      by_test StateFits (is_nil line) ([], current) _ (λ _. (tt, h))
        (λ _.
          by_test StateFits (ltb max (length line)) _ _
            (λ _. (
              All-append (Fits max) (finished current) _ (finished-Fits current h)
                  (split_by_rune_window-Fits line 0),
              emptied,
            ))
            (λ q.
              by_test StateFits (is_nil current) ([], line) _ (λ _. (tt, short q))
                (λ _.
                  by_test StateFits (leb (length (current ++ (newline ++ line))) max)
                    ([], current ++ (newline ++ line)) _
                    (λ p. (tt, within (length (current ++ (newline ++ line))) p))
                    (λ _. ((h, tt), short q)))))
    where
      emptied : Fits max (if is_nil (trim_space current) then current else [])
      emptied =
          by_test (Fits max) (is_nil (trim_space current)) current [] (λ _. h) (λ _. omega arith)

      below_limit : (n : ℕ) → ltb max n ≡ false → n ≤ max
      below_limit n q = ground (arith, q)

      short : ltb max (length line) ≡ false → Fits max line
      short q = below_limit (length line) q

      within : (n : ℕ) → leb n max ≡ true → n ≤ max
      within n q = ground (arith, q)

  line_loop-Fits :
      (current : Text) (lines : List Text)
      → Fits max current
      → All (Fits max) (line_loop max current lines)
  unfolding line_loop
  line_loop-Fits current [] h = finished-Fits current h
  line_loop-Fits current (line ∷ lines) h =
      let step = line_step-Fits current (trim_blanks line) h in
      All-append (Fits max) (line_step max current (trim_blanks line)).0 _ step.0
        (line_loop-Fits (line_step max current (trim_blanks line)).1 lines step.1)

  pub line_window-Fits : (group : Text) → All (Fits max) (split_code_group_by_line_window group max)
  unfolding split_code_group_by_line_window
  line_window-Fits group = line_loop-Fits [] (split_raw_lines group) (omega arith)
