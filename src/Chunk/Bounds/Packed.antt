-- ===== src/Chunk/Bounds/Packed.antt =====
-- chunker.go: parts packed between a prefix and a suffix are within the limit.
use personal_assistant.Base.{
  ℕ, leb, ◌≡◌, ◌+◌, ◌≤◌, true, List, [], ◌∷◌, ◌++◌, length, length-append, All, All-append, arith,
  by_test, ◌&&◌,
}
use personal_assistant.Base.Text.{Text, is_nil, trim_space}
use personal_assistant.Base.Split.{length-trim_space}
use personal_assistant.Chunk.Lines.{newline}
use personal_assistant.Chunk.Units.{
  below, wrap_chunk_body, wrapped, packed_body, pack_step, pack_loop, pack_wrapped_parts,
  fence_cost,
}
use personal_assistant.Chunk.Bounds.Pieces.{Fits}

length-below-right : (a b : Text) → length (below a b) ≤ length a + fence_cost b
length-below-right a [] = omega arith
length-below-right [] (y ∷ b) = omega arith
length-below-right (x ∷ a) (y ∷ b) = omega (arith, length-append (x ∷ a) (newline ++ (y ∷ b)))

length-below-left : (a b : Text) → length (below a b) ≤ fence_cost a + length b
length-below-left [] [] = omega arith
length-below-left (x ∷ a) [] = omega arith
length-below-left [] (y ∷ b) = omega arith
length-below-left (x ∷ a) (y ∷ b) = omega (arith, length-append (x ∷ a) (newline ++ (y ∷ b)))

cost_mono : (a b : Text) → length a ≤ length b → fence_cost a ≤ fence_cost b
cost_mono [] b h = omega arith
cost_mono (x ∷ a) [] h = absurd (omega arith)
cost_mono (x ∷ a) (y ∷ b) h = omega arith

length-wrap_chunk_body :
    (prefix suffix body : Text)
    → length (wrap_chunk_body prefix suffix body)
      ≤ fence_cost prefix + length body + fence_cost suffix
unfolding wrap_chunk_body
length-wrap_chunk_body prefix suffix body =
    by_test (λ text. length text ≤ fence_cost prefix + length body + fence_cost suffix)
      (is_nil prefix && is_nil suffix) (trim_space body)
      (trim_space (below (below (trim_space prefix) (trim_space body)) (trim_space suffix)))
      (λ _. omega (arith, length-trim_space body))
      (λ _. omega (
        arith,
        length-trim_space (below (below (trim_space prefix) (trim_space body)) (trim_space suffix)),
        length-below-right (below (trim_space prefix) (trim_space body)) (trim_space suffix),
        length-below-left (trim_space prefix) (trim_space body),
        length-trim_space body,
        cost_mono (trim_space prefix) prefix (length-trim_space prefix),
        cost_mono (trim_space suffix) suffix (length-trim_space suffix),
      ))

module _ (prefix suffix separator : Text) (max : ℕ) where
  -- The part fits between the prefix and the suffix.
  abbrev pub HasRoom : Text → Type 0
  HasRoom part = fence_cost prefix + length part + fence_cost suffix ≤ max

  abbrev WrapFits : Text → Type 0
  WrapFits body = Fits max (wrap_chunk_body prefix suffix body)

  wrapped-Fits :
      (current : Text) → WrapFits current → All (Fits max) (wrapped prefix suffix current)
  wrapped-Fits current h =
      by_test (All (Fits max)) (is_nil (trim_space current)) [] _ (λ _. tt) (λ _. (h, tt))

  room-WrapFits : (part : Text) → HasRoom part → WrapFits part
  room-WrapFits part h = omega (arith, length-wrap_chunk_body prefix suffix part, h)

  abbrev StepFits : List Text × Text → Type 0
  StepFits step = All (Fits max) step.0 × WrapFits step.1

  pack_step-Fits :
      (current part : Text)
      → WrapFits current
      → HasRoom part
      → StepFits (pack_step prefix suffix separator max current part)
  pack_step-Fits current part h k =
      by_test StepFits (is_nil part) ([], current) _ (λ _. (tt, h))
        (λ _.
          by_test StepFits
            (leb (length (wrap_chunk_body prefix suffix (packed_body separator current part))) max)
            ([], packed_body separator current part) _
            (λ q. (
              tt,
              within (length (wrap_chunk_body prefix suffix (packed_body separator current part)))
                  q,
            ))
            (λ _. (wrapped-Fits current h, room-WrapFits part k)))
    where
      within : (n : ℕ) → leb n max ≡ true → n ≤ max
      within n q = ground (arith, q)

  trim-HasRoom : (part : Text) → HasRoom part → HasRoom (trim_space part)
  trim-HasRoom part h = omega (arith, length-trim_space part, h)

  pack_loop-Fits :
      (current : Text) (parts : List Text)
      → WrapFits current
      → All HasRoom parts
      → All (Fits max) (pack_loop prefix suffix separator max current parts)
  unfolding pack_loop
  pack_loop-Fits current [] h k = wrapped-Fits current h
  pack_loop-Fits current (part ∷ parts) h k =
      let step = pack_step-Fits current (trim_space part) h (trim-HasRoom part k.0) in
      All-append (Fits max) (pack_step prefix suffix separator max current (trim_space part)).0 _
        step.0
        (pack_loop-Fits (pack_step prefix suffix separator max current (trim_space part)).1 parts
          step.1 k.1)

  pub pack_wrapped_parts-Fits :
      (parts : List Text)
      → HasRoom []
      → All HasRoom parts
      → All (Fits max) (pack_wrapped_parts parts prefix suffix separator max)
  unfolding pack_wrapped_parts
  pack_wrapped_parts-Fits parts h k = pack_loop-Fits [] parts (room-WrapFits [] h) k
