-- ===== src/Chunk/Bounds/Sequence.antt =====
-- chunker.go: a sequence of chunks, and the chunks of headings and prose, are within the limit.
use personal_assistant.Base.{
  ℕ, leb, ◌≡◌, ◌≤◌, ◌<◌, true, List, [], ◌∷◌, length, All, All-append, arith, by_test,
}
use personal_assistant.Base.Text.{Text, lit, is_nil, trim_space}
use personal_assistant.Chunk.Lines.{normalize_inline_text}
use personal_assistant.Chunk.Units.{split_narrative_units, join_chunk_parts}
use personal_assistant.Chunk.Splitter.{
  ParagraphChunker, overlap_joined, start_chunk_with_overlap, part_step, sequence_loop,
  build_chunk_sequence, split_heading_block, split_prose_block, chunk_overlap,
}
use personal_assistant.Chunk.Bounds.Pieces.{
  Fits, finished-Fits, trim-Fits, split_by_rune_window-Fits, fit_or-Fits,
  split_narrative_units-Fits, StateFits,
}

pub fits : (max n : ℕ) → leb n max ≡ true → n ≤ max
fits max n q = ground (arith, q)

module _ (c : ParagraphChunker) where
  pub start-Fits :
      (previous next separator : Text)
      → Fits c.max_chars next
      → Fits c.max_chars (start_chunk_with_overlap c previous next separator)
  unfolding start_chunk_with_overlap
  start-Fits previous next separator h =
      by_test (Fits c.max_chars) (is_nil (trim_space next)) []
        (overlap_joined c overlap text separator) (λ _. omega arith)
        (λ _.
          by_test (Fits c.max_chars) (is_nil overlap) text _ (λ _. kept)
            (λ _.
              by_test (Fits c.max_chars) (leb (length joined) c.max_chars) joined text
                (λ q. fits c.max_chars (length joined) q) (λ _. kept)))
    where
      overlap : Text
      overlap = chunk_overlap c previous

      text : Text
      text = trim_space next

      joined : Text
      joined = join_chunk_parts overlap text separator

      kept : Fits c.max_chars text
      kept = trim-Fits c.max_chars next h

  pub part_step-Fits :
      (separator current part : Text)
      → Fits c.max_chars current
      → Fits c.max_chars part
      → StateFits c.max_chars (part_step c separator current part)
  part_step-Fits separator current part h k =
      by_test (StateFits c.max_chars) (is_nil part) ([], current) _ (λ _. (tt, h))
        (λ _.
          by_test (StateFits c.max_chars) (is_nil current) ([], part) _ (λ _. (tt, k))
            (λ _.
              by_test (StateFits c.max_chars) (leb (length joined) c.max_chars) ([], joined)
                (current ∷ [], start_chunk_with_overlap c current part separator)
                (λ q. (tt, fits c.max_chars (length joined) q))
                (λ _. ((h, tt), start-Fits current part separator k))))
    where
      joined : Text
      joined = join_chunk_parts current part separator

  pub sequence_loop-Fits :
      (separator current : Text) (parts : List Text)
      → Fits c.max_chars current
      → All (Fits c.max_chars) parts
      → All (Fits c.max_chars) (sequence_loop c separator current parts)
  unfolding sequence_loop
  sequence_loop-Fits separator current [] h k = finished-Fits c.max_chars current h
  sequence_loop-Fits separator current (part ∷ parts) h k =
      let step =
        part_step-Fits separator current (trim_space part) h (trim-Fits c.max_chars part k.0) in
      All-append (Fits c.max_chars) (part_step c separator current (trim_space part)).0 _ step.0 (
        sequence_loop-Fits separator (part_step c separator current (trim_space part)).1 parts
          step.1 k.1)

  pub build-Fits :
      (parts : List Text) (separator : Text)
      → All (Fits c.max_chars) parts
      → All (Fits c.max_chars) (build_chunk_sequence c parts separator)
  unfolding build_chunk_sequence
  build-Fits parts separator h = sequence_loop-Fits separator [] parts (omega arith) h

  pub split_heading_block-Fits : (text : Text) → All (Fits c.max_chars) (split_heading_block c text)
  unfolding split_heading_block
  split_heading_block-Fits text =
      fit_or-Fits c.max_chars (normalize_inline_text text) _
        (split_by_rune_window-Fits c.max_chars (normalize_inline_text text) 0)

  pub split_prose_block-Fits :
      (text : Text) → 0 < c.max_chars → All (Fits c.max_chars) (split_prose_block c text)
  unfolding split_prose_block
  split_prose_block-Fits text h = fit_or-Fits c.max_chars (normalize_inline_text text) _ (
      build-Fits (split_narrative_units (normalize_inline_text text) c.max_chars) (lit " ")
        (split_narrative_units-Fits c.max_chars (normalize_inline_text text) h))
