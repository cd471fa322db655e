-- ===== src/Chunk/Bounds/Chunks.antt =====
-- chunker.go: the chunks of a block, and of a text, are within the limit.
use personal_assistant.Base.{
  ℕ, nat_eq, ◌≡◌, ◌-◌, ◌<◌, false, not, List, [], ◌∷◌, length, flat_map, All, All-append,
  All-flat_map, All-map, zero, suc, arith, if◌then◌else◌, by_test,
}
use personal_assistant.Base.Int.{ℤ, pos, negsuc, leb_ℤ, pos_part}
use personal_assistant.Base.Text.{Text, is_nil, trim_space}
use personal_assistant.Chunk.Lines.{
  newline, normalize_chunk_document_text, split_raw_lines, is_markdown_table_delimiter_line,
}
use personal_assistant.Chunk.Blocks.{
  BlockKind, heading, prose, code_block, table_block, list_block, Block, text_of, split_blocks,
}
use personal_assistant.Chunk.Units.{
  finished, split_by_rune_window, split_list_items, split_code_groups, fence_cost,
  pack_wrapped_parts,
}
use personal_assistant.Chunk.Splitter.{
  ChunkerOptions, ParagraphChunker, default_max_chars, new_paragraph_chunker, split_list_block,
  fit_row, table_prefix, table_rows, table_parts, split_table_block, opening, closing, fit_group,
  code_lines, code_parts, split_code_block, split_kind, split_block, block_step, text_loop,
  split_text,
}
use personal_assistant.Chunk.Bounds.Pieces.{
  Fits, finished-Fits, choose-Fits, trim-Fits, split_by_rune_window-Fits, fit_or-Fits,
  line_window-Fits, StateFits,
}
use personal_assistant.Chunk.Bounds.Packed.{HasRoom, pack_wrapped_parts-Fits}
use personal_assistant.Chunk.Bounds.Sequence.{
  part_step-Fits, split_heading_block-Fits, split_prose_block-Fits,
}
use personal_assistant.Chunk.Bounds.Items.{MarkerFits, list_parts-Fits}

module _ (c : ParagraphChunker) where
  -- What a block of the kind asks of its text.
  abbrev pub KindFits : BlockKind → Text → Type 0
  KindFits heading text = Unit
  KindFits list_block text = All (MarkerFits c) (split_list_items text)
  KindFits table_block text = Unit
  KindFits code_block text = Unit
  KindFits prose text = Unit

  abbrev pub MarkersFit : Block → Type 0
  MarkersFit block = KindFits block.kind (text_of block)

  fit_row-Fits : (budget : ℕ) (row : Text) → All (Fits budget) (fit_row c budget row)
  fit_row-Fits budget row = fit_or-Fits budget row _ (split_by_rune_window-Fits budget row 0)

  fit_group-Fits : (budget : ℕ) (group : Text) → All (Fits budget) (fit_group c budget group)
  fit_group-Fits budget group = fit_or-Fits budget group _ (line_window-Fits budget group)

  table_rows-Fits :
      (text prefix : Text) (rows : List Text)
      → All (Fits c.max_chars) (table_rows c text prefix rows)
  table_rows-Fits text prefix rows =
      by_test (All (Fits c.max_chars)) (nat_eq budget 0) (split_by_rune_window text c.max_chars 0)
        (pack_wrapped_parts (flat_map (λ row. fit_row c budget (trim_space row)) rows) prefix []
          newline c.max_chars)
        (λ _. split_by_rune_window-Fits c.max_chars text 0)
        (λ q. pack_wrapped_parts-Fits prefix [] newline c.max_chars _ (room q [] (omega arith)) (
          All-map (room q) _ (
            All-flat_map (Fits budget) (λ row. fit_row c budget (trim_space row))
              (λ row. fit_row-Fits budget (trim_space row)) rows)))
    where
      budget : ℕ
      budget = c.max_chars - length prefix - 1

      room :
          nat_eq budget 0 ≡ false
          → (part : Text) → Fits budget part
          → HasRoom prefix [] newline c.max_chars part
      room q part h = ground (arith, q, h)

  table_parts-Fits :
      (text : Text) (lines : List Text) → All (Fits c.max_chars) (table_parts c text lines)
  table_parts-Fits text [] = split_by_rune_window-Fits c.max_chars text 0
  table_parts-Fits text (header ∷ []) = split_by_rune_window-Fits c.max_chars text 0
  table_parts-Fits text (header ∷ rule ∷ rows) =
      choose-Fits c.max_chars (not (is_markdown_table_delimiter_line rule)) _ _
        (split_by_rune_window-Fits c.max_chars text 0)
        (table_rows-Fits text (table_prefix c header rule) rows)

  split_table_block-Fits : (text : Text) → All (Fits c.max_chars) (split_table_block c text)
  unfolding split_table_block
  split_table_block-Fits text = fit_or-Fits c.max_chars (normalize_chunk_document_text text) _ (
      table_parts-Fits (normalize_chunk_document_text text)
        (split_raw_lines (normalize_chunk_document_text text)))

  code_lines-Fits :
      (text prefix suffix : Text) (body : List Text)
      → All (Fits c.max_chars) (code_lines c text prefix suffix body)
  code_lines-Fits text prefix suffix body =
      by_test (All (Fits c.max_chars)) (nat_eq budget 0) (split_by_rune_window text c.max_chars 0)
        (pack_wrapped_parts
          (flat_map (λ group. fit_group c budget (trim_space group)) (split_code_groups body))
          prefix suffix (10 ∷ 10 ∷ []) c.max_chars)
        (λ _. split_by_rune_window-Fits c.max_chars text 0)
        (λ q.
          pack_wrapped_parts-Fits prefix suffix (10 ∷ 10 ∷ []) c.max_chars _
            (room q [] (omega arith))
            (All-map (room q) _ (
              All-flat_map (Fits budget) (λ group. fit_group c budget (trim_space group))
                (λ group. fit_group-Fits budget (trim_space group)) (split_code_groups body))))
    where
      budget : ℕ
      budget = c.max_chars - fence_cost prefix - fence_cost suffix

      room :
          nat_eq budget 0 ≡ false
          → (part : Text) → Fits budget part
          → HasRoom prefix suffix newline c.max_chars part
      room q part h = ground (arith, q, h)

  code_parts-Fits :
      (text : Text) (parts : Text × List Text) → All (Fits c.max_chars) (code_parts c text parts)
  code_parts-Fits text (prefix, lines) =
      code_lines-Fits text prefix (closing c lines).0 (closing c lines).1

  split_code_block-Fits : (text : Text) → All (Fits c.max_chars) (split_code_block c text)
  unfolding split_code_block
  split_code_block-Fits text = fit_or-Fits c.max_chars (normalize_chunk_document_text text) _ (
      code_parts-Fits (normalize_chunk_document_text text)
        (opening c (split_raw_lines (normalize_chunk_document_text text))))

  split_kind-Fits :
      (kind : BlockKind) (text : Text)
      → 0 < c.max_chars
      → KindFits kind text
      → All (Fits c.max_chars) (split_kind c kind text)
  unfolding split_list_block
  split_kind-Fits heading text h k = split_heading_block-Fits c text
  split_kind-Fits list_block text h k = list_parts-Fits c text (split_list_items text) h k
  split_kind-Fits table_block text h k = split_table_block-Fits text
  split_kind-Fits code_block text h k = split_code_block-Fits text
  split_kind-Fits prose text h k = split_prose_block-Fits c text h

  split_block-Fits :
      (block : Block)
      → 0 < c.max_chars
      → MarkersFit block
      → All (Fits c.max_chars) (split_block c block)
  unfolding split_block
  split_block-Fits block h k = split_kind-Fits block.kind (text_of block) h k

  block_step-Fits :
      (current : Text) (chunks : List Text)
      → Fits c.max_chars current
      → All (Fits c.max_chars) chunks
      → StateFits c.max_chars (block_step c current chunks)
  block_step-Fits current [] h k = (tt, h)
  block_step-Fits current (chunk ∷ []) h k =
      part_step-Fits c (10 ∷ 10 ∷ []) current (trim_space chunk) h (trim-Fits c.max_chars chunk k.0)
  block_step-Fits current (chunk ∷ next ∷ chunks) h k = (
    All-append (Fits c.max_chars) (finished current) _ (finished-Fits c.max_chars current h) k,
    by_test (Fits c.max_chars) (is_nil (trim_space current)) current [] (λ _. h) (λ _. omega arith),
  )

  text_loop-Fits :
      (current : Text) (blocks : List Block)
      → 0 < c.max_chars
      → Fits c.max_chars current
      → All MarkersFit blocks
      → All (Fits c.max_chars) (text_loop c current blocks)
  unfolding text_loop
  text_loop-Fits current [] p h k = finished-Fits c.max_chars current h
  text_loop-Fits current (block ∷ blocks) p h k =
      let step = block_step-Fits current (split_block c block) h (split_block-Fits block p k.0) in
      All-append (Fits c.max_chars) (block_step c current (split_block c block)).0 _ step.0
        (text_loop-Fits (block_step c current (split_block c block)).1 blocks p step.1 k.1)

positive_max : (opts : ChunkerOptions) → 0 < (new_paragraph_chunker opts).max_chars
unfolding new_paragraph_chunker
positive_max opts = by_sign opts.max_chars
  where
    by_sign : (n : ℤ) → 0 < (if leb_ℤ n (pos 0) then default_max_chars else pos_part n)
    by_sign (pos zero) = omega arith
    by_sign (pos (suc n)) = ground arith
    by_sign (negsuc n) = ground arith

-- Whatever options a chunker is made with, if in every list block of the text the marker of
-- each item, a blank and one more character fit into a chunk, then no chunk that the text is
-- split into is longer than the chunker's limit.
pub split_text-new_paragraph_chunker :
    (opts : ChunkerOptions) (content : Text)
    → All (MarkersFit (new_paragraph_chunker opts)) (split_blocks content)
    → All
        (Fits (new_paragraph_chunker opts).max_chars)
        (split_text (new_paragraph_chunker opts) content)
unfolding split_text
split_text-new_paragraph_chunker opts content h =
    text_loop-Fits (new_paragraph_chunker opts) [] (split_blocks content) (positive_max opts)
      (omega arith) h
