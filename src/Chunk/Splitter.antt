-- ===== src/Chunk/Splitter.antt =====
-- chunker.go: ParagraphChunker, from its options to the texts of the chunks.
use personal_assistant.Base.{
  ℕ, leb, nat_eq, ◌-◌, ◌/◌, not, List, [], ◌∷◌, ◌++◌, length, flat_map, if◌then◌else◌,
}
use personal_assistant.Base.Int.{ℤ, pos, leb_ℤ, pos_part}
use personal_assistant.Base.Text.{Text, lit, is_nil, trim_space}
use personal_assistant.Chunk.Lines.{
  newline, normalize_chunk_document_text, normalize_inline_text, split_raw_lines, is_fence_line,
  is_markdown_table_delimiter_line,
}
use personal_assistant.Chunk.Blocks.{
  BlockKind, heading, prose, code_block, table_block, list_block, Block, text_of, split_blocks,
}
use personal_assistant.Chunk.Units.{
  finished, drop, split_by_rune_window, split_narrative_units, ListItem, split_list_items,
  split_code_groups, split_code_group_by_line_window, join_chunk_parts, pack_wrapped_parts,
  fence_cost,
}

pub record ChunkerOptions : Type 0 where
  pub max_chars : ℤ
  pub overlap_chars : ℤ

pub record ParagraphChunker : Type 0 where
  pub max_chars : ℕ
  pub overlap_chars : ℕ

abbrev pub default_max_chars : ℕ
default_max_chars = 1200

abbrev pub chunker_of : ℕ → ℕ → ParagraphChunker
chunker_of max overlap = record {
  max_chars = max;
  overlap_chars = if leb max overlap then max / 4 else overlap;
}

-- A limit that is not positive is replaced, and a negative overlap counts as none.
unfoldable pub new_paragraph_chunker : ChunkerOptions → ParagraphChunker
new_paragraph_chunker opts =
    chunker_of (if leb_ℤ opts.max_chars (pos 0) then default_max_chars else pos_part opts.max_chars)
      (pos_part opts.overlap_chars)

module _ (c : ParagraphChunker) where
  unfoldable pub chunk_overlap : Text → Text
  chunk_overlap value =
      if nat_eq c.overlap_chars 0
      then []
      else if leb (length value) c.overlap_chars
      then trim_space value
      else trim_space (drop (length value - c.overlap_chars) value)

  abbrev pub overlap_joined : Text → Text → Text → Text
  overlap_joined overlap next separator =
      if is_nil overlap
      then next
      else if leb (length (join_chunk_parts overlap next separator)) c.max_chars
      then join_chunk_parts overlap next separator
      else next

  unfoldable pub start_chunk_with_overlap : Text → Text → Text → Text
  start_chunk_with_overlap previous next separator =
      if is_nil (trim_space next)
      then []
      else overlap_joined (chunk_overlap previous) (trim_space next) separator

  -- What is written out at a part, and what is gathered then.
  abbrev pub part_step : Text → Text → Text → List Text × Text
  part_step separator current part =
      if is_nil part
      then ([], current)
      else if is_nil current
      then ([], part)
      else if leb (length (join_chunk_parts current part separator)) c.max_chars
      then ([], join_chunk_parts current part separator)
      else (current ∷ [], start_chunk_with_overlap current part separator)

  unfoldable pub sequence_loop : Text → Text → List Text → List Text
  sequence_loop separator current [] = finished current
  sequence_loop separator current (part ∷ parts) =
      (part_step separator current (trim_space part)).0
      ++ sequence_loop separator (part_step separator current (trim_space part)).1 parts

  unfoldable pub build_chunk_sequence : List Text → Text → List Text
  build_chunk_sequence parts separator = sequence_loop separator [] parts

  unfoldable pub split_heading_block : Text → List Text
  split_heading_block value =
      let text = normalize_inline_text value in
      if is_nil text
      then []
      else if leb (length text) c.max_chars
      then text ∷ []
      else split_by_rune_window text c.max_chars 0

  unfoldable pub split_prose_block : Text → List Text
  split_prose_block value =
      let text = normalize_inline_text value in
      if is_nil text
      then []
      else if leb (length text) c.max_chars
      then text ∷ []
      else build_chunk_sequence (split_narrative_units text c.max_chars) (lit " ")

  abbrev pub marker_of : ListItem → Text
  marker_of item = if is_nil (trim_space item.marker) then lit "-" else trim_space item.marker

  abbrev pub body_budget : Text → ℕ
  body_budget prefix =
      if nat_eq (c.max_chars - length prefix - 1) 0
      then c.max_chars
      else c.max_chars - length prefix - 1

  abbrev pub prefixed_unit : Text → Text → List Text
  prefixed_unit prefix unit =
      if is_nil (trim_space unit)
      then []
      else trim_space (prefix ++ (lit " " ++ trim_space unit)) ∷ []

  abbrev pub item_lines : Text → Text → List Text
  item_lines prefix body =
      if is_nil body
      then []
      else if leb (length (trim_space (prefix ++ (lit " " ++ body)))) c.max_chars
      then trim_space (prefix ++ (lit " " ++ body)) ∷ []
      else flat_map (prefixed_unit prefix) (split_narrative_units body (body_budget prefix))

  unfoldable pub item_parts : ListItem → List Text
  item_parts item = item_lines (marker_of item) (normalize_inline_text item.text)

  abbrev pub list_parts : Text → List ListItem → List Text
  list_parts text [] = split_prose_block text
  list_parts text (item ∷ items) = build_chunk_sequence (flat_map item_parts (item ∷ items)) newline

  unfoldable pub split_list_block : Text → List Text
  split_list_block text = list_parts text (split_list_items text)

  abbrev pub fit_row : ℕ → Text → List Text
  fit_row budget row =
      if is_nil row
      then []
      else if leb (length row) budget
      then row ∷ []
      else split_by_rune_window row budget 0

  abbrev pub table_prefix : Text → Text → Text
  table_prefix header rule = trim_space header ++ (newline ++ trim_space rule)

  abbrev pub table_rows : Text → Text → List Text → List Text
  table_rows text prefix rows =
      let budget = c.max_chars - length prefix - 1 in
      if nat_eq budget 0
      then split_by_rune_window text c.max_chars 0
      else pack_wrapped_parts (flat_map (λ row. fit_row budget (trim_space row)) rows) prefix []
          newline c.max_chars

  abbrev pub table_parts : Text → List Text → List Text
  table_parts text [] = split_by_rune_window text c.max_chars 0
  table_parts text (header ∷ []) = split_by_rune_window text c.max_chars 0
  table_parts text (header ∷ rule ∷ rows) =
      if not (is_markdown_table_delimiter_line rule)
      then split_by_rune_window text c.max_chars 0
      else table_rows text (table_prefix header rule) rows

  unfoldable pub split_table_block : Text → List Text
  split_table_block value =
      let text = normalize_chunk_document_text value in
      if is_nil text
      then []
      else if leb (length text) c.max_chars
      then text ∷ []
      else table_parts text (split_raw_lines text)

  -- The opening fence of a code block, without it if there is none, and the other lines.
  abbrev pub opening : List Text → Text × List Text
  opening [] = ([], [])
  opening (line ∷ lines) =
      if is_fence_line line then (trim_space line, lines) else ([], line ∷ lines)

  -- The closing fence, and the lines in front of it.
  unfoldable pub closing : List Text → Text × List Text
  closing [] = ([], [])
  closing (line ∷ lines) = elim lines [
    | [] ↦ if is_fence_line line then (trim_space line, []) else ([], line ∷ [])
    | next ∷ more ↦ ((closing lines).0, line ∷ (closing lines).1)
  ]

  abbrev pub fit_group : ℕ → Text → List Text
  fit_group budget group =
      if is_nil group
      then []
      else if leb (length group) budget
      then group ∷ []
      else split_code_group_by_line_window group budget

  abbrev pub code_lines : Text → Text → Text → List Text → List Text
  code_lines text prefix suffix body =
      let budget = c.max_chars - fence_cost prefix - fence_cost suffix in
      if nat_eq budget 0
      then split_by_rune_window text c.max_chars 0
      else pack_wrapped_parts
          (flat_map (λ group. fit_group budget (trim_space group)) (split_code_groups body)) prefix
          suffix (10 ∷ 10 ∷ []) c.max_chars

  abbrev pub code_parts : Text → Text × List Text → List Text
  code_parts text (prefix, lines) = code_lines text prefix (closing lines).0 (closing lines).1

  unfoldable pub split_code_block : Text → List Text
  split_code_block value =
      let text = normalize_chunk_document_text value in
      if is_nil text
      then []
      else if leb (length text) c.max_chars
      then text ∷ []
      else code_parts text (opening (split_raw_lines text))

  abbrev pub split_kind : BlockKind → Text → List Text
  split_kind heading text = split_heading_block text
  split_kind list_block text = split_list_block text
  split_kind table_block text = split_table_block text
  split_kind code_block text = split_code_block text
  split_kind prose text = split_prose_block text

  unfoldable pub split_block : Block → List Text
  split_block block = split_kind block.kind (text_of block)

  -- What is written out at a block's chunks, and what is gathered then.
  abbrev pub block_step : Text → List Text → List Text × Text
  block_step current [] = ([], current)
  block_step current (chunk ∷ []) = part_step (10 ∷ 10 ∷ []) current (trim_space chunk)
  block_step current (chunk ∷ next ∷ chunks) = (
    finished current ++ (chunk ∷ next ∷ chunks),
    if is_nil (trim_space current) then current else [],
  )

  unfoldable pub text_loop : Text → List Block → List Text
  text_loop current [] = finished current
  text_loop current (block ∷ blocks) =
      (block_step current (split_block block)).0
      ++ text_loop (block_step current (split_block block)).1 blocks

  unfoldable pub split_text : Text → List Text
  split_text content = text_loop [] (split_blocks content)
