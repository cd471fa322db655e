-- ===== src/Chunk/Tests.antt =====
-- Examples for the chunker.
use personal_assistant.Base.{◌≡◌, All, arith, ◌++◌}
use personal_assistant.Base.Int.{pos}
use personal_assistant.Base.Text.{
  Text, lit, trim_space, trim_right, trim_left, is_space, has_prefix,
}
use personal_assistant.Base.Split.{split_on, contains, remove_all, trim_blanks, join_with}
use personal_assistant.Chunk.Lines.{
  newline, normalize_chunk_document_text, replace_crlf, is_fence_line, is_heading_line,
  is_markdown_table_start, is_list_item_line, parse_list_marker, is_markdown_table_delimiter_line,
  split_raw_lines, span_digits,
}
use personal_assistant.Chunk.Blocks.{
  lines_of, split_blocks, split_loop, next_block, run_until, fence_run,
}
use personal_assistant.Chunk.Units.{split_narrative_units, split_list_items, item_loop}
use personal_assistant.Chunk.Splitter.{ChunkerOptions, new_paragraph_chunker, split_text}
use personal_assistant.Chunk.Merge.{trim_leading_chunk_overlap}
use personal_assistant.Chunk.Bounds.Pieces.{Fits}
use personal_assistant.Chunk.Bounds.Chunks.{MarkersFit, split_text-new_paragraph_chunker}
use personal_assistant.Chunk.Lossless.{shown, all_lines, shown-split_blocks}
use personal_assistant.Chunk.Ink.{ink, inks, ink-split_narrative_units}
use personal_assistant.Chunk.Merge.Largest.{IsTrimmed, trim_leading_chunk_overlap-IsTrimmed}

abbrev options : ChunkerOptions
options = record { max_chars = pos 12; overlap_chars = pos 4 }

abbrev document : Text
document =
    lit "# Title"
    ++ (newline
        ++ (newline
            ++ (lit "some words here. and more" ++ (newline ++ lit "- a bee ate one long pear"))))

markers_fit : All (MarkersFit (new_paragraph_chunker options)) (split_blocks document)
unfolding split_blocks new_paragraph_chunker split_list_items normalize_chunk_document_text
    trim_space trim_right trim_left replace_crlf is_space split_loop split_on next_block
    is_fence_line has_prefix is_heading_line is_markdown_table_start is_list_item_line
    parse_list_marker contains is_markdown_table_delimiter_line remove_all run_until fence_run
    item_loop split_raw_lines trim_blanks join_with span_digits
markers_fit = (tt, (tt, ((omega arith, tt), tt)))

split_text-new_paragraph_chunker_example :
    All
      (Fits (new_paragraph_chunker options).max_chars)
      (split_text (new_paragraph_chunker options) document)
split_text-new_paragraph_chunker_example =
    split_text-new_paragraph_chunker options document markers_fit

shown-split_blocks_example :
    shown (all_lines (split_blocks document))
    ≡ shown (lines_of (normalize_chunk_document_text document))
shown-split_blocks_example = shown-split_blocks document

ink-split_narrative_units_example :
    inks (split_narrative_units (lit "some words here. and more") 12)
    ≡ ink (lit "some words here. and more")
ink-split_narrative_units_example = ink-split_narrative_units (lit "some words here. and more") 12

trim_leading_chunk_overlap-IsTrimmed_example :
    IsTrimmed (lit "abcde") (lit "defg") 3 (trim_leading_chunk_overlap (lit "abcde") (lit "defg") 3)
trim_leading_chunk_overlap-IsTrimmed_example =
    trim_leading_chunk_overlap-IsTrimmed (lit "abcde") (lit "defg") 3
