-- ===== src/Chunk/Blocks.antt =====
-- chunker.go, splitBlocks: a document is cut into headings, prose, code, tables and lists. A block
-- keeps its lines; its text is the lines joined.
use personal_assistant.Base.{
  ℕ, zero, suc, Bool, not, ◌&&◌, ◌||◌, List, [], ◌∷◌, ◌++◌, length, Option, none, some,
  if◌then◌else◌,
}
use personal_assistant.Base.Text.{Text, is_nil, trim_space}
use personal_assistant.Base.Split.{split_on, join_with, contains}
use personal_assistant.Chunk.Lines.{
  newline, normalize_chunk_document_text, is_fence_line, is_heading_line, is_list_item_line,
  is_markdown_table_delimiter_line, is_markdown_table_start,
}

pub data BlockKind : Type 0 where
  heading prose code_block table_block list_block : BlockKind

pub record Block : Type 0 where
  pub kind : BlockKind
  pub lines : List Text

abbrev pub text_of : Block → Text
text_of block = join_with newline block.lines

-- The lines up to one from which the run stops, and those from it on.
unfoldable pub run_until : (List Text → Bool) → List Text → List Text × List Text
run_until stops [] = ([], [])
run_until stops (line ∷ lines) =
    let more = run_until stops lines in
    if stops (line ∷ lines) then ([], line ∷ lines) else (line ∷ more.0, more.1)

-- The lines of a code block up to its closing fence, which belongs to it.
unfoldable pub fence_run : List Text → List Text × List Text
fence_run [] = ([], [])
fence_run (line ∷ lines) =
    let more = fence_run lines in
    if is_fence_line (trim_space line) then (line ∷ [], lines) else (line ∷ more.0, more.1)

abbrev pub head_line : List Text → Text
head_line [] = []
head_line (line ∷ lines) = trim_space line

abbrev pub table_stops : List Text → Bool
table_stops lines =
    is_nil (head_line lines)
    || not (contains 124 (head_line lines))
      && not (is_markdown_table_delimiter_line (head_line lines))

abbrev pub list_stops : List Text → Bool
list_stops lines =
    is_nil (head_line lines)
    || is_fence_line (head_line lines)
    || is_heading_line (head_line lines)
    || is_markdown_table_start lines

abbrev pub prose_stops : List Text → Bool
prose_stops lines = list_stops lines || is_list_item_line (head_line lines)

abbrev pub block : BlockKind → List Text → Option Block
block kind lines = some (record { kind = kind; lines = lines })

abbrev pub run_block : BlockKind → List Text → List Text × List Text → Option Block × List Text
run_block kind start (run, rest) = (block kind (start ++ run), rest)

abbrev pub table_from : Text → List Text → Option Block × List Text
table_from line [] = (block table_block (line ∷ []), [])
table_from line (rule ∷ rest) =
    run_block table_block (line ∷ rule ∷ []) (run_until table_stops rest)

-- The block that starts at a line, if the line is not blank, and the lines behind it.
unfoldable pub next_block : Text → List Text → Option Block × List Text
next_block line rest =
    if is_nil (trim_space line)
    then (none, rest)
    else if is_fence_line (trim_space line)
    then run_block code_block (line ∷ []) (fence_run rest)
    else if is_heading_line (trim_space line)
    then (block heading (trim_space line ∷ []), rest)
    else if is_markdown_table_start (line ∷ rest)
    then table_from line rest
    else if is_list_item_line (trim_space line)
    then run_block list_block (line ∷ []) (run_until list_stops rest)
    else run_block prose (line ∷ []) (run_until prose_stops rest)

abbrev pub add_block : Option Block → List Block → List Block
add_block none blocks = blocks
add_block (some first) blocks = first ∷ blocks

-- The loop over the lines; their number is enough fuel.
unfoldable pub split_loop : ℕ → List Text → List Block
split_loop zero lines = []
split_loop (suc fuel) [] = []
split_loop (suc fuel) (line ∷ rest) =
    add_block (next_block line rest).0 (split_loop fuel (next_block line rest).1)

abbrev pub lines_of : Text → List Text
lines_of content = split_on 10 content

unfoldable pub split_blocks : Text → List Block
split_blocks content =
    let text = normalize_chunk_document_text content in
    if is_nil text then [] else split_loop (length (lines_of text)) (lines_of text)
