-- ===== src/Chunk/Lossless.antt =====
-- chunker.go, splitBlocks: what of the document the blocks keep.
use personal_assistant.Base.{
  ℕ, zero, suc, ◌≡◌, refl, ap, sym, ◌∙◌, ◌≤◌, Bool, true, List, [], ◌∷◌, ◌++◌, length, append-nil,
  Option, none, some, arith, if◌then◌else◌, by_test,
}
use personal_assistant.Base.Text.{Text, is_nil, trim_space, trim_left, trim_right, trim_space_idem}
use personal_assistant.Base.Split.{split_on}
use personal_assistant.Chunk.Lines.{
  normalize_chunk_document_text, is_fence_line, is_heading_line, is_list_item_line,
  is_markdown_table_start,
}
use personal_assistant.Chunk.Blocks.{
  BlockKind, heading, prose, code_block, list_block, Block, run_until, fence_run, table_stops,
  list_stops, prose_stops, block, run_block, table_from, next_block, add_block, split_loop,
  lines_of, split_blocks,
}

-- The lines that are not blank, trimmed.
unfoldable pub shown : List Text → List Text
shown [] = []
shown (line ∷ lines) =
    if is_nil (trim_space line) then shown lines else trim_space line ∷ shown lines

shown-append : (xs ys : List Text) → shown (xs ++ ys) ≡ shown xs ++ shown ys
unfolding shown
shown-append [] ys = refl
shown-append (x ∷ xs) ys = grind (arith, shown-append xs ys)

-- The run and what is left are the lines again.
abbrev IsCut : List Text → List Text × List Text → Type 0
IsCut lines cut = (cut.0 ++ cut.1 ≡ lines) × (length cut.1 ≤ length lines)

cons-IsCut :
    (line : Text) (lines : List Text) (cut : List Text × List Text)
    → IsCut lines cut
    → IsCut (line ∷ lines) (line ∷ cut.0, cut.1)
cons-IsCut line lines cut h = (ap (λ ls. line ∷ ls) h.0, omega (arith, h.1))

run_until-IsCut :
    (stops : List Text → Bool) (lines : List Text) → IsCut lines (run_until stops lines)
unfolding run_until
run_until-IsCut stops [] = (refl, omega arith)
run_until-IsCut stops (line ∷ lines) =
    by_test (IsCut (line ∷ lines)) (stops (line ∷ lines)) ([], line ∷ lines) _
      (λ _. (refl, omega arith))
      (λ _. cons-IsCut line lines (run_until stops lines) (run_until-IsCut stops lines))

fence_run-IsCut : (lines : List Text) → IsCut lines (fence_run lines)
unfolding fence_run
fence_run-IsCut [] = (refl, omega arith)
fence_run-IsCut (line ∷ lines) =
    by_test (IsCut (line ∷ lines)) (is_fence_line (trim_space line)) (line ∷ [], lines) _
      (λ _. (refl, omega arith))
      (λ _. cons-IsCut line lines (fence_run lines) (fence_run-IsCut lines))

abbrev pub kept_lines : Option Block → List Text
kept_lines none = []
kept_lines (some first) = first.lines

-- The block and what is left show what the line and its successors do.
abbrev Covers : Text → List Text → Option Block × List Text → Type 0
Covers line rest result =
    (shown (kept_lines result.0) ++ shown result.1 ≡ shown (line ∷ rest))
    × (length result.1 ≤ length rest)

run_block-Covers :
    (kind : BlockKind) (line : Text) (rest : List Text) (cut : List Text × List Text)
    → IsCut rest cut
    → Covers line rest (run_block kind (line ∷ []) cut)
run_block-Covers kind line rest cut h =
    (sym (shown-append (line ∷ cut.0) cut.1) ∙ ap (λ ls. shown (line ∷ ls)) h.0, h.1)

table_from-Covers : (line : Text) (rest : List Text) → Covers line rest (table_from line rest)
unfolding shown
table_from-Covers line [] = (append-nil (shown (line ∷ [])), omega arith)
table_from-Covers line (rule ∷ rest) = (
  sym (shown-append (line ∷ rule ∷ (run_until table_stops rest).0) (run_until table_stops rest).1)
      ∙ ap (λ ls. shown (line ∷ rule ∷ ls)) (run_until-IsCut table_stops rest).0,
  omega (arith, (run_until-IsCut table_stops rest).1),
)

heading-Covers :
    (line : Text) (rest : List Text) → Covers line rest (block heading (trim_space line ∷ []), rest)
unfolding shown
heading-Covers line rest = (grind (arith, trim_space_idem line), omega arith)

blank-Covers :
    (line : Text) (rest : List Text)
    → is_nil (trim_space line) ≡ true
    → Covers line rest (none, rest)
unfolding shown
blank-Covers line rest q = (ground (arith, q), omega arith)

next_block-Covers : (line : Text) (rest : List Text) → Covers line rest (next_block line rest)
unfolding next_block
next_block-Covers line rest =
    by_test (Covers line rest) (is_nil (trim_space line)) (none, rest) _ (blank-Covers line rest)
      (λ _.
        by_test (Covers line rest) (is_fence_line (trim_space line))
          (run_block code_block (line ∷ []) (fence_run rest)) _
          (λ _. run_block-Covers code_block line rest _ (fence_run-IsCut rest))
          (λ _.
            by_test (Covers line rest) (is_heading_line (trim_space line))
              (block heading (trim_space line ∷ []), rest) _ (λ _. heading-Covers line rest)
              (λ _.
                by_test (Covers line rest) (is_markdown_table_start (line ∷ rest))
                  (table_from line rest) _ (λ _. table_from-Covers line rest)
                  (λ _.
                    by_test (Covers line rest) (is_list_item_line (trim_space line))
                      (run_block list_block (line ∷ []) (run_until list_stops rest))
                      (run_block prose (line ∷ []) (run_until prose_stops rest))
                      (λ _.
                        run_block-Covers list_block line rest _ (run_until-IsCut list_stops rest))
                      (λ _.
                        run_block-Covers prose line rest _ (run_until-IsCut prose_stops rest))))))

-- The lines of the blocks, in order.
abbrev pub all_lines : List Block → List Text
all_lines [] = []
all_lines (b ∷ blocks) = b.lines ++ all_lines blocks

shown-add_block :
    (first : Option Block) (blocks : List Block)
    → shown (all_lines (add_block first blocks))
      ≡ shown (kept_lines first) ++ shown (all_lines blocks)
unfolding shown
shown-add_block none blocks = refl
shown-add_block (some b) blocks = shown-append b.lines (all_lines blocks)

shown-split_loop :
    (fuel : ℕ) (lines : List Text)
    → length lines ≤ fuel
    → shown (all_lines (split_loop fuel lines)) ≡ shown lines
unfolding split_loop
shown-split_loop zero [] h = refl
shown-split_loop zero (line ∷ rest) h = absurd (omega arith)
shown-split_loop (suc fuel) [] h = refl
shown-split_loop (suc fuel) (line ∷ rest) h =
    let covers = next_block-Covers line rest in
    shown-add_block (next_block line rest).0 _
    ∙ (ap (λ ls. shown (kept_lines (next_block line rest).0) ++ ls)
          (shown-split_loop fuel (next_block line rest).1 (omega (arith, covers.1, h)))
        ∙ covers.0)

one_blank : shown (lines_of []) ≡ []
unfolding shown split_on trim_space trim_right trim_left
one_blank = refl

shown_nil : shown [] ≡ []
unfolding shown
shown_nil = refl

-- The blocks that a document is cut into hold, in order, exactly the lines of the normalized
-- document that are not blank, up to blanks around a line: the loop ends after all lines, and
-- no line is lost, repeated or moved.
pub shown-split_blocks :
    (content : Text)
    → shown (all_lines (split_blocks content))
      ≡ shown (lines_of (normalize_chunk_document_text content))
unfolding split_blocks
shown-split_blocks content =
    by_test (λ blocks. shown (all_lines blocks) ≡ shown (lines_of text)) (is_nil text) []
      (split_loop (length (lines_of text)) (lines_of text))
      (λ q. shown_nil ∙ sym (ap shown (ap lines_of (nil_of text q)) ∙ one_blank))
      (λ _. shown-split_loop (length (lines_of text)) (lines_of text) (omega arith))
  where
    text : Text
    text = normalize_chunk_document_text content

    nil_of : (t : Text) → is_nil t ≡ true → t ≡ []
    nil_of [] q = refl
    nil_of (c ∷ cs) q = cc
