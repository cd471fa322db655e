-- ===== src/Chunk/Merge.antt =====
-- chunker.go, MergeChunkTextsWithOverlap: neighbouring chunks are joined without the text that they
-- share.
pub mod Largest
use personal_assistant.Base.{
  ℕ, zero, suc, ltb, leb, nat_eq, ◌-◌, Bool, true, false, ◌||◌, List, [], ◌∷◌, ◌++◌, length,
  if◌then◌else◌, ◌==◌,
}
use personal_assistant.Base.Text.{Text, is_nil, trim_space, text_key}
use personal_assistant.Chunk.Units.{take, drop}

abbrev pub min_of : ℕ → ℕ → ℕ
min_of a b = if ltb a b then a else b

-- The loop over the sizes, from the largest down.
unfoldable pub overlap_loop : Text → Text → ℕ → Text
overlap_loop previous current zero = current
overlap_loop previous current (suc n) =
    let rest = overlap_loop previous current n in
    if drop (length previous - suc n) previous == take (suc n) current
    then drop (suc n) current
    else rest

unfoldable pub trim_leading_chunk_overlap : Text → Text → ℕ → Text
trim_leading_chunk_overlap previous current overlap =
    if is_nil current || nat_eq overlap 0
    then current
    else overlap_loop previous current (min_of (length current) (min_of (length previous) overlap))

abbrev pub merge_step : ℕ → Text → Text → Text
merge_step overlap merged part =
    if is_nil part
    then merged
    else if is_nil merged
    then part
    else merged ++ trim_leading_chunk_overlap merged part overlap

unfoldable pub merge_loop : ℕ → Text → List Text → Text
merge_loop overlap merged [] = trim_space merged
merge_loop overlap merged (part ∷ parts) =
    merge_loop overlap (merge_step overlap merged (trim_space part)) parts

unfoldable pub merge_chunk_texts_with_overlap : List Text → ℕ → Text
merge_chunk_texts_with_overlap parts overlap = merge_loop overlap [] parts
