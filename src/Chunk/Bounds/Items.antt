-- ===== src/Chunk/Bounds/Items.antt =====
-- chunker.go: the lines of the items of a list are within the limit.
use personal_assistant.Base.{
  ℕ, leb, nat_eq, ◌+◌, ◌-◌, ◌≤◌, ◌<◌, List, [], ◌∷◌, ◌++◌, length, length-append, flat_map, All,
  flat_map-All, All-map, arith, if◌then◌else◌, by_test,
}
use personal_assistant.Base.Text.{Text, lit, is_nil, trim_space}
use personal_assistant.Base.Split.{length-trim_space}
use personal_assistant.Chunk.Lines.{newline, normalize_inline_text}
use personal_assistant.Chunk.Units.{split_narrative_units, ListItem}
use personal_assistant.Chunk.Splitter.{
  ParagraphChunker, marker_of, body_budget, prefixed_unit, item_lines, item_parts, list_parts,
}
use personal_assistant.Chunk.Bounds.Pieces.{Fits, split_narrative_units-Fits}
use personal_assistant.Chunk.Bounds.Sequence.{fits, build-Fits, split_prose_block-Fits}

module _ (c : ParagraphChunker) where
  -- The marker of the item, a blank and one more character fit into a chunk.
  abbrev pub MarkerFits : ListItem → Type 0
  MarkerFits item = length (marker_of c item) + 1 < c.max_chars

  pub prefixed_unit-Fits :
      (prefix unit : Text)
      → length prefix + 1 + length unit ≤ c.max_chars
      → All (Fits c.max_chars) (prefixed_unit c prefix unit)
  prefixed_unit-Fits prefix unit h =
      by_test (All (Fits c.max_chars)) (is_nil (trim_space unit)) [] _ (λ _. tt) (λ _. (joined, tt))
    where
      joined : Fits c.max_chars (trim_space (prefix ++ (lit " " ++ trim_space unit)))
      joined = omega (
        arith,
        length-trim_space (prefix ++ (lit " " ++ trim_space unit)),
        length-append prefix (lit " " ++ trim_space unit),
        length-trim_space unit,
        h,
      )

  pub units-Fits :
      (prefix : Text) (units : List Text)
      → All (λ unit. length prefix + 1 + length unit ≤ c.max_chars) units
      → All (Fits c.max_chars) (flat_map (prefixed_unit c prefix) units)
  units-Fits prefix units h =
      flat_map-All _ (Fits c.max_chars) (prefixed_unit c prefix) (prefixed_unit-Fits prefix) units h

  pub length-body_budget :
      (prefix : Text)
      → length prefix + 1 < c.max_chars
      → (0 < body_budget c prefix) × (body_budget c prefix + length prefix + 1 ≤ c.max_chars)
  length-body_budget prefix h = shape (length prefix) c.max_chars h
    where
      shape :
          (n m : ℕ)
          → n + 1 < m
          → (0 < (if nat_eq (m - n - 1) 0 then m else m - n - 1))
            × ((if nat_eq (m - n - 1) 0 then m else m - n - 1) + n + 1 ≤ m)
      shape n m k = (ground (arith, k), ground (arith, k))

  pub weaken-All :
      (prefix : Text) (units : List Text)
      → length prefix + 1 < c.max_chars
      → All (Fits (body_budget c prefix)) units
      → All (λ unit. length prefix + 1 + length unit ≤ c.max_chars) units
  weaken-All prefix units h k =
      All-map (λ unit q. omega (arith, (length-body_budget prefix h).1, q)) units k

  pub item_lines-Fits :
      (prefix body : Text)
      → length prefix + 1 < c.max_chars
      → All (Fits c.max_chars) (item_lines c prefix body)
  item_lines-Fits prefix body h =
      by_test (All (Fits c.max_chars)) (is_nil body) [] _ (λ _. tt)
        (λ _.
          by_test (All (Fits c.max_chars)) (leb (length line) c.max_chars) (line ∷ [])
            (flat_map (prefixed_unit c prefix) (split_narrative_units body (body_budget c prefix)))
            (λ q. (fits c.max_chars (length line) q, tt))
            (λ _. units-Fits prefix (split_narrative_units body (body_budget c prefix)) (
              weaken-All prefix _ h (
                split_narrative_units-Fits (body_budget c prefix) body
                  (length-body_budget prefix h).0))))
    where
      line : Text
      line = trim_space (prefix ++ (lit " " ++ body))

  pub item_parts-Fits :
      (item : ListItem) → MarkerFits item → All (Fits c.max_chars) (item_parts c item)
  unfolding item_parts
  item_parts-Fits item h = item_lines-Fits (marker_of c item) (normalize_inline_text item.text) h

  pub items-Fits :
      (items : List ListItem)
      → All MarkerFits items
      → All (Fits c.max_chars) (flat_map (item_parts c) items)
  items-Fits items h =
      flat_map-All MarkerFits (Fits c.max_chars) (item_parts c) item_parts-Fits items h

  pub list_parts-Fits :
      (text : Text) (items : List ListItem)
      → 0 < c.max_chars
      → All MarkerFits items
      → All (Fits c.max_chars) (list_parts c text items)
  list_parts-Fits text [] h k = split_prose_block-Fits c text h
  list_parts-Fits text (item ∷ items) h k =
      build-Fits c (flat_map (item_parts c) (item ∷ items)) newline (items-Fits (item ∷ items) k)
