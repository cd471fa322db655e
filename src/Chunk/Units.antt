-- ===== src/Chunk/Units.antt =====
-- chunker.go: the pieces that a block is cut into.
use personal_assistant.Base.{
  ℕ, zero, suc, ltb, leb, nat_eq, ◌-◌, ◌+◌, Bool, ◌&&◌, ◌||◌, List, [], ◌∷◌, ◌++◌, length, flat_map,
  Option, none, some, if◌then◌else◌,
}
use personal_assistant.Base.Text.{Text, lit, is_nil, trim_space}
use personal_assistant.Base.Split.{join_with, trim_blanks}
use personal_assistant.Chunk.Lines.{
  newline, normalize_inline_text, split_raw_lines, parse_list_marker,
}

abbrev pub keep : Text → List Text → List Text
keep part rest = if is_nil part then rest else part ∷ rest

unfoldable pub take : ℕ → Text → Text
take zero text = []
take (suc n) [] = []
take (suc n) (c ∷ cs) = c ∷ take n cs

unfoldable pub drop : ℕ → Text → Text
drop zero text = text
drop (suc n) [] = []
drop (suc n) (c ∷ cs) = drop n cs

-- The loop of splitByRuneWindow; the number of runes left is enough fuel.
unfoldable pub window_loop : ℕ → ℕ → ℕ → Text → List Text
window_loop zero max step runes = []
window_loop (suc fuel) max step runes =
    let rest = window_loop fuel max step (drop step runes) in
    if is_nil runes
    then []
    else keep (trim_space (take max runes)) (if leb (length runes) max then [] else rest)

abbrev pub window_step : ℕ → ℕ → ℕ
window_step max overlap = if leb max overlap then max else max - overlap

unfoldable pub split_by_rune_window : Text → ℕ → ℕ → List Text
split_by_rune_window value max overlap =
    if leb (length value) max
    then trim_space value ∷ []
    else window_loop (length value) max (window_step max overlap) value

abbrev pub is_strong_boundary : ℕ → Bool
is_strong_boundary r =
    nat_eq r 0x3002
    || nat_eq r 0xff01
    || nat_eq r 0xff1f
    || nat_eq r 0xff1b
    || nat_eq r 46
    || nat_eq r 33
    || nat_eq r 63
    || nat_eq r 59

abbrev pub is_soft_boundary : ℕ → Bool
is_soft_boundary r = nat_eq r 0xff0c || nat_eq r 44 || nat_eq r 0xff1a || nat_eq r 58

-- The loop over the runes, with what is gathered since the last boundary.
unfoldable pub boundary_loop : (ℕ → Bool) → Text → Text → List Text
boundary_loop is_boundary gathered [] = keep (trim_space gathered) []
boundary_loop is_boundary gathered (r ∷ rs) =
    let after = boundary_loop is_boundary [] rs in
    let more = boundary_loop is_boundary (gathered ++ r ∷ []) rs in
    if is_boundary r then keep (trim_space (gathered ++ r ∷ [])) after else more

unfoldable pub split_by_boundaries : Text → (ℕ → Bool) → List Text
split_by_boundaries text is_boundary =
    if is_nil (trim_space text) then [] else boundary_loop is_boundary [] text

abbrev pub or_whole : Text → List Text → List Text
or_whole text [] = text ∷ []
or_whole text (unit ∷ units) = unit ∷ units

abbrev pub fit_or : ℕ → Text → List Text → List Text
fit_or max unit pieces =
    if is_nil unit then [] else if leb (length unit) max then unit ∷ [] else pieces

unfoldable pub soft_units : ℕ → Text → List Text
soft_units max unit =
    fit_or max (normalize_inline_text unit)
      (split_by_rune_window (normalize_inline_text unit) max 0)

unfoldable pub strong_units : ℕ → Text → List Text
strong_units max unit =
    let text = normalize_inline_text unit in
    fit_or max text
      (flat_map (soft_units max) (or_whole text (split_by_boundaries text is_soft_boundary)))

unfoldable pub split_narrative_units : Text → ℕ → List Text
split_narrative_units value max =
    let text = normalize_inline_text value in
    if is_nil text
    then []
    else if nat_eq max 0 || leb (length text) max
    then text ∷ []
    else flat_map (strong_units max) (or_whole text (split_by_boundaries text is_strong_boundary))

pub record ListItem : Type 0 where
  pub marker : Text
  pub text : Text

abbrev pub no_item : ListItem
no_item = record { marker = []; text = [] }

-- The finished items, and the item that is gathered.
abbrev pub flush_item : List ListItem × ListItem → List ListItem × ListItem
flush_item (items, current) =
    (if is_nil (trim_space current.text) then items else items ++ current ∷ [], no_item)

abbrev pub item_with :
    Text → List ListItem × ListItem → Option (Text × Text) → List ListItem × ListItem
item_with line state (some (marker, body)) =
    ((flush_item state).0, record { marker = marker; text = body })
item_with line (items, current) none = (
  items,
  if is_nil current.text then record { marker = lit "-"; text = line } else record {
    marker = current.marker;
    text = trim_space (current.text ++ (lit " " ++ line));
  },
)

abbrev pub item_step : List ListItem × ListItem → Text → List ListItem × ListItem
item_step state line =
    if is_nil (trim_space line)
    then state
    else item_with (trim_space line) state (parse_list_marker (trim_space line))

unfoldable pub item_loop : List ListItem × ListItem → List Text → List ListItem
item_loop state [] = (flush_item state).0
item_loop state (line ∷ lines) = item_loop (item_step state line) lines

unfoldable pub split_list_items : Text → List ListItem
split_list_items text = item_loop ([], no_item) (split_raw_lines text)

abbrev pub group_of : List Text → List Text
group_of [] = []
group_of (line ∷ lines) = join_with newline (line ∷ lines) ∷ []

unfoldable pub group_loop : List Text → List Text → List Text
group_loop current [] = group_of current
group_loop current (line ∷ lines) =
    let after = group_loop [] lines in
    let more = group_loop (current ++ trim_blanks line ∷ []) lines in
    if is_nil (trim_space line) then group_of current ++ after else more

unfoldable pub split_code_groups : List Text → List Text
split_code_groups lines = group_loop [] lines

-- The chunk that is finished, unless it is blank.
abbrev pub finished : Text → List Text
finished current = if is_nil (trim_space current) then [] else current ∷ []

-- What is written out at a line, and what is gathered then.
abbrev pub line_step : ℕ → Text → Text → List Text × Text
line_step max current line =
    if is_nil line
    then ([], current)
    else if ltb max (length line)
    then (
      finished current ++ split_by_rune_window line max 0,
      if is_nil (trim_space current) then current else [],
    )
    else if is_nil current
    then ([], line)
    else if leb (length (current ++ (newline ++ line))) max
    then ([], current ++ (newline ++ line))
    else (current ∷ [], line)

unfoldable pub line_loop : ℕ → Text → List Text → List Text
line_loop max current [] = finished current
line_loop max current (line ∷ lines) =
    (line_step max current (trim_blanks line)).0
    ++ line_loop max (line_step max current (trim_blanks line)).1 lines

unfoldable pub split_code_group_by_line_window : Text → ℕ → List Text
split_code_group_by_line_window group max = line_loop max [] (split_raw_lines group)

unfoldable pub join_chunk_parts : Text → Text → Text → Text
join_chunk_parts left right separator =
    if is_nil (trim_space left)
    then trim_space right
    else if is_nil (trim_space right)
    then trim_space left
    else trim_space (trim_space left ++ (separator ++ trim_space right))

-- The parts that are not empty, one to a line.
abbrev pub below : Text → Text → Text
below built part =
    if is_nil part then built else if is_nil built then part else built ++ (newline ++ part)

unfoldable pub wrap_chunk_body : Text → Text → Text → Text
wrap_chunk_body prefix suffix body =
    if is_nil prefix && is_nil suffix
    then trim_space body
    else trim_space (below (below (trim_space prefix) (trim_space body)) (trim_space suffix))

abbrev pub wrapped : Text → Text → Text → List Text
wrapped prefix suffix current =
    if is_nil (trim_space current) then [] else wrap_chunk_body prefix suffix current ∷ []

abbrev pub packed_body : Text → Text → Text → Text
packed_body separator current part =
    if is_nil current then part else join_chunk_parts current part separator

abbrev pub pack_step : Text → Text → Text → ℕ → Text → Text → List Text × Text
pack_step prefix suffix separator max current part =
    if is_nil part
    then ([], current)
    else if leb (length (wrap_chunk_body prefix suffix (packed_body separator current part))) max
    then ([], packed_body separator current part)
    else (wrapped prefix suffix current, part)

unfoldable pub pack_loop : Text → Text → Text → ℕ → Text → List Text → List Text
pack_loop prefix suffix separator max current [] = wrapped prefix suffix current
pack_loop prefix suffix separator max current (part ∷ parts) =
    (pack_step prefix suffix separator max current (trim_space part)).0
    ++ pack_loop prefix suffix separator max
        (pack_step prefix suffix separator max current (trim_space part)).1 parts

unfoldable pub pack_wrapped_parts : List Text → Text → Text → Text → ℕ → List Text
pack_wrapped_parts parts prefix suffix separator max =
    pack_loop prefix suffix separator max [] parts

-- What a fence takes of a chunk, with the line break next to it.
abbrev pub fence_cost : Text → ℕ
fence_cost fence = if is_nil fence then 0 else length fence + 1
