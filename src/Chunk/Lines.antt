-- ===== src/Chunk/Lines.antt =====
-- chunker.go: lines and what kind of line they are. A text is a list of code points, so that
-- `utf8.RuneCountInString` is its length; the source's byte tests are for ASCII characters.
use personal_assistant.Base.{
  ℕ, leb, nat_eq, Bool, true, false, not, ◌&&◌, ◌||◌, List, [], ◌∷◌, ◌++◌, Option, none, some, map,
  if◌then◌else◌,
}
use personal_assistant.Base.Text.{Text, lit, is_nil, has_prefix, trim_space}
use personal_assistant.Base.Split.{split_on, contains, remove_all, trim_blanks}
use personal_assistant.Memory.Document.{fields, join}

abbrev pub newline : Text
newline = 10 ∷ []

abbrev pub starts_newline : Text → Bool
starts_newline [] = false
starts_newline (c ∷ cs) = nat_eq c 10

-- strings.ReplaceAll(value, "\r\n", "\n")
unfoldable pub replace_crlf : Text → Text
replace_crlf [] = []
replace_crlf (c ∷ cs) =
    let rest = replace_crlf cs in if nat_eq c 13 && starts_newline cs then rest else c ∷ rest

unfoldable pub normalize_chunk_document_text : Text → Text
normalize_chunk_document_text value = trim_space (replace_crlf value)

unfoldable pub normalize_inline_text : Text → Text
normalize_inline_text value = join (fields (trim_space value))

unfoldable pub split_raw_lines : Text → List Text
split_raw_lines value =
    if is_nil (normalize_chunk_document_text value)
    then []
    else map trim_blanks (split_on 10 (normalize_chunk_document_text value))

unfoldable pub is_fence_line : Text → Bool
is_fence_line line = has_prefix (trim_space line) (lit "```")

unfoldable pub is_heading_line : Text → Bool
is_heading_line line = has_prefix (trim_space line) (lit "#")

abbrev pub is_blank_char : ℕ → Bool
is_blank_char c = nat_eq c 32 || nat_eq c 9

abbrev pub is_bullet : ℕ → Bool
is_bullet c = nat_eq c 45 || nat_eq c 42 || nat_eq c 43

abbrev pub is_digit : ℕ → Bool
is_digit c = leb 48 c && leb c 57

-- The leading digits of a text, and what follows them.
unfoldable pub span_digits : Text → Text × Text
span_digits [] = ([], [])
span_digits (c ∷ cs) =
    let more = span_digits cs in if is_digit c then (c ∷ more.0, more.1) else ([], c ∷ cs)

abbrev pub bullet_marker : Text → Option (Text × Text)
bullet_marker (c ∷ d ∷ rest) =
    if is_bullet c && is_blank_char d then some (c ∷ [], trim_space (d ∷ rest)) else none
bullet_marker _ = none

abbrev pub number_marker : Text × Text → Option (Text × Text)
number_marker (digits, c ∷ d ∷ rest) =
    if not (is_nil digits) && (nat_eq c 46 || nat_eq c 41) && is_blank_char d
    then some (trim_space (digits ++ c ∷ []), trim_space (d ∷ rest))
    else none
number_marker _ = none

abbrev pub or_number : Option (Text × Text) → Text → Option (Text × Text)
or_number (some marker) line = some marker
or_number none line = number_marker (span_digits line)

-- A list item's marker and text.
unfoldable pub parse_list_marker : Text → Option (Text × Text)
parse_list_marker line = or_number (bullet_marker (trim_space line)) (trim_space line)

abbrev pub is_some {ℓ} : {A : Type ℓ} → Option A → Bool
is_some none = false
is_some (some value) = true

unfoldable pub is_list_item_line : Text → Bool
is_list_item_line line = is_some (parse_list_marker line)

abbrev pub all_rule_chars : Text → Bool
all_rule_chars [] = true
all_rule_chars (c ∷ cs) = (nat_eq c 45 || nat_eq c 58) && all_rule_chars cs

unfoldable pub is_markdown_table_delimiter_line : Text → Bool
is_markdown_table_delimiter_line line =
    let trimmed = remove_all 9 (remove_all 32 (remove_all 124 (trim_space line))) in
    not (is_nil (trim_space line))
    && not (is_nil trimmed)
    && contains 45 trimmed
    && all_rule_chars trimmed

-- The lines from an index on start a table.
unfoldable pub is_markdown_table_start : List Text → Bool
is_markdown_table_start (line ∷ next ∷ lines) =
    not (is_nil (trim_space line))
    && not (is_nil (trim_space next))
    && contains 124 (trim_space line)
    && is_markdown_table_delimiter_line (trim_space next)
is_markdown_table_start _ = false
