-- ===== src/Docs/Structure.antt =====
-- crates/rationale-docs/src/lib.rs: the nesting limit on structured metadata, and the front matter of
-- a Markdown document.
pub mod Split
pub mod Enclosed
use rationale.Prelude.{
  ℕ, ◌+◌, ◌-◌, Bool, true, false, not, ◌&&◌, ◌||◌, ◌==◌, Option, none, some, List, [], ◌∷◌, ◌++◌,
  length, ltb, leb, if◌then◌else◌,
}
use rationale.Order.{list_ord, nat_ord}
use rationale.Result.{Result, ok, err, ◌>>=◌, ◌>>◌, Done}
use rationale.Text.{
  Text, codes, text_eq, is_empty, starts_with, strip_suffix, trim_start_matches, trim_end_matches,
}
use rationale.Text.Split.{split_once}
use rationale.Docs.{ParseFailure, FrontMatterKind, yaml, toml}

abbrev pub max_structured_nesting : ℕ
max_structured_nesting = 32

abbrev pub extend_line : ℕ → List Text → List Text
extend_line c [] = (c ∷ []) ∷ []
extend_line c (l ∷ ls) = (c ∷ l) ∷ ls

-- `split_inclusive('\n')`: each line with its end; no empty last line.
unfoldable pub split_inclusive : Text → List Text
split_inclusive [] = []
split_inclusive (c ∷ s) =
    let more = split_inclusive s in if c == b'\n' then (c ∷ []) ∷ more else extend_line c more

-- A line without its end, `\n` or `\r\n`, as `str::lines` gives it.
unfoldable pub without_end : Text → Text
unfolding strip_suffix
without_end l = elim (strip_suffix (codes "\n") l) [
  | none ↦ l
  | some body ↦ elim (strip_suffix (codes "\r") body) [ none ↦ body | some text ↦ text ]
]

abbrev pub is_indent : ℕ → Bool
is_indent c = c == b' ' || c == b'\t'

-- The levels, the innermost first, that the new indentation leaves open.
unfoldable pub pop_levels : ℕ → List ℕ → List ℕ
pop_levels indentation [] = []
pop_levels indentation (level ∷ levels) =
    if leb indentation level then pop_levels indentation levels else level ∷ levels

abbrev pub too_deep : ParseFailure
too_deep = (codes "structured_nesting", codes "structured metadata exceeds the nesting limit")

-- The loop over the lines.
unfoldable pub check_lines : List ℕ → List Text → Done ParseFailure
unfolding pop_levels without_end trim_start_matches starts_with
check_lines levels [] = ok tt
check_lines levels (raw ∷ rest) =
    let line = without_end raw in
    let content = trim_start_matches is_indent line in
    let indentation = length line - length content in
    let open_levels = pop_levels indentation levels in
    let same = check_lines levels rest in
    let closed = check_lines open_levels rest in
    let opened = check_lines (indentation ∷ open_levels) rest in
    if is_empty content || starts_with (codes "#") content
    then same
    else if ltb 0 indentation
    then (if ltb max_structured_nesting (length (indentation ∷ open_levels))
        then err too_deep
        else opened)
    else closed

-- What the loop over the characters keeps.
pub record Scan : Type 0 where
  pub depth : ℕ
  pub quote : Option ℕ
  pub escaped : Bool

abbrev is_quote : ℕ → Bool
is_quote c = c == b'\'' || c == b'"'

abbrev is_opening : ℕ → Bool
is_opening c = c == b'[' || c == b'{'

abbrev is_closing : ℕ → Bool
is_closing c = c == b']' || c == b'}'

-- One character, where the quotation `quote` is open or none is.
unfoldable pub scan_in : Option ℕ → Scan → ℕ → Scan
scan_in (some delimiter) s c =
    if delimiter == b'"' && c == b'\\' && not s.escaped
    then record s { escaped = true }
    else record s {
      quote = if c == delimiter && not s.escaped then none else s.quote;
      escaped = false;
    }
scan_in none s c =
    if is_quote c
    then record s { quote = some c }
    else if is_opening c
    then record s { depth = s.depth + 1 }
    else if is_closing c
    then record s { depth = s.depth - 1 }
    else s

unfoldable pub scan_char : Scan → ℕ → Scan
unfolding scan_in
scan_char s c = scan_in s.quote s c

-- The loop over the characters. The depth grows at an opening character only, so a test behind every
-- character is the source's test behind the opening ones.
unfoldable pub check_characters : Scan → Text → Done ParseFailure
unfolding scan_char
check_characters s [] = ok tt
check_characters s (c ∷ rest) =
    let s' = scan_char s c in
    let later = check_characters s' rest in
    if ltb max_structured_nesting s'.depth then err too_deep else later

abbrev pub start : Scan
start = record { depth = 0; quote = none; escaped = false }

unfoldable pub validate_structural_nesting : Text → Done ParseFailure
unfolding check_lines check_characters split_inclusive
validate_structural_nesting source = do
  check_lines [] (split_inclusive source)
  check_characters start source

-- The kind, the metadata and the body.
abbrev pub ParsedFrontMatter : Type 0
ParsedFrontMatter = FrontMatterKind × (Text × Text)

abbrev pub is_return : ℕ → Bool
is_return c = c == b'\r'

abbrev pub is_line_end : ℕ → Bool
is_line_end c = c == b'\r' || c == b'\n'

unfoldable pub delimiter_kind : Text → Option FrontMatterKind
delimiter_kind first =
    if text_eq first (codes "---")
    then some yaml
    else if text_eq first (codes "+++")
    then some toml
    else none

abbrev pub join : List Text → Text
join [] = []
join (l ∷ ls) = l ++ join ls

-- The lines up to the closing delimiter, and the text behind it.
unfoldable pub until_delimiter : Text → List Text → Option (Text × Text)
unfolding trim_end_matches
until_delimiter delimiter [] = none
until_delimiter delimiter (line ∷ rest) =
    if text_eq (trim_end_matches is_line_end line) delimiter
    then some ([], join rest)
    else elim (until_delimiter delimiter rest) [
      | none ↦ none
      | some (metadata, body) ↦ some (line ++ metadata, body)
    ]

abbrev pub unclosed : ParseFailure
unclosed = (codes "invalid_front_matter", codes "front matter has no closing delimiter")

unfoldable pub front_matter : Text → Result (Option ParsedFrontMatter) ParseFailure
unfolding split_once delimiter_kind until_delimiter split_inclusive trim_end_matches
front_matter source = elim (split_once b'\n' source) [
  | none ↦ ok none
  | some (line, rest) ↦
      let first = trim_end_matches is_return line in
      elim (delimiter_kind first) [
        | none ↦ ok none
        | some k ↦ elim (until_delimiter first (split_inclusive rest)) [
          | none ↦ err unclosed
          | some (metadata, body) ↦ ok (some (k, (metadata, body)))
        ]
      ]
]
