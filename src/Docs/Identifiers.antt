-- ===== src/Docs/Identifiers.antt =====
-- crates/rationale-docs/src/lib.rs: identifiers by their configured prefixes, in a text and alone.
pub mod Place
pub mod Found
use rationale.Prelude.{
  ℕ, Bool, true, false, not, ◌&&◌, ◌||◌, ◌==◌, Option, none, some, List, [], ◌∷◌, ◌++◌, any, all,
  leb, ltb, if◌then◌else◌,
}
use rationale.Order.{list_ord, nat_ord}
use rationale.Result.{Result, ok, err, ◌>>◌, Done, fail_if}
use rationale.Set.{Set, add, extend}
use rationale.Sort.{sort_by, dedup_by}
use rationale.Text.{Text, codes, text_eq, len, is_empty, is_ascii_alphanumeric, strip_prefix}
use rationale.Model.{NodeKind}
use rationale.Docs.{IdPatterns, MarkdownEvent, Formats}

-- A letter, a digit, `-` or `_`.
unfoldable pub is_suffix_char : ℕ → Bool
unfolding is_ascii_alphanumeric
is_suffix_char c = is_ascii_alphanumeric c || c == b'-' || c == b'_'

-- `valid_prefixed`
unfoldable pub valid_prefixed : Text → Text → Bool
unfolding strip_prefix is_suffix_char
valid_prefixed id prefix = elim (strip_prefix prefix id) [
  | none ↦ false
  | some suffix ↦ not (is_empty suffix) && all is_suffix_char suffix
]

-- `IdPatterns::kind`
unfoldable pub kind : IdPatterns → Text → Option NodeKind
unfolding valid_prefixed
kind patterns id =
    if any (valid_prefixed id) patterns.decisions
    then some NodeKind.decision
    else if any (valid_prefixed id) patterns.verifications
    then some NodeKind.verification
    else if any (valid_prefixed id) patterns.work_items
    then some NodeKind.work_item
    else none

-- `sort_by_key(|prefix| Reverse(prefix.len()))`
abbrev pub longer_first : Text → Text → Bool
longer_first a b = leb (len b) (len a)

-- `IdPatterns::prefixes`: the longest first.
unfoldable pub prefixes : IdPatterns → List Text
unfolding sort_by dedup_by
prefixes patterns =
    dedup_by text_eq
      (sort_by longer_first (patterns.work_items ++ (patterns.decisions ++ patterns.verifications)))

-- `boundary_before`, of the character before the place, if there is one.
unfoldable pub boundary_before : Option ℕ → Bool
unfolding is_ascii_alphanumeric
boundary_before none = true
boundary_before (some c) = not (is_ascii_alphanumeric c) && not (c == b'_')

-- `take_while` of the characters of a suffix.
unfoldable pub suffix_run : Text → Text
unfolding is_suffix_char
suffix_run [] = []
suffix_run (c ∷ s) = if is_suffix_char c then c ∷ suffix_run s else []

-- The identifier with one prefix at the start of `rest`, whose character before is `previous`.
unfoldable pub identifier_at : Option ℕ → Text → Text → Option Text
unfolding strip_prefix boundary_before suffix_run valid_prefixed
identifier_at previous rest prefix = elim (strip_prefix prefix rest) [
  | none ↦ none
  | some suffix ↦
      if not (boundary_before previous) || is_empty (suffix_run suffix)
      then none
      else if valid_prefixed (prefix ++ suffix_run suffix) prefix
      then some (prefix ++ suffix_run suffix)
      else none
]

-- The loop over the prefixes at one place.
unfoldable pub identifiers_at : Option ℕ → Text → List Text → Set Text → Set Text
unfolding identifier_at
identifiers_at previous rest [] found = found
identifiers_at previous rest (prefix ∷ more) found =
    identifiers_at previous rest more
      (elim (identifier_at previous rest prefix) [ none ↦ found | some id ↦ add id found ])

-- The loop over the places, each with the character before it.
unfoldable pub identifiers_from : List Text → Option ℕ → Text → Set Text → Set Text
unfolding identifiers_at
identifiers_from known previous [] found = found
identifiers_from known previous (c ∷ s) found =
    identifiers_from known (some c) s (identifiers_at previous (c ∷ s) known found)

unfoldable pub find_identifiers : Text → IdPatterns → List Text
unfolding identifiers_from prefixes
find_identifiers source patterns = identifiers_from (prefixes patterns) none source []

-- The texts, code spans and link targets of the body.
unfoldable pub event_identifiers : IdPatterns → List MarkdownEvent → Set Text → Set Text
unfolding find_identifiers extend
event_identifiers patterns [] found = found
event_identifiers patterns (event ∷ events) found = event_identifiers patterns events (elim event [
  | MarkdownEvent.text t ↦ extend found (find_identifiers t patterns)
  | MarkdownEvent.inline_code t ↦ extend found (find_identifiers t patterns)
  | MarkdownEvent.link t ↦ extend found (find_identifiers t patterns)
  | MarkdownEvent.other ↦ found
])

unfoldable pub markdown_identifiers : Formats → Text → IdPatterns → Set Text
unfolding event_identifiers
markdown_identifiers formats source patterns =
    event_identifiers patterns (formats.markdown source) []

unfoldable pub is_id_char : ℕ → Bool
unfolding is_ascii_alphanumeric
is_id_char c = is_ascii_alphanumeric c || any (λ m. c == m) (codes "#-_.:")

unfoldable pub validate_id : Text → Done Text
unfolding is_id_char
validate_id id = do
  fail_if (is_empty id || ltb 128 (len id))
      (codes "identifier must contain between 1 and 128 bytes")
  fail_if (not (all is_id_char id)) (codes "identifier contains unsupported characters")
