-- ===== src/Git/References.antt =====
-- crates/rationale-git/src/references.rs: the explicit references of a commit's message.
pub mod Extracted
mod Tests
use Prim.Native.Nat.Ordering.{lt, eq, gt}
use rationale.Prelude.{
  ℕ, Bool, true, false, not, ◌&&◌, ◌||◌, ◌==◌, Option, none, some, List, [], ◌∷◌, ◌++◌, any, all,
  compare, if◌then◌else◌,
}
use rationale.Order.{list_ord, nat_ord, list_cmp, then_with, is_eq}
use rationale.Sort.{sort_by, dedup_by}
use rationale.Text.{
  Text, codes, text_eq, is_empty, is_ascii_alphanumeric, is_ascii_digit, to_ascii_lowercase,
  to_ascii_uppercase, strip_prefix, starts_with, contains, trim_matches,
}
use rationale.Text.Split.{split_whitespace}
use rationale.Git.{ReferenceKind, ExplicitReference}

unfoldable pub digits : Text → Bool
unfolding is_ascii_digit
digits value = not (is_empty value) && all is_ascii_digit value

abbrev pub is_mark : ℕ → Bool
is_mark c = any (λ m. c == m) (codes ",.;()[]`")

abbrev reference : ReferenceKind → Text → ExplicitReference
reference kind value = record { kind = kind; value = value }

-- `value.strip_prefix(p).filter(|value| digits(value))`
unfoldable pub number_after : Text → Text → Option Text
unfolding strip_prefix digits
number_after p value = elim (strip_prefix p value) [
  | none ↦ none
  | some number ↦ if digits number then some number else none
]

-- The token before, trimmed and in lower case.
unfoldable pub is_story_word : Option Text → Bool
unfolding trim_matches to_ascii_lowercase is_ascii_alphanumeric
is_story_word none = false
is_story_word (some previous) =
    text_eq (to_ascii_lowercase (trim_matches (λ c. not (is_ascii_alphanumeric c)) previous))
      (codes "story")

unfoldable pub is_forge_url : Text → Bool
unfolding starts_with contains
is_forge_url cleaned =
    (starts_with (codes "https://") cleaned || starts_with (codes "http://") cleaned)
    && (contains (codes "/issues/") cleaned || contains (codes "/pull/") cleaned)

-- A token without a bare number: a story, a decision or a URL.
unfoldable pub named_reference : Text → Option ExplicitReference
unfolding to_ascii_uppercase number_after is_forge_url
named_reference cleaned = elim (number_after (codes "STORY-") (to_ascii_uppercase cleaned)) [
  | some number ↦ some (reference ReferenceKind.story (codes "STORY-" ++ number))
  | none ↦ elim (number_after (codes "ADR-") (to_ascii_uppercase cleaned)) [
    | some number ↦ some (reference ReferenceKind.decision (codes "ADR-" ++ number))
    | none ↦ if is_forge_url cleaned then some (reference ReferenceKind.forge_url cleaned) else none
  ]
]

-- The body of the loop.
unfoldable pub token_reference : Option Text → Text → Option ExplicitReference
unfolding trim_matches number_after is_story_word named_reference
token_reference previous token =
    let cleaned = trim_matches is_mark token in
    elim (number_after (codes "#") cleaned) [
      | some number ↦
          if is_story_word previous
          then some (reference ReferenceKind.story (codes "STORY-" ++ number))
          else some (reference ReferenceKind.issue (b'#' ∷ number))
      | none ↦ named_reference cleaned
    ]

unfoldable pub token_references : Option Text → List Text → List ExplicitReference
unfolding token_reference
token_references previous [] = []
token_references previous (token ∷ rest) = elim (token_reference previous token) [
  | none ↦ token_references (some token) rest
  | some r ↦ r ∷ token_references (some token) rest
]

-- The derived order: the kind by its place in the source, then the value.
abbrev pub kind_rank : ReferenceKind → ℕ
kind_rank ReferenceKind.issue = 0
kind_rank ReferenceKind.story = 1
kind_rank ReferenceKind.decision = 2
kind_rank ReferenceKind.forge_url = 3

abbrev pub reference_cmp : ExplicitReference → ExplicitReference → Prim.Native.Nat.Ordering
reference_cmp a b =
    then_with (compare (kind_rank a.kind) (kind_rank b.kind)) (list_cmp a.value b.value)

abbrev pub reference_le : ExplicitReference → ExplicitReference → Bool
reference_le a b = elim (reference_cmp a b) [ gt ↦ false | _ ↦ true ]

abbrev pub same_reference : ExplicitReference → ExplicitReference → Bool
same_reference a b = is_eq (reference_cmp a b)

unfoldable pub extract : Text → List ExplicitReference
unfolding split_whitespace token_references sort_by dedup_by
extract message =
    dedup_by same_reference
      (sort_by reference_le (token_references none (split_whitespace message)))
