-- ===== src/Git/Target/Bounds.antt =====
-- What an accepted target satisfies.
use rationale.Prelude.{
  ℕ, ◌+◌, ◌≤◌, ◌<◌, ◌≡◌, ◌≢◌, false, Option, some, [], any, arith, Option-cases, inl, inr, ◌∷◌,
}
use rationale.Result.{ok, Result-cases}
use rationale.Text.{Text, codes, len, is_empty, is_whitespace, strip_prefix}
use rationale.Text.Split.{split_once, rsplit_once}
use rationale.Git.Target.{
  TargetSpec, commit, lines, max_target_bytes, max_target_lines, from_str, parse_line, parse_range,
  parse_revision, parse_rest, parse_commit, parse_lines, range_length, too_many,
}

-- A well-formed target: what `from_str` promises to its callers.
abbrev pub IsTarget : TargetSpec → Type 0
IsTarget (commit revision) = (revision ≢ []) × (any is_whitespace revision ≡ false)
IsTarget (lines path start end revision) =
    (path ≢ [])
    × (1 ≤ start)
    × (start ≤ end)
    × (end < start + max_target_lines)
    × (revision ≢ some [])

is_empty-ne : (s : Text) → is_empty s ≡ false → s ≢ []
is_empty-ne [] h = λ e. cc
is_empty-ne (c ∷ s) h = λ e. cc

parse_line-pos : (value : Text) (n : ℕ) → parse_line value ≡ ok n → 1 ≤ n
unfolding parse_line
parse_line-pos value n h = ground arith

parse_range-pos : (range : Text) (a b : ℕ) → parse_range range ≡ ok (a, b) → (1 ≤ a) × (1 ≤ b)
unfolding parse_range
parse_range-pos range a b h = elim (Option-cases (split_once b'-' range)) [
  | inl e ↦ ground (arith, parse_line-pos range a)
  | inr ((s, t), e) ↦ ground (arith, parse_line-pos s a, parse_line-pos t b)
]

range_length-small :
    (a b : ℕ) → too_many (range_length a b) ≡ false → (a ≤ b) × (b < a + max_target_lines)
unfolding range_length too_many
range_length-small a b h = ground arith

parse_revision-ne :
    (location range : Text) (revision : Option Text)
    → parse_revision location ≡ ok (range, revision)
    → revision ≢ some []
unfolding parse_revision
parse_revision-ne location range revision h = elim (Option-cases (split_once b'@' location)) [
  | inl e ↦ λ f. ground arith
  | inr ((s, t), e) ↦ λ f. ground (arith, is_empty-ne t)
]

-- The checks behind the split at the last colon, read from a success.
parse_rest-IsTarget :
    (path location : Text) (t : TargetSpec) → parse_rest path location ≡ ok t → IsTarget t
unfolding parse_rest
parse_rest-IsTarget path location t h = elim (Result-cases (parse_revision location)) [
  | inr (e, r) ↦ absurd (ground arith)
  | inl ((range, revision), r) ↦ elim (Result-cases (parse_range range)) [
    | inr (e, p) ↦ absurd (ground arith)
    | inl ((a, b), p) ↦
        let facts : IsTarget (lines path a b revision) × (t ≡ lines path a b revision) = ground (
          arith,
          is_empty-ne path,
          parse_range-pos range a b,
          range_length-small a b,
          parse_revision-ne location range revision,
        ) in
        rw facts.1 facts.0
  ]
]

parse_lines-IsTarget : (input : Text) (t : TargetSpec) → parse_lines input ≡ ok t → IsTarget t
unfolding parse_lines
parse_lines-IsTarget input t h = elim (Option-cases (rsplit_once b':' input)) [
  | inl e ↦ absurd (ground arith)
  | inr ((path, location), e) ↦ parse_rest-IsTarget path location t (ground arith)
]

commit_IsTarget : (revision : Text) (t : TargetSpec) → parse_commit revision ≡ ok t → IsTarget t
unfolding parse_commit
commit_IsTarget revision (commit r) h = ground (arith, is_empty-ne revision)
commit_IsTarget revision (lines p a b r) h = absurd (ground arith)

-- An accepted target is short, and is a non-empty revision without spaces or a non-empty path with
-- a one-based ascending range of at most 4096 lines and no empty revision.
pub from_str-IsTarget :
    (input : Text) (t : TargetSpec)
    → from_str input ≡ ok t
    → (len input ≤ max_target_bytes) × IsTarget t
unfolding from_str
from_str-IsTarget input t h = elim (Option-cases (strip_prefix (codes "commit:") input)) [
  | inl e ↦ (ground arith, parse_lines-IsTarget input t (ground arith))
  | inr (revision, e) ↦ (ground arith, commit_IsTarget revision t (ground arith))
]
