-- ===== src/Git/Target.antt =====
-- crates/rationale-git/src/target.rs: the syntax of query targets.
pub mod Bounds
pub mod RoundTrip
mod Tests
use rationale.Prelude.{
  ℕ, suc, ◌+◌, ◌-◌, ◌^◌, Bool, true, false, ◌||◌, Option, none, some, List, [], ◌∷◌, any, ltb, ◌==◌,
  if◌then◌else◌,
}
use rationale.Result.{Result, ok, err, ◌>>=◌, ◌>>◌, fail_if}
use rationale.Text.{Text, codes, len, is_empty, is_whitespace, strip_prefix}
use rationale.Text.Split.{split_once, rsplit_once}
use rationale.Text.Decimal.{parse_usize, word_limit}

-- `MAX_TARGET_BYTES`, `MAX_TARGET_LINES`
abbrev pub max_target_bytes : ℕ
max_target_bytes = 4096

abbrev pub max_target_lines : ℕ
max_target_lines = 4096

pub data TargetSpec : Type 0 where
  commit : Text → TargetSpec
  -- path, start_line, end_line, revision
  lines : Text → ℕ → ℕ → Option Text → TargetSpec

-- The `detail` of `GitEvidenceError::InvalidTarget`, one constructor for each message.
pub data InvalidTarget : Type 0 where
  too_long bad_commit no_location empty_path empty_revision : InvalidTarget
  bad_line : Text → InvalidTarget
  zero_line inverted too_many_lines : InvalidTarget

pub parse_line : Text → Result ℕ InvalidTarget
parse_line value = elim (parse_usize value) [
  | none ↦ err (bad_line value)
  | some line ↦ if line == 0 then err zero_line else ok line
]

-- The part after the path: a range, and a revision behind `@`.
pub parse_revision : Text → Result (Text × Option Text) InvalidTarget
parse_revision location = elim (split_once b'@' location) [
  | none ↦ ok (location, none)
  | some (range, revision) ↦
      if is_empty revision then err empty_revision else ok (range, some revision)
]

pub parse_range : Text → Result (ℕ × ℕ) InvalidTarget
parse_range range = elim (split_once b'-' range) [
  | some (start, end) ↦ do a ← parse_line start; b ← parse_line end; ok (a, b)
  | none ↦ do line ← parse_line range; ok (line, line)
]

-- `end.checked_sub(start).and_then(|n| n.checked_add(1))`
pub range_length : ℕ → ℕ → Option ℕ
range_length start end =
    if ltb end start
    then none
    else if ltb (end - start + 1) word_limit
    then some (end - start + 1)
    else none

pub too_many : Option ℕ → Bool
too_many none = true
too_many (some length) = ltb max_target_lines length

-- What follows the split at the last colon.
unfoldable pub parse_rest : Text → Text → Result TargetSpec InvalidTarget
parse_rest path location = do
  fail_if (is_empty path) empty_path
  (range, revision) ← parse_revision location
  (start, end) ← parse_range range
  fail_if (ltb end start) inverted
  fail_if (too_many (range_length start end)) too_many_lines
  ok (lines path start end revision)

unfoldable pub parse_lines : Text → Result TargetSpec InvalidTarget
parse_lines input = elim (rsplit_once b':' input) [
  | none ↦ err no_location
  | some (path, location) ↦ parse_rest path location
]

unfoldable pub parse_commit : Text → Result TargetSpec InvalidTarget
parse_commit revision =
    if is_empty revision || any is_whitespace revision then err bad_commit else ok (commit revision)

-- `TargetSpec::from_str`
unfoldable pub from_str : Text → Result TargetSpec InvalidTarget
from_str input = do
  fail_if (ltb max_target_bytes (len input)) too_long
  elim (strip_prefix (codes "commit:") input) [
    | some revision ↦ parse_commit revision
    | none ↦ parse_lines input
  ]
