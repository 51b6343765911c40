-- ===== src/Git/Target/Tests.antt =====
-- crates/rationale-git/src/target.rs at concrete inputs.
use rationale.Prelude.{◌≤◌, ◌≡◌, refl, some, arith}
use rationale.Result.{ok, err}
use rationale.Text.{Text, codes, len}
use rationale.Git.Target.{
  TargetSpec, commit, lines, inverted, too_many_lines, max_target_bytes, from_str,
}
use rationale.Git.Target.Bounds.{IsTarget, from_str-IsTarget}
use rationale.Git.Target.RoundTrip.{spell, from_str-spell}

abbrev one_line : TargetSpec
one_line = lines (codes "src/lib.rs") 3 7 (some (codes "HEAD"))

from_str_inverted : from_str (codes "a.rs:7-3") ≡ err inverted
unfolding from_str rationale.Text.strip_prefix rationale.Git.Target.parse_lines
    rationale.Text.Split.rsplit_once rationale.Git.Target.parse_rest
    rationale.Git.Target.parse_revision rationale.Text.Split.split_once
    rationale.Git.Target.parse_range rationale.Git.Target.parse_line
    rationale.Text.Decimal.parse_usize
from_str_inverted = refl

from_str-IsTarget_example :
    (len (codes "src/lib.rs:3-7@HEAD") ≤ max_target_bytes) × IsTarget one_line
unfolding from_str rationale.Text.strip_prefix rationale.Git.Target.parse_lines
    rationale.Text.Split.rsplit_once rationale.Git.Target.parse_rest
    rationale.Git.Target.parse_revision rationale.Text.Split.split_once
    rationale.Git.Target.parse_range rationale.Git.Target.parse_line
    rationale.Text.Decimal.parse_usize rationale.Git.Target.too_many
    rationale.Git.Target.range_length
from_str-IsTarget_example = from_str-IsTarget (codes "src/lib.rs:3-7@HEAD") one_line refl

from_str-spell_example : from_str (spell one_line) ≡ ok one_line
unfolding rationale.Text.strip_prefix rationale.Text.Decimal.print
from_str-spell_example =
    from_str-spell one_line (ground arith) (refl, omega arith, ground arith) (omega arith)
