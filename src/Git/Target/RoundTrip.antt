-- ===== src/Git/Target/RoundTrip.antt =====
-- The documented syntax `path:start-end[@revision]` and `commit:revision`, read back.
use rationale.Prelude.{
  ℕ, ◌≤◌, ◌<◌, ◌≡◌, refl, Option, none, some, [], ◌∷◌, ◌++◌, All-append, arith, false, ◌==◌, ◌≢◌,
  ◌+◌,
}
use rationale.Result.{ok}
use rationale.Text.{is_ascii_digit, Text, codes, len, strip_prefix}
use rationale.Text.Split.{Lacks, split_once-append, split_once-none, rsplit_once-append}
use rationale.Text.Decimal.{
  print, parse_usize-print, print-AllDigits, Lacks-of_AllDigits, word_limit,
}
use rationale.Git.Target.{
  TargetSpec, commit, lines, max_target_bytes, max_target_lines, from_str, parse_line, parse_range,
  parse_revision, parse_rest, parse_commit, parse_lines, range_length, too_many,
}
use rationale.Git.Target.Bounds.{IsTarget}

abbrev spell_range : ℕ → ℕ → Text
spell_range start end = print start ++ b'-' ∷ print end

abbrev spell_location : ℕ → ℕ → Option Text → Text
spell_location start end none = spell_range start end
spell_location start end (some revision) = spell_range start end ++ b'@' ∷ revision

-- The text of a target in the documented syntax.
abbrev pub spell : TargetSpec → Text
spell (commit revision) = codes "commit:" ++ revision
spell (lines path start end revision) = path ++ b':' ∷ spell_location start end revision

abbrev NoColon : Option Text → Type 0
NoColon none = Unit
NoColon (some revision) = Lacks b':' revision

-- What the syntax cannot say: a path that begins like a commit, a colon in a revision, and a line
-- past the machine word.
abbrev IsSpellable : TargetSpec → Type 0
IsSpellable (commit revision) = Unit
IsSpellable (lines path start end revision) =
    (strip_prefix (codes "commit:") (spell (lines path start end revision)) ≡ none)
    × (end < word_limit)
    × NoColon revision

parse_line-print : (n : ℕ) → 1 ≤ n → n < word_limit → parse_line (print n) ≡ ok n
unfolding parse_line
parse_line-print n h k = rw (parse_usize-print n k, parse_line) (ground arith)

Lacks-print : (c n : ℕ) → is_ascii_digit c ≡ false → Lacks c (print n)
Lacks-print c n h = Lacks-of_AllDigits c (print n) h (print-AllDigits n)

Lacks-spell_range :
    (c a b : ℕ) → is_ascii_digit c ≡ false → (b'-' == c) ≡ false → Lacks c (spell_range a b)
Lacks-spell_range c a b h e =
    All-append _ (print a) (b'-' ∷ print b) (Lacks-print c a h) (e, Lacks-print c b h)

parse_range-spell :
    (a b : ℕ) → 1 ≤ a → a ≤ b → b < word_limit → parse_range (spell_range a b) ≡ ok (a, b)
unfolding parse_range is_ascii_digit
parse_range-spell a b h k l = ground (
  arith,
  split_once-append b'-' (print a) (print b) (Lacks-print b'-' a refl),
  parse_line-print a h,
  parse_line-print b,
)

parse_revision-spell :
    (a b : ℕ) (revision : Option Text)
    → revision ≢ some []
    → parse_revision (spell_location a b revision) ≡ ok (spell_range a b, revision)
unfolding parse_revision is_ascii_digit
parse_revision-spell a b none h =
    rw
      (
        split_once-none b'@' (spell_range a b) (Lacks-spell_range b'@' a b refl refl),
        parse_revision,
      )
      refl
parse_revision-spell a b (some []) h = absurd (h refl)
parse_revision-spell a b (some (c ∷ s)) h =
    rw
      (
        split_once-append b'@' (spell_range a b) (c ∷ s) (Lacks-spell_range b'@' a b refl refl),
        parse_revision,
      )
      refl

small-range_length :
    (a b : ℕ) → a ≤ b → b < a + max_target_lines → too_many (range_length a b) ≡ false
unfolding range_length too_many
small-range_length a b h k = ground arith

parse_rest-spell :
    (path : Text) (a b : ℕ) (revision : Option Text)
    → IsTarget (lines path a b revision)
    → b < word_limit
    → parse_rest path (spell_location a b revision) ≡ ok (lines path a b revision)
unfolding parse_rest
parse_rest-spell [] a b revision t l = absurd (t.0 refl)
parse_rest-spell (c ∷ path) a b revision (nonempty, h, k, m, ne) l = ground (
  arith,
  parse_revision-spell a b revision ne,
  parse_range-spell a b h k l,
  small-range_length a b k m,
)

commit-spell :
    (revision : Text) → IsTarget (commit revision) → parse_commit revision ≡ ok (commit revision)
unfolding parse_commit
commit-spell [] t = absurd (t.0 refl)
commit-spell (c ∷ s) t = ground arith

Lacks-spell_location :
    (a b : ℕ) (revision : Option Text) → NoColon revision → Lacks b':' (spell_location a b revision)
unfolding is_ascii_digit
Lacks-spell_location a b none h = Lacks-spell_range b':' a b refl refl
Lacks-spell_location a b (some r) h =
    All-append _ (spell_range a b) (b'@' ∷ r) (Lacks-spell_range b':' a b refl refl) (refl, h)

parse_lines-spell :
    (path : Text) (a b : ℕ) (revision : Option Text)
    → IsTarget (lines path a b revision)
    → b < word_limit
    → NoColon revision
    → parse_lines (spell (lines path a b revision)) ≡ ok (lines path a b revision)
unfolding parse_lines
parse_lines-spell path a b revision t l c =
    let location = spell_location a b revision in
    rw (rsplit_once-append b':' path location (Lacks-spell_location a b revision c), parse_lines)
      (parse_rest-spell path a b revision t l)

-- A target written in the documented syntax, within the length limit and with nothing that the
-- syntax cannot say, is read back as it was.
pub from_str-spell :
    (t : TargetSpec)
    → IsTarget t
    → IsSpellable t
    → len (spell t) ≤ max_target_bytes
    → from_str (spell t) ≡ ok t
unfolding from_str strip_prefix
from_str-spell (commit revision) t s h = ground (arith, commit-spell revision t)
from_str-spell (lines path a b revision) t (plain, l, no_colon) h =
    ground (arith, parse_lines-spell path a b revision t l no_colon)
