-- ===== src/Github/Remote.antt =====
-- crates/rationale-github/src/remote.rs: the owner and the name of a `github.com` remote.
pub mod Canonical
use rationale.Prelude.{
  ℕ, Bool, true, false, not, ◌&&◌, ◌||◌, Option, none, some, List, [], ◌∷◌, ◌++◌, any, all, ◌==◌,
  if◌then◌else◌,
}
use rationale.Result.{Result, ok, err, ok_or, ◌>>=◌, ◌>>◌, fail_if}
use rationale.Text.{
  Text, codes, text_eq, is_empty, is_ascii_alphanumeric, to_ascii_lowercase, strip_prefix,
  strip_suffix, trim, trim_end_matches,
}
use rationale.Text.Split.{split}
use rationale.Github.{GithubError, invalid_remote}

pub record GithubRepository : Type 0 where
  pub owner : Text
  pub name : Text

unfoldable pub is_component_char : ℕ → Bool
unfolding is_ascii_alphanumeric
is_component_char c = is_ascii_alphanumeric c || c == b'-' || c == b'_' || c == b'.'

unfoldable pub valid_component : Text → Bool
unfolding is_component_char
valid_component value =
    not (is_empty value)
    && not (text_eq value (codes "."))
    && not (text_eq value (codes ".."))
    && all is_component_char value

abbrev pub invalid : {A : Type 0} → Text → Result A GithubError
invalid detail = err (invalid_remote detail)

abbrev pub remote_prefixes : List Text
remote_prefixes =
    codes "git@github.com:"
    ∷ codes "ssh://git@github.com/"
    ∷ codes "https://github.com/"
    ∷ codes "http://github.com/"
    ∷ codes "git://github.com/"
    ∷ []

-- The rest behind the first prefix that fits.
unfoldable pub strip_first : List Text → Text → Option Text
unfolding strip_prefix
strip_first [] remote = none
strip_first (prefix ∷ rest) remote = elim (strip_prefix prefix remote) [
  | some path ↦ some path
  | none ↦ strip_first rest remote
]

abbrev pub without_git : Text → Text
without_git path = elim (strip_suffix (codes ".git") path) [ some rest ↦ rest | none ↦ path ]

-- The owner and the name, of the segments of the path.
unfoldable pub of_segments : List Text → Result GithubRepository GithubError
unfolding valid_component to_ascii_lowercase
of_segments (owner ∷ name ∷ []) =
    if not (valid_component owner) || not (valid_component name)
    then invalid (codes "remote must identify exactly one owner and repository")
    else ok (record { owner = to_ascii_lowercase owner; name = to_ascii_lowercase name })
of_segments _ = invalid (codes "remote must identify exactly one owner and repository")

-- `GitHubRepository::from_remote`
unfoldable pub from_remote : Text → Result GithubRepository GithubError
unfolding strip_first of_segments trim trim_end_matches split
from_remote text = do
  let remote = trim_end_matches (λ c. c == b'/') (trim text)
  path ←
      ok_or (strip_first remote_prefixes remote)
        (invalid_remote (codes "only explicit github.com remotes are supported"))
  fail_if (any (λ c. c == b'?' || c == b'#' || c == b'@') path)
      (invalid_remote (codes "remote contains unsupported URL components"))
  of_segments (split (λ c. c == b'/') (without_git path))

-- `GitHubRepository::slug`
unfoldable pub slug : GithubRepository → Text
slug repository = repository.owner ++ b'/' ∷ repository.name
