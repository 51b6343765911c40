-- ===== src/Github.antt =====
-- crates/rationale-github/src/lib.rs: the types of a synchronization, and its rate metadata.
pub mod Remote
pub mod Normalize
pub mod Client
mod Tests
use rationale.Prelude.{ℕ, Option, none, some, List, min}
use rationale.Prelude.Int.{ℤ}
use rationale.Text.{Text}
use rationale.Model.{EvidenceNode, EvidenceEdge}

pub data GithubError : Type 0 where
  invalid_remote : Text → GithubError
  client_configuration : GithubError
  -- endpoint, category
  transport : Text → Text → GithubError
  -- endpoint, status
  http_status : Text → ℕ → GithubError
  -- resource, limit
  resource_limit : Text → ℕ → GithubError
  invalid_response : Text → GithubError
  invalid_pagination invalid_cursor : GithubError

pub record RateLimit : Type 0 where
  pub limit : Option ℕ
  pub remaining : Option ℕ
  pub reset_at : Option ℤ

pub record GithubCursor : Type 0 where
  pub issues_etag : Option Text

pub record GithubEvidence : Type 0 where
  pub records : List EvidenceNode
  pub edges : List EvidenceEdge
  pub cursor : GithubCursor
  pub rate_limit : RateLimit

pub data GithubSyncOutcome : Type 0 where
  updated : GithubEvidence → GithubSyncOutcome
  -- cursor, rate_limit
  not_modified : GithubCursor → RateLimit → GithubSyncOutcome

-- `Option::or`
abbrev pub or_else {ℓ} : {A : Type ℓ} → Option A → Option A → Option A
or_else none other = other
or_else (some a) other = some a

abbrev pub min_remaining : Option ℕ → Option ℕ → Option ℕ
min_remaining (some left) (some right) = some (min left right)
min_remaining left right = or_else left right

unfoldable pub merge_rate_limit : RateLimit → RateLimit → RateLimit
merge_rate_limit now incoming = record {
  limit = or_else incoming.limit now.limit;
  remaining = min_remaining now.remaining incoming.remaining;
  reset_at = or_else incoming.reset_at now.reset_at;
}
