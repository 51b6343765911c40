-- ===== src/Github/Tests.antt =====
-- crates/rationale-github/src at concrete answers: a pull request that fixes an issue listed after it.
use rationale.Prelude.{◌≡◌, refl, none, some, List, [], ◌∷◌, map, All, In, true, false}
use rationale.Result.{ok}
use rationale.Order.{list_ord, nat_ord}
use rationale.Text.{Text, codes}
use rationale.Text.Split.{split_once}
use rationale.Github.{GithubEvidence}
use rationale.Github.Remote.{GithubRepository, from_remote, slug}
use rationale.Github.Remote.Canonical.{IsCanonical, from_remote-IsCanonical}
use rationale.Github.Normalize.{ApiItem, build_evidence}
use rationale.Github.Normalize.Closed.{build_evidence-IsInside}
use rationale.Engine.Evidence.{Library}

abbrev repository : GithubRepository
repository = record { owner = codes "acme"; name = codes "repo" }

abbrev remote : Text
remote = codes "https://github.com/Acme/Repo.git/"

accepted : from_remote remote ≡ ok repository
unfolding from_remote rationale.Text.strip_suffix
accepted = refl

from_remote-IsCanonical_example :
    IsCanonical repository × (split_once b'/' (slug repository) ≡ some (codes "acme", codes "repo"))
from_remote-IsCanonical_example = from_remote-IsCanonical remote repository accepted

abbrev library : Library
library = record { hash_hex = λ t. t; timestamp_text = λ s. none }

abbrev items : List ApiItem
items =
    record { number = 2; body = some (codes "Fixes #1."); html_url = codes "u2"; is_pull = true }
    ∷ record { number = 1; body = none; html_url = codes "u1"; is_pull = false }
    ∷ []

abbrev evidence : GithubEvidence
evidence =
    build_evidence library repository items
      ((2, record { sha = codes "f"; html_url = codes "uf" } ∷ []) ∷ [])
      (record { issues_etag = none }) (record { limit = none; remaining = none; reset_at = none })

build_evidence-IsInside_example :
    All
      (λ e.
        In e.source_id (map (λ r. r.id) evidence.records)
        × In e.target_id (map (λ r. r.id) evidence.records))
      evidence.edges
build_evidence-IsInside_example =
    build_evidence-IsInside library repository items
      ((2, record { sha = codes "f"; html_url = codes "uf" } ∷ []) ∷ [])
      (record { issues_etag = none }) (record { limit = none; remaining = none; reset_at = none })
