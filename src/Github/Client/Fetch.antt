-- ===== src/Github/Client/Fetch.antt =====
-- crates/rationale-github/src/client.rs: the requests of a synchronization, counted and in order.
use rationale.Prelude.{
  ℕ, zero, suc, ◌+◌, Bool, true, false, ◌&&◌, Option, none, some, List, [], ◌∷◌, ◌++◌, keep, length,
  ltb, ◌==◌, if◌then◌else◌,
}
use rationale.Order.{list_ord, nat_ord}
use rationale.Result.{Result, ok, err, ok_or}
use rationale.Map.{Map, insert}
use rationale.Text.{Text, codes, text_eq, is_empty, starts_with}
use rationale.Text.Decimal.{print}
use rationale.Github.{
  GithubError, transport, resource_limit, invalid_pagination, invalid_cursor, RateLimit,
  GithubCursor, GithubSyncOutcome, updated, not_modified, merge_rate_limit,
}
use rationale.Github.Remote.{GithubRepository, slug}
use rationale.Github.Normalize.{ApiItem, ApiCommit, build_evidence}
use rationale.Github.Client.{
  max_pages, max_records, max_requests, Bytes, TransportError, Response, Request, Web, Failure,
  failed, panicked, Page, fresh, unchanged, Collection, collected, same, transport_category,
  read_page,
}
use rationale.Engine.Evidence.{Library}

-- The counter of requests, and the requests that were sent, the last one first.
pub record Session (Url : Type 0) : Type 0 where
  pub requests : ℕ
  pub sent : List (Request Url)

-- The counter and the requests are passed along; `?` ends at the first failure.
abbrev pub M : Type 0 → Type 0 → Type 0
M Url A = Session Url → Result A Failure × Session Url

abbrev pub and_then :
    {Url A B : Type 0}
    → (A → M Url B)
    → Result A Failure × Session Url
    → Result B Failure × Session Url
and_then k (ok a, s) = k a s
and_then k (err e, s) = (err e, s)

infixl 5 ◌>>=◌ ◌>>◌
abbrev pub ◌>>=◌ : {Url A B : Type 0} → M Url A → (A → M Url B) → M Url B
◌>>=◌ m k s = and_then k (m s)

abbrev pub ◌>>◌ : {Url B : Type 0} → M Url (Unit {0}) → M Url B → M Url B
m >> k = m >>= λ _. k

abbrev pub return : {Url A : Type 0} → A → M Url A
return a s = (ok a, s)

abbrev pub fail : {Url A : Type 0} → Failure → M Url A
fail e s = (err e, s)

-- A result that needs no request.
abbrev pub lift : {Url A : Type 0} → Result A GithubError → M Url A
lift (ok a) = return a
lift (err e) = fail (failed e)

-- `*requests += 1`, and the test behind it.
unfoldable pub count_request : {Url : Type 0} → M Url (Unit {0})
count_request s =
    let counted = record s { requests = s.requests + 1 } in
    if ltb max_requests (s.requests + 1)
    then (err (failed (resource_limit (codes "request") max_requests)), counted)
    else (ok tt, counted)

abbrev pub same_text : Option Text → Option Text → Bool
same_text none none = true
same_text (some a) (some b) = text_eq a b
same_text _ _ = false

abbrev pub same_port : Option ℕ → Option ℕ → Bool
same_port none none = true
same_port (some a) (some b) = a == b
same_port _ _ = false

abbrev pub is_none : Option Text → Bool
is_none none = true
is_none (some t) = false

abbrev pub repos_path : GithubRepository → Text
repos_path repository = codes "repos/" ++ slug repository

abbrev pub issues_path : GithubRepository → Text
issues_path repository =
    repos_path repository ++ codes "/issues?state=all&sort=updated&direction=desc&per_page=100"

abbrev pub commits_path : GithubRepository → ℕ → Text
commits_path repository number =
    repos_path repository ++ codes "/pulls/" ++ print number ++ codes "/commits?per_page=100"

-- What the loop over the pages keeps.
pub record Progress (T : Type 0) : Type 0 where
  pub all_items : List T
  pub first_etag : Option Text
  pub rate_limit : RateLimit

abbrev pub no_rate : RateLimit
no_rate = record { limit = none; remaining = none; reset_at = none }

abbrev pub no_progress : {T : Type 0} → Progress T
no_progress = record { all_items = []; first_etag = none; rate_limit = no_rate }

-- A page that was answered: the tag of page 0 stays, the items and the rates are added.
abbrev pub advance :
    {T : Type 0} → Bool → List T → Option Text → RateLimit → Progress T → Progress T
advance first items tag page_rate p = record {
  all_items = p.all_items ++ items;
  first_etag = if first then tag else p.first_etag;
  rate_limit = merge_rate_limit p.rate_limit page_rate;
}

module _ (web : Web) (api_base : web.Url) where
  -- Of the same origin as the scope, without credentials, and below its path.
  unfoldable pub in_scope : web.Url → web.Url → Bool
  unfolding starts_with
  in_scope scope url =
      text_eq (web.scheme url) (web.scheme scope)
      && (same_text (web.host_str url) (web.host_str scope)
          && (same_port (web.port_or_known_default url) (web.port_or_known_default scope)
              && (is_empty (web.username url)
                  && (is_none (web.password url)
                      && starts_with (web.url_path scope) (web.url_path url)))))

  unfoldable pub validate_next : GithubRepository → Text → Result web.Url GithubError
  unfolding in_scope slug
  validate_next repository next = elim (web.parse_url next) [
    | none ↦ err invalid_pagination
    | some url ↦ elim (web.join api_base (repos_path repository ++ codes "/")) [
      | none ↦ err invalid_pagination
      | some scope ↦ if in_scope scope url then ok url else err invalid_pagination
    ]
  ]

  module _
      (server : List (Request web.Url) → Request web.Url → Result Response TransportError) where
    -- `page`
    unfoldable pub page :
        {T : Type 0} → (Bytes → Option (List T)) → web.Url → Option Text → M web.Url (Page T)
    unfolding transport_category read_page
    page decode url etag s =
        let request : Request web.Url = record { url = url; if_none_match = etag } in
        let sent : Session web.Url = record s { sent = request ∷ s.sent } in
        elim (server s.sent request) [
          | err e ↦ (err (failed (transport (web.url_path url) (transport_category e))), sent)
          | ok response ↦ lift (read_page decode (web.url_path url) response) sent
        ]

    module _ {T : Type 0} (decode : Bytes → Option (List T)) (repository : GithubRepository) where
      -- The collection is complete, or goes on at the next link.
      unfoldable pub follow_link :
          (web.Url → Progress T → M web.Url (Collection T))
          → Option Text
          → Progress T
          → M web.Url (Collection T)
      unfolding validate_next
      follow_link again none p = return (collected p.all_items p.first_etag p.rate_limit)
      follow_link again (some link) p = lift (validate_next repository link) >>= λ url. again url p

      -- The end of the loop's body, on the progress with this page in it; `again` is the next round.
      unfoldable pub follow :
          (web.Url → Progress T → M web.Url (Collection T))
          → Option Text
          → Progress T
          → M web.Url (Collection T)
      unfolding follow_link
      follow again next p =
          if ltb max_records (length p.all_items)
          then fail (failed (resource_limit (codes "record") max_records))
          else follow_link again next p

      unfoldable pub after_page :
          (web.Url → Progress T → M web.Url (Collection T))
          → Bool
          → Progress T
          → Page T
          → M web.Url (Collection T)
      unfolding follow
      after_page again first p (unchanged rate) = return (same rate)
      after_page again first p (fresh items next tag page_rate) =
          follow again next (advance first items tag page_rate p)

      -- The loop with `left` pages to go; `first` says whether this is page 0.
      unfoldable pub pages :
          Option Text → ℕ → Bool → web.Url → Progress T → M web.Url (Collection T)
      unfolding count_request page after_page
      pages etag zero first url p = fail (failed (resource_limit (codes "page") max_pages))
      pages etag (suc left) first url p = do
        count_request
        result ← page decode url (if first then etag else none)
        after_page (pages etag left false) first p result

      -- `collection`
      unfoldable pub collection : Text → Option Text → M web.Url (Collection T)
      unfolding pages
      collection initial_path etag =
          lift (ok_or (web.join api_base initial_path) invalid_pagination) >>= λ url.
          pages etag max_pages true url no_progress

    -- The end of the loop's body: `again` is the rest of the loop.
    unfoldable pub after_pull :
        (Map ℕ (List ApiCommit) → RateLimit → M web.Url (Map ℕ (List ApiCommit) × RateLimit))
        → ℕ
        → Map ℕ (List ApiCommit)
        → RateLimit
        → Collection ApiCommit
        → M web.Url (Map ℕ (List ApiCommit) × RateLimit)
    unfolding merge_rate_limit insert
    after_pull again number commits rate (same commit_rate) = fail panicked
    after_pull again number commits rate (collected pulls tag commit_rate) =
        again (insert number pulls commits) (merge_rate_limit rate commit_rate)

    -- The loop over the pull requests, with the rates merged.
    unfoldable pub pull_commits :
        GithubRepository
        → List ApiItem
        → Map ℕ (List ApiCommit)
        → RateLimit
        → M web.Url (Map ℕ (List ApiCommit) × RateLimit)
    unfolding collection after_pull print
    pull_commits repository [] commits rate = return (commits, rate)
    pull_commits repository (item ∷ items) commits rate = do
      found ← collection web.decode_commits repository (commits_path repository item.number) none
      after_pull (pull_commits repository items) item.number commits rate found

    -- Behind the collection of the issues.
    unfoldable pub after_issues :
        Library → GithubRepository → GithubCursor → Collection ApiItem → M web.Url GithubSyncOutcome
    unfolding pull_commits build_evidence
    after_issues lib repository cursor (same rate) = return (not_modified cursor rate)
    after_issues lib repository cursor (collected items etag rate) = do
      found ← pull_commits repository (keep (λ i. i.is_pull) items) [] rate
      return (
          updated
            (build_evidence lib repository items found.0 (record { issues_etag = etag }) found.1))

    -- `GitHubCursor::decode`
    unfoldable pub decode_cursor : Option Text → Result GithubCursor GithubError
    decode_cursor none = ok (record { issues_etag = none })
    decode_cursor (some text) = ok_or (web.decode_cursor text) invalid_cursor

    -- `synchronize`
    unfoldable pub synchronize :
        Library → GithubRepository → Option Text → M web.Url GithubSyncOutcome
    unfolding decode_cursor collection after_issues
    synchronize lib repository stored = do
      cursor ← lift (decode_cursor stored)
      issues ← collection web.decode_items repository (issues_path repository) cursor.issues_etag
      after_issues lib repository cursor issues

abbrev pub new_session : {Url : Type 0} → Session Url
new_session = record { requests = 0; sent = [] }
