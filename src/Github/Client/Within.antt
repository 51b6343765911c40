-- ===== src/Github/Client/Within.antt =====
-- crates/rationale-github/src/client.rs: the requests of a synchronization stay within the limits and
-- within the repository.
use rationale.Prelude.{
  ℕ, zero, suc, ◌+◌, ◌≤◌, Bool, true, false, Option, none, some, List, [], ◌∷◌, ◌≡◌, refl, ◌⊎◌, inl,
  inr, All, length, keep, ltb, arith, Bool-cases, Option-cases, if◌then◌else◌,
}
use rationale.Order.{nat_ord}
use rationale.Result.{Result, ok, err}
use rationale.Map.{Map, insert}
use rationale.Text.{Text}
use rationale.Github.{GithubError, RateLimit, GithubCursor, invalid_cursor, merge_rate_limit}
use rationale.Github.Remote.{GithubRepository}
use rationale.Github.Normalize.{ApiItem, ApiCommit}
use rationale.Github.Client.{
  max_pages, max_records, max_requests, Bytes, TransportError, Response, Request, Web, Failure,
  Collection, collected, same,
}
use rationale.Github.Client.Fetch.{
  Session, M, Progress, advance, no_progress, follow_link, follow, after_page, pages, collection,
  and_then, after_pull, pull_commits, after_issues, decode_cursor, synchronize, issues_path,
  commits_path, new_session,
}
use rationale.Github.Client.Steps.{
  counted, count_request-cases, sent_of, page-cases, IsNext, validate_next-cases,
}
use rationale.Engine.Evidence.{Library}

module _ (web : Web) (api_base : web.Url) (repository : GithubRepository) (etag : Option Text) where
  -- A URL that a collection starts from.
  abbrev pub IsInitial : Text → web.Url → Type 0
  IsInitial path url = web.join api_base path ≡ some url

  -- The issues of the repository, the commits of one of its pull requests, or a link in its scope.
  abbrev pub IsInside : web.Url → Type 0
  IsInside url =
      IsInitial (issues_path repository) url
      ⊎ (((n : ℕ) × IsInitial (commits_path repository n) url) ⊎ IsNext web api_base repository url)

  -- Only the first page of the issues is asked for by the tag of the cursor.
  abbrev pub IsTagged : web.Url → Option Text → Type 0
  IsTagged url tag = (tag ≡ none) ⊎ (IsInitial (issues_path repository) url × (tag ≡ etag))

  abbrev pub IsAllowed : Request web.Url → Type 0
  IsAllowed request = IsInside request.url × IsTagged request.url request.if_none_match

  pub record IsWithin (s : Session web.Url) : Type 0 where
    pub counts : length s.sent ≤ s.requests
    pub bounded : length s.sent ≤ max_requests
    pub allowed : All IsAllowed s.sent

  counted-IsWithin : (s : Session web.Url) → IsWithin s → IsWithin (counted s)
  counted-IsWithin s w = record {
    counts = omega (arith, w.counts);
    bounded = w.bounded;
    allowed = w.allowed;
  }

  module _
      (server : List (Request web.Url) → Request web.Url → Result Response TransportError) where
    sent_of-IsWithin :
        (url : web.Url) (tag : Option Text) (s : Session web.Url)
        → s.requests + 1 ≤ max_requests
        → IsInside url
        → IsTagged url tag
        → IsWithin s
        → IsWithin (sent_of web url tag (counted s))
    sent_of-IsWithin url tag s h i t w = record {
      counts = omega (arith, w.counts);
      bounded = omega (arith, w.counts, h);
      allowed = ((i, t), w.allowed);
    }

    module _ {T : Type 0} (decode : Bytes → Option (List T)) where
      follow_link-IsWithin :
          (again : web.Url → Progress T → M web.Url (Collection T))
          → ((url : web.Url) (p : Progress T) (s : Session web.Url)
              → IsInside url
              → IsWithin s
              → IsWithin (again url p s).1)
          → (next : Option Text) (p : Progress T) (s : Session web.Url) → IsWithin s
          → IsWithin (follow_link web api_base server decode repository again next p s).1
      unfolding follow_link
      follow_link-IsWithin again h none p s w = w
      follow_link-IsWithin again h (some link) p s w =
          elim (validate_next-cases web api_base repository link) [
            | inl (e, f) ↦ rw (f, follow_link) w
            | inr (url, f, i) ↦ rw (f, follow_link) (h url p s (inr (inr i)) w)
          ]

      follow-IsWithin :
          (again : web.Url → Progress T → M web.Url (Collection T))
          → ((url : web.Url) (p : Progress T) (s : Session web.Url)
              → IsInside url
              → IsWithin s
              → IsWithin (again url p s).1)
          → (next : Option Text) (p : Progress T) (s : Session web.Url) → IsWithin s
          → IsWithin (follow web api_base server decode repository again next p s).1
      unfolding follow
      follow-IsWithin again h next p s w =
          elim (Bool-cases (ltb max_records (length p.all_items))) [
            | inl e ↦ rw (e, follow) w
            | inr e ↦ rw (e, follow) (follow_link-IsWithin again h next p s w)
          ]

      pages-IsWithin :
          (tag : Option Text) (left : ℕ) (first : Bool) (url : web.Url) (p : Progress T)
          (s : Session web.Url)
          → IsInside url
          → IsTagged url (if first then tag else none)
          → IsWithin s
          → IsWithin (pages web api_base server decode repository tag left first url p s).1
      unfolding pages after_page
      pages-IsWithin tag zero first url p s i t w = w
      pages-IsWithin tag (suc left) first url p s i t w = elim (count_request-cases s) [
        | inl (e, f) ↦ rw (f, pages) (counted-IsWithin s w)
        | inr (f, h) ↦
            let asked = if first then tag else none in
            let w' = sent_of-IsWithin url asked s h i t w in
            elim (page-cases web api_base server decode url asked (counted s)) [
              | inl (e, g) ↦ rw (f, pages, g) w'
              | inr (inl (rate, response, g, sent, not_new)) ↦ rw (f, pages, g) w'
              | inr (inr (items, next, t', rate, g)) ↦
                  rw (f, pages, g)
                    (follow-IsWithin (pages web api_base server decode repository tag left false)
                      (λ u q r i' w''. pages-IsWithin tag left false u q r i' (inl refl) w'') next
                      (advance first items t' rate p) (sent_of web url asked (counted s)) w')
            ]
      ]

      collection-IsWithin :
          (path : Text) (tag : Option Text) (s : Session web.Url)
          → ((url : web.Url) → IsInitial path url → IsInside url × IsTagged url tag)
          → IsWithin s
          → IsWithin (collection web api_base server decode repository path tag s).1
      unfolding collection
      collection-IsWithin path tag s h w = elim (Option-cases (web.join api_base path)) [
        | inl e ↦ rw (e, collection) w
        | inr (url, e) ↦
            let (i, t) = h url e in
            rw (e, collection) (pages-IsWithin tag max_pages true url no_progress s i t w)
      ]

    and_then-IsWithin :
        {A B : Type 0} (k : A → M web.Url B) (r : Result A Failure × Session web.Url)
        → IsWithin r.1
        → ((a : A) (s : Session web.Url) → r.0 ≡ ok a → IsWithin s → IsWithin (k a s).1)
        → IsWithin (and_then k r).1
    and_then-IsWithin k (ok a, s) w h = h a s refl w
    and_then-IsWithin k (err e, s) w h = w

    after_pull-IsWithin :
        (again : Map ℕ (List ApiCommit)
          → RateLimit
          → M web.Url (Map ℕ (List ApiCommit) × RateLimit))
        → ((commits : Map ℕ (List ApiCommit)) (rate : RateLimit) (s : Session web.Url)
            → IsWithin s
            → IsWithin (again commits rate s).1)
        → (number : ℕ) (commits : Map ℕ (List ApiCommit)) (rate : RateLimit)
          (found : Collection ApiCommit) (s : Session web.Url)
        → IsWithin s
        → IsWithin (after_pull web api_base server again number commits rate found s).1
    unfolding after_pull
    after_pull-IsWithin again h number commits rate (same r) s w = w
    after_pull-IsWithin again h number commits rate (collected pulls tag r) s w =
        h (insert number pulls commits) (merge_rate_limit rate r) s w

    pull_commits-IsWithin :
        (items : List ApiItem) (commits : Map ℕ (List ApiCommit)) (rate : RateLimit)
        (s : Session web.Url)
        → IsWithin s
        → IsWithin (pull_commits web api_base server repository items commits rate s).1
    unfolding pull_commits
    pull_commits-IsWithin [] commits rate s w = w
    pull_commits-IsWithin (item ∷ items) commits rate s w =
        and_then-IsWithin
          (after_pull web api_base server (pull_commits web api_base server repository items)
            item.number commits rate)
          (collection web api_base server web.decode_commits repository
            (commits_path repository item.number) none s)
          (collection-IsWithin web.decode_commits (commits_path repository item.number) none s
            (λ url e. (inr (inl (item.number, e)), inl refl)) w)
          (λ found s' e w'.
            after_pull-IsWithin (pull_commits web api_base server repository items)
              (pull_commits-IsWithin items) item.number commits rate found s' w')

    after_issues-IsWithin :
        (lib : Library) (cursor : GithubCursor) (found : Collection ApiItem) (s : Session web.Url)
        → IsWithin s
        → IsWithin (after_issues web api_base server lib repository cursor found s).1
    unfolding after_issues
    after_issues-IsWithin lib cursor (same rate) s w = w
    after_issues-IsWithin lib cursor (collected items tag rate) s w =
        and_then-IsWithin _
          (pull_commits web api_base server repository (keep (λ i. i.is_pull) items) [] rate s)
          (pull_commits-IsWithin (keep (λ i. i.is_pull) items) [] rate s w) (λ found s' e w'. w')

-- The tag of the stored cursor, if it can be read.
abbrev pub stored_etag : (web : Web) → Option Text → Option Text
stored_etag web none = none
stored_etag web (some text) = elim (web.decode_cursor text) [
  | none ↦ none
  | some cursor ↦ cursor.issues_etag
]

decode_cursor-cases :
    (web : Web) (api_base : web.Url)
    (server : List (Request web.Url) → Request web.Url → Result Response TransportError)
    (stored : Option Text)
    → ((e : GithubError) × (decode_cursor web api_base server stored ≡ err e))
      ⊎ ((cursor : GithubCursor) × (decode_cursor web api_base server stored ≡ ok cursor)
          × (cursor.issues_etag ≡ stored_etag web stored))
unfolding decode_cursor
decode_cursor-cases web api_base server none = inr (record { issues_etag = none }, refl, refl)
decode_cursor-cases web api_base server (some text) = elim (Option-cases (web.decode_cursor text)) [
  | inl e ↦ inl (invalid_cursor, rw e refl)
  | inr (cursor, e) ↦ inr (cursor, rw e refl, rw (e, stored_etag) refl)
]

new_session-IsWithin :
    (web : Web) (api_base : web.Url) (repository : GithubRepository) (etag : Option Text)
    → IsWithin web api_base repository etag new_session
new_session-IsWithin web api_base repository etag = record {
  counts = omega arith;
  bounded = omega arith;
  allowed = tt;
}

-- However the server answers, a synchronization sends at most 1000 requests, and each is for the issues of the
-- repository, for the commits of one of its pull requests, or for a link that has the origin of the API, no
-- credentials and a path below the repository's. A tag is sent only with the first page of the issues, and
-- is the stored one.
pub synchronize-IsWithin :
    (web : Web) (api_base : web.Url)
    (server : List (Request web.Url) → Request web.Url → Result Response TransportError)
    (lib : Library) (repository : GithubRepository) (stored : Option Text)
    → IsWithin web api_base repository
        (stored_etag web stored)
        (synchronize web api_base server lib repository stored new_session).1
unfolding synchronize
synchronize-IsWithin web api_base server lib repository stored =
    let start = new_session-IsWithin web api_base repository (stored_etag web stored) in
    elim (decode_cursor-cases web api_base server stored) [
      | inl (e, f) ↦ rw (f, synchronize) start
      | inr (cursor, f, g) ↦
          rw (f, synchronize)
            (and_then-IsWithin web api_base repository (stored_etag web stored) server
              (after_issues web api_base server lib repository cursor)
              (collection web api_base server web.decode_items repository (issues_path repository)
                cursor.issues_etag new_session)
              (collection-IsWithin web api_base repository (stored_etag web stored) server
                web.decode_items (issues_path repository) cursor.issues_etag new_session
                (λ url e. (inl e, inr (e, g))) start)
              (λ found s' e w'.
                after_issues-IsWithin web api_base repository (stored_etag web stored) server lib
                  cursor found s' w'))
    ]
