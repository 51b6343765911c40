-- ===== src/Github/Client/Panics.antt =====
-- crates/rationale-github/src/client.rs: when a synchronization panics.
use rationale.Prelude.{
  ℕ, zero, suc, Bool, true, false, ◌==◌, Option, none, some, List, [], ◌∷◌, ◌≡◌, refl, inl, inr,
  length, keep, ltb, arith, Bool-cases, Option-cases, if◌then◌else◌,
}
use rationale.Order.{nat_ord}
use rationale.Result.{Result, ok, err, Result-cases}
use rationale.Map.{Map, insert}
use rationale.Text.{Text}
use rationale.Github.{RateLimit, GithubCursor, merge_rate_limit}
use rationale.Github.Remote.{GithubRepository}
use rationale.Github.Normalize.{ApiItem, ApiCommit}
use rationale.Github.Client.{
  max_pages, max_records, Bytes, TransportError, Response, Request, Web, Failure, failed, panicked,
  Collection, collected, same,
}
use rationale.Github.Client.Fetch.{
  Session, M, Progress, advance, no_progress, return, follow_link, follow, after_page, pages,
  collection, and_then, after_pull, pull_commits, after_issues, decode_cursor, synchronize,
  issues_path, commits_path, new_session,
}
use rationale.Github.Client.Steps.{
  counted, count_request-cases, sent_of, request_of, page-cases, validate_next-cases,
}
use rationale.Engine.Evidence.{Library}

module _ (web : Web) (api_base : web.Url)
    (server : List (Request web.Url) → Request web.Url → Result Response TransportError) where
  -- The last request, sent with such a tag, was answered with status 304.
  pub record LastUnchanged (P : Option Text → Type 0) (s : Session web.Url) : Type 0 where
    pub request : Request web.Url
    pub before : List (Request web.Url)
    pub response : Response
    pub is_last : s.sent ≡ request ∷ before
    pub tag : P request.if_none_match
    pub answer : server before request ≡ ok response
    pub status : (response.status == 304) ≡ true

  -- A collection does not panic, and is not modified only by such an answer.
  abbrev Settles :
      {T : Type 0}
      → (Option Text → Type 0)
      → Result (Collection T) Failure
      → Session web.Url
      → Type 0
  Settles P (err (failed e)) s = Unit
  Settles P (err panicked) s = ⊥
  Settles P (ok (same rate)) s = LastUnchanged P s
  Settles P (ok (collected items tag rate)) s = Unit

  abbrev SettlesIn :
      {T : Type 0}
      → (Option Text → Type 0)
      → Result (Collection T) Failure × Session web.Url
      → Type 0
  SettlesIn P r = Settles P r.0 r.1

  module _ {T : Type 0} (decode : Bytes → Option (List T)) (repository : GithubRepository)
      (P : Option Text → Type 0) (untagged : P none) where
    follow_link-Settles :
        (again : web.Url → Progress T → M web.Url (Collection T))
        → ((url : web.Url) (p : Progress T) (s : Session web.Url) → SettlesIn P (again url p s))
        → (next : Option Text) (p : Progress T) (s : Session web.Url)
        → SettlesIn P (follow_link web api_base server decode repository again next p s)
    unfolding follow_link
    follow_link-Settles again h none p s = tt
    follow_link-Settles again h (some link) p s =
        elim (validate_next-cases web api_base repository link) [
          | inl (e, f) ↦ rw (f, follow_link) tt
          | inr (url, f, i) ↦ rw (f, follow_link) (h url p s)
        ]

    follow-Settles :
        (again : web.Url → Progress T → M web.Url (Collection T))
        → ((url : web.Url) (p : Progress T) (s : Session web.Url) → SettlesIn P (again url p s))
        → (next : Option Text) (p : Progress T) (s : Session web.Url)
        → SettlesIn P (follow web api_base server decode repository again next p s)
    unfolding follow
    follow-Settles again h next p s = elim (Bool-cases (ltb max_records (length p.all_items))) [
      | inl e ↦ rw (e, follow) tt
      | inr e ↦ rw (e, follow) (follow_link-Settles again h next p s)
    ]

    pages-Settles :
        (tag : Option Text) (left : ℕ) (first : Bool) (url : web.Url) (p : Progress T)
        (s : Session web.Url)
        → P (if first then tag else none)
        → SettlesIn P (pages web api_base server decode repository tag left first url p s)
    unfolding pages after_page
    pages-Settles tag zero first url p s t = tt
    pages-Settles tag (suc left) first url p s t = elim (count_request-cases s) [
      | inl (e, f) ↦ rw (f, pages) tt
      | inr (f, h) ↦
          let asked = if first then tag else none in
          elim (page-cases web api_base server decode url asked (counted s)) [
            | inl (e, g) ↦ rw (f, pages, g) tt
            | inr (inl (rate, response, g, answer, status)) ↦
                rw (f, pages, g)
                  (record {
                    request = request_of web url asked;
                    before = s.sent;
                    response = response;
                    is_last = refl;
                    tag = t;
                    answer = answer;
                    status = status;
                  })
            | inr (inr (items, next, t', rate, g)) ↦
                rw (f, pages, g)
                  (follow-Settles (pages web api_base server decode repository tag left false)
                    (λ u q r. pages-Settles tag left false u q r untagged) next
                    (advance first items t' rate p) (sent_of web url asked (counted s)))
          ]
    ]

    collection-Settles :
        (path : Text) (tag : Option Text) (s : Session web.Url)
        → P tag
        → SettlesIn P (collection web api_base server decode repository path tag s)
    unfolding collection
    collection-Settles path tag s t = elim (Option-cases (web.join api_base path)) [
      | inl e ↦ rw (e, collection) tt
      | inr (url, e) ↦ rw (e, collection) (pages-Settles tag max_pages true url no_progress s t)
    ]

  -- What the answer must be, if the outcome is a panic.
  abbrev Blames : {A : Type 0} → Result A Failure → Session web.Url → Type 0
  Blames (err panicked) s = LastUnchanged (λ tag. tag ≡ none) s
  Blames _ s = Unit

  abbrev BlamesIn : {A : Type 0} → Result A Failure × Session web.Url → Type 0
  BlamesIn r = Blames r.0 r.1

  -- A collection, and what follows it.
  then-Blames :
      {T B : Type 0} (P : Option Text → Type 0) (k : Collection T → M web.Url B)
      (r : Result (Collection T) Failure × Session web.Url)
      → SettlesIn P r
      → ((c : Collection T) (s : Session web.Url) → Settles P (ok c) s → BlamesIn (k c s))
      → BlamesIn (and_then k r)
  then-Blames P k (ok c, s) h f = f c s h
  then-Blames P k (err (failed e), s) h f = tt
  then-Blames P k (err panicked, s) h f = absurd h

  after_pull-Blames :
      (again : Map ℕ (List ApiCommit) → RateLimit → M web.Url (Map ℕ (List ApiCommit) × RateLimit))
      → ((commits : Map ℕ (List ApiCommit)) (rate : RateLimit) (s : Session web.Url)
          → BlamesIn (again commits rate s))
      → (number : ℕ) (commits : Map ℕ (List ApiCommit)) (rate : RateLimit)
        (found : Collection ApiCommit) (s : Session web.Url)
      → Settles (λ tag. tag ≡ none) (ok found) s
      → BlamesIn (after_pull web api_base server again number commits rate found s)
  unfolding after_pull
  after_pull-Blames again h number commits rate (same r) s b = b
  after_pull-Blames again h number commits rate (collected pulls tag r) s b =
      h (insert number pulls commits) (merge_rate_limit rate r) s

  pull_commits-Blames :
      (repository : GithubRepository) (items : List ApiItem) (commits : Map ℕ (List ApiCommit))
      (rate : RateLimit) (s : Session web.Url)
      → BlamesIn (pull_commits web api_base server repository items commits rate s)
  unfolding pull_commits
  pull_commits-Blames repository [] commits rate s = tt
  pull_commits-Blames repository (item ∷ items) commits rate s =
      then-Blames (λ tag. tag ≡ none)
        (after_pull web api_base server (pull_commits web api_base server repository items)
          item.number commits rate)
        (collection web api_base server web.decode_commits repository
          (commits_path repository item.number) none s)
        (collection-Settles web.decode_commits repository (λ tag. tag ≡ none) refl
          (commits_path repository item.number) none s refl)
        (λ found s' h.
          after_pull-Blames (pull_commits web api_base server repository items)
            (pull_commits-Blames repository items) item.number commits rate found s' h)

  return-Blames :
      {A B : Type 0} (f : A → B) (r : Result A Failure × Session web.Url)
      → BlamesIn r
      → BlamesIn (and_then (λ a. return (f a)) r)
  return-Blames f (ok a, s) h = tt
  return-Blames f (err (failed e), s) h = tt
  return-Blames f (err panicked, s) h = h

  after_issues-Blames :
      (lib : Library) (repository : GithubRepository) (cursor : GithubCursor)
      (found : Collection ApiItem) (s : Session web.Url)
      → BlamesIn (after_issues web api_base server lib repository cursor found s)
  unfolding after_issues
  after_issues-Blames lib repository cursor (same rate) s = tt
  after_issues-Blames lib repository cursor (collected items tag rate) s =
      return-Blames _
        (pull_commits web api_base server repository (keep (λ i. i.is_pull) items) [] rate s)
        (pull_commits-Blames repository (keep (λ i. i.is_pull) items) [] rate s)

  synchronize-Blames :
      (lib : Library) (repository : GithubRepository) (stored : Option Text)
      → BlamesIn (synchronize web api_base server lib repository stored new_session)
  unfolding synchronize
  synchronize-Blames lib repository stored =
      elim (Result-cases (decode_cursor web api_base server stored)) [
        | inr (e, f) ↦ rw (f, synchronize) tt
        | inl (cursor, f) ↦
            rw (f, synchronize)
              (then-Blames (λ tag. Unit {0})
                (after_issues web api_base server lib repository cursor)
                (collection web api_base server web.decode_items repository (issues_path repository)
                  cursor.issues_etag new_session)
                (collection-Settles web.decode_items repository (λ tag. Unit {0}) tt
                  (issues_path repository) cursor.issues_etag new_session tt)
                (λ found s' h. after_issues-Blames lib repository cursor found s'))
      ]

  Blames-panicked :
      {A : Type 0} (r : Result A Failure × Session web.Url)
      → BlamesIn r
      → r.0 ≡ err panicked
      → LastUnchanged (λ tag. tag ≡ none) r.1
  Blames-panicked (ok a, s) h e = absurd (ground arith)
  Blames-panicked (err (failed x), s) h e = absurd (ground arith)
  Blames-panicked (err panicked, s) h e = h

-- A synchronization panics only when the server answers a request that was sent without a tag, its last one,
-- with status 304, which the code takes for impossible.
pub synchronize-panicked :
    (web : Web) (api_base : web.Url)
    (server : List (Request web.Url) → Request web.Url → Result Response TransportError)
    (lib : Library) (repository : GithubRepository) (stored : Option Text)
    → (synchronize web api_base server lib repository stored new_session).0 ≡ err panicked
    → LastUnchanged web api_base server
        (λ tag. tag ≡ none)
        (synchronize web api_base server lib repository stored new_session).1
synchronize-panicked web api_base server lib repository stored e =
    Blames-panicked web api_base server
      (synchronize web api_base server lib repository stored new_session)
      (synchronize-Blames web api_base server lib repository stored) e
