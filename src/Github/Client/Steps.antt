-- ===== src/Github/Client/Steps.antt =====
-- crates/rationale-github/src/client.rs: what one request does.
use rationale.Prelude.{
  ◌+◌, ◌≤◌, true, false, not, ◌&&◌, ◌==◌, Option, some, List, ◌∷◌, ◌++◌, ◌≡◌, refl, ◌⊎◌, inl, inr,
  arith, leb, ltb, Bool-cases, Option-cases,
}
use rationale.Order.{list_ord, nat_ord}
use rationale.Result.{Result, ok, err, Result-cases}
use rationale.Text.{Text, codes}
use rationale.Github.{
  GithubError, http_status, resource_limit, invalid_response, invalid_pagination, RateLimit,
  transport,
}
use rationale.Github.Remote.{GithubRepository}
use rationale.Github.Client.{
  max_requests, Bytes, TransportError, Response, Request, Web, failed, fresh, unchanged,
  transport_category, response_rate_limit, bounded_body, next_of, read_page,
}
use rationale.Github.Client.Scope.{IsBelow, in_scope-IsBelow}
use rationale.Github.Client.Fetch.{
  Session, count_request, in_scope, validate_next, page, repos_path,
}

abbrev pub counted : {Url : Type 0} → Session Url → Session Url
counted s = record s { requests = s.requests + 1 }

pub count_request-cases :
    {Url : Type 0} (s : Session Url)
    → ((e : GithubError) × (count_request s ≡ (err (failed e), counted s)))
      ⊎ ((count_request s ≡ (ok tt, counted s)) × (s.requests + 1 ≤ max_requests))
unfolding count_request
count_request-cases s = elim (Bool-cases (ltb max_requests (s.requests + 1))) [
  | inl e ↦ inl (resource_limit (codes "request") max_requests, rw e refl)
  | inr e ↦ inr (rw e refl, ground arith)
]

read_page-cases :
    {T : Type 0} (decode : Bytes → Option (List T)) (endpoint : Text) (response : Response)
    → ((e : GithubError) × (read_page decode endpoint response ≡ err e))
      ⊎ (((rate : RateLimit) × (read_page decode endpoint response ≡ ok (unchanged rate))
            × ((response.status == 304) ≡ true))
          ⊎ ((items : List T) × (next : Option Text) × (tag : Option Text) × (rate : RateLimit)
              × (read_page decode endpoint response ≡ ok (fresh items next tag rate))
              × ((response.status == 304) ≡ false)))
unfolding read_page
read_page-cases decode endpoint response = elim (Bool-cases (response.status == 304)) [
  | inl e ↦ inr (inl (response_rate_limit response, rw e refl, e))
  | inr e ↦ elim (Bool-cases (not (leb 200 response.status && ltb response.status 300))) [
    | inl f ↦ inl (http_status endpoint response.status, rw (e, f) refl)
    | inr f ↦ elim (Result-cases (bounded_body response endpoint)) [
      | inr (x, g) ↦ inl (x, rw (e, f, g) refl)
      | inl (body, g) ↦ elim (Option-cases (decode body)) [
        | inl h ↦ inl (invalid_response endpoint, rw (e, f, g, h) refl)
        | inr (items, h) ↦ inr (
            inr (
              items,
              next_of (response.header (codes "link")),
              response.header (codes "etag"),
              response_rate_limit response,
              rw (e, f, g, h) refl,
              e,
            ))
      ]
    ]
  ]
]

module _ (web : Web) where
  abbrev pub request_of : web.Url → Option Text → Request web.Url
  request_of url etag = record { url = url; if_none_match = etag }

  abbrev pub sent_of : web.Url → Option Text → Session web.Url → Session web.Url
  sent_of url etag s = record s { sent = request_of url etag ∷ s.sent }

  module _ (api_base : web.Url) where
    -- An accepted next link is below the scope of the repository.
    abbrev pub IsNext : GithubRepository → web.Url → Type 0
    IsNext repository url =
        (scope : web.Url) × (web.join api_base (repos_path repository ++ codes "/") ≡ some scope)
        × IsBelow web api_base scope url

    pub validate_next-cases :
        (repository : GithubRepository) (next : Text)
        → ((e : GithubError) × (validate_next web api_base repository next ≡ err e))
          ⊎ ((url : web.Url) × (validate_next web api_base repository next ≡ ok url)
              × IsNext repository url)
    unfolding validate_next
    validate_next-cases repository next = elim (Option-cases (web.parse_url next)) [
      | inl e ↦ inl (invalid_pagination, rw (e, validate_next) refl)
      | inr (url, e) ↦
          elim (Option-cases (web.join api_base (repos_path repository ++ codes "/"))) [
            | inl f ↦ inl (invalid_pagination, rw (e, validate_next, f) refl)
            | inr (scope, f) ↦ elim (Bool-cases (in_scope web api_base scope url)) [
              | inl g ↦ inr (
                url,
                rw (e, validate_next, f, g) refl,
                (scope, f, in_scope-IsBelow web api_base scope url g),
              )
              | inr g ↦ inl (invalid_pagination, rw (e, validate_next, f, g) refl)
            ]
          ]
    ]

    module _
        (server : List (Request web.Url) → Request web.Url → Result Response TransportError) where
      pub page-cases :
          {T : Type 0} (decode : Bytes → Option (List T)) (url : web.Url) (etag : Option Text)
          (s : Session web.Url)
          → ((e : GithubError) × (page web api_base server decode url etag s
                ≡ (err (failed e), sent_of url etag s)))
            ⊎ (((rate : RateLimit) × (response : Response) × (page web api_base server decode url
                      etag s
                    ≡ (ok (unchanged rate), sent_of url etag s))
                  × (server s.sent (request_of url etag) ≡ ok response)
                  × ((response.status == 304) ≡ true))
                ⊎ ((items : List T) × (next : Option Text) × (tag : Option Text)
                    × (rate : RateLimit) × (page web api_base server decode url etag s
                        ≡ (ok (fresh items next tag rate), sent_of url etag s))))
      unfolding page
      page-cases decode url etag s = elim (Result-cases (server s.sent (request_of url etag))) [
        | inr (e, f) ↦ inl (transport (web.url_path url) (transport_category e), rw (f, page) refl)
        | inl (response, f) ↦ elim (read_page-cases decode (web.url_path url) response) [
          | inl (e, g) ↦ inl (e, rw (f, page, g) refl)
          | inr (inl (rate, g, h)) ↦ inr (inl (rate, response, rw (f, page, g) refl, f, h))
          | inr (inr (items, next, tag, rate, g, h)) ↦
              inr (inr (items, next, tag, rate, rw (f, page, g) refl))
        ]
      ]
