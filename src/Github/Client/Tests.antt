-- ===== src/Github/Client/Tests.antt =====
-- The theorems on the client against concrete servers, and runs.
use rationale.Prelude.{ℕ, true, Option, none, some, List, [], ◌∷◌, ◌++◌, ◌≡◌, refl, length}
use rationale.Order.{list_ord, nat_ord}
use rationale.Result.{Result, ok}
use rationale.Text.{Text, codes}
use rationale.Github.Remote.{GithubRepository}
use rationale.Github.Normalize.{ApiItem}
use rationale.Github.Client.{TransportError, Response, Request, Web, next_link}
use rationale.Github.Client.Fetch.{synchronize, new_session}
use rationale.Github.Client.Within.{IsWithin, stored_etag, synchronize-IsWithin}
use rationale.Github.Client.Panics.{LastUnchanged, synchronize-panicked}
use rationale.Engine.Evidence.{Library}

-- URLs are their texts, all of one origin; a body of one byte is one pull request, any other is empty.
abbrev pull : ApiItem
pull = record { number = 7; body = none; html_url = codes "u"; is_pull = true }

abbrev items_of : List ℕ → Option (List ApiItem)
items_of (c ∷ []) = some (pull ∷ [])
items_of body = some []

abbrev texts : Web
texts = record {
  Url = Text;
  parse_url = λ t. some t;
  join = λ base t. some (base ++ t);
  scheme = λ u. codes "https";
  host_str = λ u. some (codes "api.github.com");
  port_or_known_default = λ u. some 443;
  username = λ u. [];
  password = λ u. none;
  query = λ u. none;
  fragment = λ u. none;
  url_path = λ u. u;
  with_path = λ path u. path;
  is_header_value = λ t. true;
  builds = true;
  decode_items = items_of;
  decode_commits = λ body. some [];
  decode_cursor = λ t. some (record { issues_etag = some t });
}

abbrev plain : Library
plain = record { hash_hex = λ t. t; timestamp_text = λ n. none }

abbrev repository : GithubRepository
repository = record { owner = codes "o"; name = codes "r" }

abbrev base : Text
base = codes "/"

abbrev answer : ℕ → List ℕ → Response
answer status body = record {
  status = status;
  header = λ name. none;
  chunks = body ∷ [];
  body_error = none;
}

-- The issues are one pull request; its commits are answered with this status.
abbrev server_with : ℕ → List (Request Text) → Request Text → Result Response TransportError
server_with status [] request = ok (answer 200 (1 ∷ []))
server_with status (r ∷ before) request = ok (answer status [])

link_read :
    next_link (codes "<https://a/1>; rel=\"prev\", <https://a/2>; rel=\"next\"")
    ≡ some (codes "https://a/2")
unfolding next_link
link_read = refl

two_sent :
    length (synchronize texts base (server_with 200) plain repository none new_session).1.sent ≡ 2
unfolding synchronize
two_sent = refl

synchronize-IsWithin_example :
    IsWithin texts base repository
      (stored_etag texts (some (codes "t")))
      (synchronize texts base (server_with 200) plain repository (some (codes "t")) new_session).1
synchronize-IsWithin_example =
    synchronize-IsWithin texts base (server_with 200) plain repository (some (codes "t"))

-- A server that answers 304 where no tag was sent makes the program panic.
synchronize-panicked_example :
    LastUnchanged texts base
      (server_with 304)
      (λ tag. tag ≡ none)
      (synchronize texts base (server_with 304) plain repository none new_session).1
unfolding synchronize
synchronize-panicked_example =
    synchronize-panicked texts base (server_with 304) plain repository none refl
