-- ===== src/Github/Client/Scope.antt =====
-- crates/rationale-github/src/client.rs: what `validate_next` asks of a link.
use rationale.Prelude.{ℕ, Bool, true, false, ◌&&◌, Option, none, some, ◌++◌, ◌≡◌, refl, ap, arith}
use rationale.Order.{list_ord, nat_ord, list_cmp-equal}
use rationale.Text.{Text, is_empty}
use rationale.Text.Prefix.{starts_with_sound}
use rationale.Github.Client.{Web}
use rationale.Github.Client.Fetch.{same_text, same_port, is_none, in_scope}

and_true : (a b : Bool) → (a && b) ≡ true → (a ≡ true) × (b ≡ true)
and_true true b h = (refl, h)
and_true false b h = absurd (ground arith)

same_text_sound : (a b : Option Text) → same_text a b ≡ true → a ≡ b
same_text_sound none none h = refl
same_text_sound none (some b) h = absurd (ground arith)
same_text_sound (some a) none h = absurd (ground arith)
same_text_sound (some a) (some b) h = ap some (list_cmp-equal a b (ground arith))

same_port_sound : (a b : Option ℕ) → same_port a b ≡ true → a ≡ b
same_port_sound none none h = refl
same_port_sound none (some b) h = absurd (ground arith)
same_port_sound (some a) none h = absurd (ground arith)
same_port_sound (some a) (some b) h = ground arith

is_none_sound : (a : Option Text) → is_none a ≡ true → a ≡ none
is_none_sound none h = refl
is_none_sound (some a) h = absurd (ground arith)

module _ (web : Web) (api_base : web.Url) where
  -- The origin of the scope, no credentials, and a path that begins with the scope's.
  pub record IsBelow (scope url : web.Url) : Type 0 where
    pub same_scheme : web.scheme url ≡ web.scheme scope
    pub same_host : web.host_str url ≡ web.host_str scope
    pub port_equal : web.port_or_known_default url ≡ web.port_or_known_default scope
    pub no_username : is_empty (web.username url) ≡ true
    pub no_password : web.password url ≡ none
    pub rest : Text
    pub below : web.url_path url ≡ web.url_path scope ++ rest

  pub in_scope-IsBelow :
      (scope url : web.Url) → in_scope web api_base scope url ≡ true → IsBelow scope url
  unfolding in_scope
  in_scope-IsBelow scope url h =
      let (a, rest1) = and_true _ _ h in
      let (b, rest2) = and_true _ _ rest1 in
      let (c, rest3) = and_true _ _ rest2 in
      let (d, rest4) = and_true _ _ rest3 in
      let (e, f) = and_true _ _ rest4 in
      let (r, below) = starts_with_sound (web.url_path scope) (web.url_path url) f in
      record {
        same_scheme = list_cmp-equal (web.scheme url) (web.scheme scope) (ground arith);
        same_host = same_text_sound (web.host_str url) (web.host_str scope) b;
        port_equal =
            same_port_sound (web.port_or_known_default url) (web.port_or_known_default scope) c;
        no_username = d;
        no_password = is_none_sound (web.password url) e;
        rest = r;
        below = below;
      }
