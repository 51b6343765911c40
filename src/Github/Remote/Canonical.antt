-- ===== src/Github/Remote/Canonical.antt =====
-- crates/rationale-github/src/remote.rs: repositories are canonical, and their slugs tell them apart.
use rationale.Prelude.{
  ℕ, true, false, not, ◌+◌, ◌||◌, ◌==◌, ◌≡◌, refl, ap₂, some, List, [], ◌∷◌, any, all, Bool-cases,
  inl, inr, if◌then◌else◌, arith,
}
use rationale.Result.{ok, ok_or, fail_if, bind-ok}
use rationale.Text.{
  Text, codes, is_empty, is_ascii_uppercase, is_ascii_lowercase, is_ascii_alphabetic,
  is_ascii_digit, is_ascii_alphanumeric, to_ascii_lowercase, trim, trim_end_matches,
}
use rationale.Text.Split.{split, split_once, Lacks, split_once-append}
use rationale.Github.{invalid_remote}
use rationale.Github.Remote.{
  GithubRepository, is_component_char, valid_component, of_segments, from_remote, slug, without_git,
  strip_first, remote_prefixes,
}

-- A component that is not empty, has allowed characters only, and no capitals.
pub record IsComponent (v : Text) : Type 0 where
  pub filled : is_empty v ≡ false
  pub allowed : all is_component_char v ≡ true
  pub lower : to_ascii_lowercase v ≡ v

abbrev lower_char : ℕ → ℕ
lower_char c = if is_ascii_uppercase c then c + 32 else c

lower_char-allowed : (c : ℕ) → is_component_char c ≡ true → is_component_char (lower_char c) ≡ true
unfolding is_component_char is_ascii_alphanumeric is_ascii_alphabetic is_ascii_uppercase
    is_ascii_lowercase is_ascii_digit
lower_char-allowed c h = ground (arith)

lower_char-twice : (c : ℕ) → lower_char (lower_char c) ≡ lower_char c
unfolding is_ascii_uppercase
lower_char-twice c = ground (arith)

lowercase-allowed :
    (v : Text)
    → all is_component_char v ≡ true
    → all is_component_char (to_ascii_lowercase v) ≡ true
unfolding to_ascii_lowercase
lowercase-allowed [] h = refl
lowercase-allowed (c ∷ v) h = ground (arith, lower_char-allowed c, lowercase-allowed v)

lowercase-twice : (v : Text) → to_ascii_lowercase (to_ascii_lowercase v) ≡ to_ascii_lowercase v
unfolding to_ascii_lowercase
lowercase-twice [] = refl
lowercase-twice (c ∷ v) = ap₂ (λ d w. d ∷ w) (lower_char-twice c) (lowercase-twice v)

lowercase-filled : (v : Text) → is_empty v ≡ false → is_empty (to_ascii_lowercase v) ≡ false
unfolding to_ascii_lowercase
lowercase-filled [] h = h
lowercase-filled (c ∷ v) h = refl

valid-IsComponent : (v : Text) → valid_component v ≡ true → IsComponent (to_ascii_lowercase v)
unfolding valid_component
valid-IsComponent v h = record {
  filled = lowercase-filled v (ground (arith));
  allowed = lowercase-allowed v (ground (arith));
  lower = lowercase-twice v;
}

pub record IsCanonical (r : GithubRepository) : Type 0 where
  pub owner_part : IsComponent r.owner
  pub name_part : IsComponent r.name

of_segments-IsCanonical :
    (ps : List Text) (r : GithubRepository) → of_segments ps ≡ ok r → IsCanonical r
unfolding of_segments
of_segments-IsCanonical [] r h = ground (arith)
of_segments-IsCanonical (a ∷ []) r h = ground (arith)
of_segments-IsCanonical (a ∷ b ∷ c ∷ ps) r h = ground (arith)
of_segments-IsCanonical (a ∷ b ∷ []) r h =
    elim (Bool-cases (not (valid_component a) || not (valid_component b))) [
      | inl bad ↦ ground (arith)
      | inr good ↦
          let same : record { owner = to_ascii_lowercase a; name = to_ascii_lowercase b } ≡ r =
            ground (arith) in
          rw (← same) record {
            owner_part = valid-IsComponent a (ground (arith));
            name_part = valid-IsComponent b (ground (arith));
          }
    ]

component-Lacks : (v : Text) → all is_component_char v ≡ true → Lacks b'/' v
unfolding is_component_char is_ascii_alphanumeric is_ascii_alphabetic is_ascii_uppercase
    is_ascii_lowercase is_ascii_digit
component-Lacks [] h = tt
component-Lacks (c ∷ v) h = (ground (arith), component-Lacks v (ground (arith)))

-- A remote that is accepted gives an owner and a name that are not empty, of allowed characters, and in
-- lower case; and the slug splits at its first slash into these two.
pub from_remote-IsCanonical :
    (remote : Text) (r : GithubRepository)
    → from_remote remote ≡ ok r
    → IsCanonical r × (split_once b'/' (slug r) ≡ some (r.owner, r.name))
unfolding from_remote slug
from_remote-IsCanonical remote r h =
    let (path, found, h) =
      bind-ok
        (ok_or (strip_first remote_prefixes (trim_end_matches (λ c. c == b'/') (trim remote)))
          (invalid_remote (codes "only explicit github.com remotes are supported")))
        _ r h in
    let (u, clean, h) =
      bind-ok
        (fail_if (any (λ c. c == b'?' || c == b'#' || c == b'@') path)
          (invalid_remote (codes "remote contains unsupported URL components")))
        _ r h in
    let canonical = of_segments-IsCanonical (split (λ c. c == b'/') (without_git path)) r h in
    (
      canonical,
      split_once-append b'/' r.owner r.name (component-Lacks r.owner canonical.owner_part.allowed),
    )
