-- ===== src/Docs/Paths.antt =====
-- crates/rationale-docs/src/lib.rs: repository-relative paths.
use rationale.Prelude.{Bool, false, ◌||◌, none, some, List, [], ◌∷◌, ◌++◌, if◌then◌else◌}
use rationale.Order.{list_ord, nat_ord}
use rationale.Result.{Result, ok, err, ◌>>=◌}
use rationale.Text.{Text, codes, text_eq, ends_with, to_ascii_lowercase, eq_ignore_ascii_case}
use rationale.Text.Path.{Component, root_dir, cur_dir, parent_dir, normal, components, extension}

-- `parts.join("/")`
unfoldable pub join_parts : List Text → Text
join_parts [] = []
join_parts (part ∷ []) = part
join_parts (part ∷ parts) = part ++ b'/' ∷ join_parts parts

abbrev pub outside : Text
outside = codes "path must remain repository-relative"

-- The loop over the components.
unfoldable pub parts_of : List Component → Result (List Text) Text
parts_of [] = ok []
parts_of (normal part ∷ rest) =
    let later = parts_of rest in
    if text_eq part (codes ".git")
    then err (codes "path enters Git internals")
    else later >>= λ parts. ok (part ∷ parts)
parts_of (cur_dir ∷ rest) = parts_of rest
parts_of (parent_dir ∷ rest) = err outside
parts_of (root_dir ∷ rest) = err outside

unfoldable pub normalize_path : Text → Result Text Text
unfolding components parts_of join_parts
normalize_path path = parts_of (components path) >>= λ parts. elim parts [
  | [] ↦ err (codes "path is empty after normalization")
  | part ∷ more ↦ ok (join_parts (part ∷ more))
]

unfoldable pub is_verification_manifest : Text → Bool
unfolding to_ascii_lowercase ends_with
is_verification_manifest path =
    let lower = to_ascii_lowercase path in
    ends_with (codes ".rationale.toml") lower
    || ends_with (codes ".rationale.yaml") lower
    || ends_with (codes ".rationale.yml") lower

-- `has_extension`
unfoldable pub has_extension : Text → Text → Bool
unfolding extension eq_ignore_ascii_case
has_extension path expected = elim (extension path) [
  | none ↦ false
  | some suffix ↦ eq_ignore_ascii_case suffix expected
]
