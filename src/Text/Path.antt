-- ===== src/Text/Path.antt =====
-- `std::path::Path` as Unix splits it: components, file name and extension.
use rationale.Prelude.{◌||◌, ◌==◌, Option, none, some, List, [], ◌∷◌, if◌then◌else◌}
use rationale.Text.{Text, codes, text_eq, is_empty}
use rationale.Order.{list_ord, nat_ord}
use rationale.Text.Split.{split, rsplit_once}

pub data Component : Type 0 where
  root_dir cur_dir parent_dir : Component
  normal : Text → Component

-- Empty pieces and those of one dot are skipped.
unfoldable pub piece_components : List Text → List Component
piece_components [] = []
piece_components (piece ∷ pieces) =
    let more = piece_components pieces in
    if is_empty piece || text_eq piece (codes ".")
    then more
    else if text_eq piece (codes "..")
    then parent_dir ∷ more
    else normal piece ∷ more

-- The first piece tells a rooted path, when it is empty and not the only one, and a leading dot.
unfoldable pub first_components : List Text → List Component
unfolding piece_components
first_components ([] ∷ piece ∷ pieces) = root_dir ∷ piece_components (piece ∷ pieces)
first_components (piece ∷ pieces) =
    if text_eq piece (codes ".")
    then cur_dir ∷ piece_components pieces
    else piece_components (piece ∷ pieces)
first_components [] = []

-- `Path::components`
unfoldable pub components : Text → List Component
unfolding first_components split
components path = first_components (split (λ c. c == b'/') path)

-- `Path::file_name`: the last component, if it is a name.
unfoldable pub file_name : List Component → Option Text
file_name [] = none
file_name (normal part ∷ []) = some part
file_name (component ∷ []) = none
file_name (component ∷ rest) = file_name rest

-- `Path::extension`: behind the last dot, unless that is the first character or there is none.
unfoldable pub extension : Text → Option Text
unfolding rsplit_once file_name components
extension path = elim (file_name (components path)) [
  | none ↦ none
  | some name ↦ elim (rsplit_once b'.' name) [
    | none ↦ none
    | some (stem, suffix) ↦ if is_empty stem then none else some suffix
  ]
]
