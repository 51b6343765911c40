-- ===== src/Git/References/Tests.antt =====
-- crates/rationale-git/src/references.rs at a concrete message.
use rationale.Prelude.{◌≡◌, refl, All, [], ◌∷◌}
use rationale.Text.{Text, codes}
use rationale.Git.{ReferenceKind}
use rationale.Git.References.{extract}
use rationale.Git.References.Extracted.{HasForm, extract-HasForm}

abbrev message : Text
message = codes "Do ADR-7 for Story: #12; fixes #4."

-- In the order of the kinds.
extracted :
    extract message
    ≡ record { kind = ReferenceKind.issue; value = codes "#4" }
      ∷ record { kind = ReferenceKind.story; value = codes "STORY-12" }
      ∷ record { kind = ReferenceKind.decision; value = codes "ADR-7" }
      ∷ []
unfolding extract
extracted = refl

extract-HasForm_example : All HasForm (extract message)
extract-HasForm_example = extract-HasForm message
