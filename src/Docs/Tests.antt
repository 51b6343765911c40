-- ===== src/Docs/Tests.antt =====
-- The theorems on documents at concrete batches, and runs of the functions.
use rationale.Prelude.{none, some, List, [], ◌∷◌, ◌++◌, ◌≡◌, refl, map, true, ◌↔◌}
use rationale.Order.{list_ord, nat_ord}
use rationale.Result.{ok, err}
use rationale.Text.{Text, codes, strip_prefix, trim}
use rationale.Model.{EvidenceNode}
use rationale.Docs.{
  DocumentInput, RationaleMetadata, VerificationManifest, MarkdownEvent, Formats, default_config,
  default_patterns, yaml,
}
use rationale.Docs.Identifiers.{find_identifiers}
use rationale.Docs.Structure.{front_matter}
use rationale.Docs.Paths.{normalize_path}
use rationale.Docs.Ingest.{ingest}
use rationale.Docs.Identifiers.Found.{Stands, find_identifiers-iff_Stands}
use rationale.Docs.Structure.Enclosed.{Encloses, front_matter-iff_Encloses}
use rationale.Docs.Ingest.Explained.{IsExplained, EveryOwned, ingest-IsExplained, ingest-EveryOwned}
use rationale.Docs.Ingest.Reordered.{ingest-reordered}
use rationale.Set.{has}
use mathlib.Core.List.{Permᴰ}

-- Metadata of one line, `rationale: ` and the identifier; a body that is one text.
abbrev metadata_of : Text → RationaleMetadata
metadata_of id = record {
  id = id;
  kind = none;
  subject_id = none;
  outcome_id = none;
  status = codes "accepted";
  documents = [];
  supersedes = [];
  verified_by = [];
  conflicts = [];
}

abbrev manifest_of : Text → VerificationManifest
manifest_of id = record {
  version = 1;
  verification = record {
    id = id;
    artifact = codes "ci";
    targets = codes "ADR-1" ∷ [];
    status = codes "current";
  };
}

abbrev pub one_line : Formats
unfolding strip_prefix trim
one_line = record {
  JsonValue = Text;
  TomlValue = Text;
  yaml_value = λ t. some t;
  json_member = λ key t. strip_prefix (key ++ codes ": ") t;
  json_metadata = λ t. some (metadata_of (trim t));
  toml_table = λ t. none;
  toml_member = λ key t. none;
  toml_metadata = λ t. none;
  toml_manifest = λ t. some (manifest_of t);
  yaml_manifest = λ t. none;
  markdown = λ t. MarkdownEvent.text t ∷ [];
  hash_hex = λ t. t;
}

abbrev document : Text → Text → DocumentInput
document path content = record { path = path; content = content }

abbrev decision_doc : DocumentInput
decision_doc =
    document (codes "docs/a.md") (codes "---\nrationale: ADR-1\n---\nSee STORY-7, not xSTORY-8.\n")

abbrev broken_doc : DocumentInput
broken_doc = document (codes "docs/b.md") (codes "---\nno end")

abbrev manifest_doc : DocumentInput
manifest_doc = document (codes "./v/c.rationale.toml") (codes "VERIFY-1")

found :
    find_identifiers (codes "See STORY-7, #12x xSTORY-8") default_patterns
    ≡ codes "#12x" ∷ codes "STORY-7" ∷ []
unfolding find_identifiers rationale.Set.add
found = refl

outside_refused :
    normalize_path (codes "a/../b") ≡ err (codes "path must remain repository-relative")
unfolding normalize_path
outside_refused = refl

dots_skipped : normalize_path (codes "./a//./b/") ≡ ok (codes "a/b")
unfolding normalize_path
dots_skipped = refl

split_up :
    front_matter (codes "---\r\na: b\n---\nrest") ≡ ok (some (yaml, (codes "a: b\n", codes "rest")))
unfolding front_matter
split_up = refl

record_ids : List EvidenceNode → List Text
record_ids = map (λ r. r.id)

ingested_ids :
    record_ids
      (ingest default_config one_line (manifest_doc ∷ broken_doc ∷ decision_doc ∷ [])).records
    ≡ codes "ADR-1" ∷ codes "VERIFY-1" ∷ []
unfolding ingest record_ids rationale.Set.add
ingested_ids = refl

find_identifiers-iff_Stands_example :
    (has (codes "STORY-7") (find_identifiers (codes "See STORY-7.") default_patterns) ≡ true)
    ↔ Stands default_patterns (codes "See STORY-7.") (codes "STORY-7")
find_identifiers-iff_Stands_example =
    find_identifiers-iff_Stands (codes "See STORY-7.") default_patterns (codes "STORY-7")

front_matter-iff_Encloses_example :
    (front_matter (codes "---\na: b\n---\nrest") ≡ ok (some (yaml, (codes "a: b\n", codes "rest"))))
    ↔ Encloses yaml (codes "---\na: b\n---\nrest") (codes "a: b\n") (codes "rest")
front_matter-iff_Encloses_example =
    front_matter-iff_Encloses yaml (codes "---\na: b\n---\nrest") (codes "a: b\n") (codes "rest")

abbrev pub three_docs : List DocumentInput
three_docs = manifest_doc ∷ broken_doc ∷ decision_doc ∷ []

ingest-IsExplained_example :
    IsExplained default_config one_line three_docs (ingest default_config one_line three_docs)
ingest-IsExplained_example = ingest-IsExplained default_config one_line three_docs

ingest-EveryOwned_example : EveryOwned (ingest default_config one_line three_docs)
ingest-EveryOwned_example = ingest-EveryOwned default_config one_line three_docs

ingest-reordered_example :
    ingest default_config one_line (manifest_doc ∷ broken_doc ∷ [])
    ≡ ingest default_config one_line (broken_doc ∷ manifest_doc ∷ [])
ingest-reordered_example =
    ingest-reordered default_config one_line ((refl, tt), (tt, tt)) (Permᴰ.swap refl refl)
