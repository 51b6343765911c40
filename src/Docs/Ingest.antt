-- ===== src/Docs/Ingest.antt =====
-- crates/rationale-docs/src/lib.rs: `DocumentIngestor::ingest`, a batch of documents.
pub mod Grows
pub mod Accounted
pub mod Belongs
pub mod Outcome
pub mod Distinct
pub mod Explained
pub mod Reordered
use rationale.Prelude.{
  ◌≡◌, ℕ, suc, Bool, Option, none, some, List, [], ◌∷◌, ◌++◌, ltb, leb, any, if◌then◌else◌,
}
use native.Mathlib.Decide.{ℕ_discrete}
use rationale.Order.{list_ord, nat_ord, list_cmp, is_le, is_eq, pair_cmp, pair_ord}
use rationale.Result.{Result, ok, err}
use rationale.Map.{Map, get, insert, values}
use rationale.Sort.{sort_by, dedup_by}
use rationale.Text.{Text, codes, len}
use rationale.Model.{EvidenceNode, EvidenceEdge, Conflict}
use rationale.Docs.{
  DocumentInput, IngestConfig, IngestDiagnostic, IngestResult, ParsedInput, ParseFailure, Formats,
  conflict_key, conflict_le, diagnostic_le,
}
use rationale.Docs.Paths.{normalize_path, is_verification_manifest, has_extension}
use rationale.Docs.Normalize.{parse_markdown, parse_verification}

Text-discrete : Discrete Text
Text-discrete = hlevel ℕ_discrete

-- The derived equality of records.
unfoldable pub EvidenceNode-discrete : Discrete EvidenceNode
EvidenceNode-discrete = hlevel ℕ_discrete

-- What the loop keeps.
pub record Batch : Type 0 where
  pub records : Map Text EvidenceNode
  pub edges : Map Text EvidenceEdge
  pub conflicts : List Conflict
  pub diagnostics : List IngestDiagnostic

abbrev pub empty_batch : Batch
empty_batch = record { records = []; edges = []; conflicts = []; diagnostics = [] }

-- `diagnostics.push(diagnostic(..))`
abbrev pub report : Text → Text → Text → Batch → Batch
report path code message batch = record batch {
  diagnostics =
      batch.diagnostics ++ record { source_locator = path; code = code; message = message } ∷ [];
}

unfoldable pub insert_edges : List EvidenceEdge → Map Text EvidenceEdge → Map Text EvidenceEdge
unfolding insert
insert_edges [] m = m
insert_edges (e ∷ es) m = insert_edges es (insert e.id e m)

-- The edges and conflicts of a document that is taken.
unfoldable pub add_links : ParsedInput → Batch → Batch
unfolding insert_edges
add_links parsed batch = record batch {
  edges = insert_edges parsed.edges batch.edges;
  conflicts = batch.conflicts ++ parsed.conflicts;
}

-- Where the record's identifier is known: by the test whether the records are equal.
unfoldable pub take_again :
    {old : EvidenceNode} → Text → (parsed : ParsedInput) → Batch → Dec (old ≡ parsed.node) → Batch
unfolding add_links
take_again path parsed batch (yes same) = add_links parsed batch
take_again path parsed batch (no other) =
    report path (codes "duplicate_record")
      (codes "record identifier is already defined by another document") batch

-- The end of the loop's body, for a document that is evidence.
unfoldable pub take_parsed : Text → ParsedInput → Batch → Batch
unfolding get insert add_links take_again EvidenceNode-discrete
take_parsed path parsed batch = elim (get parsed.node.id batch.records) [
  | none ↦
      add_links parsed (record batch { records = insert parsed.node.id parsed.node batch.records })
  | some existing ↦ take_again path parsed batch (EvidenceNode-discrete existing parsed.node)
]

-- By the name of the document; any other is passed over.
unfoldable pub parse_document :
    IngestConfig → Formats → Text → Text → Result (Option ParsedInput) ParseFailure
unfolding is_verification_manifest has_extension parse_markdown parse_verification
parse_document config formats path content =
    if is_verification_manifest path
    then parse_verification formats path content
    else if has_extension path (codes "md")
    then parse_markdown formats path content config.id_patterns
    else ok none

unfoldable pub take_outcome : Text → Result (Option ParsedInput) ParseFailure → Batch → Batch
unfolding take_parsed
take_outcome path (ok none) batch = batch
take_outcome path (ok (some parsed)) batch = take_parsed path parsed batch
take_outcome path (err (code, message)) batch = report path code message batch

unfoldable pub ingest_path :
    IngestConfig → Formats → DocumentInput → Result Text Text → Batch → Batch
unfolding take_outcome parse_document
ingest_path config formats input (err message) batch =
    report input.path (codes "invalid_path") message batch
ingest_path config formats input (ok path) batch =
    take_outcome path (parse_document config formats path input.content) batch

-- The body of the loop.
unfoldable pub ingest_one : IngestConfig → Formats → ℕ → DocumentInput → Batch → Batch
unfolding ingest_path normalize_path
ingest_one config formats index input batch =
    if leb config.max_documents index
    then report input.path (codes "document_limit")
        (codes "document batch exceeds the configured input limit") batch
    else if ltb config.max_file_bytes (len input.content)
    then report input.path (codes "file_too_large")
        (codes "document exceeds the configured byte limit") batch
    else ingest_path config formats input (normalize_path input.path) batch

unfoldable pub ingest_from : IngestConfig → Formats → ℕ → List DocumentInput → Batch → Batch
unfolding ingest_one
ingest_from config formats index [] batch = batch
ingest_from config formats index (input ∷ inputs) batch =
    ingest_from config formats (suc index) inputs (ingest_one config formats index input batch)

abbrev pub path_le : DocumentInput → DocumentInput → Bool
path_le left right = is_le (list_cmp left.path right.path)

abbrev pub same_conflict : Conflict → Conflict → Bool
same_conflict left right = is_eq (pair_cmp (conflict_key left) (conflict_key right))

-- The end of `ingest`.
abbrev pub finish : Batch → IngestResult
finish batch = record {
  records = values batch.records;
  edges = values batch.edges;
  conflicts = dedup_by same_conflict (sort_by conflict_le batch.conflicts);
  diagnostics = sort_by diagnostic_le batch.diagnostics;
}

unfoldable pub ingest : IngestConfig → Formats → List DocumentInput → IngestResult
unfolding ingest_from sort_by dedup_by
ingest config formats inputs =
    finish (ingest_from config formats 0 (sort_by path_le inputs) empty_batch)
