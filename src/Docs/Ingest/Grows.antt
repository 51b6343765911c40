-- ===== src/Docs/Ingest/Grows.antt =====
-- crates/rationale-docs/src/lib.rs: what one document adds to the batch, and that nothing which
-- the batch holds is lost.
use rationale.Prelude.{
  ℕ, true, Option, none, some, List, [], ◌∷◌, ◌≡◌, refl, inl, inr, All, In, In-append_left, arith,
  ltb, leb, Bool-cases, if◌then◌else◌,
}
use rationale.Order.{list_ord, nat_ord, list_cmp-same, list_cmp-equal}
use rationale.Result.{Result, ok, err}
use rationale.Map.{Map, get, insert, contains_key}
use rationale.Map.Laws.{get-insert, contains_key-insert}
use rationale.Text.{Text, codes, len}
use rationale.Model.{EvidenceNode, EvidenceEdge, Conflict}
use rationale.Docs.{
  DocumentInput, IngestConfig, IngestDiagnostic, ParsedInput, ParseFailure, Formats,
}
use rationale.Docs.Paths.{normalize_path}
use rationale.Docs.Ingest.{
  Batch, report, insert_edges, add_links, take_parsed, parse_document, take_outcome, ingest_path,
  ingest_one,
}

-- What one document alone is read as.
pub data Reading : Type 0 where
  -- path, code, message
  refused : Text → Text → Text → Reading
  passed_over : Reading
  evidence : Text → ParsedInput → Reading

abbrev pub reading_of : Text → Result (Option ParsedInput) ParseFailure → Reading
reading_of path (err (code, message)) = refused path code message
reading_of path (ok none) = passed_over
reading_of path (ok (some parsed)) = evidence path parsed

abbrev pub reading_at : IngestConfig → Formats → DocumentInput → Result Text Text → Reading
reading_at config formats input (err message) = refused input.path (codes "invalid_path") message
reading_at config formats input (ok path) =
    reading_of path (parse_document config formats path input.content)

-- The document at this place of the batch.
abbrev pub reading : IngestConfig → Formats → ℕ → DocumentInput → Reading
reading config formats index input =
    if leb config.max_documents index
    then refused input.path (codes "document_limit")
        (codes "document batch exceeds the configured input limit")
    else if ltb config.max_file_bytes (len input.content)
    then refused input.path (codes "file_too_large")
        (codes "document exceeds the configured byte limit")
    else reading_at config formats input (normalize_path input.path)

abbrev pub apply : Reading → Batch → Batch
apply (refused path code message) batch = report path code message batch
apply passed_over batch = batch
apply (evidence path parsed) batch = take_parsed path parsed batch

take_outcome-apply :
    (path : Text) (r : Result (Option ParsedInput) ParseFailure) (b : Batch)
    → take_outcome path r b ≡ apply (reading_of path r) b
unfolding take_outcome
take_outcome-apply path (err (c, m)) b = refl
take_outcome-apply path (ok none) b = refl
take_outcome-apply path (ok (some p)) b = refl

ingest_path-apply :
    (config : IngestConfig) (formats : Formats) (input : DocumentInput) (p : Result Text Text)
    (b : Batch)
    → ingest_path config formats input p b ≡ apply (reading_at config formats input p) b
unfolding ingest_path
ingest_path-apply config formats input (err m) b = refl
ingest_path-apply config formats input (ok path) b =
    take_outcome-apply path (parse_document config formats path input.content) b

pub ingest_one-apply :
    (config : IngestConfig) (formats : Formats) (index : ℕ) (input : DocumentInput) (b : Batch)
    → ingest_one config formats index input b ≡ apply (reading config formats index input) b
unfolding ingest_one
ingest_one-apply config formats index input b = elim (Bool-cases (leb config.max_documents index)) [
  | inl e ↦ rw e refl
  | inr e ↦ elim (Bool-cases (ltb config.max_file_bytes (len input.content))) [
    | inl f ↦ rw (e, f) refl
    | inr f ↦ rw (e, f) (ingest_path-apply config formats input (normalize_path input.path) b)
  ]
]

-- Nothing is lost: a record stays under its identifier, and so do edges, conflicts and diagnostics.
pub record Grows (b c : Batch) : Type 0 where
  pub records : (k : Text) (n : EvidenceNode) → get k b.records ≡ some n → get k c.records ≡ some n
  pub edges : (k : Text) → contains_key k b.edges ≡ true → contains_key k c.edges ≡ true
  pub conflicts : (k : Conflict) → In k b.conflicts → In k c.conflicts
  pub diagnostics : (d : IngestDiagnostic) → In d b.diagnostics → In d c.diagnostics

pub Grows-refl : (b : Batch) → Grows b b
Grows-refl b = record {
  records = λ k n h. h;
  edges = λ k h. h;
  conflicts = λ k h. h;
  diagnostics = λ d h. h;
}

pub Grows-trans : {a b c : Batch} → Grows a b → Grows b c → Grows a c
Grows-trans g h = record {
  records = λ k n e. h.records k n (g.records k n e);
  edges = λ k e. h.edges k (g.edges k e);
  conflicts = λ k e. h.conflicts k (g.conflicts k e);
  diagnostics = λ d e. h.diagnostics d (g.diagnostics d e);
}

pub report-Grows : (path code message : Text) (b : Batch) → Grows b (report path code message b)
report-Grows path code message b = record {
  records = λ k n h. h;
  edges = λ k h. h;
  conflicts = λ k h. h;
  diagnostics = λ d m. In-append_left d b.diagnostics _ m;
}

insert_edges-keeps :
    (es : List EvidenceEdge) (m : Map Text EvidenceEdge) (k : Text)
    → contains_key k m ≡ true
    → contains_key k (insert_edges es m) ≡ true
unfolding insert_edges
insert_edges-keeps [] m k h = h
insert_edges-keeps (e ∷ es) m k h =
    insert_edges-keeps es (insert e.id e m) k (ground (arith, contains_key-insert e.id k e m))

pub insert_edges-has :
    (es : List EvidenceEdge) (m : Map Text EvidenceEdge)
    → All (λ e. contains_key e.id (insert_edges es m) ≡ true) es
unfolding insert_edges
insert_edges-has [] m = tt
insert_edges-has (e ∷ es) m = (
  insert_edges-keeps es (insert e.id e m) e.id
      (ground (arith, contains_key-insert e.id e.id e m, list_cmp-same e.id)),
  insert_edges-has es (insert e.id e m),
)

pub add_links-Grows : (parsed : ParsedInput) (b : Batch) → Grows b (add_links parsed b)
unfolding add_links
add_links-Grows parsed b = record {
  records = λ k n h. h;
  edges = λ k h. insert_edges-keeps parsed.edges b.edges k h;
  conflicts = λ k m. In-append_left k b.conflicts parsed.conflicts m;
  diagnostics = λ d h. h;
}

pub add_record-Grows :
    (parsed : ParsedInput) (b : Batch)
    → get parsed.node.id b.records ≡ none
    → Grows b (record b { records = insert parsed.node.id parsed.node b.records })
add_record-Grows parsed b h = record {
  records = λ k n e.
      ground
        (arith, get-insert parsed.node.id k parsed.node b.records, list_cmp-equal k parsed.node.id);
  edges = λ k e. e;
  conflicts = λ k e. e;
  diagnostics = λ d e. e;
}
