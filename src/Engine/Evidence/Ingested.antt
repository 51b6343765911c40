-- ===== src/Engine/Evidence/Ingested.antt =====
-- crates/rationale-docs/src/lib.rs and crates/rationale-engine/src/lib.rs: a batch of documents from
-- `ingest` to the evidence of `prepare_evidence`.
use rationale.Prelude.{ℕ, suc, true, List, [], ◌∷◌, ◌≡◌, some, ◌⊎◌, All, In}
use rationale.Order.{list_ord, nat_ord}
use rationale.Map.{Map, get, contains_key}
use rationale.Text.{Text}
use rationale.Model.{EvidenceNode, EvidenceEdge, Conflict}
use rationale.Git.{CommitEvidence}
use rationale.Docs.{DocumentInput, IngestConfig, ParsedInput, Formats}
use rationale.Docs.Normalize.Owned.{IsOwnEdge}
use rationale.Docs.Ingest.Grows.{Reading, refused, passed_over, evidence, reading}
use rationale.Docs.Ingest.Accounted.{duplicate}
use rationale.Docs.Ingest.Outcome.{ReadFrom}
use rationale.Engine.Evidence.{
  PreparedEvidence, Library, commit_node, commit_edges, unresolved_conflict,
}
use rationale.Engine.Evidence.Reported.{IsAccounted, HeldByCommit}

-- What becomes of the edges and the conflicts of a document.
pub record IsPlaced (parsed : ParsedInput) (prepared : PreparedEvidence) : Type 0 where
  pub edges_placed :
      All
        (λ e.
          (f : EvidenceEdge) × (f.id ≡ e.id)
          × IsAccounted prepared.records prepared.edges prepared.diagnostics f)
        parsed.edges
  pub conflicts_placed :
      (k : Conflict)
      → In k parsed.conflicts
      → In k prepared.conflicts ⊎ In (unresolved_conflict k) prepared.diagnostics

-- The record of the document is under its identifier, unless a commit with the identifier replaced it.
abbrev pub IsHeld : Library → List CommitEvidence → EvidenceNode → PreparedEvidence → Type 0
IsHeld lib commits n prepared =
    (get n.id prepared.records ≡ some n) ⊎ HeldByCommit lib commits n.id prepared.records

abbrev pub Shows : Library → List CommitEvidence → Reading → PreparedEvidence → Type 0
Shows lib commits (refused path code message) prepared =
    In (record { source_locator = path; code = code; message = message }) prepared.diagnostics
Shows lib commits passed_over prepared = Unit
Shows lib commits (evidence path parsed) prepared =
    (IsHeld lib commits parsed.node prepared × IsPlaced parsed prepared)
    ⊎ ((contains_key parsed.node.id prepared.records ≡ true)
        × In (duplicate path) prepared.diagnostics)

abbrev pub ShowsFrom :
    Library
    → List CommitEvidence
    → IngestConfig
    → Formats
    → ℕ
    → List DocumentInput
    → PreparedEvidence
    → Type 0
ShowsFrom lib commits config formats index [] prepared = Unit
ShowsFrom lib commits config formats index (input ∷ inputs) prepared =
    Shows lib commits (reading config formats index input) prepared
    × ShowsFrom lib commits config formats (suc index) inputs prepared

-- A record is one of the commits, or was read from a document.
abbrev pub IsFromInput :
    Library
    → List CommitEvidence
    → IngestConfig
    → Formats
    → List DocumentInput
    → EvidenceNode
    → Type 0
IsFromInput lib commits config formats inputs n =
    ((c : CommitEvidence) × In c commits × (n ≡ commit_node lib c))
    ⊎ ReadFrom config formats inputs n

-- An edge is one that a commit's message names, or the own one of a record that was read.
abbrev pub IsProposed :
    Library
    → List CommitEvidence
    → IngestConfig
    → Formats
    → List DocumentInput
    → EvidenceEdge
    → Type 0
IsProposed lib commits config formats inputs e =
    In e (commit_edges lib commits)
    ⊎ ((n : EvidenceNode) × ReadFrom config formats inputs n × IsOwnEdge n e)

-- The evidence shows every document, and holds no record or edge from elsewhere.
pub record Represents (lib : Library) (commits : List CommitEvidence) (config : IngestConfig)
    (formats : Formats) (inputs : List DocumentInput) (prepared : PreparedEvidence) : Type 0 where
  pub documents : ShowsFrom lib commits config formats 0 inputs prepared
  pub records_from :
      All (λ e. (e.0 ≡ e.1.id) × IsFromInput lib commits config formats inputs e.1) prepared.records
  pub edges_from :
      All (λ e. (e.0 ≡ e.1.id) × IsProposed lib commits config formats inputs e.1) prepared.edges
