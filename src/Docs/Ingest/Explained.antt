-- ===== src/Docs/Ingest/Explained.antt =====
-- crates/rationale-docs/src/lib.rs: the result of `ingest`, explained by the documents of the batch.
use rationale.Prelude.{
  ℕ, suc, true, some, List, [], ◌∷◌, ◌≡◌, ◌≢◌, sym, ◌⊎◌, inl, inr, All, All-map, All-In, All-of_In,
  In, In-map, arith,
}
use rationale.Order.{list_ord, nat_ord, pair_ord, pair_cmp-equal}
use rationale.Map.{get, values}
use rationale.Map.Laws.{In-get, get-contains_key, All-values}
use rationale.Sort.{sort_by}
use rationale.Sort.Laws.{In-sort_by, In-dedup_by, sort_by-All, dedup_by-All}
use rationale.Text.{Text}
use rationale.Model.{EvidenceNode, EvidenceEdge, Conflict}
use rationale.Docs.{
  DocumentInput, IngestConfig, IngestResult, ParsedInput, Formats, conflict_key, conflict_le,
  diagnostic_le,
}
use rationale.Docs.Normalize.Owned.{IsOwnEdge, IsOwnConflict}
use rationale.Docs.Ingest.{Batch, empty_batch, ingest_from, path_le, same_conflict, finish, ingest}
use rationale.Docs.Ingest.Grows.{Reading, refused, passed_over, evidence, reading}
use rationale.Docs.Ingest.Accounted.{Accounted, AccountedFrom, duplicate, ingest_from-Accounted}
use rationale.Docs.Ingest.Belongs.{Belongs, empty-Belongs}
use rationale.Docs.Ingest.Distinct.{ingest_from-IsSorted, get-of_value}
use rationale.Docs.Ingest.Outcome.{ReadFrom, ingest_from-Belongs}

-- The record is in the result, an edge with the identifier of each edge, and every conflict.
pub record IsIn (parsed : ParsedInput) (result : IngestResult) : Type 0 where
  pub node_in : In parsed.node result.records
  pub edges_in : All (λ e. (f : EvidenceEdge) × In f result.edges × (f.id ≡ e.id)) parsed.edges
  pub conflicts_in : (k : Conflict) → In k parsed.conflicts → In k result.conflicts

-- Another record with the same identifier is in the result, and the document is reported.
pub record IsReported (path : Text) (parsed : ParsedInput) (result : IngestResult) : Type 0 where
  pub first : EvidenceNode
  pub first_in : In first result.records
  pub same_id : first.id ≡ parsed.node.id
  pub other : first ≢ parsed.node
  pub reported : In (duplicate path) result.diagnostics

abbrev pub Explains : Reading → IngestResult → Type 0
Explains (refused path code message) result =
    In (record { source_locator = path; code = code; message = message }) result.diagnostics
Explains passed_over result = Unit
Explains (evidence path parsed) result = IsIn parsed result ⊎ IsReported path parsed result

abbrev pub ExplainsFrom : IngestConfig → Formats → ℕ → List DocumentInput → IngestResult → Type 0
ExplainsFrom config formats index [] result = Unit
ExplainsFrom config formats index (input ∷ inputs) result =
    Explains (reading config formats index input) result
    × ExplainsFrom config formats (suc index) inputs result

same_conflict_sound : (a b : Conflict) → same_conflict a b ≡ true → a ≡ b
same_conflict_sound a b h =
    let e =
      pair_cmp-equal {A = Text} {B = Text × Text} (conflict_key a) (conflict_key b)
        (ground arith) in
    λ i. record { left_node_id = (e i).0; right_node_id = (e i).1.0; rule_id = (e i).1.1 }

held-In :
    (b : Batch) (k : Text) (n : EvidenceNode) → get k b.records ≡ some n → In n (values b.records)
held-In b k n h = In-map (λ e. e.1) (k, n) b.records (In-get k n b.records h)

module _ (P : EvidenceNode → Type 0) (b : Batch) (g : Belongs P b) where
  held-id : (k : Text) (n : EvidenceNode) → get k b.records ≡ some n → n.id ≡ k
  held-id k n h =
      sym
        (All-In (λ e. (e.0 ≡ e.1.id) × P e.1) (k, n) b.records g.records_keyed
          (In-get k n b.records h)).0

  Accounted-Explains : (r : Reading) → Accounted r b → Explains r (finish b)
  Accounted-Explains (refused path code message) a = In-sort_by diagnostic_le _ b.diagnostics a
  Accounted-Explains passed_over a = tt
  Accounted-Explains (evidence path parsed) (inl h) = inl (record {
    node_in = held-In b parsed.node.id parsed.node h.node_held;
    edges_in =
        All-map _ _
          (λ e has.
            let (f, m) = get-contains_key e.id b.edges has in
            let found = In-get e.id f b.edges m in
            (
              f,
              In-map (λ x. x.1) (e.id, f) b.edges found,
              sym (All-In _ (e.id, f) b.edges g.edges_keyed found).0,
            ))
          parsed.edges h.edges_held;
    conflicts_in = λ k m.
        In-dedup_by same_conflict same_conflict_sound k (sort_by conflict_le b.conflicts)
          (In-sort_by conflict_le k b.conflicts (h.conflicts_held k m));
  })
  Accounted-Explains (evidence path parsed) (inr d) = inr (record {
    first = d.first;
    first_in = held-In b parsed.node.id d.first d.held;
    same_id = held-id parsed.node.id d.first d.held;
    other = d.other;
    reported = In-sort_by diagnostic_le _ b.diagnostics d.reported;
  })

  AccountedFrom-Explains :
      (config : IngestConfig) (formats : Formats) (index : ℕ) (inputs : List DocumentInput)
      → AccountedFrom config formats index inputs b
      → ExplainsFrom config formats index inputs (finish b)
  AccountedFrom-Explains config formats index [] a = tt
  AccountedFrom-Explains config formats index (input ∷ inputs) (a, rest) = (
    Accounted-Explains (reading config formats index input) a,
    AccountedFrom-Explains config formats (suc index) inputs rest,
  )

-- Each document has its place in the result, in the order of the paths, and no record is from elsewhere.
pub record IsExplained (config : IngestConfig) (formats : Formats) (inputs : List DocumentInput)
    (result : IngestResult) : Type 0 where
  pub documents : ExplainsFrom config formats 0 (sort_by path_le inputs) result
  pub records_read : All (ReadFrom config formats (sort_by path_le inputs)) result.records

final-Belongs :
    (config : IngestConfig) (formats : Formats) (inputs : List DocumentInput)
    → Belongs (ReadFrom config formats inputs) (ingest_from config formats 0 inputs empty_batch)
final-Belongs config formats inputs =
    ingest_from-Belongs config formats inputs 0 inputs empty_batch
      (All-of_In (λ i. In i inputs) inputs (λ i m. m)) (empty-Belongs _)

-- Every document of a batch, at its place in the order of the paths, is read on its own: it is reported when
-- it is past a limit, malformed or badly placed, passed over when it is no evidence, and otherwise its record,
-- edges and conflicts are in the result, or another record with its identifier is and it is reported. Every
-- record of the result was read from a document of the batch.
pub ingest-IsExplained :
    (config : IngestConfig) (formats : Formats) (inputs : List DocumentInput)
    → IsExplained config formats inputs (ingest config formats inputs)
unfolding ingest
ingest-IsExplained config formats inputs =
    let sorted = sort_by path_le inputs in
    let b = ingest_from config formats 0 sorted empty_batch in
    let g = final-Belongs config formats sorted in
    record {
      documents =
          AccountedFrom-Explains _ b g config formats 0 sorted
            (ingest_from-Accounted config formats 0 sorted empty_batch).1;
      records_read = All-values _ _ (λ e h. h.1) b.records g.records_keyed;
    }

-- Every edge and every conflict of the result is the own one of a record of the result.
pub record EveryOwned (result : IngestResult) : Type 0 where
  pub edges_owned : All (λ e. (n : EvidenceNode) × In n result.records × IsOwnEdge n e) result.edges
  pub conflicts_owned :
      All (λ k. (n : EvidenceNode) × In n result.records × IsOwnConflict n k) result.conflicts

-- Every edge of an ingested batch runs between valid identifiers, has the status and origin of a record of the
-- batch, and starts at it, or ends at it where that is a verification; a document never documents itself.
-- Every conflict is between a record of the batch and a valid identifier, by a rule that is not blank.
pub ingest-EveryOwned :
    (config : IngestConfig) (formats : Formats) (inputs : List DocumentInput)
    → EveryOwned (ingest config formats inputs)
unfolding ingest
ingest-EveryOwned config formats inputs =
    let sorted = sort_by path_le inputs in
    let b = ingest_from config formats 0 sorted empty_batch in
    let g = final-Belongs config formats sorted in
    record {
      edges_owned =
          All-values _ _ (λ e h. (h.1.0, held-In b h.1.0.id h.1.0 h.1.1, h.1.2)) b.edges
            g.edges_keyed;
      conflicts_owned = dedup_by-All conflict_le _ same_conflict (sort_by conflict_le b.conflicts) (
          sort_by-All conflict_le _ b.conflicts (
            All-map _ _ (λ k h. (h.0, held-In b h.0.id h.0 h.1, h.2)) b.conflicts
              g.conflicts_owned));
    }

-- Records of the result with the same identifier are the same.
pub ingest-distinct :
    (config : IngestConfig) (formats : Formats) (inputs : List DocumentInput) (m n : EvidenceNode)
    → In m (ingest config formats inputs).records
    → In n (ingest config formats inputs).records
    → m.id ≡ n.id
    → m ≡ n
unfolding ingest
ingest-distinct config formats inputs m n i j same =
    let sorted = sort_by path_le inputs in
    let b = ingest_from config formats 0 sorted empty_batch in
    let s = ingest_from-IsSorted config formats 0 sorted empty_batch tt in
    let keyed : (k : Text) (r : EvidenceNode) → In (k, r) b.records → k ≡ r.id = λ k r h.
      (All-In (λ e. (e.0 ≡ e.1.id) × ReadFrom config formats sorted e.1) (k, r) b.records
        (final-Belongs config formats sorted).records_keyed h).0 in
    let first : get m.id b.records ≡ some m = get-of_value m b.records s keyed i in
    let second : get n.id b.records ≡ some n = get-of_value n b.records s keyed j in
    ground (arith, rw same at first)
