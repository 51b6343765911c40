-- ===== src/Docs/Ingest/Accounted.antt =====
-- crates/rationale-docs/src/lib.rs: each document of a batch is held, passed over or reported.
use rationale.Prelude.{
  ℕ, suc, true, some, List, [], ◌∷◌, ◌≡◌, ◌≢◌, refl, ap, ◌∙◌, ◌⊎◌, inl, inr, All, All-map, In,
  In-append_right, Option-cases,
}
use rationale.Order.{list_ord, nat_ord}
use rationale.Map.{get, insert, contains_key}
use rationale.Map.Laws.{get-insert_same}
use rationale.Text.{Text, codes}
use rationale.Model.{EvidenceNode, Conflict}
use rationale.Docs.{DocumentInput, IngestConfig, IngestDiagnostic, ParsedInput, Formats}
use rationale.Docs.Ingest.{
  EvidenceNode-discrete, Batch, add_links, take_again, take_parsed, ingest_from,
}
use rationale.Docs.Ingest.Grows.{
  Reading, refused, passed_over, evidence, reading, apply, ingest_one-apply, Grows, Grows-refl,
  Grows-trans, report-Grows, insert_edges-has, add_links-Grows, add_record-Grows,
}

-- The document's own record, edges and conflicts are in the batch.
pub record Holds (parsed : ParsedInput) (b : Batch) : Type 0 where
  pub node_held : get parsed.node.id b.records ≡ some parsed.node
  pub edges_held : All (λ e. contains_key e.id b.edges ≡ true) parsed.edges
  pub conflicts_held : (k : Conflict) → In k parsed.conflicts → In k b.conflicts

abbrev pub duplicate : Text → IngestDiagnostic
duplicate path = record {
  source_locator = path;
  code = codes "duplicate_record";
  message = codes "record identifier is already defined by another document";
}

-- Another record with the identifier came first, and the document is reported.
pub record IsDuplicate (path : Text) (parsed : ParsedInput) (b : Batch) : Type 0 where
  pub first : EvidenceNode
  pub held : get parsed.node.id b.records ≡ some first
  pub other : first ≢ parsed.node
  pub reported : In (duplicate path) b.diagnostics

abbrev pub Accounted : Reading → Batch → Type 0
Accounted (refused path code message) b =
    In (record { source_locator = path; code = code; message = message }) b.diagnostics
Accounted passed_over b = Unit
Accounted (evidence path parsed) b = Holds parsed b ⊎ IsDuplicate path parsed b

add_links-Holds :
    (parsed : ParsedInput) (b : Batch)
    → get parsed.node.id b.records ≡ some parsed.node
    → Holds parsed (add_links parsed b)
unfolding add_links
add_links-Holds parsed b h = record {
  node_held = h;
  edges_held = insert_edges-has parsed.edges b.edges;
  conflicts_held = λ k m. In-append_right k b.conflicts parsed.conflicts m;
}

take_again-cases :
    (path : Text) (parsed : ParsedInput) (b : Batch) {old : EvidenceNode}
    (same : Dec (old ≡ parsed.node))
    → get parsed.node.id b.records ≡ some old
    → Grows b (take_again path parsed b same)
      × Accounted (evidence path parsed) (take_again path parsed b same)
unfolding take_again
take_again-cases path parsed b (yes same) h =
    (add_links-Grows parsed b, inl (add_links-Holds parsed b (h ∙ ap some same)))
take_again-cases path parsed b {old} (no other) h = (
  report-Grows path _ _ b,
  inr (record {
    first = old;
    held = h;
    other = other;
    reported = In-append_right _ b.diagnostics (duplicate path ∷ []) (inl refl);
  }),
)

pub take_parsed-cases :
    (path : Text) (parsed : ParsedInput) (b : Batch)
    → Grows b (take_parsed path parsed b)
      × Accounted (evidence path parsed) (take_parsed path parsed b)
unfolding take_parsed
take_parsed-cases path parsed b = elim (Option-cases (get parsed.node.id b.records)) [
  | inl e ↦
      let added = record b { records = insert parsed.node.id parsed.node b.records } in
      rw (e, take_parsed)
        (
          Grows-trans (add_record-Grows parsed b e) (add_links-Grows parsed added),
          inl (add_links-Holds parsed added (get-insert_same parsed.node.id parsed.node b.records)),
        )
  | inr (old, e) ↦
      rw (e, take_parsed) (take_again-cases path parsed b (EvidenceNode-discrete old parsed.node) e)
]

pub apply-cases : (r : Reading) (b : Batch) → Grows b (apply r b) × Accounted r (apply r b)
apply-cases (refused path code message) b =
    (report-Grows path code message b, In-append_right _ b.diagnostics _ (inl refl))
apply-cases passed_over b = (Grows-refl b, tt)
apply-cases (evidence path parsed) b = take_parsed-cases path parsed b

-- What is accounted for stays so.
pub Accounted-Grows : (r : Reading) {b c : Batch} → Grows b c → Accounted r b → Accounted r c
Accounted-Grows (refused path code message) g a = g.diagnostics _ a
Accounted-Grows passed_over g a = tt
Accounted-Grows (evidence path parsed) g (inl h) = inl (record {
  node_held = g.records _ _ h.node_held;
  edges_held = All-map _ _ (λ e m. g.edges e.id m) parsed.edges h.edges_held;
  conflicts_held = λ k m. g.conflicts k (h.conflicts_held k m);
})
Accounted-Grows (evidence path parsed) g (inr d) = inr (record {
  first = d.first;
  held = g.records _ _ d.held;
  other = d.other;
  reported = g.diagnostics _ d.reported;
})

-- Each document of the rest of a batch, at its place.
abbrev pub AccountedFrom : IngestConfig → Formats → ℕ → List DocumentInput → Batch → Type 0
AccountedFrom config formats index [] b = Unit
AccountedFrom config formats index (input ∷ inputs) b =
    Accounted (reading config formats index input) b
    × AccountedFrom config formats (suc index) inputs b

pub ingest_from-Accounted :
    (config : IngestConfig) (formats : Formats) (index : ℕ) (inputs : List DocumentInput)
    (b : Batch)
    → Grows b (ingest_from config formats index inputs b)
      × AccountedFrom config formats index inputs (ingest_from config formats index inputs b)
unfolding ingest_from
ingest_from-Accounted config formats index [] b = (Grows-refl b, tt)
ingest_from-Accounted config formats index (input ∷ inputs) b =
    let r = reading config formats index input in
    let (g, a) = apply-cases r b in
    let (h, rest) = ingest_from-Accounted config formats (suc index) inputs (apply r b) in
    rw ingest_one-apply (Grows-trans g h, (Accounted-Grows r h a, rest))
