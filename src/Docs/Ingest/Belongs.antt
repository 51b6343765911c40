-- ===== src/Docs/Ingest/Belongs.antt =====
-- crates/rationale-docs/src/lib.rs: what a batch holds comes from its documents, and every edge and
-- conflict belongs to a record of the batch.
use rationale.Prelude.{
  none, some, List, [], ◌∷◌, ◌≡◌, refl, All, All-map, All-append, Option-cases, inl, inr,
}
use rationale.Order.{list_ord, nat_ord}
use rationale.Map.{Map, get, insert}
use rationale.Map.Laws.{get-insert_same, insert-All}
use rationale.Text.{Text}
use rationale.Model.{EvidenceNode, EvidenceEdge, Conflict}
use rationale.Docs.{ParsedInput}
use rationale.Docs.Normalize.Owned.{IsOwned, IsOwnEdge, IsOwnConflict}
use rationale.Docs.Ingest.{
  EvidenceNode-discrete, Batch, empty_batch, insert_edges, add_links, take_again, take_parsed,
}
use rationale.Docs.Ingest.Grows.{Reading, refused, passed_over, evidence, apply, add_record-Grows}

-- A record of the batch has this edge, or this conflict, as its own.
abbrev pub OwnsEdge : Map Text EvidenceNode → EvidenceEdge → Type 0
OwnsEdge m e = (n : EvidenceNode) × (get n.id m ≡ some n) × IsOwnEdge n e

abbrev pub OwnsConflict : Map Text EvidenceNode → Conflict → Type 0
OwnsConflict m k = (n : EvidenceNode) × (get n.id m ≡ some n) × IsOwnConflict n k

pub record Belongs (P : EvidenceNode → Type 0) (b : Batch) : Type 0 where
  pub records_keyed : All (λ e. (e.0 ≡ e.1.id) × P e.1) b.records
  pub edges_keyed : All (λ e. (e.0 ≡ e.1.id) × OwnsEdge b.records e.1) b.edges
  pub conflicts_owned : All (OwnsConflict b.records) b.conflicts

pub empty-Belongs : (P : EvidenceNode → Type 0) → Belongs P empty_batch
empty-Belongs P = record { records_keyed = tt; edges_keyed = tt; conflicts_owned = tt }

insert_edges-All :
    (P : EvidenceEdge → Type 0) (es : List EvidenceEdge) (m : Map Text EvidenceEdge)
    → All P es
    → All (λ e. (e.0 ≡ e.1.id) × P e.1) m
    → All (λ e. (e.0 ≡ e.1.id) × P e.1) (insert_edges es m)
unfolding insert_edges
insert_edges-All P [] m h a = a
insert_edges-All P (e ∷ es) m h a =
    insert_edges-All P es (insert e.id e m) h.1
      (insert-All (λ x. (x.0 ≡ x.1.id) × P x.1) e.id e m (refl, h.0) a)

module _ (P : EvidenceNode → Type 0) where
  add_links-Belongs :
      (parsed : ParsedInput) (b : Batch)
      → IsOwned parsed
      → get parsed.node.id b.records ≡ some parsed.node
      → Belongs P b
      → Belongs P (add_links parsed b)
  unfolding add_links
  add_links-Belongs parsed b o h g = record {
    records_keyed = g.records_keyed;
    edges_keyed =
        insert_edges-All (OwnsEdge b.records) parsed.edges b.edges
          (All-map _ _ (λ e own. (parsed.node, h, own)) parsed.edges o.own_edges) g.edges_keyed;
    conflicts_owned =
        All-append (OwnsConflict b.records) b.conflicts parsed.conflicts g.conflicts_owned
          (All-map _ _ (λ k own. (parsed.node, h, own)) parsed.conflicts o.own_conflicts);
  }

  add_record-Belongs :
      (parsed : ParsedInput) (b : Batch)
      → P parsed.node
      → get parsed.node.id b.records ≡ none
      → Belongs P b
      → Belongs P (record b { records = insert parsed.node.id parsed.node b.records })
  add_record-Belongs parsed b p h g =
      let grown = add_record-Grows parsed b h in
      record {
        records_keyed =
            insert-All (λ e. (e.0 ≡ e.1.id) × P e.1) parsed.node.id parsed.node b.records (refl, p)
              g.records_keyed;
        edges_keyed =
            All-map _ _ (λ e m. (m.0, (m.1.0, grown.records m.1.0.id m.1.0 m.1.1, m.1.2))) b.edges
              g.edges_keyed;
        conflicts_owned =
            All-map _ _ (λ k m. (m.0, grown.records m.0.id m.0 m.1, m.2)) b.conflicts
              g.conflicts_owned;
      }

  take_again-Belongs :
      (path : Text) (parsed : ParsedInput) (b : Batch) {old : EvidenceNode}
      (same : Dec (old ≡ parsed.node))
      → IsOwned parsed
      → get parsed.node.id b.records ≡ some old
      → Belongs P b
      → Belongs P (take_again path parsed b same)
  unfolding take_again
  take_again-Belongs path parsed b (yes same) o h g = add_links-Belongs parsed b o (rw same at h) g
  take_again-Belongs path parsed b (no other) o h g = record {
    records_keyed = g.records_keyed;
    edges_keyed = g.edges_keyed;
    conflicts_owned = g.conflicts_owned;
  }

  -- What is read is from the documents, and belongs to itself.
  abbrev pub Fits : Reading → Type 0
  Fits (refused path code message) = Unit
  Fits passed_over = Unit
  Fits (evidence path parsed) = P parsed.node × IsOwned parsed

  take_parsed-Belongs :
      (path : Text) (parsed : ParsedInput) (b : Batch)
      → P parsed.node
      → IsOwned parsed
      → Belongs P b
      → Belongs P (take_parsed path parsed b)
  unfolding take_parsed
  take_parsed-Belongs path parsed b p o g = elim (Option-cases (get parsed.node.id b.records)) [
    | inl e ↦
        rw (e, take_parsed)
          (add_links-Belongs parsed _ o (get-insert_same parsed.node.id parsed.node b.records)
            (add_record-Belongs parsed b p e g))
    | inr (old, e) ↦
        rw (e, take_parsed)
          (take_again-Belongs path parsed b (EvidenceNode-discrete old parsed.node) o e g)
  ]

  pub apply-Belongs : (r : Reading) (b : Batch) → Fits r → Belongs P b → Belongs P (apply r b)
  apply-Belongs (refused path code message) b f g = record {
    records_keyed = g.records_keyed;
    edges_keyed = g.edges_keyed;
    conflicts_owned = g.conflicts_owned;
  }
  apply-Belongs passed_over b f g = g
  apply-Belongs (evidence path parsed) b (p, o) g = take_parsed-Belongs path parsed b p o g
