-- ===== src/Engine/Attach/Joined.antt =====
-- crates/rationale-engine/src/lib.rs: attaching the target to a slice leaves no edge without its ends.
use rationale.Prelude.{
  true, ◌≡◌, refl, List, [], ◌∷◌, All, All-map, Bool-cases, inl, inr, Option-cases, arith,
}
use rationale.Order.{list_ord, nat_ord, list_cmp-same}
use rationale.Map.{Map, insert, contains_key, or_insert}
use rationale.Map.Laws.{insert-All, contains_key-insert, contains_key-or_insert}
use rationale.Text.{Text}
use rationale.Model.{EdgeKind, Origin, EvidenceNode, EvidenceEdge}
use rationale.Git.{ExplicitReference, LineAttribution, ResolvedTarget, commit, lines}
use rationale.Engine.Evidence.{
  Library, joins, commit_node, evidence_edge, reference_edge_kind, reference_edges,
  commit_reference_edges,
}
use rationale.Engine.Attach.{
  attach_edges, attach_commit_references, attributed_node, attach_attributions, lines_id,
  lines_origin, lines_node, attach_target,
}

-- Every edge joins two nodes.
abbrev pub IsJoined : Map Text EvidenceNode → Map Text EvidenceEdge → Type 0
IsJoined nodes edges = All (λ e. joins nodes e.1 ≡ true) edges

-- Another node leaves edges joined.
IsJoined-or_insert :
    (id : Text) (n : EvidenceNode) (nodes : Map Text EvidenceNode) (edges : Map Text EvidenceEdge)
    → IsJoined nodes edges
    → IsJoined (or_insert id n nodes) edges
IsJoined-or_insert id n nodes edges h =
    All-map (λ e. joins nodes e.1 ≡ true) (λ e. joins (or_insert id n nodes) e.1 ≡ true)
      (λ e j. ground (
        arith,
        contains_key-or_insert id e.1.source_id n nodes,
        contains_key-or_insert id e.1.target_id n nodes,
      ))
      edges h

IsJoined-insert :
    (id : Text) (n : EvidenceNode) (nodes : Map Text EvidenceNode) (edges : Map Text EvidenceEdge)
    → IsJoined nodes edges
    → IsJoined (insert id n nodes) edges
IsJoined-insert id n nodes edges h =
    All-map (λ e. joins nodes e.1 ≡ true) (λ e. joins (insert id n nodes) e.1 ≡ true)
      (λ e j. ground (
        arith,
        contains_key-insert id e.1.source_id n nodes,
        contains_key-insert id e.1.target_id n nodes,
      ))
      edges h

-- The references of a commit start at it.
reference_edges-source :
    (lib : Library) (id : Text) (rs : List ExplicitReference)
    → All (λ e. e.source_id ≡ id) (reference_edges lib id rs)
unfolding reference_edges evidence_edge
reference_edges-source lib id [] = tt
reference_edges-source lib id (r ∷ rs) = elim (Option-cases (reference_edge_kind r.kind)) [
  | inl n ↦ rw (n, reference_edges) (reference_edges-source lib id rs)
  | inr (kind, k) ↦ rw (k, reference_edges) (refl, reference_edges-source lib id rs)
]

attach_edges-IsJoined :
    (nodes : Map Text EvidenceNode) (id : Text) (es : List EvidenceEdge)
    (edges : Map Text EvidenceEdge)
    → contains_key id nodes ≡ true
    → All (λ e. e.source_id ≡ id) es
    → IsJoined nodes edges
    → IsJoined nodes (attach_edges nodes es edges)
unfolding attach_edges
attach_edges-IsJoined nodes id [] edges there from h = h
attach_edges-IsJoined nodes id (e ∷ es) edges there from h =
    elim (Bool-cases (contains_key e.target_id nodes)) [
      | inl b ↦
          let source : contains_key e.source_id nodes ≡ true = rw from.0 there in
          rw (b, attach_edges)
            (attach_edges-IsJoined nodes id es (insert e.id e edges) there from.1
              (insert-All (λ e. joins nodes e.1 ≡ true) e.id e edges (ground (arith)) h))
      | inr b ↦ rw (b, attach_edges) (attach_edges-IsJoined nodes id es edges there from.1 h)
    ]

attach_attributions-IsJoined :
    (lib : Library) (id : Text) (origin : Origin) (rest : List LineAttribution)
    (g : Map Text EvidenceNode × Map Text EvidenceEdge)
    → contains_key id g.0 ≡ true
    → IsJoined g.0 g.1
    → (contains_key id (attach_attributions lib id origin rest g).0 ≡ true)
      × IsJoined
          (attach_attributions lib id origin rest g).0
          (attach_attributions lib id origin rest g).1
unfolding attach_attributions evidence_edge
attach_attributions-IsJoined lib id origin [] g there h = (there, h)
attach_attributions-IsJoined lib id origin (a ∷ rest) g there h =
    let n = attributed_node a.commit_id in
    let edge = evidence_edge lib EdgeKind.introduced_by id a.commit_id origin in
    let nodes = or_insert a.commit_id n g.0 in
    let source : contains_key id nodes ≡ true =
      ground (arith, contains_key-or_insert a.commit_id id n g.0) in
    let target : contains_key a.commit_id nodes ≡ true =
      ground
        (arith, contains_key-or_insert a.commit_id a.commit_id n g.0, list_cmp-same a.commit_id) in
    attach_attributions-IsJoined lib id origin rest (nodes, insert edge.id edge g.1) source
      (insert-All (λ e. joins nodes e.1 ≡ true) edge.id edge g.1 (ground (arith))
        (IsJoined-or_insert a.commit_id n g.0 g.1 h))

-- Of a slice in which every edge joins two nodes, `attach_target` makes such a graph again, and the
-- target is one of its nodes.
pub attach_target-IsJoined :
    (lib : Library) (target : ResolvedTarget) (g : Map Text EvidenceNode × Map Text EvidenceEdge)
    → IsJoined g.0 g.1
    → (contains_key (attach_target lib target g).0 (attach_target lib target g).1.0 ≡ true)
      × IsJoined (attach_target lib target g).1.0 (attach_target lib target g).1.1
unfolding attach_target attach_commit_references commit_reference_edges
attach_target-IsJoined lib (commit root c) g h =
    let n = commit_node lib c in
    let nodes = or_insert c.id n g.0 in
    let there : contains_key c.id nodes ≡ true =
      ground (arith, contains_key-or_insert c.id c.id n g.0, list_cmp-same c.id) in
    (
      there,
      attach_edges-IsJoined nodes c.id (reference_edges lib c.id c.references) g.1 there
          (reference_edges-source lib c.id c.references) (IsJoined-or_insert c.id n g.0 g.1 h),
    )
attach_target-IsJoined lib (lines l) g h =
    let id = lines_id lib l in
    let n = lines_node lib l in
    attach_attributions-IsJoined lib id (lines_origin l) l.introduced_by (insert id n g.0, g.1)
      (ground (arith, contains_key-insert id id n g.0, list_cmp-same id))
      (IsJoined-insert id n g.0 g.1 h)
