-- ===== src/Engine/Evidence/Closure.antt =====
-- crates/rationale-engine/src/lib.rs: prepared evidence refers only to its own records, and what
-- cannot be placed is reported.
use rationale.Prelude.{
  true, ◌≡◌, refl, List, [], ◌∷◌, ◌++◌, map, All, All-map, All-of_In, inl, inr, Bool-cases, arith,
}
use rationale.Order.{list_ord, nat_ord}
use rationale.Map.{Map, insert, contains_key, or_insert}
use rationale.Map.Laws.{insert-All, or_insert-All, contains_key-or_insert}
use rationale.Text.{Text}
use rationale.Model.{EvidenceNode, EvidenceEdge, Conflict}
use rationale.Git.{CommitEvidence}
use rationale.Docs.{IngestDiagnostic, IngestResult}
use rationale.Engine.Evidence.{
  PreparedEvidence, Library, commit_node, commit_edges, insert_records, joins, opposes,
  unresolved_conflict, place_edge, place_edges, place_conflicts, prepare_evidence,
  or_insert_records, or_insert_edges, merge_github_evidence,
}

-- An entry under its own identifier, and an edge between records.
abbrev pub IsKeyed : Text × EvidenceNode → Type 0
IsKeyed e = e.0 ≡ e.1.id

abbrev pub IsPlaced : Map Text EvidenceNode → Text × EvidenceEdge → Type 0
IsPlaced records e = (e.0 ≡ e.1.id) × (joins records e.1 ≡ true)

pub record IsConsistent (evidence : PreparedEvidence) : Type 0 where
  pub keyed : All IsKeyed evidence.records
  pub placed : All (IsPlaced evidence.records) evidence.edges
  pub opposed : All (λ k. opposes evidence.records k ≡ true) evidence.conflicts

-- What holds of each record under its identifier holds of the entries.
pub insert_records-All :
    (P : Text × EvidenceNode → Type 0) (rs : List EvidenceNode) (m : Map Text EvidenceNode)
    → All (λ r. P (r.id, r)) rs
    → All P m
    → All P (insert_records rs m)
unfolding insert_records
insert_records-All P [] m h a = a
insert_records-All P (r ∷ rs) m h a =
    insert_records-All P rs (insert r.id r m) h.1 (insert-All P r.id r m h.0 a)

insert_records-IsKeyed :
    (rs : List EvidenceNode) (m : Map Text EvidenceNode)
    → All IsKeyed m
    → All IsKeyed (insert_records rs m)
insert_records-IsKeyed rs m = insert_records-All IsKeyed rs m (All-of_In _ rs (λ r h. refl))

place_edge-IsPlaced :
    (records : Map Text EvidenceNode) (e : EvidenceEdge)
    (s : Map Text EvidenceEdge × List IngestDiagnostic)
    → All (IsPlaced records) s.0
    → All (IsPlaced records) (place_edge records e s).0
unfolding place_edge
place_edge-IsPlaced records e s h = elim (Bool-cases (joins records e)) [
  | inl b ↦ rw b (insert-All (IsPlaced records) e.id e s.0 (refl, b) h)
  | inr b ↦ rw b h
]

place_edges-IsPlaced :
    (records : Map Text EvidenceNode) (es : List EvidenceEdge)
    (s : Map Text EvidenceEdge × List IngestDiagnostic)
    → All (IsPlaced records) s.0
    → All (IsPlaced records) (place_edges records es s).0
unfolding place_edges
place_edges-IsPlaced records [] s h = h
place_edges-IsPlaced records (e ∷ es) s h =
    place_edges-IsPlaced records es (place_edge records e s) (place_edge-IsPlaced records e s h)

place_conflicts-opposed :
    (records : Map Text EvidenceNode) (ks : List Conflict) (ds : List IngestDiagnostic)
    → All (λ k. opposes records k ≡ true) (place_conflicts records ks ds).0
unfolding place_conflicts
place_conflicts-opposed records [] ds = tt
place_conflicts-opposed records (k ∷ ks) ds = elim (Bool-cases (opposes records k)) [
  | inl b ↦ rw b (b, place_conflicts-opposed records ks ds)
  | inr b ↦ rw b (place_conflicts-opposed records ks (ds ++ unresolved_conflict k ∷ []))
]

-- Whatever the commits and the ingested documents are: each record stands under its identifier, and
-- both ends of each edge and both sides of each conflict are records of the evidence.
pub prepare_evidence-IsConsistent :
    (lib : Library) (commits : List CommitEvidence) (ingested : IngestResult)
    (diagnostics : List IngestDiagnostic)
    → IsConsistent (prepare_evidence lib commits ingested diagnostics)
unfolding prepare_evidence
prepare_evidence-IsConsistent lib commits ingested diagnostics =
    let records =
      insert_records (map (commit_node lib) commits) (insert_records ingested.records []) in
    let proposed = ingested.edges ++ commit_edges lib commits in
    let start = diagnostics ++ ingested.diagnostics in
    record {
      keyed =
          insert_records-IsKeyed (map (commit_node lib) commits)
            (insert_records ingested.records []) (insert_records-IsKeyed ingested.records [] tt);
      placed = place_edges-IsPlaced records proposed ([], start) tt;
      opposed =
          place_conflicts-opposed records ingested.conflicts
            (place_edges records proposed ([], start)).1;
    }

-- Records stay, under the condition of `or_insert`, and edges between records stay so.
or_insert_records-IsKeyed :
    (rs : List EvidenceNode) (m : Map Text EvidenceNode)
    → All IsKeyed m
    → All IsKeyed (or_insert_records rs m)
unfolding or_insert_records
or_insert_records-IsKeyed [] m h = h
or_insert_records-IsKeyed (r ∷ rs) m h =
    or_insert_records-IsKeyed rs (or_insert r.id r m) (or_insert-All IsKeyed r.id r m refl h)

pub or_insert_records-contains :
    (rs : List EvidenceNode) (m : Map Text EvidenceNode) (id : Text)
    → contains_key id m ≡ true
    → contains_key id (or_insert_records rs m) ≡ true
unfolding or_insert_records
or_insert_records-contains [] m id h = h
or_insert_records-contains (r ∷ rs) m id h =
    or_insert_records-contains rs (or_insert r.id r m) id
      (ground (arith, contains_key-or_insert r.id id r m))

or_insert_edges-IsPlaced :
    (records : Map Text EvidenceNode) (es : List EvidenceEdge) (m : Map Text EvidenceEdge)
    → All (IsPlaced records) m
    → All (IsPlaced records) (or_insert_edges records es m)
unfolding or_insert_edges
or_insert_edges-IsPlaced records [] m h = h
or_insert_edges-IsPlaced records (e ∷ es) m h = elim (Bool-cases (joins records e)) [
  | inl b ↦
      rw (b, or_insert_edges)
        (or_insert_edges-IsPlaced records es (or_insert e.id e m)
          (or_insert-All (IsPlaced records) e.id e m (refl, b) h))
  | inr b ↦ rw (b, or_insert_edges) (or_insert_edges-IsPlaced records es m h)
]

-- Merging the contribution of GitHub keeps evidence consistent, whatever the contribution is.
pub merge_github_evidence-IsConsistent :
    (nodes : List EvidenceNode) (links : List EvidenceEdge) (evidence : PreparedEvidence)
    → IsConsistent evidence
    → IsConsistent (merge_github_evidence nodes links evidence)
unfolding merge_github_evidence
merge_github_evidence-IsConsistent nodes links evidence c =
    let records = or_insert_records nodes evidence.records in
    record {
      keyed = or_insert_records-IsKeyed nodes evidence.records c.keyed;
      placed = or_insert_edges-IsPlaced records links evidence.edges (
          All-map (IsPlaced evidence.records) (IsPlaced records)
            (λ e h. ground (
              arith,
              or_insert_records-contains nodes evidence.records e.1.source_id,
              or_insert_records-contains nodes evidence.records e.1.target_id,
            ))
            evidence.edges c.placed);
      opposed =
          All-map (λ k. opposes evidence.records k ≡ true) (λ k. opposes records k ≡ true)
            (λ k h. ground (
              arith,
              or_insert_records-contains nodes evidence.records k.left_node_id,
              or_insert_records-contains nodes evidence.records k.right_node_id,
            ))
            evidence.conflicts c.opposed;
    }
