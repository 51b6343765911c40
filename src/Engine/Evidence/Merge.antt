-- ===== src/Engine/Evidence/Merge.antt =====
-- crates/rationale-engine/src/lib.rs: what is local comes first in the merge with the contribution of
-- GitHub, and all of the contribution that can be placed is in it.
use rationale.Prelude.{true, ◌≡◌, refl, some, List, [], ◌∷◌, inl, inr, In, Bool-cases, arith}
use rationale.Order.{list_ord, nat_ord, list_cmp-same, list_cmp-equal}
use rationale.Map.{Map, get, contains_key, or_insert}
use rationale.Map.Laws.{contains_key-or_insert, get-or_insert, contains_key-get}
use rationale.Text.{Text}
use rationale.Model.{EvidenceNode, EvidenceEdge}
use rationale.Engine.Evidence.{
  PreparedEvidence, joins, or_insert_records, or_insert_edges, merge_github_evidence,
}
use rationale.Engine.Evidence.Closure.{or_insert_records-contains}

or_insert-get :
    {V : Type 0} (k j : Text) (v w : V) (m : Map Text V)
    → get j m ≡ some w
    → get j (or_insert k v m) ≡ some w
or_insert-get k j v w m h =
    ground (arith, get-or_insert k j v m, list_cmp-equal j k, contains_key-get j w m)

or_insert_records-get :
    (rs : List EvidenceNode) (m : Map Text EvidenceNode) (id : Text) (r : EvidenceNode)
    → get id m ≡ some r
    → get id (or_insert_records rs m) ≡ some r
unfolding or_insert_records
or_insert_records-get [] m id r h = h
or_insert_records-get (q ∷ rs) m id r h =
    or_insert_records-get rs (or_insert q.id q m) id r (or_insert-get q.id id q r m h)

or_insert_edges-get :
    (records : Map Text EvidenceNode) (es : List EvidenceEdge) (m : Map Text EvidenceEdge)
    (id : Text) (e : EvidenceEdge)
    → get id m ≡ some e
    → get id (or_insert_edges records es m) ≡ some e
unfolding or_insert_edges
or_insert_edges-get records [] m id e h = h
or_insert_edges-get records (f ∷ es) m id e h = elim (Bool-cases (joins records f)) [
  | inl b ↦
      rw (b, or_insert_edges)
        (or_insert_edges-get records es (or_insert f.id f m) id e (or_insert-get f.id id f e m h))
  | inr b ↦ rw (b, or_insert_edges) (or_insert_edges-get records es m id e h)
]

-- The merge has a record for each one of the contribution, and an edge for each one between records.
or_insert_records-In :
    (rs : List EvidenceNode) (m : Map Text EvidenceNode) (r : EvidenceNode)
    → In r rs
    → contains_key r.id (or_insert_records rs m) ≡ true
unfolding or_insert_records
or_insert_records-In [] m r h = absurd h
or_insert_records-In (q ∷ rs) m r (inl e) =
    or_insert_records-contains rs (or_insert q.id q m) r.id
      (rw e ground (arith, contains_key-or_insert q.id q.id q m, list_cmp-same q.id))
or_insert_records-In (q ∷ rs) m r (inr h) = or_insert_records-In rs (or_insert q.id q m) r h

or_insert_edges-contains :
    (records : Map Text EvidenceNode) (es : List EvidenceEdge) (m : Map Text EvidenceEdge)
    (id : Text)
    → contains_key id m ≡ true
    → contains_key id (or_insert_edges records es m) ≡ true
unfolding or_insert_edges
or_insert_edges-contains records [] m id h = h
or_insert_edges-contains records (e ∷ es) m id h = elim (Bool-cases (joins records e)) [
  | inl b ↦
      rw (b, or_insert_edges)
        (or_insert_edges-contains records es (or_insert e.id e m) id
          (ground (arith, contains_key-or_insert e.id id e m)))
  | inr b ↦ rw (b, or_insert_edges) (or_insert_edges-contains records es m id h)
]

or_insert_edges-In :
    (records : Map Text EvidenceNode) (es : List EvidenceEdge) (m : Map Text EvidenceEdge)
    (e : EvidenceEdge)
    → In e es
    → joins records e ≡ true
    → contains_key e.id (or_insert_edges records es m) ≡ true
unfolding or_insert_edges
or_insert_edges-In records [] m e h b = absurd h
or_insert_edges-In records (f ∷ es) m e (inl p) b =
    let c : joins records f ≡ true = rw p at b in
    rw (p, c)
      (or_insert_edges-contains records es (or_insert f.id f m) f.id
        (ground (arith, contains_key-or_insert f.id f.id f m, list_cmp-same f.id)))
or_insert_edges-In records (f ∷ es) m e (inr h) b = elim (Bool-cases (joins records f)) [
  | inl c ↦ rw c (or_insert_edges-In records es (or_insert f.id f m) e h b)
  | inr c ↦ rw c (or_insert_edges-In records es m e h b)
]

-- What the merge makes of the evidence and the contribution.
pub record Merges (nodes : List EvidenceNode) (links : List EvidenceEdge)
    (evidence merged : PreparedEvidence) : Type 0 where
  pub records_kept :
      (id : Text) (r : EvidenceNode)
      → get id evidence.records ≡ some r
      → get id merged.records ≡ some r
  pub edges_kept :
      (id : Text) (e : EvidenceEdge) → get id evidence.edges ≡ some e → get id merged.edges ≡ some e
  pub same_conflicts : merged.conflicts ≡ evidence.conflicts
  pub same_diagnostics : merged.diagnostics ≡ evidence.diagnostics
  pub records_there : (r : EvidenceNode) → In r nodes → contains_key r.id merged.records ≡ true
  pub edges_there :
      (e : EvidenceEdge)
      → In e links
      → joins merged.records e ≡ true
      → contains_key e.id merged.edges ≡ true

-- Every local record and edge stands unchanged in the merge, and so do conflicts and diagnostics.
-- Every record of the contribution has its identifier there, and so has every edge of it between two
-- records of the merge.
pub merge_github_evidence-Merges :
    (nodes : List EvidenceNode) (links : List EvidenceEdge) (evidence : PreparedEvidence)
    → Merges nodes links evidence (merge_github_evidence nodes links evidence)
unfolding merge_github_evidence
merge_github_evidence-Merges nodes links evidence =
    let records = or_insert_records nodes evidence.records in
    record {
      records_kept = λ id r h. or_insert_records-get nodes evidence.records id r h;
      edges_kept = λ id e h. or_insert_edges-get records links evidence.edges id e h;
      same_conflicts = refl;
      same_diagnostics = refl;
      records_there = λ r h. or_insert_records-In nodes evidence.records r h;
      edges_there = λ e h b. or_insert_edges-In records links evidence.edges e h b;
    }
