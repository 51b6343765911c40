-- ===== src/Engine/Sync/Filled.antt =====
-- crates/rationale-engine/src/lib.rs: the loops of `publish_evidence` put all of the evidence into the
-- candidate, or it is refused.
use rationale.Prelude.{true, ◌≡◌, refl, ◌⊎◌, inl, inr, All, All-map, All-of_In, arith}
use rationale.Result.{ok, err}
use rationale.Order.{list_ord, nat_ord, pair_ord}
use rationale.Map.Laws.{All-values}
use rationale.Map.{values}
use rationale.Text.{Text}
use rationale.Store.Types.{StoreError, Db, Json}
use rationale.Store.Candidate.{CandidateSnapshot, insert_record, insert_edge, insert_conflict}
use rationale.Store.Publish.Verdict.{IsClosed}
use rationale.Store.Session.{Built}
use rationale.Engine.Evidence.{PreparedEvidence, opposes}
use rationale.Engine.Evidence.Closure.{IsPlaced, IsConsistent}
use rationale.Engine.Types.{Services}
use rationale.Engine.Sync.{for_each, fill}
use rationale.Engine.Sync.Inserts.{IsRefusal, Present, Op-Present, TextsDiffer, IsGood}
use rationale.Engine.Sync.Steps.{IsStored, insert_record-step}
use rationale.Engine.Sync.Links.{IsLinked, insert_edge-step}
use rationale.Engine.Sync.Conflicts.{IsOpposed, insert_conflict-step}
use rationale.Engine.Sync.Loops.{for_each-cases, Built-keeps, Built-trans}
use rationale.Engine.Sync.Staged.{IsStored-stays, IsLinked-stays, IsOpposed-stays, stored-Present}

-- The snapshot `id` is closed, and has the records, edges and conflicts of the evidence, each of
-- them stored with its own JSON.
pub record Holds (json : Json) (id : Text) (evidence : PreparedEvidence) (db : Db) : Type 0 where
  pub closed : IsClosed id db
  pub records_stored : All (λ r. IsStored json r id db) (values evidence.records)
  pub edges_stored : All (λ e. IsLinked json e id db) (values evidence.edges)
  pub conflicts_stored : All (λ k. IsOpposed json k id db) evidence.conflicts

-- Later operations leave what the snapshot holds.
pub Holds-Built :
    (json : Json) (evidence : PreparedEvidence) (c d : CandidateSnapshot)
    → Built json c d
    → IsGood json d
    → Holds json c.snapshot_id evidence c.inside
    → Holds json d.snapshot_id evidence d.inside
Holds-Built json evidence c d built good h = record {
  closed = good.closed;
  records_stored =
      All-map _ _
        (λ r s.
          Built-keeps json (λ x. IsStored json r x.snapshot_id x.inside) (IsStored-stays json r) c d
            built s)
        (values evidence.records) h.records_stored;
  edges_stored =
      All-map _ _
        (λ e s.
          Built-keeps json (λ x. IsLinked json e x.snapshot_id x.inside) (IsLinked-stays json e) c d
            built s)
        (values evidence.edges) h.edges_stored;
  conflicts_stored =
      All-map _ _
        (λ k s.
          Built-keeps json (λ x. IsOpposed json k x.snapshot_id x.inside) (IsOpposed-stays json k) c
            d built s)
        evidence.conflicts h.conflicts_stored;
}

module _ (w : Services) (evidence : PreparedEvidence) (differ : TextsDiffer w.json)
    (consistent : IsConsistent evidence) where
  -- Both ends of an edge or a conflict of the evidence, once the records are stored.
  edges_before :
      (c : CandidateSnapshot)
      → All (λ r. IsStored w.json r c.snapshot_id c.inside) (values evidence.records)
      → All (λ e. Present c e.source_id × Present c e.target_id) (values evidence.edges)
  edges_before c stored =
      let there = stored-Present w.json evidence.records c consistent.keyed stored in
      All-values (IsPlaced evidence.records) (λ e. Present c e.source_id × Present c e.target_id)
        (λ e h. (there e.1.source_id (ground (arith)), there e.1.target_id (ground (arith))))
        evidence.edges consistent.placed

  conflicts_before :
      (c : CandidateSnapshot)
      → All (λ r. IsStored w.json r c.snapshot_id c.inside) (values evidence.records)
      → All (λ k. Present c k.left_node_id × Present c k.right_node_id) evidence.conflicts
  conflicts_before c stored =
      let there = stored-Present w.json evidence.records c consistent.keyed stored in
      All-map (λ k. opposes evidence.records k ≡ true)
        (λ k. Present c k.left_node_id × Present c k.right_node_id)
        (λ k h. (there k.left_node_id (ground (arith)), there k.right_node_id (ground (arith))))
        evidence.conflicts consistent.opposed

  fill_records :
      (c : CandidateSnapshot)
      → IsGood w.json c
      → ((d : CandidateSnapshot) × (for_each (insert_record w.json) (values evidence.records) c
            ≡ ok d)
          × Built w.json c d
          × IsGood w.json d
          × All (λ r. IsStored w.json r d.snapshot_id d.inside) (values evidence.records))
        ⊎ ((e : StoreError) × (for_each (insert_record w.json) (values evidence.records) c ≡ err e)
            × IsRefusal e)
  fill_records c good =
      for_each-cases w.json (insert_record w.json) (λ r d. Unit)
        (λ r d. IsStored w.json r d.snapshot_id d.inside) (λ r a b op h. h) (IsStored-stays w.json)
        (λ r d u g. insert_record-step w.json r d g) (values evidence.records) c
        (All-of_In _ _ (λ r m. tt)) good

  fill_edges :
      (c : CandidateSnapshot)
      → All (λ e. Present c e.source_id × Present c e.target_id) (values evidence.edges)
      → IsGood w.json c
      → ((d : CandidateSnapshot) × (for_each (insert_edge w.json) (values evidence.edges) c ≡ ok d)
          × Built w.json c d
          × IsGood w.json d
          × All (λ e. IsLinked w.json e d.snapshot_id d.inside) (values evidence.edges))
        ⊎ ((e : StoreError) × (for_each (insert_edge w.json) (values evidence.edges) c ≡ err e)
            × IsRefusal e)
  fill_edges c before good =
      for_each-cases w.json (insert_edge w.json)
        (λ e d. Present d e.source_id × Present d e.target_id)
        (λ e d. IsLinked w.json e d.snapshot_id d.inside)
        (λ e a b op h.
          (Op-Present w.json a b e.source_id op h.0, Op-Present w.json a b e.target_id op h.1))
        (IsLinked-stays w.json) (λ e d h g. insert_edge-step w.json e d differ h.0 h.1 g)
        (values evidence.edges) c before good

  fill_conflicts :
      (c : CandidateSnapshot)
      → All (λ k. Present c k.left_node_id × Present c k.right_node_id) evidence.conflicts
      → IsGood w.json c
      → ((d : CandidateSnapshot) × (for_each (insert_conflict w.json) evidence.conflicts c ≡ ok d)
          × Built w.json c d
          × IsGood w.json d
          × All (λ k. IsOpposed w.json k d.snapshot_id d.inside) evidence.conflicts)
        ⊎ ((e : StoreError) × (for_each (insert_conflict w.json) evidence.conflicts c ≡ err e)
            × IsRefusal e)
  fill_conflicts c before good =
      for_each-cases w.json (insert_conflict w.json)
        (λ k d. Present d k.left_node_id × Present d k.right_node_id)
        (λ k d. IsOpposed w.json k d.snapshot_id d.inside)
        (λ k a b op h. (
          Op-Present w.json a b k.left_node_id op h.0,
          Op-Present w.json a b k.right_node_id op h.1,
        ))
        (IsOpposed-stays w.json) (λ k d h g. insert_conflict-step w.json k d h.0 h.1 g)
        evidence.conflicts c before good

  -- All of the evidence is in the candidate, or it is refused.
  pub fill-cases :
      (c : CandidateSnapshot)
      → IsGood w.json c
      → ((d : CandidateSnapshot) × (fill w evidence c ≡ ok d)
          × Built w.json c d
          × IsGood w.json d
          × Holds w.json d.snapshot_id evidence d.inside)
        ⊎ ((e : StoreError) × (fill w evidence c ≡ err e) × IsRefusal e)
  unfolding fill
  fill-cases c good = elim (fill_records c good) [
    | inr (e, h, r) ↦ inr (e, rw h refl, r)
    | inl (a, h, first, good_a, stored) ↦ elim (fill_edges a (edges_before a stored) good_a) [
      | inr (e, k, r) ↦ inr (e, rw (h, k) refl, r)
      | inl (b, k, second, good_b, linked) ↦
          let stored_b =
            All-map _ _
              (λ r s.
                Built-keeps w.json (λ x. IsStored w.json r x.snapshot_id x.inside)
                  (IsStored-stays w.json r) a b second s)
              (values evidence.records) stored in
          elim (fill_conflicts b (conflicts_before b stored_b) good_b) [
            | inr (e, m, r) ↦ inr (e, rw (h, k, m) refl, r)
            | inl (d, m, third, good_d, opposed) ↦
                let to_end = Built-trans w.json a b d second third in
                inl (
                  d,
                  rw (h, k, m) refl,
                  Built-trans w.json c a d first to_end,
                  good_d,
                  record {
                    closed = good_d.closed;
                    records_stored =
                        All-map _ _
                          (λ r s.
                            Built-keeps w.json (λ x. IsStored w.json r x.snapshot_id x.inside)
                              (IsStored-stays w.json r) b d third s)
                          (values evidence.records) stored_b;
                    edges_stored =
                        All-map _ _
                          (λ e s.
                            Built-keeps w.json (λ x. IsLinked w.json e x.snapshot_id x.inside)
                              (IsLinked-stays w.json e) b d third s)
                          (values evidence.edges) linked;
                    conflicts_stored = opposed;
                  },
                )
          ]
    ]
  ]
