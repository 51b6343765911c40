-- ===== src/Engine/Evidence/Reported.antt =====
-- crates/rationale-engine/src/lib.rs: what becomes of the inputs of `prepare_evidence`: which record
-- stands under an identifier, and that what is proposed is placed or reported.
use rationale.Prelude.{
  true, false, ◌≡◌, refl, sym, ap, ◌∙◌, some, List, [], ◌∷◌, ◌++◌, map, In, In-map, In-map_back,
  ◌⊎◌, inl, inr, Bool-cases, In-append_left, In-append_right, arith,
}
use rationale.Order.{list_ord, nat_ord, is_eq, list_cmp, list_cmp-same, list_cmp-equal}
use rationale.Map.{Map, get, insert, contains_key}
use rationale.Map.Laws.{get-insert, contains_key-insert}
use rationale.Text.{Text}
use rationale.Model.{EvidenceNode, EvidenceEdge, Conflict}
use rationale.Git.{CommitEvidence}
use rationale.Docs.{IngestDiagnostic, IngestResult}
use rationale.Engine.Evidence.{
  PreparedEvidence, Library, commit_node, commit_edges, insert_records, joins, opposes,
  unresolved_reference, unresolved_conflict, place_edge, place_edges, place_conflicts,
  prepare_evidence,
}

-- A key is held by a record that was inserted, or by what held it before.
insert_records-held :
    (rs : List EvidenceNode) (m : Map Text EvidenceNode) (k : Text)
    → ((r : EvidenceNode) × In r rs × (r.id ≡ k) × (get k (insert_records rs m) ≡ some r))
      ⊎ (((r : EvidenceNode) → In r rs → ¬ (r.id ≡ k)) × (get k (insert_records rs m) ≡ get k m))
unfolding insert_records
insert_records-held [] m k = inr (λ r h. absurd h, refl)
insert_records-held (q ∷ rs) m k = elim (insert_records-held rs (insert q.id q m) k) [
  | inl (r, i, same, e) ↦ inl (r, inr i, same, e)
  | inr (others, e) ↦ elim (Bool-cases (is_eq (list_cmp k q.id))) [
    | inl b ↦ inl (
      q,
      inl refl,
      sym (list_cmp-equal k q.id (ground (arith))),
      e ∙ ground (arith, get-insert q.id k q m),
    )
    | inr b ↦ inr (
      λ r h same. elim h [
        | inl p ↦
            let equal : q.id ≡ k = ap (λ n. n.id) (sym p) ∙ same in
            ground (arith, rw equal at b, list_cmp-same k)
        | inr i ↦ others r i same
      ],
      e ∙ ground (arith, get-insert q.id k q m),
    )
  ]
]

-- What `place_edge` and `place_edges` keep: the keys of the edges, and the diagnostics.
place_edge-contains :
    (records : Map Text EvidenceNode) (e : EvidenceEdge)
    (s : Map Text EvidenceEdge × List IngestDiagnostic) (id : Text)
    → contains_key id s.0 ≡ true
    → contains_key id (place_edge records e s).0 ≡ true
unfolding place_edge
place_edge-contains records e s id h = ground (arith, contains_key-insert e.id id e s.0)

place_edge-diagnostics :
    (records : Map Text EvidenceNode) (e : EvidenceEdge)
    (s : Map Text EvidenceEdge × List IngestDiagnostic) (d : IngestDiagnostic)
    → In d s.1
    → In d (place_edge records e s).1
unfolding place_edge
place_edge-diagnostics records e s d h = elim (Bool-cases (joins records e)) [
  | inl b ↦ rw b h
  | inr b ↦ rw b (In-append_left d s.1 (unresolved_reference e ∷ []) h)
]

place_edges-contains :
    (records : Map Text EvidenceNode) (es : List EvidenceEdge)
    (s : Map Text EvidenceEdge × List IngestDiagnostic) (id : Text)
    → contains_key id s.0 ≡ true
    → contains_key id (place_edges records es s).0 ≡ true
unfolding place_edges
place_edges-contains records [] s id h = h
place_edges-contains records (e ∷ es) s id h =
    place_edges-contains records es (place_edge records e s) id
      (place_edge-contains records e s id h)

place_edges-diagnostics :
    (records : Map Text EvidenceNode) (es : List EvidenceEdge)
    (s : Map Text EvidenceEdge × List IngestDiagnostic) (d : IngestDiagnostic)
    → In d s.1
    → In d (place_edges records es s).1
unfolding place_edges
place_edges-diagnostics records [] s d h = h
place_edges-diagnostics records (e ∷ es) s d h =
    place_edges-diagnostics records es (place_edge records e s) d
      (place_edge-diagnostics records e s d h)

-- An edge that joins records is among the edges; any other one is reported.
abbrev pub IsAccounted :
    Map Text EvidenceNode → Map Text EvidenceEdge → List IngestDiagnostic → EvidenceEdge → Type 0
IsAccounted records edges ds e =
    ((joins records e ≡ true) × (contains_key e.id edges ≡ true))
    ⊎ ((joins records e ≡ false) × In (unresolved_reference e) ds)

place_edge-accounts :
    (records : Map Text EvidenceNode) (e : EvidenceEdge)
    (s : Map Text EvidenceEdge × List IngestDiagnostic)
    → IsAccounted records (place_edge records e s).0 (place_edge records e s).1 e
unfolding place_edge
place_edge-accounts records e s = elim (Bool-cases (joins records e)) [
  | inl b ↦ inl (b, ground (arith, contains_key-insert e.id e.id e s.0, list_cmp-same e.id))
  | inr b ↦ inr (
    b,
    rw b (In-append_right (unresolved_reference e) s.1 (unresolved_reference e ∷ []) (inl refl)),
  )
]

place_edges-accounts :
    (records : Map Text EvidenceNode) (es : List EvidenceEdge)
    (s : Map Text EvidenceEdge × List IngestDiagnostic) (e : EvidenceEdge)
    → In e es
    → IsAccounted records (place_edges records es s).0 (place_edges records es s).1 e
unfolding place_edges
place_edges-accounts records [] s e h = absurd h
place_edges-accounts records (f ∷ es) s e (inl p) = rw p (elim (place_edge-accounts records f s) [
  | inl (b, h) ↦ inl (b, place_edges-contains records es (place_edge records f s) f.id h)
  | inr (b, h) ↦
      inr
        (b, place_edges-diagnostics records es (place_edge records f s) (unresolved_reference f) h)
])
place_edges-accounts records (f ∷ es) s e (inr h) =
    place_edges-accounts records es (place_edge records f s) e h

place_conflicts-diagnostics :
    (records : Map Text EvidenceNode) (ks : List Conflict) (ds : List IngestDiagnostic)
    (d : IngestDiagnostic)
    → In d ds
    → In d (place_conflicts records ks ds).1
unfolding place_conflicts
place_conflicts-diagnostics records [] ds d h = h
place_conflicts-diagnostics records (k ∷ ks) ds d h = elim (Bool-cases (opposes records k)) [
  | inl b ↦ rw b (place_conflicts-diagnostics records ks ds d h)
  | inr b ↦ rw b (
      place_conflicts-diagnostics records ks (ds ++ unresolved_conflict k ∷ []) d
        (In-append_left d ds (unresolved_conflict k ∷ []) h))
]

place_conflicts-accounts :
    (records : Map Text EvidenceNode) (ks : List Conflict) (ds : List IngestDiagnostic)
    (k : Conflict)
    → In k ks
    → In k (place_conflicts records ks ds).0
      ⊎ In (unresolved_conflict k) (place_conflicts records ks ds).1
unfolding place_conflicts
place_conflicts-accounts records [] ds k h = absurd h
place_conflicts-accounts records (j ∷ ks) ds k h = elim (Bool-cases (opposes records j)) [
  | inl b ↦ rw b (elim h [
    | inl e ↦ inl (inl e)
    | inr m ↦ elim (place_conflicts-accounts records ks ds k m) [
      | inl l ↦ inl (inr l)
      | inr r ↦ inr r
    ]
  ])
  | inr b ↦
      let ds' = ds ++ unresolved_conflict j ∷ [] in
      rw b (elim h [
        | inl e ↦ inr (
            place_conflicts-diagnostics records ks ds' (unresolved_conflict k) (
              In-append_right (unresolved_conflict k) ds (unresolved_conflict j ∷ [])
                (inl (rw e refl))))
        | inr m ↦ place_conflicts-accounts records ks ds' k m
      ])
]

-- The identifier is that of a commit, and its record is the commit's.
abbrev pub HeldByCommit : Library → List CommitEvidence → Text → Map Text EvidenceNode → Type 0
HeldByCommit lib commits id records =
    (c : CommitEvidence) × In c commits × (c.id ≡ id) × (get id records ≡ some (commit_node lib c))

-- The identifier is that of an ingested record, which is its record.
abbrev pub HeldByRecord : List EvidenceNode → Text → Map Text EvidenceNode → Type 0
HeldByRecord ingested id records =
    (r : EvidenceNode) × In r ingested × (r.id ≡ id) × (get id records ≡ some r)

module _ (lib : Library) (commits : List CommitEvidence) (ingested : List EvidenceNode) where
  commit-held :
      (c : CommitEvidence)
      → In c commits
      → HeldByCommit lib commits c.id
          (insert_records (map (commit_node lib) commits) (insert_records ingested []))
  unfolding commit_node
  commit-held c h =
      let nodes = map (commit_node lib) commits in
      elim (insert_records-held nodes (insert_records ingested []) c.id) [
        | inl (r, i, same, e) ↦
            let (d, j, p) = In-map_back (commit_node lib) r commits i in
            (d, j, ap (λ n. n.id) (sym p) ∙ same, e ∙ ap (λ n. some n) p)
        | inr (others, e) ↦
            absurd (others (commit_node lib c) (In-map (commit_node lib) c commits h) refl)
      ]

  record-held :
      (r : EvidenceNode)
      → In r ingested
      → (let records =
            insert_records (map (commit_node lib) commits) (insert_records ingested []) in
          HeldByCommit lib commits r.id records ⊎ HeldByRecord ingested r.id records)
  unfolding commit_node
  record-held r h =
      let nodes = map (commit_node lib) commits in
      elim (insert_records-held nodes (insert_records ingested []) r.id) [
        | inl (n, i, same, e) ↦
            let (d, j, p) = In-map_back (commit_node lib) n commits i in
            inl (d, j, ap (λ n. n.id) (sym p) ∙ same, e ∙ ap (λ n. some n) p)
        | inr (others, e) ↦ elim (insert_records-held ingested [] r.id) [
          | inl (q, i, same, f) ↦ inr (q, i, same, e ∙ f)
          | inr (none_there, f) ↦ absurd (none_there r h refl)
        ]
      ]

-- What becomes of the inputs of `prepare_evidence`.
pub record KeepsInputs (lib : Library) (commits : List CommitEvidence) (ingested : IngestResult)
    (diagnostics : List IngestDiagnostic) (evidence : PreparedEvidence) : Type 0 where
  pub commits_there :
      (c : CommitEvidence) → In c commits → HeldByCommit lib commits c.id evidence.records
  pub records_there :
      (r : EvidenceNode)
      → In r ingested.records
      → HeldByCommit lib commits r.id evidence.records
        ⊎ HeldByRecord ingested.records r.id evidence.records
  pub edges_accounted :
      (e : EvidenceEdge)
      → In e (ingested.edges ++ commit_edges lib commits)
      → IsAccounted evidence.records evidence.edges evidence.diagnostics e
  pub conflicts_accounted :
      (k : Conflict)
      → In k ingested.conflicts
      → In k evidence.conflicts ⊎ In (unresolved_conflict k) evidence.diagnostics
  pub diagnostics_there :
      (d : IngestDiagnostic)
      → In d (diagnostics ++ ingested.diagnostics)
      → In d evidence.diagnostics

-- Under the identifier of a commit stands the record of a commit with it. Under the identifier of an ingested
-- record stands the record of a commit with it, which replaces the ingested one without a report, or else an
-- ingested record with it. Every proposed edge, of the documents or of a commit's message, is among the edges
-- if both its ends are records and is reported else. Every conflict is kept or reported, and no diagnostic is
-- lost.
pub prepare_evidence-KeepsInputs :
    (lib : Library) (commits : List CommitEvidence) (ingested : IngestResult)
    (diagnostics : List IngestDiagnostic)
    → KeepsInputs lib commits ingested diagnostics
        (prepare_evidence lib commits ingested diagnostics)
unfolding prepare_evidence commit_node
prepare_evidence-KeepsInputs lib commits ingested diagnostics =
    let nodes = map (commit_node lib) commits in
    let documents = insert_records ingested.records [] in
    let records = insert_records nodes documents in
    let proposed = ingested.edges ++ commit_edges lib commits in
    let start = diagnostics ++ ingested.diagnostics in
    let placed = place_edges records proposed ([], start) in
    record {
      commits_there = commit-held lib commits ingested.records;
      records_there = record-held lib commits ingested.records;
      edges_accounted = λ e h. elim (place_edges-accounts records proposed ([], start) e h) [
        | inl there ↦ inl there
        | inr (b, m) ↦ inr (
          b,
          place_conflicts-diagnostics records ingested.conflicts placed.1 (unresolved_reference e)
              m,
        )
      ];
      conflicts_accounted = λ k h. place_conflicts-accounts records ingested.conflicts placed.1 k h;
      diagnostics_there = λ d h.
          place_conflicts-diagnostics records ingested.conflicts placed.1 d
            (place_edges-diagnostics records proposed ([], start) d h);
    }
