-- ===== src/Engine/Attach/Request.antt =====
-- crates/rationale-engine/src/lib.rs: what the request of `why` holds of the slice and of the target.
use rationale.Prelude.{
  true, ◌≡◌, refl, sym, List, [], ◌∷◌, All, All-map, All-In, In, In-map, map, arith,
}
use rationale.Order.{list_ord, nat_ord, list_cmp-same}
use rationale.Map.{Map, insert, contains_key, or_insert, values}
use rationale.Map.Laws.{
  insert-All, or_insert-All, contains_key-insert, contains_key-or_insert, get-contains_key, In-get,
}
use rationale.Text.{Text}
use rationale.Model.{protocol_version, NodeKind, EvidenceNode, EvidenceEdge, Origin, KernelRequest}
use rationale.Git.{LineAttribution, ResolvedTarget, commit, lines}
use rationale.Store.Types.{GraphSlice}
use rationale.Engine.Evidence.{Library, commit_node}
use rationale.Engine.Evidence.Closure.{IsKeyed}
use rationale.Engine.Attach.{
  attributed_node, attach_attributions, lines_id, lines_origin, lines_node, attach_target,
  insert_nodes, insert_edges, request_of,
}
use rationale.Engine.Suggest.New.{commits_of}

-- A node of the request has this identifier.
abbrev pub Names : KernelRequest → Text → Type 0
Names request id = (n : EvidenceNode) × In n request.nodes × (n.id ≡ id)

-- The request is about the slice and the target: it names what the target resolves to.
pub record IsRequest (evidence : ResolvedTarget) (slice : GraphSlice) (request : KernelRequest)
    : Type 0 where
  pub this_version : request.protocol_version ≡ protocol_version
  pub same_snapshot : request.snapshot_id ≡ slice.snapshot_id
  pub same_conflicts : request.conflicts ≡ slice.conflicts
  pub anchors : request.goal.anchor_kinds ≡ NodeKind.decision ∷ NodeKind.work_item ∷ []
  pub slice_named : All (λ n. Names request n.id) slice.nodes
  pub target_named : Names request request.goal.target_id
  pub commits_named : All (Names request) (commits_of evidence)

-- Every entry stands under its identifier, and these identifiers are there.
record Has (ids : List Text) (m : Map Text EvidenceNode) : Type 0 where
  keyed : All IsKeyed m
  there : All (λ id. contains_key id m ≡ true) ids

empty-Has : Has [] []
empty-Has = record { keyed = tt; there = tt }

Has-insert :
    (ids : List Text) (n : EvidenceNode) (m : Map Text EvidenceNode)
    → Has ids m
    → Has (n.id ∷ ids) (insert n.id n m)
Has-insert ids n m h = record {
  keyed = insert-All IsKeyed n.id n m refl h.keyed;
  there = (
    ground (arith, contains_key-insert n.id n.id n m, list_cmp-same n.id),
    All-map _ _ (λ id b. ground (arith, contains_key-insert n.id id n m)) ids h.there,
  );
}

Has-or_insert :
    (ids : List Text) (n : EvidenceNode) (m : Map Text EvidenceNode)
    → Has ids m
    → Has (n.id ∷ ids) (or_insert n.id n m)
Has-or_insert ids n m h = record {
  keyed = or_insert-All IsKeyed n.id n m refl h.keyed;
  there = (
    ground (arith, contains_key-or_insert n.id n.id n m, list_cmp-same n.id),
    All-map _ _ (λ id b. ground (arith, contains_key-or_insert n.id id n m)) ids h.there,
  );
}

-- In the order in which they were added.
abbrev rev_onto : List Text → List Text → List Text
rev_onto [] ids = ids
rev_onto (id ∷ more) ids = rev_onto more (id ∷ ids)

All-rev_onto :
    (P : Text → Type 0) (more ids : List Text) → All P (rev_onto more ids) → All P more × All P ids
All-rev_onto P [] ids h = (tt, h)
All-rev_onto P (id ∷ more) ids h = let (a, b) = All-rev_onto P more (id ∷ ids) h in ((b.0, a), b.1)

insert_nodes-Has :
    (ns : List EvidenceNode) (ids : List Text) (m : Map Text EvidenceNode)
    → Has ids m
    → Has (rev_onto (map (λ n. n.id) ns) ids) (insert_nodes ns m)
unfolding insert_nodes
insert_nodes-Has [] ids m h = h
insert_nodes-Has (n ∷ ns) ids m h =
    insert_nodes-Has ns (n.id ∷ ids) (insert n.id n m) (Has-insert ids n m h)

attach_attributions-Has :
    (lib : Library) (id : Text) (origin : Origin) (rest : List LineAttribution) (ids : List Text)
    (g : Map Text EvidenceNode × Map Text EvidenceEdge)
    → Has ids g.0
    → Has (rev_onto (map (λ a. a.commit_id) rest) ids) (attach_attributions lib id origin rest g).0
unfolding attach_attributions
attach_attributions-Has lib id origin [] ids g h = h
attach_attributions-Has lib id origin (a ∷ rest) ids g h =
    attach_attributions-Has lib id origin rest (a.commit_id ∷ ids) _
      (Has-or_insert ids (attributed_node a.commit_id) g.0 h)

-- The target, its commits and the slice, all in the graph of the request.
attach_target-Has :
    (lib : Library) (evidence : ResolvedTarget) (ids : List Text)
    (g : Map Text EvidenceNode × Map Text EvidenceEdge)
    → Has ids g.0
    → Has
        (rev_onto (commits_of evidence) ((attach_target lib evidence g).0 ∷ ids))
        (attach_target lib evidence g).1.0
unfolding attach_target commit_node
attach_target-Has lib (commit root c) ids g h =
    let once = Has-or_insert ids (commit_node lib c) g.0 h in
    record { keyed = once.keyed; there = (once.there.0, once.there) }
attach_target-Has lib (lines l) ids g h =
    attach_attributions-Has lib (lines_id lib l) (lines_origin l) l.introduced_by
      (lines_id lib l ∷ ids) _ (Has-insert ids (lines_node lib l) g.0 h)

All-of_map :
    {A : Type 0} (P : Text → Type 0) (f : A → Text) (xs : List A)
    → All P (map f xs)
    → All (λ x. P (f x)) xs
All-of_map P f [] h = tt
All-of_map P f (x ∷ xs) h = (h.0, All-of_map P f xs h.1)

value_of_key :
    (m : Map Text EvidenceNode) (id : Text)
    → All IsKeyed m
    → contains_key id m ≡ true
    → (n : EvidenceNode) × In n (values m) × (n.id ≡ id)
value_of_key m id keyed b =
    let (n, e) = get-contains_key id m b in
    let entry = In-get id n m e in
    (n, In-map (λ e. e.1) (id, n) m entry, sym (All-In IsKeyed (id, n) m keyed entry))

-- The request for a target and a slice has this version of the protocol, the slice's snapshot and conflicts,
-- and asks for decisions and work items. Every node of the slice, the target and every commit that the target
-- resolves to are among its nodes, by their identifiers.
pub request_of-IsRequest :
    (lib : Library) (target : Text) (evidence : ResolvedTarget) (slice : GraphSlice)
    → IsRequest evidence slice (request_of lib target evidence slice)
unfolding request_of
request_of-IsRequest lib target evidence slice =
    let start : Map Text EvidenceNode × Map Text EvidenceEdge =
      (insert_nodes slice.nodes [], insert_edges slice.edges []) in
    let nodes = (attach_target lib evidence start).1.0 in
    let first = insert_nodes-Has slice.nodes [] [] empty-Has in
    let all_there = attach_target-Has lib evidence _ start first in
    let named = All-map _ _ (λ id b. value_of_key nodes id all_there.keyed b) _ all_there.there in
    let (commits, rest) = All-rev_onto _ (commits_of evidence) _ named in
    record {
      this_version = refl;
      same_snapshot = refl;
      same_conflicts = refl;
      anchors = refl;
      slice_named =
          All-of_map _ (λ n. n.id) slice.nodes
            (All-rev_onto _ (map (λ n. n.id) slice.nodes) [] rest.1).0;
      target_named = rest.0;
      commits_named = commits;
    }
