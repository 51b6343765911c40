-- ===== src/Github/Normalize/Closed.antt =====
-- crates/rationale-github/src/normalize.rs: the edges of a normalized batch stay inside it.
use rationale.Prelude.{
  ℕ, Bool, true, false, not, ◌≡◌, refl, sym, ap, ◌∙◌, List, [], ◌∷◌, map, any, keep, All, All-map,
  All-In, In, In-map, In-keep, ◌⊎◌, inl, inr, Bool-cases, if◌then◌else◌, arith,
}
use rationale.Order.{is_eq, list_ord, nat_ord, list_cmp-same, compare-equal}
use rationale.Map.{Map, get, insert, contains_key, or_insert, values}
use rationale.Map.Laws.{
  insert-All, or_insert-All, contains_key-insert, contains_key-or_insert, get-contains_key, In-get,
  All-values,
}
use rationale.Set.{Set, has, has-extend}
use rationale.Text.{Text}
use rationale.Model.{NodeKind, EdgeKind, Origin, EvidenceNode, EvidenceEdge}
use rationale.Github.{RateLimit, GithubCursor}
use rationale.Github.Remote.{GithubRepository}
use rationale.Engine.Evidence.{Library, evidence_edge}
use rationale.Github.Normalize.{
  ApiItem, ApiCommit, github_origin, issue_id, pull_id, Graph, remote_node, link, resolve_issues,
  include_commits, or_empty, commits_of, explicit_closing_references, add_item, add_items,
  issue_numbers, build_evidence,
}

-- The issues of the batch, which may come after the pull requests that name them.
abbrev IsIssue : Set ℕ → Text → Type 0
IsIssue known t = (n : ℕ) × (has n known ≡ true) × (t ≡ issue_id n)

abbrev HasEnds : Set ℕ → Map Text EvidenceNode → Text × EvidenceEdge → Type 0
HasEnds known nodes e =
    (contains_key e.1.source_id nodes ≡ true)
    × ((contains_key e.1.target_id nodes ≡ true) ⊎ IsIssue known e.1.target_id)

abbrev IsOwn : Text × EvidenceNode → Type 0
IsOwn e = e.0 ≡ e.1.id

record IsGood (known : Set ℕ) (g : Graph) : Type 0 where
  own : All IsOwn g.0
  ends : All (HasEnds known g.0) g.1

abbrev Stays : Map Text EvidenceNode → Map Text EvidenceNode → Type 0
Stays m n = (k : Text) → contains_key k m ≡ true → contains_key k n ≡ true

HasEnds-Stays :
    (known : Set ℕ) (m n : Map Text EvidenceNode) (es : Map Text EvidenceEdge)
    → Stays m n
    → All (HasEnds known m) es
    → All (HasEnds known n) es
HasEnds-Stays known m n es stays h =
    All-map (HasEnds known m) (HasEnds known n)
      (λ e p.
        (stays e.1.source_id p.0, elim p.1 [ inl t ↦ inl (stays e.1.target_id t) | inr i ↦ inr i ]))
      es h

link-IsGood :
    (known : Set ℕ) (e : EvidenceEdge) (g : Graph)
    → HasEnds known g.0 (e.id, e)
    → IsGood known g
    → IsGood known (link e g)
link-IsGood known e g h good = record {
  own = good.own;
  ends = insert-All (HasEnds known g.0) e.id e g.1 h good.ends;
}

resolve_issues-IsGood :
    (lib : Library) (known : Set ℕ) (id : Text) (origin : Origin) (ns : List ℕ) (g : Graph)
    → contains_key id g.0 ≡ true
    → IsGood known g
    → IsGood known (resolve_issues lib known id origin ns g)
      × ((resolve_issues lib known id origin ns g).0 ≡ g.0)
unfolding resolve_issues evidence_edge
resolve_issues-IsGood lib known id origin [] g there good = (good, refl)
resolve_issues-IsGood lib known id origin (n ∷ ns) g there good = elim (Bool-cases (has n known)) [
  | inl b ↦
      let e = evidence_edge lib EdgeKind.resolves_issue id (issue_id n) origin in
      rw (b, resolve_issues)
        (resolve_issues-IsGood lib known id origin ns (link e g) there
          (link-IsGood known e g (there, inr (n, b, refl)) good))
  | inr b ↦ rw (b, resolve_issues) (resolve_issues-IsGood lib known id origin ns g there good)
]

include_commits-IsGood :
    (lib : Library) (known : Set ℕ) (id : Text) (origin : Origin) (cs : List ApiCommit) (g : Graph)
    → contains_key id g.0 ≡ true
    → IsGood known g
    → IsGood known (include_commits lib id origin cs g)
      × Stays g.0 (include_commits lib id origin cs g).0
unfolding include_commits evidence_edge
include_commits-IsGood lib known id origin [] g there good = (good, λ k h. h)
include_commits-IsGood lib known id origin (c ∷ cs) g there good =
    let node = remote_node NodeKind.change c.sha (github_origin c.html_url) in
    let nodes = or_insert c.sha node g.0 in
    let e = evidence_edge lib EdgeKind.included_in_pr c.sha id origin in
    let stays : Stays g.0 nodes = λ k h. ground (arith, contains_key-or_insert c.sha k node g.0) in
    let own_sha : contains_key c.sha nodes ≡ true =
      ground (arith, contains_key-or_insert c.sha c.sha node g.0, list_cmp-same c.sha) in
    let wider : IsGood known (nodes, g.1) = record {
      own = or_insert-All IsOwn c.sha node g.0 refl good.own;
      ends = HasEnds-Stays known g.0 nodes g.1 stays good.ends;
    } in
    let (end, later) =
      include_commits-IsGood lib known id origin cs (link e (nodes, g.1)) (stays id there)
        (link-IsGood known e (nodes, g.1) (own_sha, inl (stays id there)) wider) in
    (end, λ k h. later k (stays k h))

if-both : {A : Type 0} (P : A → Type 0) (b : Bool) (x y : A) → P x → P y → P (if b then x else y)
if-both P true x y p q = p
if-both P false x y p q = q

abbrev id_of : ApiItem → Text
id_of item = if item.is_pull then pull_id item.number else issue_id item.number

module _ (lib : Library) (repository : GithubRepository) (known : Set ℕ)
    (commits : Map ℕ (List ApiCommit)) where
  add_item-IsGood :
      (item : ApiItem) (g : Graph)
      → IsGood known g
      → IsGood known (add_item lib repository known commits item g)
        × Stays g.0 (add_item lib repository known commits item g).0
        × (contains_key (id_of item) (add_item lib repository known commits item g).0 ≡ true)
  unfolding add_item
  add_item-IsGood item g good =
      let id = id_of item in
      let origin = github_origin item.html_url in
      let node =
        remote_node (if item.is_pull then NodeKind.review else NodeKind.work_item) id origin in
      let nodes = insert id node g.0 in
      let stays : Stays g.0 nodes = λ k h. ground (arith, contains_key-insert id k node g.0) in
      let there : contains_key id nodes ≡ true =
        ground (arith, contains_key-insert id id node g.0, list_cmp-same id) in
      let start : IsGood known (nodes, g.1) = record {
        own = insert-All IsOwn id node g.0 refl good.own;
        ends = HasEnds-Stays known g.0 nodes g.1 stays good.ends;
      } in
      let ns = explicit_closing_references (or_empty item.body) repository in
      let resolved = resolve_issues lib known id origin ns (nodes, g.1) in
      let (good', same) = resolve_issues-IsGood lib known id origin ns (nodes, g.1) there start in
      let still : contains_key id resolved.0 ≡ true = rw same there in
      let (end, later) =
        include_commits-IsGood lib known id origin (commits_of (get item.number commits)) resolved
          still good' in
      if-both (λ h. IsGood known h × Stays g.0 h.0 × (contains_key id h.0 ≡ true)) item.is_pull
        (include_commits lib id origin (commits_of (get item.number commits)) resolved) (nodes, g.1)
        (end, λ k h. later k (rw same (stays k h)), later id still) (start, stays, there)

  add_items-IsGood :
      (items : List ApiItem) (g : Graph)
      → IsGood known g
      → IsGood known (add_items lib repository known commits items g)
        × Stays g.0 (add_items lib repository known commits items g).0
        × ((item : ApiItem)
            → In item items
            → contains_key (id_of item) (add_items lib repository known commits items g).0 ≡ true)
  unfolding add_items
  add_items-IsGood [] g good = (good, λ k h. h, λ item h. absurd h)
  add_items-IsGood (first ∷ items) g good =
      let (one, stays, there) = add_item-IsGood first g good in
      let (end, later, all) =
        add_items-IsGood items (add_item lib repository known commits first g) one in
      (
        end,
        λ k h. later k (stays k h),
        λ item h. elim h [ inl e ↦ rw e (later (id_of first) there) | inr m ↦ all item m ],
      )

-- A number of the set belongs to an issue of the batch.
any-elim :
    {A : Type 0} (p : A → Bool) (xs : List A) → any p xs ≡ true → (x : A) × In x xs × (p x ≡ true)
any-elim p [] h = ground (arith)
any-elim p (x ∷ xs) h = elim (Bool-cases (p x)) [
  | inl b ↦ (x, inl refl, b)
  | inr b ↦ let (y, m, q) = any-elim p xs (ground (arith)) in (y, inr m, q)
]

In-map_elim :
    {A B : Type 0} (f : A → B) (y : B) (xs : List A)
    → In y (map f xs)
    → (x : A) × In x xs × (y ≡ f x)
In-map_elim f y [] h = absurd h
In-map_elim f y (x ∷ xs) (inl e) = (x, inl refl, e)
In-map_elim f y (x ∷ xs) (inr h) = let (z, m, e) = In-map_elim f y xs h in (z, inr m, e)

issue_there :
    (items : List ApiItem) (n : ℕ)
    → has n (issue_numbers items) ≡ true
    → (item : ApiItem) × In item items × (id_of item ≡ issue_id n)
unfolding has
issue_there items n h =
    let numbers = map (λ i. i.number) (keep (λ i. not i.is_pull) items) in
    let found : any (λ k. is_eq (nat_ord.cmp n k)) numbers ≡ true =
      ground (arith, has-extend n [] numbers) in
    let (k, m, same) = any-elim (λ k. is_eq (nat_ord.cmp n k)) numbers found in
    let (item, kept, number) = In-map_elim (λ i. i.number) k (keep (λ i. not i.is_pull) items) m in
    let (there, open_issue) = In-keep (λ i. not i.is_pull) item items kept in
    let equal : n ≡ item.number = compare-equal n k (ground (arith)) ∙ number in
    let pull : item.is_pull ≡ false = ground (arith, open_issue) in
    (
      item,
      there,
      ap (λ b. if b then pull_id item.number else issue_id item.number) pull
          ∙ ap (λ j. issue_id j) (sym equal),
    )

In-ids :
    (k : Text) (m : Map Text EvidenceNode)
    → All IsOwn m
    → contains_key k m ≡ true
    → In k (map (λ r. r.id) (values m))
In-ids k m own h =
    let (r, g) = get-contains_key k m h in
    let entry = In-get k r m g in
    let same : k ≡ r.id = All-In IsOwn (k, r) m own entry in
    rw same (In-map (λ r. r.id) r (values m) (In-map (λ e. e.1) (k, r) m entry))

-- Whatever the items and commits are, both ends of each edge are records of the same contribution, so
-- that merging it drops none of its edges.
pub build_evidence-IsInside :
    (lib : Library) (repository : GithubRepository) (items : List ApiItem)
    (commits : Map ℕ (List ApiCommit)) (cursor : GithubCursor) (rate_limit : RateLimit)
    → (let evidence = build_evidence lib repository items commits cursor rate_limit in
        All
          (λ e.
            In e.source_id (map (λ r. r.id) evidence.records)
            × In e.target_id (map (λ r. r.id) evidence.records))
          evidence.edges)
unfolding build_evidence
build_evidence-IsInside lib repository items commits cursor rate_limit =
    let known = issue_numbers items in
    let (good, stays, there) =
      add_items-IsGood lib repository known commits items ([], [])
        (record { own = tt; ends = tt }) in
    let g = add_items lib repository known commits items ([], []) in
    All-values (HasEnds known g.0)
      (λ e.
        In e.source_id (map (λ r. r.id) (values g.0))
        × In e.target_id (map (λ r. r.id) (values g.0)))
      (λ e h. (
        In-ids e.1.source_id g.0 good.own h.0,
        In-ids e.1.target_id g.0 good.own (elim h.1 [
          | inl t ↦ t
          | inr (n, m, same) ↦
              let (item, listed, id) = issue_there items n m in rw (same, ← id) (there item listed)
        ]),
      ))
      g.1 good.ends
