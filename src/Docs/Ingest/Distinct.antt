-- ===== src/Docs/Ingest/Distinct.antt =====
-- crates/rationale-docs/src/lib.rs: the result of `ingest` has one record for each identifier.
use rationale.Prelude.{
  ℕ, suc, some, List, [], ◌∷◌, ◌≡◌, refl, ap, inl, inr, In, In-map_back, All-In, Option-cases,
  arith,
}
use rationale.Order.{Ord, list_ord, nat_ord}
use rationale.Map.{Map, get, values, IsSorted}
use rationale.Map.Laws.{insert-IsSorted}
use rationale.Text.{Text}
use rationale.Model.{EvidenceNode}
use rationale.Docs.{DocumentInput, IngestConfig, ParsedInput, Formats}
use rationale.Docs.Ingest.{
  EvidenceNode-discrete, Batch, add_links, take_again, take_parsed, ingest_one, ingest_from,
}
use rationale.Docs.Ingest.Grows.{
  Reading, refused, passed_over, evidence, reading, apply, ingest_one-apply,
}

take_again-records :
    (path : Text) (parsed : ParsedInput) (b : Batch) {old : EvidenceNode}
    (same : Dec (old ≡ parsed.node))
    → (take_again path parsed b same).records ≡ b.records
unfolding take_again add_links
take_again-records path parsed b (yes same) = refl
take_again-records path parsed b (no other) = refl

apply-IsSorted : (r : Reading) (b : Batch) → IsSorted b.records → IsSorted (apply r b).records
unfolding take_parsed add_links
apply-IsSorted (refused path code message) b s = s
apply-IsSorted passed_over b s = s
apply-IsSorted (evidence path parsed) b s = elim (Option-cases (get parsed.node.id b.records)) [
  | inl e ↦ rw (e, take_parsed) (insert-IsSorted parsed.node.id parsed.node b.records s)
  | inr (old, e) ↦
      rw (e, take_parsed, take_again-records path parsed b (EvidenceNode-discrete old parsed.node))
        s
]

pub ingest_from-IsSorted :
    (config : IngestConfig) (formats : Formats) (index : ℕ) (inputs : List DocumentInput)
    (b : Batch)
    → IsSorted b.records
    → IsSorted (ingest_from config formats index inputs b).records
unfolding ingest_from
ingest_from-IsSorted config formats index [] b s = s
ingest_from-IsSorted config formats index (input ∷ inputs) b s =
    let next : IsSorted (ingest_one config formats index input b).records =
      rw (ingest_one-apply config formats index input b)
        (apply-IsSorted (reading config formats index input) b s) in
    ingest_from-IsSorted config formats (suc index) inputs (ingest_one config formats index input b)
      next

get-of_In :
    {K V : Type 0} ⦃o : Ord K⦄ (k : K) (v : V) (m : Map K V)
    → IsSorted m
    → In (k, v) m
    → get k m ≡ some v
unfolding get
get-of_In ⦃o⦄ k v [] s h = absurd h
get-of_In ⦃o⦄ k v ((j, w) ∷ m) s (inl e) =
    rw (ap (λ p. p.0) e, ap (λ p. p.1) e) (ground (arith, o.same j))
get-of_In ⦃o⦄ k v ((j, w) ∷ m) s (inr h) = ground (
  arith,
  get-of_In k v m s.1 h,
  o.swapped j k,
  o.same k,
  All-In (λ e. o.cmp j e.0 ≡ Prim.Native.Nat.Ordering.lt) (k, v) m s.0 h,
)

-- In a sorted map whose keys are the identifiers, a record is found by its identifier.
pub get-of_value :
    (n : EvidenceNode) (m : Map Text EvidenceNode)
    → IsSorted m
    → ((k : Text) (r : EvidenceNode) → In (k, r) m → k ≡ r.id)
    → In n (values m)
    → get n.id m ≡ some n
get-of_value n m s keyed h =
    let (e, i, same) = In-map_back (λ e. e.1) n m h in
    let found : get e.0 m ≡ some e.1 = get-of_In e.0 e.1 m s i in rw (same, ← keyed e.0 e.1 i) found
