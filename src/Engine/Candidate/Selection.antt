-- ===== src/Engine/Candidate/Selection.antt =====
-- Which records become candidates, and in which order.
use rationale.Prelude.{
  ℕ, zero, suc, All-In, ◌≤◌, ◌≡◌, refl, true, false, Option, some, List, [], ◌∷◌, All, All-take,
  All-map, In, length, length-take, take, ◌⊎◌, inl, inr, Option-cases, arith, ap,
}
use rationale.Prelude.Int.{ℤ}
use rationale.Order.{list_ord, nat_ord, list_cmp-swapped, list_cmp-chained, list_cmp-equal}
use rationale.Set.{Set, has}
use rationale.Sort.{sort_by, Ordered, IsOrder}
use rationale.Sort.Laws.{sort_by-All, sort_by-Ordered, Ordered-take, In-sort_by}
use rationale.Text.{Text}
use rationale.Model.{EvidenceNode, RecordStatus}
use rationale.Engine.Candidate.{
  CandidateView, CandidateQuery, max_candidates, Ranking, components_of, is_relevant, view_of,
  consider, consider_all, not_after, rank_candidates, newest_of, or_zero,
}

not_after-total : (x y : CandidateView) → not_after x y ≡ false → not_after y x ≡ true
unfolding not_after
not_after-total x y h = ground (arith, list_cmp-swapped x.record_id y.record_id)

not_after-chain :
    (x y z : CandidateView) → not_after x y ≡ true → not_after y z ≡ true → not_after x z ≡ true
unfolding not_after
not_after-chain x y z h k = ground (
  arith,
  list_cmp-chained x.record_id y.record_id z.record_id,
  list_cmp-equal x.record_id y.record_id,
  list_cmp-equal y.record_id z.record_id,
)

not_after-IsOrder : IsOrder not_after
not_after-IsOrder = record { total = not_after-total; chain = not_after-chain }

-- What a candidate is: the view of a current record that is not excluded and shares something with
-- the query.
pub record IsCandidate (k : Ranking) (records : List EvidenceNode) (v : CandidateView)
    : Type 0 where
  pub source : EvidenceNode
  pub present : In source records
  pub included : has source.id k.excluded ≡ false
  pub current : source.status ≡ RecordStatus.current
  pub relevant : is_relevant (components_of k source) ≡ true
  pub viewed : v ≡ view_of source (components_of k source)

module _ (k : Ranking) where
  consider-IsCandidate :
      (r : EvidenceNode) (rs : List EvidenceNode) (v : CandidateView)
      → consider k r ≡ some v
      → IsCandidate k (r ∷ rs) v
  unfolding consider
  consider-IsCandidate r rs v h = record {
    source = r;
    present = inl refl;
    included = ground arith;
    current = ground arith;
    relevant = ground arith;
    viewed = ground arith;
  }

  wider :
      (r : EvidenceNode) (rs : List EvidenceNode) (v : CandidateView)
      → IsCandidate k rs v
      → IsCandidate k (r ∷ rs) v
  wider r rs v c = record {
    source = c.source;
    present = inr c.present;
    included = c.included;
    current = c.current;
    relevant = c.relevant;
    viewed = c.viewed;
  }

  consider_all-IsCandidate : (rs : List EvidenceNode) → All (IsCandidate k rs) (consider_all k rs)
  unfolding consider_all
  consider_all-IsCandidate [] = tt
  consider_all-IsCandidate (r ∷ rs) =
      let later = All-map _ _ (wider r rs) (consider_all k rs) (consider_all-IsCandidate rs) in
      elim (Option-cases (consider k r)) [
        | inl e ↦ rw (e, consider_all) later
        | inr (v, e) ↦ rw (e, consider_all) (consider-IsCandidate r rs v e, later)
      ]

  In-consider_all :
      (r : EvidenceNode) (rs : List EvidenceNode) (v : CandidateView)
      → In r rs
      → consider k r ≡ some v
      → In v (consider_all k rs)
  unfolding consider_all
  In-consider_all r (q ∷ rs) v (inl e) h = rw (← e, h, consider_all) (inl refl)
  In-consider_all r (q ∷ rs) v (inr m) h = elim (Option-cases (consider k q)) [
    | inl e ↦ rw (e, consider_all) (In-consider_all r rs v m h)
    | inr (u, e) ↦ rw (e, consider_all) (inr (In-consider_all r rs v m h))
  ]
  In-consider_all r [] v m h = absurd m

-- An element of an ordered list is among the first `n`, or the first `n` are not after it and there
-- are `n` of them.
take_or_after :
    (n : ℕ) (v : CandidateView) (xs : List CandidateView)
    → Ordered not_after xs
    → In v xs
    → In v (take n xs) ⊎ (All (λ u. not_after u v ≡ true) (take n xs) × (length (take n xs) ≡ n))
take_or_after zero v xs s m = inr (tt, refl)
take_or_after (suc n) v [] s m = absurd m
take_or_after (suc n) v (x ∷ xs) s (inl e) = inl (inl e)
take_or_after (suc n) v (x ∷ xs) s (inr m) = elim (take_or_after n v xs s.1 m) [
  | inl l ↦ inl (inr l)
  | inr (a, e) ↦ inr ((All-In _ v xs s.0 m, a), ap suc e)
]

abbrev pub ranking_of : (Text → Option ℤ) → CandidateQuery → List EvidenceNode → Set Text → Ranking
ranking_of parse_second query records excluded = record {
  parse_second = parse_second;
  query = query;
  newest = or_zero (newest_of parse_second records);
  excluded = excluded;
}

module _ (parse_second : Text → Option ℤ) (query : CandidateQuery) (records : List EvidenceNode)
    (excluded : Set Text) where
  -- Every suggestion is the view of a current, relevant record of the input that is not excluded;
  -- there are at most ten, and each ranks no later than those behind it.
  pub rank_candidates_sound :
      All
        (IsCandidate (ranking_of parse_second query records excluded) records)
        (rank_candidates parse_second query records excluded)
      × (length (rank_candidates parse_second query records excluded) ≤ max_candidates)
      × Ordered not_after (rank_candidates parse_second query records excluded)
  unfolding rank_candidates
  rank_candidates_sound =
      let k = ranking_of parse_second query records excluded in
      let found = consider_all k records in
      (
        All-take _ max_candidates (sort_by not_after found)
            (sort_by-All not_after _ found (consider_all-IsCandidate k records)),
        omega (arith, length-take max_candidates (sort_by not_after found)),
        Ordered-take not_after max_candidates (sort_by not_after found)
            (sort_by-Ordered not_after not_after-IsOrder found),
      )

  -- A record that is considered is suggested, or ten suggestions rank no later than it.
  pub rank_candidates_complete :
      (r : EvidenceNode) (v : CandidateView)
      → In r records
      → consider (ranking_of parse_second query records excluded) r ≡ some v
      → In v (rank_candidates parse_second query records excluded)
        ⊎ (All (λ u. not_after u v ≡ true) (rank_candidates parse_second query records excluded)
            × (length (rank_candidates parse_second query records excluded) ≡ max_candidates))
  unfolding rank_candidates
  rank_candidates_complete r v m h =
      let k = ranking_of parse_second query records excluded in
      take_or_after max_candidates v _
        (sort_by-Ordered not_after not_after-IsOrder (consider_all k records))
        (In-sort_by not_after v (consider_all k records) (In-consider_all k r records v m h))
