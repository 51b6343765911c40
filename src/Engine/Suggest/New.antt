-- ===== src/Engine/Suggest/New.antt =====
-- crates/rationale-engine/src/lib.rs: suggestions stand beside a proof with gaps only, and repeat
-- nothing that the answer names already.
use rationale.Prelude.{
  ◌⊎◌, ℕ, true, false, ◌≡◌, refl, ap, Option, List, [], ◌∷◌, map, any, length, ◌≤◌, All, All-map,
  In, inl, inr, arith,
}
use rationale.Prelude.Int.{ℤ}
use rationale.Order.{is_eq, list_ord, nat_ord, list_cmp, list_cmp-same}
use rationale.Set.{Set, has, extend, has-extend, has-add_here, has-add}
use rationale.Text.{Text}
use rationale.Model.{EvidenceNode, KernelResponse, proof, error, ProofResult, Verdict}
use rationale.Git.{ResolvedTarget, commit, lines}
use rationale.Engine.Candidate.{
  CandidateQuery, CandidateView, max_candidates, view_of, rank_candidates,
}
use rationale.Engine.Candidate.Selection.{IsCandidate, ranking_of, rank_candidates_sound}
use rationale.Engine.Suggest.{gap_nodes, hints, proof_needs_candidates, candidates_for_response}

-- What an answer names: the nodes where a gap starts, and the commits of the target.
abbrev pub gaps_of : KernelResponse → List Text
gaps_of (proof version request snapshot p) = gap_nodes p.gaps
gaps_of (error version request e) = []

abbrev pub commits_of : ResolvedTarget → List Text
commits_of (commit root c) = c.id ∷ []
commits_of (lines l) = map (λ a. a.commit_id) l.introduced_by

pub record IsNew (response : KernelResponse) (evidence : ResolvedTarget) (v : CandidateView)
    : Type 0 where
  pub asked : proof_needs_candidates response ≡ true
  pub no_gap : ¬ In v.record_id (gaps_of response)
  pub no_commit : ¬ In v.record_id (commits_of evidence)

any-In : (k : Text) (ks : List Text) → In k ks → any (λ j. is_eq (list_cmp k j)) ks ≡ true
any-In k [] h = absurd h
any-In k (j ∷ ks) (inl e) = rw e ground (arith, list_cmp-same j)
any-In k (j ∷ ks) (inr h) = ground (arith, any-In k ks h)

pub has-extend-In :
    (k : Text) (s : Set Text) (ks : List Text) → In k ks → has k (extend s ks) ≡ true
has-extend-In k s ks h = ground (arith, has-extend k s ks, any-In k ks h)

-- The ranking excludes what the answer names.
excluded-has :
    (target : Text) (evidence : ResolvedTarget) (gaps : List Text) (id : Text)
    → In id gaps ⊎ In id (commits_of evidence)
    → has id (hints target evidence (extend [] gaps)).2 ≡ true
unfolding hints
excluded-has target (commit root c) gaps id (inl h) =
    ground (arith, has-add c.id id (extend [] gaps), has-extend-In id [] gaps h)
excluded-has target (commit root c) gaps id (inr (inl e)) =
    rw e (has-add_here c.id (extend [] gaps))
excluded-has target (commit root c) gaps id (inr (inr h)) = absurd h
excluded-has target (lines l) gaps id (inl h) = ground (
  arith,
  has-extend id (extend [] gaps) (map (λ a. a.commit_id) l.introduced_by),
  has-extend-In id [] gaps h,
)
excluded-has target (lines l) gaps id (inr h) =
    has-extend-In id (extend [] gaps) (map (λ a. a.commit_id) l.introduced_by) h

module _ (parse_second : Text → Option ℤ) (target : Text) (evidence : ResolvedTarget)
    (records : List EvidenceNode) (version : ℕ) (request snapshot : Text) (p : ProofResult) where
  response : KernelResponse
  response = proof version request snapshot p

  -- The suggestions, and their number.
  AreNew : List CandidateView → Type 0
  AreNew views = All (IsNew response evidence) views × (length views ≤ max_candidates)

  ranked-AreNew :
      proof_needs_candidates response ≡ true
      → (let h = hints target evidence (extend [] (gap_nodes p.gaps)) in
          AreNew (
            rank_candidates parse_second
              (record { exact = target; text = h.0; path = h.1 })
              records
              h.2))
  unfolding AreNew response view_of
  ranked-AreNew asked =
      let h = hints target evidence (extend [] (gap_nodes p.gaps)) in
      let query : CandidateQuery = record { exact = target; text = h.0; path = h.1 } in
      let (candidates, few, order) = rank_candidates_sound parse_second query records h.2 in
      (
        All-map (IsCandidate (ranking_of parse_second query records h.2) records)
            (IsNew response evidence)
            (λ v c.
              let same : v.record_id ≡ c.source.id = ap (λ u. u.record_id) c.viewed in
              let fresh : has v.record_id h.2 ≡ false = rw same c.included in
              record {
                asked = asked;
                no_gap = λ m. ground (
                  arith,
                  fresh,
                  excluded-has target evidence (gap_nodes p.gaps) v.record_id (inl m),
                );
                no_commit = λ m. ground (
                  arith,
                  fresh,
                  excluded-has target evidence (gap_nodes p.gaps) v.record_id (inr m),
                );
              })
            (rank_candidates parse_second query records h.2) candidates,
        few,
      )

  abbrev ranked : List CandidateView
  ranked =
      let h = hints target evidence (extend [] (gap_nodes p.gaps)) in
      rank_candidates parse_second (record { exact = target; text = h.0; path = h.1 }) records h.2

  abbrev suggested : List CandidateView
  suggested = candidates_for_response parse_second response target evidence records

  -- What a verdict leads to.
  by_verdict :
      (verdict : Verdict)
      → p.verdict ≡ verdict
      → (suggested ≡ []) ⊎ ((proof_needs_candidates response ≡ true) × (suggested ≡ ranked))
  unfolding response candidates_for_response proof_needs_candidates
  by_verdict Verdict.established e = inl (rw e refl)
  by_verdict Verdict.conflicted e = inl (rw e refl)
  by_verdict Verdict.partial e = inr (rw e refl, rw e refl)
  by_verdict Verdict.not_established e = inr (rw e refl, rw e refl)

  suggested-AreNew : AreNew suggested
  suggested-AreNew = elim (by_verdict p.verdict refl) [
    | inl e ↦ rw e (unfold AreNew in (tt, omega (arith)))
    | inr (asked, e) ↦ rw e (ranked-AreNew asked)
  ]

-- Suggestions are made only for a proof that is partial or not established. There are at most ten, and
-- none of them is a node where a gap starts or a commit of the target.
pub candidates_for_response-IsNew :
    (parse_second : Text → Option ℤ) (response : KernelResponse) (target : Text)
    (evidence : ResolvedTarget) (records : List EvidenceNode)
    → All
        (IsNew response evidence)
        (candidates_for_response parse_second response target evidence records)
      × (length (candidates_for_response parse_second response target evidence records)
          ≤ max_candidates)
unfolding candidates_for_response
candidates_for_response-IsNew parse_second (error version request e) target evidence records =
    (tt, omega (arith))
candidates_for_response-IsNew parse_second (proof version request snapshot p) target evidence
      records =
    unfold AreNew response in
    suggested-AreNew parse_second target evidence records version request snapshot p
