-- ===== src/Engine/Sync/Loops.antt =====
-- crates/rationale-engine/src/lib.rs: the loops of `publish_evidence` over records, edges and
-- conflicts. What each insertion achieves still holds at the end of its loop.
use rationale.Prelude.{◌≡◌, refl, ◌⊎◌, inl, inr, List, [], ◌∷◌, All, All-map}
use rationale.Result.{Result, ok, err}
use rationale.Store.Types.{StoreError, Json}
use rationale.Store.Candidate.{CandidateSnapshot}
use rationale.Store.Session.{Op, Built, start, then}
use rationale.Engine.Sync.{for_each}
use rationale.Engine.Sync.Inserts.{IsRefusal, IsGood}

pub Built-trans :
    (json : Json) (c d e : CandidateSnapshot) → Built json c d → Built json d e → Built json c e
Built-trans json _ _ e (start c) k = k
Built-trans json _ _ e (then c b d op rest) k = then c b e op (Built-trans json b d e rest k)

-- What one operation keeps, any number of them keeps.
pub Built-keeps :
    (json : Json) (P : CandidateSnapshot → Type 0)
    → ((c d : CandidateSnapshot) → Op json c d → P c → P d)
    → (c d : CandidateSnapshot) → Built json c d
    → P c
    → P d
Built-keeps json P keep _ _ (start c) h = h
Built-keeps json P keep _ _ (then c d e op rest) h =
    Built-keeps json P keep d e rest (keep c d op h)

module _ (json : Json) {A : Type 0}
    (f : A → CandidateSnapshot → Result CandidateSnapshot StoreError)
    (Before After : A → CandidateSnapshot → Type 0)
    (Before-stays : (a : A) (c d : CandidateSnapshot) → Op json c d → Before a c → Before a d)
    (After-stays : (a : A) (c d : CandidateSnapshot) → Op json c d → After a c → After a d)
    (one : (a : A) (c : CandidateSnapshot)
      → Before a c
      → IsGood json c
      → ((d : CandidateSnapshot) × (f a c ≡ ok d) × Op json c d × IsGood json d × After a d)
        ⊎ ((e : StoreError) × (f a c ≡ err e) × IsRefusal e)) where
  pub for_each-cases :
      (xs : List A) (c : CandidateSnapshot)
      → All (λ a. Before a c) xs
      → IsGood json c
      → ((d : CandidateSnapshot) × (for_each f xs c ≡ ok d)
          × Built json c d
          × IsGood json d
          × All (λ a. After a d) xs)
        ⊎ ((e : StoreError) × (for_each f xs c ≡ err e) × IsRefusal e)
  unfolding for_each
  for_each-cases [] c before good = inl (c, refl, start c, good, tt)
  for_each-cases (x ∷ xs) c before good = elim (one x c before.0 good) [
    | inr (e, h, r) ↦ inr (e, rw h refl, r)
    | inl (d, h, op, good', after) ↦
        let later =
          All-map (λ a. Before a c) (λ a. Before a d) (λ a b. Before-stays a c d op b) xs
            before.1 in
        elim (for_each-cases xs d later good') [
          | inr (e, k, r) ↦ inr (e, rw h k, r)
          | inl (last, k, built, good'', afters) ↦ inl (
            last,
            rw h k,
            then c d last op built,
            good'',
            (Built-keeps json (After x) (After-stays x) d last built after, afters),
          )
        ]
  ]
