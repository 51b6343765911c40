-- ===== src/Sort.antt =====
-- The slice methods `sort_by`, `sort`, `dedup_by` and `truncate`: a stable insertion sort by a
-- Boolean "not after", and the removal of neighbours that a test calls the same.
pub mod Laws
pub mod Permuted
use rationale.Prelude.{Bool, true, false, List, [], ◌∷◌, ◌≡◌, All, if◌then◌else◌}

module _ {ℓ} {A : Type ℓ} where
  unfoldable pub insert_by : (A → A → Bool) → A → List A → List A
  insert_by le x [] = x ∷ []
  insert_by le x (y ∷ ys) = if le x y then x ∷ y ∷ ys else y ∷ insert_by le x ys

  unfoldable pub sort_by : (A → A → Bool) → List A → List A
  unfolding insert_by
  sort_by le [] = []
  sort_by le (x ∷ xs) = insert_by le x (sort_by le xs)

  -- Of two neighbours that are the same the first stays.
  unfoldable pub dedup_from : (A → A → Bool) → A → List A → List A
  dedup_from same x [] = x ∷ []
  dedup_from same x (y ∷ ys) = elim (same x y) [
    | true ↦ dedup_from same x ys
    | false ↦ x ∷ dedup_from same y ys
  ]

  unfoldable pub dedup_by : (A → A → Bool) → List A → List A
  unfolding dedup_from
  dedup_by same [] = []
  dedup_by same (x ∷ xs) = dedup_from same x xs

  -- Every element is not after any later one.
  abbrev pub Ordered : (A → A → Bool) → List A → Type 0
  Ordered le [] = Unit
  Ordered le (x ∷ xs) = All (λ y. le x y ≡ true) xs × Ordered le xs

  -- What `sort_by` needs of its comparison.
  pub record IsOrder (le : A → A → Bool) : Type ℓ where
    pub total : (x y : A) → le x y ≡ false → le y x ≡ true
    pub chain : (x y z : A) → le x y ≡ true → le y z ≡ true → le x z ≡ true
