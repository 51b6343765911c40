-- ===== src/Set.antt =====
-- `BTreeSet` as its strictly ascending list of elements.
pub mod Ascending
use Prim.Native.Nat.Ordering.{lt, eq, gt}
use rationale.Prelude.{
  ℕ, Bool, true, ◌⊎◌, inl, inr, Bool-cases, ◌||◌, List, [], ◌∷◌, ◌≡◌, false, refl, any, keep,
  length, arith,
}
use rationale.Order.{Ord, is_eq}

abbrev pub Set {ℓ} : Type ℓ → Type ℓ
Set K = List K

module _ {ℓ} {K : Type ℓ} ⦃o : Ord K⦄ where
  unfoldable pub add : K → Set K → Set K
  add k [] = k ∷ []
  add k (j ∷ s) = elim (o.cmp k j) [ lt ↦ k ∷ j ∷ s | eq ↦ j ∷ s | gt ↦ j ∷ add k s ]

  -- `contains`
  unfoldable pub has : K → Set K → Bool
  has k [] = false
  has k (j ∷ s) = is_eq (o.cmp k j) || has k s

  -- `collect`, and `extend` of a set.
  unfoldable pub extend : Set K → List K → Set K
  unfolding add
  extend s [] = s
  extend s (k ∷ ks) = extend (add k s) ks

  unfoldable pub remove : K → Set K → Set K
  remove k [] = []
  remove k (j ∷ s) = let rest = remove k s in elim (o.cmp k j) [ eq ↦ s | _ ↦ j ∷ rest ]

  -- `left.intersection(right).count()`
  unfoldable pub count_common : Set K → Set K → ℕ
  unfolding has
  count_common left right = length (keep (λ k. has k right) left)

  pub has-add : (k j : K) (s : Set K) → has j (add k s) ≡ (is_eq (o.cmp j k) || has j s)
  unfolding has add
  has-add k j [] = refl
  has-add k j (i ∷ s) =
      ground (arith, o.equal k i, o.same k, has-add k j s, o.equal j k, o.equal j i)

  pub has-extend :
      (j : K) (s : Set K) (ks : List K)
      → has j (extend s ks) ≡ (any (λ k. is_eq (o.cmp j k)) ks || has j s)
  unfolding extend
  has-extend j s [] = refl
  has-extend j s (k ∷ ks) = ground (arith, has-extend j (add k s) ks, has-add k j s)

  pub has-none : {P : Type 0} (k : K) → has k [] ≡ true → P
  unfolding has
  has-none k h = ground (arith)

  pub has-here : (k : K) (s : Set K) → has k (k ∷ s) ≡ true
  unfolding has
  has-here k s = ground (arith, o.same k)

  pub has-there : (k j : K) (s : Set K) → has k s ≡ true → has k (j ∷ s) ≡ true
  unfolding has
  has-there k j s h = ground (arith)

  pub has-cases : (k j : K) (s : Set K) → has k (j ∷ s) ≡ true → (k ≡ j) ⊎ (has k s ≡ true)
  unfolding has
  has-cases k j s h = elim (Bool-cases (is_eq (o.cmp k j))) [
    | inl e ↦ inl (ground (arith, o.equal k j))
    | inr e ↦ inr (ground (arith))
  ]

  pub has-add_here : (k : K) (s : Set K) → has k (add k s) ≡ true
  has-add_here k s = ground (arith, has-add k k s, o.same k)

  pub has-add_cases : (k j : K) (s : Set K) → has j (add k s) ≡ true → (j ≡ k) ⊎ (has j s ≡ true)
  has-add_cases k j s h = elim (Bool-cases (is_eq (o.cmp j k))) [
    | inl e ↦ inl (ground (arith, o.equal j k))
    | inr e ↦ inr (ground (arith, has-add k j s))
  ]
