-- ===== src/Set/Ascending.antt =====
-- Sets stay strictly ascending, so an element that was removed is gone.
use Prim.Native.Nat.Ordering.{lt}
use rationale.Prelude.{false, List, [], ◌∷◌, ◌≡◌, All, arith}
use rationale.Order.{Ord, is_eq}
use rationale.Set.{Set, add, extend, remove}

module _ {ℓ} {K : Type ℓ} ⦃o : Ord K⦄ where
  abbrev pub IsAscending : Set K → Type 0
  IsAscending [] = Unit
  IsAscending (k ∷ s) = All (λ j. o.cmp k j ≡ lt) s × IsAscending s

  above_trans :
      (b k : K) (s : Set K)
      → o.cmp b k ≡ lt
      → All (λ j. o.cmp k j ≡ lt) s
      → All (λ j. o.cmp b j ≡ lt) s
  above_trans b k [] h a = tt
  above_trans b k (j ∷ s) h a = (o.chained b k j h a.0, above_trans b k s h a.1)

  add-above :
      (b k : K) (s : Set K)
      → o.cmp b k ≡ lt
      → All (λ j. o.cmp b j ≡ lt) s
      → All (λ j. o.cmp b j ≡ lt) (add k s)
  unfolding add
  add-above b k [] h a = (h, tt)
  add-above b k (j ∷ s) h a = ground (arith, add-above b k s)

  add-IsAscending : (k : K) (s : Set K) → IsAscending s → IsAscending (add k s)
  unfolding add
  add-IsAscending k [] h = (tt, tt)
  add-IsAscending k (j ∷ s) h =
      ground (arith, o.swapped k j, add-IsAscending k s, add-above j k s, above_trans k j s)

  pub extend-IsAscending : (s : Set K) (ks : List K) → IsAscending s → IsAscending (extend s ks)
  unfolding extend
  extend-IsAscending s [] h = h
  extend-IsAscending s (k ∷ ks) h = extend-IsAscending (add k s) ks (add-IsAscending k s h)

  other_of_above :
      (k : K) (s : Set K) → All (λ j. o.cmp k j ≡ lt) s → All (λ j. is_eq (o.cmp k j) ≡ false) s
  other_of_above k [] h = tt
  other_of_above k (j ∷ s) h = (ground arith, other_of_above k s h.1)

  pub remove-gone :
      (k : K) (s : Set K) → IsAscending s → All (λ j. is_eq (o.cmp k j) ≡ false) (remove k s)
  unfolding remove
  remove-gone k [] h = tt
  remove-gone k (j ∷ s) h =
      ground (arith, o.equal k j, other_of_above j s, remove-gone k s, other_of_above k s)
