-- ===== src/Map.antt =====
-- `BTreeMap` as its sorted list of entries. The laws stand in `Map/Laws`.
pub mod Laws
use Prim.Native.Nat.Ordering.{lt, eq, gt}
use rationale.Prelude.{
  Bool, true, false, Option, none, some, List, [], ◌∷◌, ◌≡◌, map, All, if◌then◌else◌,
}
use rationale.Order.{Ord, is_eq}

abbrev pub Map {ℓ κ} : Type ℓ → Type κ → Type (ℓ ⊔ κ)
Map K V = List (K × V)

module _ {ℓ κ} {K : Type ℓ} {V : Type κ} ⦃o : Ord K⦄ where
  unfoldable pub get : K → Map K V → Option V
  get k [] = none
  get k ((j, v) ∷ m) = if is_eq (o.cmp k j) then some v else get k m

  -- `insert`: the old value of the key, if any, is replaced.
  unfoldable pub insert : K → V → Map K V → Map K V
  insert k v [] = (k, v) ∷ []
  insert k v ((j, w) ∷ m) = elim (o.cmp k j) [
    | lt ↦ (k, v) ∷ (j, w) ∷ m
    | eq ↦ (k, v) ∷ m
    | gt ↦ (j, w) ∷ insert k v m
  ]

  -- `contains_key`
  unfoldable pub contains_key : K → Map K V → Bool
  contains_key k m = elim (get k m) [ some v ↦ true | none ↦ false ]

  -- `entry(k).or_insert(v)`: the old value stays.
  unfoldable pub or_insert : K → V → Map K V → Map K V
  or_insert k v m = elim (get k m) [ some w ↦ m | none ↦ insert k v m ]

  -- Keys ascend strictly.
  abbrev pub IsSorted : Map K V → Type ℓ
  IsSorted [] = Unit
  IsSorted ((k, v) ∷ m) = All (λ e. o.cmp k e.0 ≡ lt) m × IsSorted m

abbrev pub values {ℓ κ} : {K : Type ℓ} {V : Type κ} → Map K V → List V
values m = map (λ e. e.1) m

abbrev pub keys {ℓ κ} : {K : Type ℓ} {V : Type κ} → Map K V → List K
keys m = map (λ e. e.0) m
