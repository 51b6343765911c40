-- ===== src/Order.antt =====
-- Total orders by a comparison function: the `Ord` that `BTreeMap`, `BTreeSet` and `sort` use.
use Prim.Native.Nat.Ordering.{lt, eq, gt}
use rationale.Prelude.{ℕ, compare, Ordering, ◌≡◌, refl, Bool, true, false, List, [], ◌∷◌, arith}

abbrev pub swap : Ordering → Ordering
swap lt = gt
swap eq = eq
swap gt = lt

pub record Ord {ℓ} (K : Type ℓ) : Type ℓ where
  pub cmp : K → K → Ordering
  pub same : (a : K) → cmp a a ≡ eq
  pub equal : (a b : K) → cmp a b ≡ eq → a ≡ b
  pub swapped : (a b : K) → cmp b a ≡ swap (cmp a b)
  pub chained : (a b c : K) → cmp a b ≡ lt → cmp b c ≡ lt → cmp a c ≡ lt

abbrev pub is_lt : Ordering → Bool
is_lt lt = true
is_lt _ = false

abbrev pub is_eq : Ordering → Bool
is_eq eq = true
is_eq _ = false

-- `!= Ordering::Greater`
abbrev pub is_le : Ordering → Bool
is_le gt = false
is_le _ = true

-- `Ordering::then_with`.
abbrev pub then_with : Ordering → Ordering → Ordering
then_with eq second = second
then_with lt second = lt
then_with gt second = gt

pub compare-same : (a : ℕ) → compare a a ≡ eq
compare-same a = ground arith

pub compare-equal : (a b : ℕ) → compare a b ≡ eq → a ≡ b
compare-equal a b h = ground arith

pub compare-swapped : (a b : ℕ) → compare b a ≡ swap (compare a b)
compare-swapped a b = ground arith

pub compare-chained : (a b c : ℕ) → compare a b ≡ lt → compare b c ≡ lt → compare a c ≡ lt
compare-chained a b c h k = ground arith

instance abbrev pub nat_ord : Ord ℕ
nat_ord = record {
  cmp = compare;
  same = compare-same;
  equal = compare-equal;
  swapped = compare-swapped;
  chained = compare-chained;
}

module _ {ℓ} {A : Type ℓ} ⦃o : Ord A⦄ where
  -- Slices and strings compare lexicographically.
  abbrev pub list_cmp : List A → List A → Ordering
  list_cmp [] [] = eq
  list_cmp [] (y ∷ ys) = lt
  list_cmp (x ∷ xs) [] = gt
  list_cmp (x ∷ xs) (y ∷ ys) = then_with (o.cmp x y) (list_cmp xs ys)

  pub list_cmp-same : (xs : List A) → list_cmp xs xs ≡ eq
  list_cmp-same [] = refl
  list_cmp-same (x ∷ xs) = ground (arith, o.same x, list_cmp-same xs)

  pub list_cmp-equal : (xs ys : List A) → list_cmp xs ys ≡ eq → xs ≡ ys
  list_cmp-equal [] [] h = refl
  list_cmp-equal [] (y ∷ ys) h = ground arith
  list_cmp-equal (x ∷ xs) [] h = ground arith
  list_cmp-equal (x ∷ xs) (y ∷ ys) h = ground (arith, o.equal x y, list_cmp-equal xs ys)

  pub list_cmp-swapped : (xs ys : List A) → list_cmp ys xs ≡ swap (list_cmp xs ys)
  list_cmp-swapped [] [] = refl
  list_cmp-swapped [] (y ∷ ys) = refl
  list_cmp-swapped (x ∷ xs) [] = refl
  list_cmp-swapped (x ∷ xs) (y ∷ ys) = ground (arith, o.swapped x y, list_cmp-swapped xs ys)

  pub list_cmp-chained :
      (xs ys zs : List A) → list_cmp xs ys ≡ lt → list_cmp ys zs ≡ lt → list_cmp xs zs ≡ lt
  list_cmp-chained [] [] zs h k = ground arith
  list_cmp-chained [] (y ∷ ys) [] h k = ground arith
  list_cmp-chained [] (y ∷ ys) (z ∷ zs) h k = refl
  list_cmp-chained (x ∷ xs) [] zs h k = ground arith
  list_cmp-chained (x ∷ xs) (y ∷ ys) [] h k = ground arith
  list_cmp-chained (x ∷ xs) (y ∷ ys) (z ∷ zs) h k =
      ground (arith, o.chained x y z, o.equal x y, o.equal y z, list_cmp-chained xs ys zs)

  instance abbrev pub list_ord : Ord (List A)
  list_ord = record {
    cmp = list_cmp;
    same = list_cmp-same;
    equal = list_cmp-equal;
    swapped = list_cmp-swapped;
    chained = list_cmp-chained;
  }

module _ {ℓ κ} {A : Type ℓ} {B : Type κ} ⦃o : Ord A⦄ ⦃q : Ord B⦄ where
  abbrev pub pair_cmp : A × B → A × B → Ordering
  pair_cmp x y = then_with (o.cmp x.0 y.0) (q.cmp x.1 y.1)

  pub pair_cmp-same : (x : A × B) → pair_cmp x x ≡ eq
  pair_cmp-same x = ground (arith, o.same x.0, q.same x.1)

  pub pair_cmp-equal : (x y : A × B) → pair_cmp x y ≡ eq → x ≡ y
  pair_cmp-equal x y h = ground (arith, o.equal x.0 y.0, q.equal x.1 y.1)

  pub pair_cmp-swapped : (x y : A × B) → pair_cmp y x ≡ swap (pair_cmp x y)
  pair_cmp-swapped x y = ground (arith, o.swapped x.0 y.0, q.swapped x.1 y.1)

  pub pair_cmp-chained : (x y z : A × B) → pair_cmp x y ≡ lt → pair_cmp y z ≡ lt → pair_cmp x z ≡ lt
  pair_cmp-chained x y z h k =
      ground (arith, o.chained x.0 y.0 z.0, o.equal x.0 y.0, o.equal y.0 z.0, q.chained x.1 y.1 z.1)

  instance abbrev pub pair_ord : Ord (A × B)
  pair_ord = record {
    cmp = pair_cmp;
    same = pair_cmp-same;
    equal = pair_cmp-equal;
    swapped = pair_cmp-swapped;
    chained = pair_cmp-chained;
  }
