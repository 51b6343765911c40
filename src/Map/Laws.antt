-- ===== src/Map/Laws.antt =====
-- Laws of `Map`: lookups, order of the keys, and equality of sorted maps by their lookups.
use Prim.Native.Nat.Ordering.{lt}
use rationale.Prelude.{
  true, none, some, [], ◌∷◌, ◌≡◌, refl, ap₂, Bool-cases, Option-cases, All, In, inl, inr,
  if◌then◌else◌, arith, not, ◌&&◌, ◌||◌,
}
use rationale.Order.{Ord, is_eq}
use rationale.Map.{Map, values, get, insert, contains_key, or_insert, IsSorted}

module _ {ℓ κ} {K : Type ℓ} {V : Type κ} ⦃o : Ord K⦄ where
  pub get-insert :
      (k j : K) (v : V) (m : Map K V)
      → get j (insert k v m) ≡ (if is_eq (o.cmp j k) then some v else get j m)
  unfolding get insert
  get-insert k j v [] = refl
  get-insert k j v ((i, w) ∷ m) =
      ground
        (arith, o.equal k i, o.same k, get-insert k j v m, o.equal j k, o.equal j i, o.swapped k i)

  pub get-insert_same : (k : K) (v : V) (m : Map K V) → get k (insert k v m) ≡ some v
  get-insert_same k v m = ground (arith, get-insert k k v m, o.same k)

  pub insert-above :
      (b k : K) (v : V) (m : Map K V)
      → o.cmp b k ≡ lt
      → All (λ e. o.cmp b e.0 ≡ lt) m
      → All (λ e. o.cmp b e.0 ≡ lt) (insert k v m)
  unfolding insert
  insert-above b k v [] h a = (h, tt)
  insert-above b k v ((i, w) ∷ m) h a = ground (arith, insert-above b k v m)

  All-above_trans :
      (b c : K) (m : Map K V)
      → o.cmp b c ≡ lt
      → All (λ e. o.cmp c e.0 ≡ lt) m
      → All (λ e. o.cmp b e.0 ≡ lt) m
  All-above_trans b c [] h a = tt
  All-above_trans b c (e ∷ m) h a = (o.chained b c e.0 h a.0, All-above_trans b c m h a.1)

  pub insert-IsSorted : (k : K) (v : V) (m : Map K V) → IsSorted m → IsSorted (insert k v m)
  unfolding insert
  insert-IsSorted k v [] s = (tt, tt)
  insert-IsSorted k v ((i, w) ∷ m) s = ground (
    arith,
    o.equal k i,
    o.swapped k i,
    insert-IsSorted k v m,
    insert-above i k v m,
    All-above_trans k i m,
  )

  pub or_insert-IsSorted : (k : K) (v : V) (m : Map K V) → IsSorted m → IsSorted (or_insert k v m)
  unfolding or_insert
  or_insert-IsSorted k v m s = ground (arith, insert-IsSorted k v m)

  pub get-or_insert :
      (k j : K) (v : V) (m : Map K V)
      → get j (or_insert k v m)
        ≡ (if is_eq (o.cmp j k) && not (contains_key k m) then some v else get j m)
  unfolding or_insert contains_key
  get-or_insert k j v m = ground (arith, get-insert k j v m)

  pub contains_key-insert :
      (k j : K) (v : V) (m : Map K V)
      → contains_key j (insert k v m) ≡ (is_eq (o.cmp j k) || contains_key j m)
  unfolding contains_key
  contains_key-insert k j v m = ground (arith, get-insert k j v m)

  pub contains_key-get : (k : K) (v : V) (m : Map K V) → get k m ≡ some v → contains_key k m ≡ true
  unfolding contains_key
  contains_key-get k v m h = ground (arith)

  pub get-contains_key :
      (k : K) (m : Map K V) → contains_key k m ≡ true → (v : V) × (get k m ≡ some v)
  unfolding contains_key
  get-contains_key k m h = elim (Option-cases (get k m)) [
    | inl e ↦ ground (arith)
    | inr found ↦ found
  ]

  -- An old row that stays, and the same key again.
  pub contains_key-get_same :
      (k j : K) (v : V) (m : Map K V)
      → get k m ≡ some v
      → (is_eq (o.cmp j k) || contains_key j m) ≡ true
      → contains_key j m ≡ true
  contains_key-get_same k j v m h g = elim (Bool-cases (is_eq (o.cmp j k))) [
    | inl e ↦ let same : j ≡ k = ground (arith, o.equal j k) in rw same (contains_key-get k v m h)
    | inr e ↦ ground (arith)
  ]

  pub contains_key-insert_old :
      (k j : K) (v w : V) (m : Map K V)
      → get k m ≡ some w
      → contains_key j (insert k v m) ≡ contains_key j m
  unfolding contains_key
  contains_key-insert_old k j v w m h = elim (Bool-cases (is_eq (o.cmp j k))) [
    | inl e ↦
        let same : j ≡ k = ground (arith, o.equal j k) in
        rw same ground (arith, get-insert k k v m, o.same k)
    | inr e ↦ ground (arith, get-insert k j v m)
  ]

  pub contains_key-or_insert :
      (k j : K) (v : V) (m : Map K V)
      → contains_key j (or_insert k v m) ≡ (is_eq (o.cmp j k) || contains_key j m)
  unfolding contains_key
  contains_key-or_insert k j v m = ground (arith, get-or_insert k j v m, o.equal j k, o.same k)

  pub get-none_of_above : (k : K) (m : Map K V) → All (λ e. o.cmp k e.0 ≡ lt) m → get k m ≡ none
  unfolding get
  get-none_of_above k [] a = refl
  get-none_of_above k ((i, w) ∷ m) a = ground (arith, get-none_of_above k m a.1)

  heads :
      (i j : K) (v w : V) (m n : Map K V)
      → IsSorted ((i, v) ∷ m)
      → IsSorted ((j, w) ∷ n)
      → get i ((i, v) ∷ m) ≡ get i ((j, w) ∷ n)
      → get j ((i, v) ∷ m) ≡ get j ((j, w) ∷ n)
      → (i ≡ j) × (v ≡ w)
  unfolding get
  heads i j v w m n s t h k = ground (
    arith,
    o.same i,
    o.same j,
    o.equal i j,
    o.swapped i j,
    get-none_of_above i n,
    All-above_trans i j n,
    get-none_of_above j m,
    All-above_trans j i m,
  )

  tails :
      (k i : K) (v w : V) (m n : Map K V)
      → IsSorted ((i, v) ∷ m)
      → IsSorted ((i, w) ∷ n)
      → get k ((i, v) ∷ m) ≡ get k ((i, w) ∷ n)
      → get k m ≡ get k n
  unfolding get
  tails k i v w m n s t h =
      ground (arith, o.equal k i, get-none_of_above i m, get-none_of_above i n)

  -- Two sorted maps with the same lookups are the same list of entries.
  pub eq_of_get : (m n : Map K V) → IsSorted m → IsSorted n → ((k : K) → get k m ≡ get k n) → m ≡ n
  eq_of_get [] [] s t h = refl
  eq_of_get [] ((j, w) ∷ n) s t h = unfold get in ground (arith, h j, o.same j)
  eq_of_get ((i, v) ∷ m) [] s t h = unfold get in ground (arith, h i, o.same i)
  eq_of_get ((i, v) ∷ m) ((j, w) ∷ n) s t h =
      let (p, q) = heads i j v w m n s t (h i) (h j) in
      let t' : IsSorted ((i, w) ∷ n) = rw p t in
      ap₂ (λ e l. e ∷ l) (ap₂ (λ a b. (a, b)) p q)
        (eq_of_get m n s.1 t.1 (λ k. tails k i v w m n s t' (rw (← p) at (h k))))

  -- What holds of every entry holds after an insertion of such an entry, and of what is looked up.
  pub insert-All {μ} :
      (P : K × V → Type μ) (k : K) (v : V) (m : Map K V) → P (k, v) → All P m → All P (insert k v m)
  unfolding insert
  insert-All P k v [] p a = (p, tt)
  insert-All P k v ((i, w) ∷ m) p a = ground (arith, insert-All P k v m p)

  pub or_insert-All {μ} :
      (P : K × V → Type μ) (k : K) (v : V) (m : Map K V)
      → P (k, v)
      → All P m
      → All P (or_insert k v m)
  unfolding or_insert
  or_insert-All P k v m p a = ground (arith, insert-All P k v m p a)

  pub get-All {μ} :
      (P : K × V → Type μ) (k : K) (v : V) (m : Map K V) → All P m → get k m ≡ some v → P (k, v)
  unfolding get
  get-All P k v [] a h = absurd (ground arith)
  get-All P k v ((i, w) ∷ m) a h = elim (Bool-cases (is_eq (o.cmp k i))) [
    | inl e ↦
        let p : k ≡ i = ground (arith, o.equal k i) in let q : v ≡ w = ground arith in rw (p, q) a.0
    | inr e ↦ get-All P k v m a.1 (rw e at h)
  ]

-- A lookup answers with an entry of the map.
pub In-get :
    {K V : Type 0} ⦃o : Ord K⦄ (k : K) (v : V) (m : Map K V) → get k m ≡ some v → In (k, v) m
unfolding get
In-get ⦃o⦄ k v [] h = ground arith
In-get ⦃o⦄ k v ((i, w) ∷ m) h = ground (arith, o.equal k i, In-get k v m)

-- What holds of the entries, of their values.
pub All-values :
    {K V : Type 0} (P : K × V → Type 0) (Q : V → Type 0)
    → ((e : K × V) → P e → Q e.1)
    → (m : Map K V) → All P m
    → All Q (values m)
All-values P Q f [] h = tt
All-values P Q f (e ∷ m) h = (f e h.0, All-values P Q f m h.1)
