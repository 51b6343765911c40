-- ===== src/Store/Read/Reach.antt =====
-- crates/rationale-store/src/lib.rs: `REACHABLE_CTE` finds what is connected to the seeds, and no
-- more.
use rationale.Prelude.{
  ℕ, zero, suc, ◌≤◌, ◌<◌, true, false, ◌≡◌, refl, ap, ◌↔◌, ◌⊎◌, inl, inr, List, [], ◌∷◌, In, length,
  Bool-cases, if◌then◌else◌, arith, any,
}
use rationale.Order.{list_ord, nat_ord, list_cmp-equal, list_cmp-same}
use rationale.Set.{Set, has, add, extend, has-add, has-add_here, has-add_cases, has-extend}
use rationale.Text.{Text, text_eq}
use rationale.Store.Types.{Db}
use rationale.Store.Read.Links.{Step, link-of_Step, Step-of_link}
use rationale.Store.Read.{links, grow, grow_rounds, reachable}

-- There is a chain of steps from a seed.
pub data Connected (db : Db) (s : Text) (seeds : List Text) : Text → Type 0 where
  seed : (k : Text) → In k seeds → Connected db s seeds k
  along : (a b : Text) → Connected db s seeds a → Step db s a b → Connected db s seeds b

any_of_In : (k : Text) (ks : List Text) → In k ks → any (λ j. text_eq k j) ks ≡ true
any_of_In k [] m = absurd m
any_of_In k (j ∷ ks) (inl e) = rw e (ground (arith, list_cmp-same j))
any_of_In k (j ∷ ks) (inr m) = ground (arith, any_of_In k ks m)

In-of_any : (k : Text) (ks : List Text) → any (λ j. text_eq k j) ks ≡ true → In k ks
In-of_any k [] h = ground (arith)
In-of_any k (j ∷ ks) h = elim (Bool-cases (text_eq k j)) [
  | inl e ↦ inl (list_cmp-equal k j (ground (arith)))
  | inr e ↦ inr (In-of_any k ks (ground (arith)))
]

has_of_In : (k : Text) (seeds : List Text) → In k seeds → has k (extend [] seeds) ≡ true
has_of_In k seeds m = ground (arith, has-extend k [] seeds, any_of_In k seeds m)

In-of_has : (k : Text) (seeds : List Text) → has k (extend [] seeds) ≡ true → In k seeds
unfolding has
In-of_has k seeds h = In-of_any k seeds (ground (arith, has-extend k [] seeds))

-- What `grow` keeps and adds.
grow-keeps :
    (ls : List (Text × Text)) (set : Set Text) (k : Text)
    → has k set ≡ true
    → has k (grow ls set) ≡ true
unfolding grow
grow-keeps [] set k h = h
grow-keeps ((a, b) ∷ ls) set k h =
    ground (arith, grow-keeps ls (add b set) k, grow-keeps ls set k, has-add b k set)

grow-follows :
    (ls : List (Text × Text)) (set : Set Text) (a b : Text)
    → In (a, b) ls
    → has a set ≡ true
    → has b (grow ls set) ≡ true
unfolding grow
grow-follows [] set a b m h = absurd m
grow-follows ((c, d) ∷ ls) set a b (inl e) h =
    let f : a ≡ c = ap (λ l. l.0) e in
    let g : b ≡ d = ap (λ l. l.1) e in
    let start : has c set ≡ true = rw f at h in
    rw g (ground (arith, start, grow-keeps ls (add d set) d, has-add_here d set))
grow-follows ((c, d) ∷ ls) set a b (inr m) h =
    ground (arith, grow-follows ls (add d set) a b m, grow-follows ls set a b m, has-add d a set)

-- Nothing outside a property that the set has and the links respect is added.
module _ (P : Text → Type 0) where
  grow-sound :
      (ls : List (Text × Text)) (set : Set Text)
      → ((a b : Text) → P a → In (a, b) ls → P b)
      → ((k : Text) → has k set ≡ true → P k)
      → (k : Text) → has k (grow ls set) ≡ true
      → P k
  unfolding grow
  grow-sound [] set respects inside k h = inside k h
  grow-sound ((a, b) ∷ ls) set respects inside k h = elim (Bool-cases (has a set)) [
    | inl e ↦
        grow-sound ls (add b set) (λ c d p m. respects c d p (inr m))
          (λ j m. elim (has-add_cases b j set m) [
            | inl f ↦ rw f (respects a b (inside a e) (inl refl))
            | inr g ↦ inside j g
          ])
          k (ground (arith))
    | inr e ↦ grow-sound ls set (λ c d p m. respects c d p (inr m)) inside k (ground (arith))
  ]

  grow_rounds-sound :
      (n : ℕ) (ls : List (Text × Text)) (set : Set Text)
      → ((a b : Text) → P a → In (a, b) ls → P b)
      → ((k : Text) → has k set ≡ true → P k)
      → (k : Text) → has k (grow_rounds n ls set) ≡ true
      → P k
  unfolding grow_rounds
  grow_rounds-sound zero ls set respects inside k h = inside k h
  grow_rounds-sound (suc n) ls set respects inside k h =
      grow_rounds-sound n ls (grow ls set) respects (grow-sound ls set respects inside) k h

grow_rounds-keeps :
    (n : ℕ) (ls : List (Text × Text)) (set : Set Text) (k : Text)
    → has k set ≡ true
    → has k (grow_rounds n ls set) ≡ true
unfolding grow_rounds
grow_rounds-keeps zero ls set k h = h
grow_rounds-keeps (suc n) ls set k h =
    grow_rounds-keeps n ls (grow ls set) k (grow-keeps ls set k h)

-- The links that lead out of the set at its end.
unfoldable missing : List (Text × Text) → Set Text → ℕ
missing [] set = 0
missing ((a, b) ∷ ls) set = if has b set then missing ls set else suc (missing ls set)

abbrev Follows : List (Text × Text) → Set Text → Type 0
Follows ls set = (a b : Text) → In (a, b) ls → has a set ≡ true → has b set ≡ true

abbrev Subset : Set Text → Set Text → Type 0
Subset small large = (k : Text) → has k small ≡ true → has k large ≡ true

missing-le :
    (ls : List (Text × Text)) (small large : Set Text)
    → Subset small large
    → missing ls large ≤ missing ls small
unfolding missing
missing-le [] small large sub = omega arith
missing-le ((a, b) ∷ ls) small large sub = ground (arith, missing-le ls small large sub, sub b)

missing-lt :
    (ls : List (Text × Text)) (small large : Set Text) (a b : Text)
    → Subset small large
    → In (a, b) ls
    → has b small ≡ false
    → has b large ≡ true
    → missing ls large < missing ls small
unfolding missing
missing-lt [] small large a b sub m e f = absurd m
missing-lt ((c, d) ∷ ls) small large a b sub (inl h) e f =
    let same : b ≡ d = ap (λ l. l.1) h in
    ground (arith, rw same at e, rw same at f, missing-le ls small large sub)
missing-lt ((c, d) ∷ ls) small large a b sub (inr m) e f =
    ground (arith, missing-lt ls small large a b sub m e f, sub d)

-- Either every link is followed, or one leads out of the set.
Follows-cases :
    (ls : List (Text × Text)) (set : Set Text)
    → Follows ls set ⊎ ((a b : Text) × In (a, b) ls × (has a set ≡ true) × (has b set ≡ false))
Follows-cases [] set = inl (λ a b m h. absurd m)
Follows-cases ((c, d) ∷ ls) set = elim (Follows-cases ls set) [
  | inr (a, b, m, e, f) ↦ inr (a, b, inr m, e, f)
  | inl all_ls ↦ elim (Bool-cases (has d set)) [
    | inl e ↦ inl (λ a b m h. elim m [
      | inl f ↦ let same : b ≡ d = ap (λ l. l.1) f in rw same e
      | inr m ↦ all_ls a b m h
    ])
    | inr e ↦ elim (Bool-cases (has c set)) [
      | inl f ↦ inr (c, d, inl refl, f, e)
      | inr f ↦ inl (λ a b m h. elim m [
        | inl g ↦ let same : a ≡ c = ap (λ l. l.0) g in ground (arith, rw same at h)
        | inr m ↦ all_ls a b m h
      ])
    ]
  ]
]

missing-length : (ls : List (Text × Text)) (set : Set Text) → missing ls set ≤ length ls
unfolding missing
missing-length [] set = omega arith
missing-length ((a, b) ∷ ls) set = ground (arith, missing-length ls set)

missing-zero : (ls : List (Text × Text)) (set : Set Text) → missing ls set ≤ 0 → Follows ls set
missing-zero ls set h = elim (Follows-cases ls set) [
  | inl f ↦ f
  | inr (a, b, m, e, f) ↦ ground (
    arith,
    missing-lt ls set (add b set) a b (λ k g. ground (arith, has-add b k set)) m f
        (has-add_here b set),
  )
]

Follows-grow_rounds :
    (n : ℕ) (ls : List (Text × Text)) (set : Set Text)
    → Follows ls set
    → Follows ls (grow_rounds n ls set)
Follows-grow_rounds n ls set f a b m h = grow_rounds-keeps n ls set b (
    f a b m
      (grow_rounds-sound (λ k. has k set ≡ true) n ls set (λ c d p i. f c d i p) (λ k g. g) a h))

rounds_are_enough :
    (n : ℕ) (ls : List (Text × Text)) (set : Set Text)
    → missing ls set ≤ n
    → Follows ls (grow_rounds n ls set)
unfolding grow_rounds
rounds_are_enough zero ls set h = missing-zero ls set h
rounds_are_enough (suc n) ls set h = elim (Follows-cases ls set) [
  | inl f ↦ Follows-grow_rounds (suc n) ls set f
  | inr (a, b, m, e, f) ↦ rounds_are_enough n ls (grow ls set) (
      ground (
        arith,
        missing-lt ls set (grow ls set) a b (grow-keeps ls set) m f (grow-follows ls set a b m e),
      ))
]

Connected-has :
    (db : Db) (s : Text) (seeds : List Text) (set : Set Text)
    → ((a b : Text) → Step db s a b → has a set ≡ true → has b set ≡ true)
    → ((k : Text) → In k seeds → has k set ≡ true)
    → (k : Text) → Connected db s seeds k
    → has k set ≡ true
Connected-has db s seeds set follows start _ (seed k m) = start k m
Connected-has db s seeds set follows start _ (along a b c m) =
    follows a b m (Connected-has db s seeds set follows start a c)

-- The recursive query finds a node exactly when a chain of the snapshot's edges, forwards, and
-- conflicts, either way, leads to it from a seed.
pub reachable-iff_Connected :
    (db : Db) (s : Text) (seeds : List Text) (k : Text)
    → (has k (reachable db s seeds) ≡ true) ↔ Connected db s seeds k
unfolding reachable
reachable-iff_Connected db s seeds k =
    let ls = links db s in
    let set = extend [] seeds in
    let n = length ls in
    (
      grow_rounds-sound (Connected db s seeds) n ls set
          (λ a b c m. along a b c (Step-of_link db s a b m)) (λ j m. seed j (In-of_has j seeds m))
          k,
      Connected-has db s seeds (grow_rounds n ls set)
          (λ a b m.
            rounds_are_enough n ls set (missing-length ls set) a b (link-of_Step db s a b m))
          (λ j m. grow_rounds-keeps n ls set j (has_of_In j seeds m)) k,
    )
