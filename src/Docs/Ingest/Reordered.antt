-- ===== src/Docs/Ingest/Reordered.antt =====
-- crates/rationale-docs/src/lib.rs: the order in which a batch is supplied does not matter.
use mathlib.Core.List.{Permᴰ}
use rationale.Prelude.{true, false, ◌&&◌, List, [], ◌∷◌, ◌≡◌, ap, All, All-map, arith}
use rationale.Order.{list_ord, nat_ord, list_cmp-equal, list_cmp-swapped, list_cmp-chained}
use rationale.Sort.{IsOrder}
use rationale.Sort.Permuted.{Apart, sort_by-Perm}
use rationale.Text.{text_eq}
use rationale.Docs.{DocumentInput, IngestConfig, Formats}
use rationale.Docs.Ingest.{empty_batch, finish, ingest_from, path_le, ingest}

path_le-total : (x y : DocumentInput) → path_le x y ≡ false → path_le y x ≡ true
path_le-total x y h = ground (arith, list_cmp-swapped x.path y.path)

path_le-chain :
    (x y z : DocumentInput) → path_le x y ≡ true → path_le y z ≡ true → path_le x z ≡ true
path_le-chain x y z h k = ground (
  arith,
  list_cmp-equal x.path y.path,
  list_cmp-equal y.path z.path,
  list_cmp-chained x.path y.path z.path,
)

path_le-IsOrder : IsOrder path_le
path_le-IsOrder = record { total = path_le-total; chain = path_le-chain }

-- No two documents have the same path.
abbrev pub DistinctPaths : List DocumentInput → Type 0
DistinctPaths [] = Unit
DistinctPaths (x ∷ xs) = All (λ y. text_eq x.path y.path ≡ false) xs × DistinctPaths xs

path_le-apart :
    (x y : DocumentInput) → text_eq x.path y.path ≡ false → (path_le x y && path_le y x) ≡ false
path_le-apart x y h = ground (arith, list_cmp-swapped x.path y.path)

DistinctPaths-Apart : (xs : List DocumentInput) → DistinctPaths xs → Apart path_le xs
DistinctPaths-Apart [] h = tt
DistinctPaths-Apart (x ∷ xs) h =
    (All-map _ _ (λ y. path_le-apart x y) xs h.0, DistinctPaths-Apart xs h.1)

-- A batch whose documents have different paths gives the same result in whatever order they are supplied,
-- duplicates of identifiers and the limit on the number of documents included.
pub ingest-reordered :
    (config : IngestConfig) (formats : Formats) {xs ys : List DocumentInput}
    → DistinctPaths xs
    → Permᴰ xs ys
    → ingest config formats xs ≡ ingest config formats ys
unfolding ingest
ingest-reordered config formats {xs} h p =
    ap (λ sorted. finish (ingest_from config formats 0 sorted empty_batch))
      (sort_by-Perm path_le path_le-IsOrder p (DistinctPaths-Apart xs h))
