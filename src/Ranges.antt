-- ===== src/Ranges.antt =====
-- Byte ranges of a device, tools-util.c and tools-util.h: what is kept of a file system that is
-- migrated, and the holes between.
mod Merged
mod Holes
mod Tests
use bcache_tools.Base.{
  Bool, List, Option, [], false, if◌then◌else◌, leb, ltb, max, none, some, true, u64, ℕ, ◌++◌, ◌+◌,
  ◌<◌, ◌∷◌, ◌≡◌, ◌≤◌, ◌⊎◌,
}

-- `struct range`: from `start` up to `end`, a u64 each.
pub record Range : Type 0 where
  pub start : ℕ
  pub end : ℕ

-- `range_add`
abbrev pub range_add : List Range → ℕ → ℕ → List Range
range_add rs offset size = rs ++ (record { start = offset; end = u64 (offset + size) } ∷ [])

-- `range_cmp(l, r) <= 0`
abbrev pub range_le : Range → Range → Bool
range_le l r = leb l.start r.start

-- The loop of `ranges_sort_merge`. `t` is the last item of `tmp`; what lies before it changes no more.
pub merge_from : Range → List Range → List Range
merge_from t [] = t ∷ []
merge_from t (i ∷ is) =
    let joined = merge_from (record t { end = max t.end i.end }) is in
    let apart = t ∷ merge_from i is in if leb i.start t.end then joined else apart

pub merge : List Range → List Range
merge [] = []
merge (i ∷ is) = merge_from i is

-- `ranges_sort_merge`, whose `sort` is the kernel's.
pub ranges_sort_merge : (List Range → List Range) → List Range → List Range
ranges_sort_merge sort r = merge (sort r)

-- `for_each_hole`: `last` is the end of the range before, or 0. The `BUG_ON` of `hole_iter_next` is
-- `none`.
pub holes_from : ℕ → List Range → ℕ → Option (List Range)
holes_from last [] end =
    if ltb end last then none else some (record { start = last; end = end } ∷ [])
holes_from last (r ∷ rs) end = elim (ltb r.start last) [
  | true ↦ none
  | false ↦ elim (holes_from r.end rs end) [
    | none ↦ none
    | some hs ↦ some (record { start = last; end = r.start } ∷ hs)
  ]
]

pub for_each_hole : List Range → ℕ → Option (List Range)
for_each_hole r end = holes_from 0 r end

-- The bytes of a list of ranges.
unfoldable pub Covers : ℕ → List Range → Type 0
Covers x [] = ⊥
Covers x (r ∷ rs) = ((r.start ≤ x) × (x < r.end)) ⊎ Covers x rs

-- In the order of `range_cmp`, from `a` on.
unfoldable pub SortedFrom : ℕ → List Range → Type 0
SortedFrom a [] = Unit
SortedFrom a (r ∷ rs) = (a ≤ r.start) × SortedFrom r.start rs

-- Apart from each other and in order, after `a`.
unfoldable pub ApartFrom : ℕ → List Range → Type 0
ApartFrom a [] = Unit
ApartFrom a (r ∷ rs) = (a < r.start) × (r.start ≤ r.end) × ApartFrom r.end rs

unfoldable pub Forward : List Range → Type 0
Forward [] = Unit
Forward (r ∷ rs) = (r.start ≤ r.end) × Forward rs

unfoldable pub Apart : List Range → Type 0
unfolding ApartFrom
Apart [] = Unit
Apart (r ∷ rs) = (r.start ≤ r.end) × ApartFrom r.end rs

unfoldable pub Member : Range → List Range → Type 0
Member r [] = ⊥
Member r (a ∷ rs) = (r ≡ a) ⊎ Member r rs
