-- ===== src/Ranges/Tests.antt =====
-- Runs of the ranges of tools-util.c and tools-util.h, and the theorems at these.
use bcache_tools.Base.{
  Bool-cases, List, [], arith, if◌then◌else◌, inl, inr, leb, leb→le, refl, some, ℕ, ◌<◌, ◌↔◌, ◌∷◌,
  ◌≡◌, ◌≤◌, ◌⊎◌,
}
use bcache_tools.Ranges.{
  Apart, Covers, Forward, Member, Range, SortedFrom, for_each_hole, merge, merge_from,
  ranges_sort_merge,
}
use bcache_tools.Ranges.Merged.{ranges_sort_merge-Apart}
use bcache_tools.Ranges.Holes.{Within, for_each_hole-complement}

-- A sort by `range_cmp`, in place of the kernel's.
insert : Range → List Range → List Range
insert r [] = r ∷ []
insert r (b ∷ bs) = if leb r.start b.start then r ∷ b ∷ bs else b ∷ insert r bs

insertion_sort : List Range → List Range
insertion_sort [] = []
insertion_sort (r ∷ rs) = insert r (insertion_sort rs)

insert-Sorted :
    (a : ℕ) (r : Range) (rs : List Range)
    → a ≤ r.start
    → SortedFrom a rs
    → SortedFrom a (insert r rs)
unfolding insert SortedFrom
insert-Sorted a r [] h s = (h, tt)
insert-Sorted a r (b ∷ bs) h (s, ss) = elim (Bool-cases (leb r.start b.start)) [
  | inl low ↦ rw low (h, (leb→le r.start b.start low, ss))
  | inr high ↦ rw high (s, insert-Sorted b.start r bs (ground arith) ss)
]

insert-Member :
    (r : Range) (rs : List Range) (a : Range) → Member a (insert r rs) ↔ Member a (r ∷ rs)
unfolding insert Member
insert-Member r [] a = (λ m. m, λ m. m)
insert-Member r (b ∷ bs) a = elim (Bool-cases (leb r.start b.start)) [
  | inl low ↦ rw low (λ m. m, λ m. m)
  | inr high ↦
      let (out, back) = insert-Member r bs a in
      rw high (
        λ m. elim m [
          | inl e ↦ inr (inl e)
          | inr k ↦ elim (out k) [ inl e ↦ inl e | inr k' ↦ inr (inr k') ]
        ],
        λ m. elim m [
          | inl e ↦ inr (back (inl e))
          | inr k ↦ elim k [ inl e ↦ inl e | inr k' ↦ inr (back (inr k')) ]
        ],
      )
]

insertion_sort-Sorted : (rs : List Range) → SortedFrom 0 (insertion_sort rs)
unfolding insertion_sort SortedFrom
insertion_sort-Sorted [] = tt
insertion_sort-Sorted (r ∷ rs) =
    insert-Sorted 0 r (insertion_sort rs) (omega arith) (insertion_sort-Sorted rs)

insertion_sort-Member : (rs : List Range) (a : Range) → Member a (insertion_sort rs) ↔ Member a rs
unfolding insertion_sort Member
insertion_sort-Member [] a = (λ m. m, λ m. m)
insertion_sort-Member (r ∷ rs) a =
    let (out, back) = insert-Member r (insertion_sort rs) a in
    let (out', back') = insertion_sort-Member rs a in
    (
      λ m. elim (out m) [ inl e ↦ inl e | inr k ↦ inr (out' k) ],
      λ m. back (elim m [ inl e ↦ inl e | inr k ↦ inr (back' k) ]),
    )

abbrev two_ranges : List Range
two_ranges = record { start = 2; end = 5 } ∷ record { start = 8; end = 9 } ∷ []

abbrev touching : List Range
touching = record { start = 2; end = 5 } ∷ record { start = 5; end = 9 } ∷ []

touching_merged : merge touching ≡ record { start = 2; end = 9 } ∷ []
unfolding merge merge_from
touching_merged = refl

two_ranges-Within : Within 20 0 two_ranges
unfolding Within
two_ranges-Within = ground arith

for_each_hole-complement_example :
    (hs : List Range) × (for_each_hole two_ranges 20 ≡ some hs)
    × ((x : ℕ) → x < 20 → Covers x two_ranges ⊎ Covers x hs)
    × ((x : ℕ) → Covers x two_ranges → Covers x hs → ⊥)
for_each_hole-complement_example = for_each_hole-complement 20 two_ranges two_ranges-Within

abbrev out_of_order : List Range
out_of_order =
    record { start = 5; end = 9 }
    ∷ record { start = 20; end = 21 }
    ∷ record { start = 2; end = 5 }
    ∷ []

out_of_order-Forward : Forward out_of_order
unfolding Forward
out_of_order-Forward = ground arith

ranges_sort_merge-Apart_example :
    Apart (ranges_sort_merge insertion_sort out_of_order)
    × ((x : ℕ) → Covers x (ranges_sort_merge insertion_sort out_of_order) ↔ Covers x out_of_order)
ranges_sort_merge-Apart_example =
    ranges_sort_merge-Apart insertion_sort insertion_sort-Sorted insertion_sort-Member out_of_order
      out_of_order-Forward
