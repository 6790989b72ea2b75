-- ===== src/Ranges/Merged.antt =====
-- What `ranges_sort_merge` makes of its ranges, tools-util.c.
use bcache_tools.Base.{
  Bool-cases, List, [], ap, arith, dec_lt, inl, inr, leb, leb→le, max, refl, ℕ, ◌<◌, ◌↔◌, ◌∷◌, ◌≤◌,
}
use bcache_tools.Ranges.{
  Apart, ApartFrom, Covers, Forward, Member, Range, SortedFrom, merge, merge_from,
  ranges_sort_merge,
}

-- From the last item on, the ranges are apart.
Heads : ℕ → List Range → Type 0
Heads a [] = ⊥
Heads a (r ∷ rs) = (a ≤ r.start) × (r.start ≤ r.end) × ApartFrom r.end rs

SortedFrom-le : (rs : List Range) {a b : ℕ} → a ≤ b → SortedFrom b rs → SortedFrom a rs
unfolding SortedFrom
SortedFrom-le [] le s = tt
SortedFrom-le (r ∷ rs) le (s, ss) = (omega arith, ss)

merge_from-Heads :
    (t : Range) (is : List Range)
    → t.start ≤ t.end
    → SortedFrom t.start is
    → Forward is
    → Heads t.start (merge_from t is)
unfolding merge_from SortedFrom Forward Heads ApartFrom
merge_from-Heads t [] ht hs hf = (omega arith, ht, tt)
merge_from-Heads t (i ∷ is) ht (h, hs) (hi, hf) = elim (Bool-cases (leb i.start t.end)) [
  | inl near ↦
      rw (near, merge_from)
        (merge_from-Heads (record t { end = max t.end i.end }) is (omega arith)
          (SortedFrom-le is h hs) hf)
  | inr far ↦
      rw (far, merge_from)
        (
          omega arith,
          ht,
          Heads-apart (merge_from i is) (ground arith) (merge_from-Heads i is hi hs hf),
        )
]
  where
    Heads-apart : (rs : List Range) {a b : ℕ} → a < b → Heads b rs → ApartFrom a rs
    Heads-apart [] lt s = tt
    Heads-apart (r ∷ rs) lt (s, f, ss) = (omega arith, f, ss)

-- The loop keeps the bytes that are covered.
merge_from-Covers :
    (x : ℕ) (t : Range) (is : List Range)
    → t.start ≤ t.end
    → SortedFrom t.start is
    → Forward is
    → Covers x (merge_from t is) ↔ Covers x (t ∷ is)
unfolding merge_from SortedFrom Forward Covers
merge_from-Covers x t [] ht hs hf = (λ c. c, λ c. c)
merge_from-Covers x t (i ∷ is) ht (h, hs) (hi, hf) = elim (Bool-cases (leb i.start t.end)) [
  | inl near ↦
      let le = leb→le i.start t.end near in
      let same =
        merge_from-Covers x (record t { end = max t.end i.end }) is (omega arith)
          (SortedFrom-le is h hs) hf in
      rw (near, merge_from)
        (
          λ c. elim (same.0 c) [
            | inl (a, b) ↦ elim (dec_lt x t.end) [
              | yes lt ↦ inl (a, lt)
              | no ge ↦ inr (inl (omega arith, omega arith))
            ]
            | inr later ↦ inr (inr later)
          ],
          λ c. elim c [
            | inl (a, b) ↦ same.1 (inl (a, omega arith))
            | inr (inl (a, b)) ↦ same.1 (inl (omega arith, omega arith))
            | inr (inr later) ↦ same.1 (inr later)
          ],
        )
  | inr far ↦
      let same = merge_from-Covers x i is hi hs hf in
      rw (far, merge_from)
        (
          λ c. elim c [ inl here ↦ inl here | inr later ↦ inr (same.0 later) ],
          λ c. elim c [ inl here ↦ inl here | inr later ↦ inr (same.1 later) ],
        )
]

-- What holds of a range of the list, of all of it.
Forward-of_Member : (rs : List Range) → ((r : Range) → Member r rs → r.start ≤ r.end) → Forward rs
unfolding Forward Member
Forward-of_Member [] h = tt
Forward-of_Member (r ∷ rs) h = (h r (inl refl), Forward-of_Member rs (λ a m. h a (inr m)))

Member-Forward : (rs : List Range) (r : Range) → Forward rs → Member r rs → r.start ≤ r.end
unfolding Forward Member
Member-Forward [] r h m = elim m [ ]
Member-Forward (a ∷ rs) r (h, hs) (inl e) = omega (arith, ap (λ q. q.start) e, ap (λ q. q.end) e)
Member-Forward (a ∷ rs) r (h, hs) (inr m) = Member-Forward rs r hs m

Covers-Member :
    (x : ℕ) (rs : List Range)
    → Covers x rs
    → (r : Range) × Member r rs × (r.start ≤ x) × (x < r.end)
unfolding Covers Member
Covers-Member x [] c = elim c [ ]
Covers-Member x (a ∷ rs) (inl (lo, hi)) = (a, inl refl, lo, hi)
Covers-Member x (a ∷ rs) (inr c) = let (r, m, lo, hi) = Covers-Member x rs c in (r, inr m, lo, hi)

Member-Covers :
    (x : ℕ) (rs : List Range) (r : Range) → Member r rs → r.start ≤ x → x < r.end → Covers x rs
unfolding Covers Member
Member-Covers x [] r m lo hi = elim m [ ]
Member-Covers x (a ∷ rs) r (inl e) lo hi = inl (
  omega (arith, ap (λ q. q.start) e, ap (λ q. q.end) e),
  omega (arith, ap (λ q. q.start) e, ap (λ q. q.end) e),
)
Member-Covers x (a ∷ rs) r (inr m) lo hi = inr (Member-Covers x rs r m lo hi)

module _ (sort : List Range → List Range) (sort-Sorted : (rs : List Range) → SortedFrom 0 (sort rs))
    (sort-Member : (rs : List Range) (r : Range) → Member r (sort rs) ↔ Member r rs) where
  sort-Covers : (rs : List Range) (x : ℕ) → Covers x (sort rs) ↔ Covers x rs
  sort-Covers rs x = (
    λ c.
        (let (r, m, lo, hi) = Covers-Member x (sort rs) c in
          Member-Covers x rs r ((sort-Member rs r).0 m) lo hi),
    λ c.
        (let (r, m, lo, hi) = Covers-Member x rs c in
          Member-Covers x (sort rs) r ((sort-Member rs r).1 m) lo hi),
  )

  sort-Forward : (rs : List Range) → Forward rs → Forward (sort rs)
  sort-Forward rs h =
      Forward-of_Member (sort rs) (λ r m. Member-Forward rs r h ((sort-Member rs r).0 m))

  merge-Apart :
      (rs : List Range)
      → SortedFrom 0 rs
      → Forward rs
      → Apart (merge rs) × ((x : ℕ) → Covers x (merge rs) ↔ Covers x rs)
  unfolding merge Apart SortedFrom Forward Heads Covers
  merge-Apart [] hs hf = (tt, λ x. (λ c. c, λ c. c))
  merge-Apart (t ∷ is) (h, hs) (ht, hf) = (
    Apart-Heads t.start (merge_from t is) (merge_from-Heads t is ht hs hf),
    λ x. merge_from-Covers x t is ht hs hf,
  )
    where
      Apart-Heads : (a : ℕ) (rs : List Range) → Heads a rs → Apart rs
      Apart-Heads a [] s = tt
      Apart-Heads a (r ∷ rs) (s, f, ss) = (f, ss)

  -- If `sort` orders its ranges by `range_cmp` and keeps them, and every range ends at or after its
  -- start, then `ranges_sort_merge` leaves ranges in order and apart, of the same bytes.
  pub ranges_sort_merge-Apart :
      (rs : List Range)
      → Forward rs
      → Apart (ranges_sort_merge sort rs)
        × ((x : ℕ) → Covers x (ranges_sort_merge sort rs) ↔ Covers x rs)
  unfolding ranges_sort_merge
  ranges_sort_merge-Apart rs h =
      let (apart, same) = merge-Apart (sort rs) (sort-Sorted rs) (sort-Forward rs h) in
      (
        apart,
        λ x. (λ c. (sort-Covers rs x).0 ((same x).0 c), λ c. (same x).1 ((sort-Covers rs x).1 c)),
      )
