-- ===== src/Ranges/Holes.antt =====
-- The holes between ranges, `for_each_hole` of tools-util.h.
use bcache_tools.Base.{
  List, [], arith, dec_lt, false, inl, inr, ltb, refl, some, ℕ, ◌<◌, ◌∷◌, ◌≡◌, ◌≤◌, ◌⊎◌,
}
use bcache_tools.Ranges.{Covers, Range, for_each_hole, holes_from}

-- Ranges in order from `a` on, none of which ends after `end`.
unfoldable pub Within : ℕ → ℕ → List Range → Type 0
Within end a [] = a ≤ end
Within end a (r ∷ rs) = (a ≤ r.start) × (r.start ≤ r.end) × Within end r.end rs

Covers-above : (end a x : ℕ) (rs : List Range) → Within end a rs → Covers x rs → a ≤ x
unfolding Covers Within
Covers-above end a x [] w c = elim c [ ]
Covers-above end a x (r ∷ rs) (h, f, w) (inl (lo, hi)) = omega arith
Covers-above end a x (r ∷ rs) (h, f, w) (inr c) = omega (arith, Covers-above end r.end x rs w c)

-- The holes of `rs` from `a` on: those of the code, what they cover, and that they lie after `a`.
Complement : ℕ → ℕ → List Range → List Range → Type 0
Complement end a rs hs =
    ((x : ℕ) → a ≤ x → x < end → Covers x rs ⊎ Covers x hs)
    × ((x : ℕ) → Covers x rs → Covers x hs → ⊥)
    × ((x : ℕ) → Covers x hs → a ≤ x)

holes_from-Complement :
    (end a : ℕ) (rs : List Range)
    → Within end a rs
    → (hs : List Range) × (holes_from a rs end ≡ some hs) × Complement end a rs hs
unfolding holes_from Within Complement Covers
holes_from-Complement end a [] w =
    let hole : Range = record { start = a; end = end } in
    let ordered : ltb end a ≡ false = ground arith in
    (
      hole ∷ [],
      rw (ordered, holes_from) refl,
      (
        λ x lo hi. inr (inl (lo, hi)),
        λ x c. elim c [ ],
        λ x c. elim c [ inl (lo, hi) ↦ lo | inr c' ↦ elim c' [ ] ],
      ),
    )
holes_from-Complement end a (r ∷ rs) (h, f, w) =
    let (hs, e, (all, none_both, above)) = holes_from-Complement end r.end rs w in
    let ordered : ltb r.start a ≡ false = ground arith in
    (
      record { start = a; end = r.start } ∷ hs,
      rw (ordered, e, holes_from) refl,
      (
        (λ x lo hi. elim (dec_lt x r.start) [
          | yes before ↦ inr (inl (lo, before))
          | no ge ↦ elim (dec_lt x r.end) [
            | yes here ↦ inl (inl (omega arith, here))
            | no after ↦ elim (all x (omega arith) hi) [ inl c ↦ inl (inr c) | inr c ↦ inr (inr c) ]
          ]
        ]),
        (λ x c k. elim c [
          | inl (lo, hi) ↦ elim k [
            | inl (lo', hi') ↦ absurd (omega arith)
            | inr k' ↦ absurd (omega (arith, above x k'))
          ]
          | inr c' ↦ elim k [
            | inl (lo', hi') ↦ absurd (omega (arith, Covers-above end r.end x rs w c'))
            | inr k' ↦ none_both x c' k'
          ]
        ]),
        λ x k. elim k [ inl (lo, hi) ↦ lo | inr k' ↦ omega (arith, above x k') ],
      ),
    )

-- For ranges in order up to `end`, the iteration over the holes meets no BUG, and each byte below
-- `end` is in a range or in a hole, and no byte is in both.
pub for_each_hole-complement :
    (end : ℕ) (rs : List Range)
    → Within end 0 rs
    → (hs : List Range) × (for_each_hole rs end ≡ some hs)
      × ((x : ℕ) → x < end → Covers x rs ⊎ Covers x hs)
      × ((x : ℕ) → Covers x rs → Covers x hs → ⊥)
unfolding for_each_hole Complement
for_each_hole-complement end rs w =
    let (hs, e, (all, none_both, above)) = holes_from-Complement end 0 rs w in
    (hs, e, (λ x hi. all x (omega arith) hi), none_both)
