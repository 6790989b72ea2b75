-- ===== src/Heap/Sift.antt =====
-- Sifting an element down puts an array into heap order: `heap_sift` of libbcache/util.h.
use bcache_tools.Base.{
  Bool, Bool-cases, ap, arith, dec_lt, false, inl, inr, ltb, refl, suc, true, zero, ℕ, ℕ_discrete,
  ◌&&◌, ◌*◌, ◌+◌, ◌<◌, ◌==◌, ◌≡◌, ◌≤◌,
}
use bcache_tools.Heap.{first_child, sift, swap}

-- What the users of a heap give: a strict order, in which two elements may tie.
pub record IsOrder {S : Type 0} (cmp : S → S → Bool) : Type 0 where
  pub asym : (a b : S) → cmp a b ≡ true → cmp b a ≡ false
  pub trans : (a b c : S) → cmp a b ≡ false → cmp b c ≡ false → cmp a c ≡ false

pub swap-left : {S : Type 0} (i j : ℕ) (items : ℕ → S) → swap i j items i ≡ items j
unfolding swap
swap-left i j items = ground arith

pub swap-right : {S : Type 0} (i j : ℕ) (items : ℕ → S) → swap i j items j ≡ items i
unfolding swap
swap-right i j items = elim (ℕ_discrete j i) [
  | yes e ↦ let same : (j == i) ≡ true = ground arith in rw same (ap items e)
  | no ne ↦
      let other : (j == i) ≡ false = ground arith in
      let same : (j == j) ≡ true = ground arith in rw (other, same) refl
]

pub swap-other :
    {S : Type 0} (i j : ℕ) (items : ℕ → S) (k : ℕ)
    → ¬ (k ≡ i)
    → ¬ (k ≡ j)
    → swap i j items k ≡ items k
unfolding swap
swap-other i j items k hi hj = ground arith

module _ {S : Type 0} (cmp : S → S → Bool) (o : IsOrder cmp) where
  -- From the index `i` on, no element comes after its children; `2 j + 1` and `2 j + 2` are those of `j`.
  unfoldable pub IsHeapFrom : ℕ → ℕ → (ℕ → S) → Type 0
  IsHeapFrom i used items =
      (j c : ℕ) → i ≤ j → 2 * j + 1 ≤ c → c ≤ 2 * j + 2 → c < used → cmp (items j) (items c) ≡ false

  -- But for `j`, which may come after its children, though its parent does not.
  pub record IsSifted (i j used : ℕ) (items : ℕ → S) : Type 0 where
    pub others :
        (p c : ℕ)
        → i ≤ p
        → ¬ (p ≡ j)
        → 2 * p + 1 ≤ c
        → c ≤ 2 * p + 2
        → c < used
        → cmp (items p) (items c) ≡ false
    pub across :
        (p c : ℕ)
        → i ≤ p
        → 2 * p + 1 ≤ j
        → j ≤ 2 * p + 2
        → 2 * j + 1 ≤ c
        → c ≤ 2 * j + 2
        → c < used
        → cmp (items p) (items c) ≡ false

  pub irrefl : (a : S) → cmp a a ≡ false
  irrefl a = elim (Bool-cases (cmp a a)) [ inl e ↦ o.asym a a e | inr e ↦ e ]

  -- The child that comes first.
  pub first_child-child :
      (used j : ℕ) (items : ℕ → S)
      → 2 * j + 1 < used
      → (2 * j + 1 ≤ first_child cmp used items j)
        × (first_child cmp used items j ≤ 2 * j + 2)
        × (first_child cmp used items j < used)
  unfolding first_child
  first_child-child used j items h = (ground arith, ground arith, ground arith)

  pub first_child-first :
      (used j : ℕ) (items : ℕ → S) (c : ℕ)
      → 2 * j + 1 ≤ c
      → c ≤ 2 * j + 2
      → c < used
      → cmp (items (first_child cmp used items j)) (items c) ≡ false
  unfolding first_child
  first_child-first used j items c lo hi h =
      elim (Bool-cases (ltb (2 * j + 2) used && cmp (items (2 * j + 1)) (items (2 * j + 2)))) [
        | inl second ↦ elim (ℕ_discrete c (2 * j + 2)) [
          | yes e ↦ rw (second, e) (irrefl (items (2 * j + 2)))
          | no ne ↦
              let e : c ≡ 2 * j + 1 = omega arith in
              let after_first : cmp (items (2 * j + 1)) (items (2 * j + 2)) ≡ true =
                ground (arith, second) in
              rw (second, e) (o.asym _ _ after_first)
        ]
        | inr first ↦ elim (ℕ_discrete c (2 * j + 2)) [
          | yes e ↦
              let room : ltb (2 * j + 2) used ≡ true = ground arith in
              let not_after : cmp (items (2 * j + 1)) (items (2 * j + 2)) ≡ false =
                ground (arith, first, room) in
              rw (first, e) not_after
          | no ne ↦
              let e : c ≡ 2 * j + 1 = omega arith in rw (first, e) (irrefl (items (2 * j + 1)))
        ]
      ]

  -- An element that comes after none of its children is in its place.
  settled-IsHeapFrom :
      (i j used : ℕ) (items : ℕ → S)
      → IsSifted i j used items
      → ((c : ℕ) → 2 * j + 1 ≤ c → c ≤ 2 * j + 2 → c < used → cmp (items j) (items c) ≡ false)
      → IsHeapFrom i used items
  unfolding IsHeapFrom
  settled-IsHeapFrom i j used items inv h p c ip lo hi hc = elim (ℕ_discrete p j) [
    | yes e ↦ rw e (h c (omega arith) (omega arith) hc)
    | no ne ↦ inv.others p c ip ne lo hi hc
  ]

  -- One that comes after a child changes places with the first of them.
  module _ (i j used : ℕ) (items : ℕ → S) (ij : i ≤ j) (inv : IsSifted i j used items) (r : ℕ)
      (low : 2 * j + 1 ≤ r) (high : r ≤ 2 * j + 2) (room : r < used)
      (first : (c : ℕ) → 2 * j + 1 ≤ c → c ≤ 2 * j + 2 → c < used → cmp (items r) (items c) ≡ false)
      (before : cmp (items r) (items j) ≡ false) where
    swapped-others :
        (p c : ℕ)
        → i ≤ p
        → ¬ (p ≡ r)
        → 2 * p + 1 ≤ c
        → c ≤ 2 * p + 2
        → c < used
        → cmp (swap r j items p) (swap r j items c) ≡ false
    swapped-others p c ip pr lo hi hc = elim (ℕ_discrete p j) [
      | yes e ↦ elim (ℕ_discrete c r) [
        | yes ec ↦ rw (e, ec, swap-left r j items, swap-right r j items) before
        | no nc ↦
            rw (e, swap-right r j items, swap-other r j items c nc (omega arith))
              (first c (omega arith) (omega arith) hc)
      ]
      | no ne ↦
          let cr : ¬ (c ≡ r) = λ e. ne (omega arith) in
          elim (ℕ_discrete c j) [
            | yes ec ↦
                rw (ec, swap-right r j items, swap-other r j items p pr ne)
                  (inv.across p r ip (omega arith) (omega arith) low high room)
            | no nc ↦
                rw (swap-other r j items p pr ne, swap-other r j items c cr nc)
                  (inv.others p c ip ne lo hi hc)
          ]
    ]

    swapped-across :
        (p c : ℕ)
        → i ≤ p
        → 2 * p + 1 ≤ r
        → r ≤ 2 * p + 2
        → 2 * r + 1 ≤ c
        → c ≤ 2 * r + 2
        → c < used
        → cmp (swap r j items p) (swap r j items c) ≡ false
    swapped-across p c ip lo hi cl ch hc =
        let e : p ≡ j = omega arith in
        rw
          (
            e,
            swap-right r j items,
            swap-other r j items c (λ x. absurd (omega arith)) (λ x. absurd (omega arith)),
          )
          (inv.others r c (omega arith) (λ x. absurd (omega arith)) cl ch hc)

    swapped-IsSifted : IsSifted i r used (swap r j items)
    swapped-IsSifted = record { others = swapped-others; across = swapped-across }

  -- Enough fuel puts the array in order.
  pub sift-IsHeapFrom :
      (fuel i j used : ℕ) (items : ℕ → S)
      → used ≤ fuel + j
      → i ≤ j
      → IsSifted i j used items
      → IsHeapFrom i used (sift cmp fuel used j items)
  unfolding sift
  sift-IsHeapFrom zero i j used items h ij inv =
      settled-IsHeapFrom i j used items inv (λ c lo hi hc. absurd (omega arith))
  sift-IsHeapFrom (suc fuel) i j used items h ij inv = elim (dec_lt (2 * j + 1) used) [
    | no leaf ↦
        let e : ltb (2 * j + 1) used ≡ false = ground arith in
        rw (sift, e) (settled-IsHeapFrom i j used items inv (λ c lo hi hc. absurd (omega arith)))
    | yes child ↦
        let e : ltb (2 * j + 1) used ≡ true = ground arith in
        let r = first_child cmp used items j in
        let (low, high, room) = first_child-child used j items child in
        elim (Bool-cases (cmp (items r) (items j))) [
          | inl stays ↦
              rw (sift, e, stays)
                (settled-IsHeapFrom i j used items inv (λ c lo hi hc.
                  o.trans _ _ _ (o.asym _ _ stays) (first_child-first used j items c lo hi hc)))
          | inr moves ↦
              rw (sift, e, moves)
                (sift-IsHeapFrom fuel i r used (swap r j items) (omega arith) (omega arith) (
                  swapped-IsSifted i j used items ij inv r low high room
                    (first_child-first used j items) moves))
        ]
  ]
