-- ===== src/Heap/Build.antt =====
-- Every operation of libbcache/util.h leaves a heap in order, and keeps the elements that it should.
use bcache_tools.Base.{
  Bool, Bool-cases, arith, false, inl, inr, suc, true, zero, ℕ, ℕ_discrete, ◌*◌, ◌+◌, ◌-◌, ◌/◌, ◌<◌,
  ◌==◌, ◌≡◌, ◌≤◌,
}
use bcache_tools.Heap.{Heap, resift, sift_down, swap}
use bcache_tools.Heap.Sift.{IsHeapFrom, IsOrder, IsSifted, sift-IsHeapFrom, swap-left, swap-other}

module _ {S : Type 0} (cmp : S → S → Bool) (o : IsOrder cmp) where
  -- In order, but for the element `i`, which may be out of order both ways.
  pub record IsDisturbed (i used : ℕ) (items : ℕ → S) : Type 0 where
    pub others :
        (p c : ℕ)
        → ¬ (p ≡ i)
        → ¬ (c ≡ i)
        → 2 * p + 1 ≤ c
        → c ≤ 2 * p + 2
        → c < used
        → cmp (items p) (items c) ≡ false
    pub around :
        (p c : ℕ)
        → 2 * p + 1 ≤ i
        → i ≤ 2 * p + 2
        → 2 * i + 1 ≤ c
        → c ≤ 2 * i + 2
        → c < used
        → cmp (items p) (items c) ≡ false

  -- Where the element comes after its parent, only its children are left to compare it with.
  raised-IsSifted :
      (i used : ℕ) (items : ℕ → S)
      → IsDisturbed i used items
      → ((p : ℕ) → 2 * p + 1 ≤ i → i ≤ 2 * p + 2 → cmp (items p) (items i) ≡ false)
      → IsSifted cmp o 0 i used items
  raised-IsSifted i used items d h = record {
    others = λ p c zp ne lo hi hc. elim (ℕ_discrete c i) [
      | yes e ↦ rw e (h p (omega arith) (omega arith))
      | no nc ↦ d.others p c ne nc lo hi hc
    ];
    across = λ p c zp. d.around p c;
  }

  -- An element that does not come after its parent changes places with it.
  module _ (i used : ℕ) (items : ℕ → S) (d : IsDisturbed i used items) (below : ¬ (i ≡ 0)) (p : ℕ)
      (low : 2 * p + 1 ≤ i) (high : i ≤ 2 * p + 2) (before : cmp (items i) (items p) ≡ false) where
    swapped-others :
        (q c : ℕ)
        → ¬ (q ≡ p)
        → ¬ (c ≡ p)
        → 2 * q + 1 ≤ c
        → c ≤ 2 * q + 2
        → c < used
        → cmp (swap i p items q) (swap i p items c) ≡ false
    swapped-others q c qp cp lo hi hc = elim (ℕ_discrete q i) [
      | yes e ↦
          rw (e, swap-left i p items, swap-other i p items c (λ x. absurd (omega arith)) cp)
            (d.around p c low high (omega arith) (omega arith) hc)
      | no qi ↦
          rw (swap-other i p items q qi qp, swap-other i p items c (λ x. qp (omega arith)) cp)
            (d.others q c qi (λ x. qp (omega arith)) lo hi hc)
    ]

    -- The children of the parent, after the change.
    swapped-child :
        (c : ℕ)
        → 2 * p + 1 ≤ c
        → c ≤ 2 * p + 2
        → c < used
        → (g : ℕ) → 2 * g + 1 ≤ p
        → p ≤ 2 * g + 2
        → cmp (items g) (swap i p items c) ≡ false
    swapped-child c lo hi hc g gl gh =
        let up : cmp (items g) (items p) ≡ false =
          d.others g p (λ x. absurd (omega arith)) (λ x. absurd (omega arith)) gl gh
            (omega arith) in
        elim (ℕ_discrete c i) [
          | yes e ↦ rw (e, swap-left i p items) up
          | no ci ↦
              rw (swap-other i p items c ci (λ x. absurd (omega arith)))
                (o.trans _ _ _ up (d.others p c (λ x. absurd (omega arith)) ci lo hi hc))
        ]

    swapped-IsDisturbed : IsDisturbed p used (swap i p items)
    swapped-IsDisturbed = record {
      others = swapped-others;
      around = λ g c gl gh lo hi hc.
          rw (swap-other i p items g (λ x. absurd (omega arith)) (λ x. absurd (omega arith)))
            (swapped-child c lo hi hc g gl gh);
    }

  sift_down-IsSifted :
      (fuel i used : ℕ) (items : ℕ → S)
      → i ≤ fuel
      → IsDisturbed i used items
      → IsSifted cmp o 0 (sift_down cmp fuel i items).0 used (sift_down cmp fuel i items).1
  unfolding sift_down
  sift_down-IsSifted zero i used items h d =
      raised-IsSifted i used items d (λ p lo hi. absurd (omega arith))
  sift_down-IsSifted (suc fuel) i used items h d = elim (ℕ_discrete i 0) [
    | yes top ↦
        let e : (i == 0) ≡ true = ground arith in
        rw (sift_down, e) (raised-IsSifted i used items d (λ p lo hi. absurd (omega arith)))
    | no below ↦
        let e : (i == 0) ≡ false = ground arith in
        let p = (i - 1) / 2 in
        elim (Bool-cases (cmp (items i) (items p))) [
          | inl stays ↦
              rw (sift_down, e, stays)
                (raised-IsSifted i used items d
                  (λ q lo hi. let same : q ≡ p = omega arith in rw same (o.asym _ _ stays)))
          | inr moves ↦
              rw (sift_down, e, moves)
                (sift_down-IsSifted fuel p used (swap i p items) (omega arith)
                  (swapped-IsDisturbed i used items d below p (omega arith) (omega arith) moves))
        ]
  ]

  -- Both loops put the element in its place.
  pub resift-IsHeapFrom :
      (i : ℕ) (h : Heap S)
      → IsDisturbed i h.used h.items
      → IsHeapFrom cmp o 0 h.used (resift cmp i h).items
  unfolding resift
  resift-IsHeapFrom i h d =
      sift-IsHeapFrom cmp o h.used 0 (sift_down cmp i i h.items).0 h.used
        (sift_down cmp i i h.items).1 (omega arith) (omega arith)
        (sift_down-IsSifted i i h.used h.items (omega arith) d)
