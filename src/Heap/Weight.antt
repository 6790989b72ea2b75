-- ===== src/Heap/Weight.antt =====
-- Moving the elements of an array about keeps them: `heap_swap`, `heap_sift` and `heap_sift_down` of
-- libbcache/util.h.
use bcache_tools.Base.{
  Bool, Bool-cases, ap, arith, dec_lt, false, if◌then◌else◌, inl, inr, ltb, refl, suc, true, zero,
  ℕ, ℕ_discrete, ◌*◌, ◌+◌, ◌-◌, ◌/◌, ◌<◌, ◌==◌, ◌∙◌, ◌≡◌, ◌≤◌,
}
use bcache_tools.Heap.{first_child, sift, sift_down, swap}
use bcache_tools.Heap.Sift.{swap-left, swap-other, swap-right}

module _ {S : Type 0} (f : S → ℕ) where
  -- The sum of the weights of the first `n` elements. Two arrays hold the same elements where they agree
  -- for every weight.
  unfoldable pub weight : ℕ → (ℕ → S) → ℕ
  weight zero items = 0
  weight (suc n) items = weight n items + f (items n)

  pub weight_same : (n : ℕ) (a b : ℕ → S) → ((k : ℕ) → k < n → a k ≡ b k) → weight n a ≡ weight n b
  unfolding weight
  weight_same zero a b h = refl
  weight_same (suc n) a b h =
      rw (h n (omega arith), weight_same n a b (λ k hk. h k (omega arith))) refl

  -- Where two arrays differ in one element, their weights do as it does.
  pub weight_changed :
      (n i : ℕ) (a b : ℕ → S)
      → i < n
      → ((k : ℕ) → k < n → ¬ (k ≡ i) → a k ≡ b k)
      → weight n a + f (b i) ≡ weight n b + f (a i)
  unfolding weight
  weight_changed zero i a b hi h = absurd (omega arith)
  weight_changed (suc n) i a b hi h = elim (ℕ_discrete i n) [
    | yes e ↦
        let low = weight_same n a b (λ k hk. h k (omega arith) (λ x. absurd (omega arith))) in
        rw (e, low) (grind arith)
    | no ne ↦
        let low = weight_changed n i a b (omega arith) (λ k hk. h k (omega arith)) in
        let top : a n ≡ b n = h n (omega arith) (λ x. absurd (omega arith)) in
        rw top (omega (arith, low))
  ]

  -- The array with the element `i` made what the element `j` is.
  put : ℕ → S → (ℕ → S) → ℕ → S
  put i x items k = if k == i then x else items k

  pub weight-swap :
      (n i j : ℕ) (items : ℕ → S) → i < n → j < n → weight n (swap i j items) ≡ weight n items
  unfolding put swap
  weight-swap n i j items hi hj =
      let mid = put i (items j) items in
      let at_mid : mid i ≡ items j = ground arith in
      let one : weight n mid + f (items i) ≡ weight n items + f (mid i) =
        weight_changed n i mid items hi (λ k hk ne. ground arith) in
      let two : weight n (swap i j items) + f (mid j) ≡ weight n mid + f (swap i j items j) =
        weight_changed n j (swap i j items) mid hj (λ k hk ne. ground arith) in
      let at_j : mid j ≡ items j = elim (Bool-cases (j == i)) [
        | inl e ↦ rw e refl
        | inr e ↦ rw e refl
      ] in
      omega (arith, one, two, ap f at_mid, ap f at_j, ap f (swap-right i j items))

  -- What is swapped with an element past the end goes out.
  pub weight-swap_out :
      (n i j : ℕ) (items : ℕ → S)
      → i < n
      → n ≤ j
      → weight n (swap i j items) + f (items i) ≡ weight n items + f (items j)
  weight-swap_out n i j items hi hj =
      weight_changed n i (swap i j items) items hi
        (λ k hk ne. swap-other i j items k ne (λ x. absurd (omega arith)))
      ∙ ap (λ t. weight n items + f t) (swap-left i j items)

module _ {S : Type 0} (cmp : S → S → Bool) (f : S → ℕ) where
  pub weight-sift :
      (fuel used j : ℕ) (items : ℕ → S)
      → weight f used (sift cmp fuel used j items) ≡ weight f used items
  unfolding sift first_child
  weight-sift zero used j items = refl
  weight-sift (suc fuel) used j items = elim (dec_lt (2 * j + 1) used) [
    | no leaf ↦ let e : ltb (2 * j + 1) used ≡ false = ground arith in rw (sift, e) refl
    | yes child ↦
        let e : ltb (2 * j + 1) used ≡ true = ground arith in
        let r = first_child cmp used items j in
        let room : r < used = ground arith in
        elim (Bool-cases (cmp (items r) (items j))) [
          | inl stays ↦ rw (sift, e, stays) refl
          | inr moves ↦
              rw (sift, e, moves)
                (weight-sift fuel used r (swap r j items)
                  ∙ weight-swap f used r j items room (omega arith))
        ]
  ]

  pub weight-sift_down :
      (fuel used i : ℕ) (items : ℕ → S)
      → i < used
      → (weight f used (sift_down cmp fuel i items).1 ≡ weight f used items)
        × ((sift_down cmp fuel i items).0 ≤ i)
  unfolding sift_down
  weight-sift_down zero used i items h = (refl, omega arith)
  weight-sift_down (suc fuel) used i items h = elim (ℕ_discrete i 0) [
    | yes top ↦ let e : (i == 0) ≡ true = ground arith in rw (sift_down, e) (refl, omega arith)
    | no below ↦
        let e : (i == 0) ≡ false = ground arith in
        let p = (i - 1) / 2 in
        elim (Bool-cases (cmp (items i) (items p))) [
          | inl stays ↦ rw (sift_down, e, stays) (refl, omega arith)
          | inr moves ↦
              let (w, up) = weight-sift_down fuel used p (swap i p items) (omega arith) in
              rw (sift_down, e, moves)
                (w ∙ weight-swap f used i p items h (omega arith), omega arith)
        ]
  ]
