-- ===== src/StrHash/Chains.antt =====
-- The probe chains of libbcache/str_hash.h: what `bch_hash_delete` may empty.
use mathlib.Core.Path.{subst}
use bcache_tools.Base.{
  Bool, Bool-cases, Option-cases, ap, arith, dec_lt, false, inl, inr, leb, refl, some, suc, sym,
  true, zero, ℕ, ℕ_discrete, ◌+◌, ◌-◌, ◌<◌, ◌==◌, ◌∙◌, ◌≡◌, ◌≢◌, ◌≤◌,
}
use bcache_tools.Base.Family.{assign}
use bcache_tools.StrHash.{
  HashDesc, Slot, hash_delete, hole, key, lookup, lookup_at, needs_whiteout, whiteout,
  whiteout_scan,
}
use bcache_tools.StrHash.Lookup.{Slot-cases}

module _ {K : Type 0} where
  assign-here : (t : ℕ → Slot K) (v : Slot K) (i j : ℕ) → j ≡ i → assign t i v j ≡ v
  assign-here t v i j e = let same : (j == i) ≡ true = ground arith in rw same refl

  assign-other : (t : ℕ → Slot K) (v : Slot K) (i j : ℕ) → j ≢ i → assign t i v j ≡ t j
  assign-other t v i j ne = let other : (j == i) ≡ false = ground arith in rw other refl

  -- No slot from `a` up to `b` is a hole.
  unfoldable pub Occupied : (ℕ → Slot K) → ℕ → ℕ → Type 0
  Occupied t a b = (j : ℕ) → a ≤ j → j < b → t j ≢ hole

  Occupied-assign :
      (t : ℕ → Slot K) (v : Slot K) (i a b : ℕ)
      → v ≢ hole
      → Occupied t a b
      → Occupied (assign t i v) a b
  unfolding Occupied
  Occupied-assign t v i a b ne h j ha hb = elim (ℕ_discrete j i) [
    | yes e ↦ λ p. ne (sym (assign-here t v i j e) ∙ p)
    | no other ↦ λ p. h j ha hb (sym (assign-other t v i j other) ∙ p)
  ]

  Occupied-above :
      (t : ℕ → Slot K) (i a b : ℕ) → i < a → Occupied t a b → Occupied (assign t i hole) a b
  unfolding Occupied
  Occupied-above t i a b lt h j ha hb p =
      h j ha hb (sym (assign-other t hole i j (λ e. omega arith)) ∙ p)

module _ {K S : Type 0} (d : HashDesc K S) (limit : ℕ) where
  -- Every key lies at or after the offset that it hashes to, below the limit, with no hole between.
  unfoldable pub Chained : (ℕ → Slot K) → Type 0
  Chained t =
      (o : ℕ) (k : K)
      → t o ≡ key k
      → (d.hash_bkey k ≤ o) × (o < limit) × Occupied t (d.hash_bkey k) o

  -- Where `bch_hash_needs_whiteout` says no, no key of the chain hashes to the slot or before.
  whiteout_scan-false :
      (beyond : Bool) (start n p : ℕ) (t : ℕ → Slot K)
      → whiteout_scan d beyond start n p t ≡ false
      → (o : ℕ) (k : K) → t o ≡ key k
      → p ≤ o
      → o < p + n
      → Occupied t p o
      → start < d.hash_bkey k
  unfolding whiteout_scan Occupied
  whiteout_scan-false beyond start zero p t e o k at hp hn h = absurd (omega arith)
  whiteout_scan-false beyond start (suc n) p t e o k at hp hn h = elim (Slot-cases (t p)) [
    | inl empty ↦ elim (ℕ_discrete p o) [
      | yes here ↦ absurd (key-ne-hole (sym at ∙ ap t (sym here) ∙ empty))
      | no ne ↦ absurd (h p (omega arith) (omega arith) empty)
    ]
    | inr (inl dead) ↦ elim (ℕ_discrete p o) [
      | yes here ↦ absurd (key-ne-whiteout (sym at ∙ ap t (sym here) ∙ dead))
      | no ne ↦
          whiteout_scan-false beyond start n (suc p) t (rw (dead, whiteout_scan) at e) o k at
            (omega arith) (omega arith) (λ j ha hb. h j (omega arith) hb)
    ]
    | inr (inr (b, live)) ↦ elim (Bool-cases (leb (d.hash_bkey b) start)) [
      | inl low ↦ absurd (true-ne-false (rw (live, low, whiteout_scan) at e))
      | inr high ↦ elim (ℕ_discrete p o) [
        | yes here ↦
            let same = key-injective (sym at ∙ ap t (sym here) ∙ live) in
            subst (λ x. start < d.hash_bkey x) (sym same) (ground arith)
        | no ne ↦
            whiteout_scan-false beyond start n (suc p) t (rw (live, high, whiteout_scan) at e) o k
              at (omega arith) (omega arith) (λ j ha hb. h j (omega arith) hb)
      ]
    ]
  ]
    where
      key-ne-hole : key k ≡ hole → ⊥
      key-ne-hole q = cc

      key-ne-whiteout : key k ≡ whiteout → ⊥
      key-ne-whiteout q = cc

      true-ne-false : true ≡ false → ⊥
      true-ne-false q = cc

      key-injective : {b : K} → key k ≡ key b → k ≡ b
      key-injective q = cc

  -- A slot that is not a key any more breaks no chain, if it is not a hole or no chain passes it.
  Chained-cleared :
      (t : ℕ → Slot K) (pos : ℕ) (v : Slot K)
      → Chained t
      → ((k : K) → v ≢ key k)
      → ((o : ℕ) (k : K) → t o ≡ key k → o ≢ pos → Occupied (assign t pos v) (d.hash_bkey k) o)
      → Chained (assign t pos v)
  unfolding Chained
  Chained-cleared t pos v h no_key passes o k at = elim (ℕ_discrete o pos) [
    | yes e ↦ absurd (no_key k (sym (assign-here t v pos o e) ∙ at))
    | no ne ↦
        let at' = sym (assign-other t v pos o ne) ∙ at in
        ((h o k at').0, (h o k at').1, passes o k at' ne)
  ]

  Chained-whiteout : (t : ℕ → Slot K) (pos : ℕ) → Chained t → Chained (assign t pos whiteout)
  unfolding Chained
  Chained-whiteout t pos h =
      Chained-cleared t pos whiteout h (λ k e. cc)
        (λ o k at ne. Occupied-assign t whiteout pos (d.hash_bkey k) o (λ e. cc) (h o k at).2)

  Chained-hole :
      (beyond : Bool) (t : ℕ → Slot K) (pos : ℕ)
      → Chained t
      → needs_whiteout d limit beyond pos t ≡ false
      → Chained (assign t pos hole)
  unfolding Chained needs_whiteout Occupied
  Chained-hole beyond t pos h e =
      Chained-cleared t pos hole h (λ k e. cc)
        (λ o k at ne.
          let (low, high, chain) = h o k at in
          elim (dec_lt pos (d.hash_bkey k)) [
            | yes below ↦ Occupied-above t pos (d.hash_bkey k) o below chain
            | no not_below ↦ elim (dec_lt pos o) [
              | yes before ↦ absurd (
                  not_below (
                    whiteout_scan-false beyond pos (limit - suc pos) (suc pos) t e o k at
                      (omega arith) (omega arith) (λ j ha hb. chain j (omega arith) hb)))
              | no after ↦ λ j ha hb p.
                  chain j ha hb (sym (assign-other t hole pos j (λ q. omega arith)) ∙ p)
            ]
          ])

  -- `bch_hash_delete` keeps every other key in its chain: it leaves a hole only where no chain passes.
  pub hash_delete-Chained :
      (beyond : Bool) (wanted : S) (t : ℕ → Slot K)
      → Chained t
      → Chained (hash_delete d limit beyond wanted t).1
  unfolding hash_delete
  hash_delete-Chained beyond wanted t h = elim (Option-cases (lookup d limit wanted t)) [
    | inl miss ↦ rw (miss, hash_delete) h
    | inr ((pos, a), hit) ↦ elim (Bool-cases (needs_whiteout d limit beyond pos t)) [
      | inl dead ↦ rw (hit, dead, hash_delete) (Chained-whiteout t pos h)
      | inr free ↦ rw (hit, free, hash_delete) (Chained-hole beyond t pos h free)
    ]
  ]

  lookup_at-Chained :
      (wanted : S) (n p : ℕ) (t : ℕ → Slot K) (o : ℕ) (k : K)
      → t o ≡ key k
      → d.cmp_key k wanted ≡ false
      → p ≤ o
      → o < p + n
      → Occupied t p o
      → (q : ℕ) × (a : K) × (lookup_at d wanted n p t ≡ some (q, a)) × (d.cmp_key a wanted ≡ false)
  unfolding lookup_at Occupied
  lookup_at-Chained wanted zero p t o k at c hp hn h = absurd (omega arith)
  lookup_at-Chained wanted (suc n) p t o k at c hp hn h = elim (Slot-cases (t p)) [
    | inl empty ↦ elim (ℕ_discrete p o) [
      | yes here ↦ absurd (key-ne-hole (sym at ∙ ap t (sym here) ∙ empty))
      | no ne ↦ absurd (h p (omega arith) (omega arith) empty)
    ]
    | inr (inl dead) ↦ elim (ℕ_discrete p o) [
      | yes here ↦ absurd (key-ne-whiteout (sym at ∙ ap t (sym here) ∙ dead))
      | no ne ↦
          let (q, a, found, agrees) =
            lookup_at-Chained wanted n (suc p) t o k at c (omega arith) (omega arith)
              (λ j ha hb. h j (omega arith) hb) in
          (q, a, rw (dead, lookup_at) found, agrees)
    ]
    | inr (inr (b, live)) ↦ elim (Bool-cases (d.cmp_key b wanted)) [
      | inr agree ↦ (p, b, rw (live, agree, lookup_at) refl, agree)
      | inl differ ↦ elim (ℕ_discrete p o) [
        | yes here ↦
            let same = key-injective (sym at ∙ ap t (sym here) ∙ live) in
            absurd (true-ne-false (sym differ ∙ ap (λ x. d.cmp_key x wanted) (sym same) ∙ c))
        | no ne ↦
            let (q, a, found, agrees) =
              lookup_at-Chained wanted n (suc p) t o k at c (omega arith) (omega arith)
                (λ j ha hb. h j (omega arith) hb) in
            (q, a, rw (live, differ, lookup_at) found, agrees)
      ]
    ]
  ]
    where
      key-ne-hole : key k ≡ hole → ⊥
      key-ne-hole q = cc

      key-ne-whiteout : key k ≡ whiteout → ⊥
      key-ne-whiteout q = cc

      true-ne-false : true ≡ false → ⊥
      true-ne-false q = cc

      key-injective : {b : K} → key k ≡ key b → k ≡ b
      key-injective q = cc

  -- In a table with unbroken chains, looking a name up finds a key of that name wherever one lies.
  lookup-Chained :
      (wanted : S) (t : ℕ → Slot K) (o : ℕ) (k : K)
      → Chained t
      → t o ≡ key k
      → d.hash_key wanted ≡ d.hash_bkey k
      → d.cmp_key k wanted ≡ false
      → (q : ℕ) × (a : K) × (lookup d limit wanted t ≡ some (q, a)) × (d.cmp_key a wanted ≡ false)
  unfolding lookup Chained
  lookup-Chained wanted t o k h at e c =
      let (low, high, chain) = h o k at in
      rw e (
        lookup_at-Chained wanted (limit - d.hash_bkey k) (d.hash_bkey k) t o k at c low
          (omega arith) chain)
