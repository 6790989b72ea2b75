-- ===== src/StrHash/Lookup.antt =====
-- Looking a name up after `bch_hash_set`, libbcache/str_hash.h.
use mathlib.Core.Option.{some-injective}
use bcache_tools.Base.{
  Bool-cases, Option-cases, ap, arith, false, inl, inr, none, none-ne-some, refl, some, suc, sym,
  true, zero, ℕ, ◌-◌, ◌<◌, ◌==◌, ◌∙◌, ◌≡◌, ◌≢◌, ◌≤◌, ◌⊎◌,
}
use bcache_tools.Base.Family.{assign}
use bcache_tools.StrHash.{
  Flags, HashDesc, Result, Slot, done, eexist, enoent, hash_set, hole, hole_at, key, lookup,
  lookup_at, lookup_bkey_at, whiteout,
}

module _ {K : Type 0} where
  pub Slot-cases : (s : Slot K) → (s ≡ hole) ⊎ ((s ≡ whiteout) ⊎ ((k : K) × (s ≡ key k)))
  Slot-cases hole = inl refl
  Slot-cases whiteout = inr (inl refl)
  Slot-cases (key k) = inr (inr (k, refl))

module _ {K S : Type 0} (d : HashDesc K S) where
  -- `wanted` names `k` for both comparisons.
  unfoldable pub Names : S → K → Type 0
  Names wanted k =
      (d.hash_key wanted ≡ d.hash_bkey k)
      × (d.cmp_key k wanted ≡ false)
      × ((a : K) → d.cmp_key a wanted ≡ d.cmp_bkey a k)

  -- A slot before the one that is written.
  skip_one :
      (wanted : S) (n pos q : ℕ) (t : ℕ → Slot K) (v : Slot K)
      → pos < q
      → (t pos ≡ whiteout) ⊎ ((a : K) × (t pos ≡ key a) × (d.cmp_key a wanted ≡ true))
      → lookup_at d wanted (suc n) pos (assign t q v)
        ≡ lookup_at d wanted n (suc pos) (assign t q v)
  unfolding lookup_at
  skip_one wanted n pos q t v h (inl e) =
      let other : (pos == q) ≡ false = ground arith in rw (other, e, lookup_at) refl
  skip_one wanted n pos q t v h (inr (a, e, c)) =
      let other : (pos == q) ≡ false = ground arith in rw (other, e, c, lookup_at) refl

  stop_here :
      (wanted : S) (n pos q : ℕ) (t : ℕ → Slot K) (k : K)
      → pos ≡ q
      → d.cmp_key k wanted ≡ false
      → lookup_at d wanted (suc n) pos (assign t q (key k)) ≡ some (pos, k)
  unfolding lookup_at
  stop_here wanted n pos q t k e c =
      let same : (pos == q) ≡ true = ground arith in rw (same, c, lookup_at) refl

  -- The steps of `bch_hash_lookup_bkey_at`.
  bkey_at_empty :
      (k : K) (n pos : ℕ) (t : ℕ → Slot K) → t pos ≡ hole → lookup_bkey_at d k (suc n) pos t ≡ none
  unfolding lookup_bkey_at
  bkey_at_empty k n pos t e = rw (e, lookup_bkey_at) refl

  bkey_at_whiteout :
      (k : K) (n pos : ℕ) (t : ℕ → Slot K)
      → t pos ≡ whiteout
      → lookup_bkey_at d k (suc n) pos t ≡ lookup_bkey_at d k n (suc pos) t
  unfolding lookup_bkey_at
  bkey_at_whiteout k n pos t e = rw (e, lookup_bkey_at) refl

  bkey_at_differ :
      (k : K) (n pos : ℕ) (t : ℕ → Slot K) (a : K)
      → t pos ≡ key a
      → d.cmp_bkey a k ≡ true
      → lookup_bkey_at d k (suc n) pos t ≡ lookup_bkey_at d k n (suc pos) t
  unfolding lookup_bkey_at
  bkey_at_differ k n pos t a e c = rw (e, c, lookup_bkey_at) refl

  bkey_at_agree :
      (k : K) (n pos : ℕ) (t : ℕ → Slot K) (a : K)
      → t pos ≡ key a
      → d.cmp_bkey a k ≡ false
      → lookup_bkey_at d k (suc n) pos t ≡ some (pos, a)
  unfolding lookup_bkey_at
  bkey_at_agree k n pos t a e c = rw (e, c, lookup_bkey_at) refl

  hole_at-free :
      (n pos : ℕ) (t : ℕ → Slot K)
      → (t pos ≡ hole) ⊎ (t pos ≡ whiteout)
      → hole_at d (suc n) pos t ≡ some pos
  unfolding hole_at
  hole_at-free n pos t (inl e) = rw (e, hole_at) refl
  hole_at-free n pos t (inr e) = rw (e, hole_at) refl

  hole_at-key :
      (n pos : ℕ) (t : ℕ → Slot K) (a : K)
      → t pos ≡ key a
      → hole_at d (suc n) pos t ≡ hole_at d n (suc pos) t
  unfolding hole_at
  hole_at-key n pos t a e = rw (e, hole_at) refl

  lookup_at-replaced :
      (wanted : S) (k : K)
      → Names wanted k
      → (n pos : ℕ) (t : ℕ → Slot K) (q : ℕ) (a : K) → lookup_bkey_at d k n pos t ≡ some (q, a)
      → (lookup_at d wanted n pos (assign t q (key k)) ≡ some (q, k)) × (pos ≤ q)
  unfolding lookup_bkey_at Names
  lookup_at-replaced wanted k names zero pos t q a e = absurd (none-ne-some e)
  lookup_at-replaced wanted k names (suc n) pos t q a e = elim (Slot-cases (t pos)) [
    | inl empty ↦ absurd (none-ne-some (sym (bkey_at_empty k n pos t empty) ∙ e))
    | inr (inl dead) ↦
        let (found, le) =
          lookup_at-replaced wanted k names n (suc pos) t q a
            (sym (bkey_at_whiteout k n pos t dead) ∙ e) in
        (skip_one wanted n pos q t (key k) (omega arith) (inl dead) ∙ found, omega arith)
    | inr (inr (b, live)) ↦ elim (Bool-cases (d.cmp_bkey b k)) [
      | inl differ ↦
          let e' = sym (bkey_at_differ k n pos t b live differ) ∙ e in
          let (found, le) = lookup_at-replaced wanted k names n (suc pos) t q a e' in
          (
            skip_one wanted n pos q t (key k) (omega arith) (inr (b, live, names.2 b ∙ differ))
                ∙ found,
            omega arith,
          )
      | inr agree ↦
          let here : pos ≡ q =
            ap (λ p. p.0)
              (some-injective (pos, b) (q, a) (sym (bkey_at_agree k n pos t b live agree) ∙ e)) in
          (stop_here wanted n pos q t k here names.1 ∙ ap (λ p. some (p, k)) here, omega arith)
    ]
  ]

  lookup_at-inserted :
      (wanted : S) (k : K)
      → Names wanted k
      → (n pos : ℕ) (t : ℕ → Slot K) (q : ℕ) → lookup_bkey_at d k n pos t ≡ none
      → hole_at d n pos t ≡ some q
      → (lookup_at d wanted n pos (assign t q (key k)) ≡ some (q, k)) × (pos ≤ q)
  unfolding hole_at Names
  lookup_at-inserted wanted k names zero pos t q miss e = absurd (none-ne-some e)
  lookup_at-inserted wanted k names (suc n) pos t q miss e = elim (Slot-cases (t pos)) [
    | inl empty ↦ free (inl empty)
    | inr (inl dead) ↦ free (inr dead)
    | inr (inr (b, live)) ↦ elim (Bool-cases (d.cmp_bkey b k)) [
      | inl differ ↦
          let (found, le) =
            lookup_at-inserted wanted k names n (suc pos) t q
              (sym (bkey_at_differ k n pos t b live differ) ∙ miss)
              (sym (hole_at-key n pos t b live) ∙ e) in
          (
            skip_one wanted n pos q t (key k) (omega arith) (inr (b, live, names.2 b ∙ differ))
                ∙ found,
            omega arith,
          )
      | inr agree ↦ absurd (none-ne-some (sym miss ∙ bkey_at_agree k n pos t b live agree))
    ]
  ]
    where
      free :
          (t pos ≡ hole) ⊎ (t pos ≡ whiteout)
          → (lookup_at d wanted (suc n) pos (assign t q (key k)) ≡ some (q, k)) × (pos ≤ q)
      free is_free =
          let here : pos ≡ q = some-injective pos q (sym (hole_at-free n pos t is_free) ∙ e) in
          (stop_here wanted n pos q t k here names.1 ∙ ap (λ p. some (p, k)) here, omega arith)

  -- What `bch_hash_set` has written when it succeeds.
  stored :
      (limit : ℕ) (flags : Flags) (k : K) (t t' t'' : ℕ → Slot K)
      → hash_set d limit flags k t ≡ (done, t')
      → hash_set d limit flags k t ≡ (done, t'')
      → t'' ≡ t'
  stored limit flags k t t' t'' e e'' = ap (λ r. r.1) (sym e'' ∙ e)

  failed :
      (r : Result) (limit : ℕ) (flags : Flags) (k : K) (t t' : ℕ → Slot K)
      → r ≢ done
      → hash_set d limit flags k t ≡ (done, t')
      → hash_set d limit flags k t ≡ (r, t)
      → ⊥
  failed r limit flags k t t' ne e e'' = ne (ap (λ p. p.0) (sym e'' ∙ e))

  -- After a `bch_hash_set` that succeeds, looking up the name of the key finds that key.
  pub lookup-hash_set :
      (limit : ℕ) (flags : Flags) (k : K) (wanted : S) (t t' : ℕ → Slot K)
      → Names wanted k
      → hash_set d limit flags k t ≡ (done, t')
      → (q : ℕ) × (lookup d limit wanted t' ≡ some (q, k))
  unfolding hash_set lookup Names
  lookup-hash_set limit flags k wanted t t' names e =
      let start = d.hash_bkey k in
      let n = limit - start in
      elim (Option-cases (lookup_bkey_at d k n start t)) [
        | inl miss ↦ elim (Bool-cases flags.must_replace) [
          | inl replace ↦
              absurd
                (failed enoent limit flags k t t' (λ c. cc) e (rw (miss, replace, hash_set) refl))
          | inr any ↦ elim (Option-cases (hole_at d n start t)) [
            | inl full ↦
                absurd (
                  failed enoent limit flags k t t' (λ c. cc) e
                    (rw (miss, any, full, hash_set) refl))
            | inr (q, free) ↦
                let t'-eq =
                  stored limit flags k t t' (assign t q (key k)) e
                    (rw (miss, any, free, hash_set) refl) in
                (
                  q,
                  rw (names.0, sym t'-eq)
                      (lookup_at-inserted wanted k names n start t q miss free).0,
                )
          ]
        ]
        | inr ((q, a), hit) ↦ elim (Bool-cases flags.must_create) [
          | inl create ↦
              absurd
                (failed eexist limit flags k t t' (λ c. cc) e (rw (hit, create, hash_set) refl))
          | inr any ↦
              let t'-eq =
                stored limit flags k t t' (assign t q (key k)) e (rw (hit, any, hash_set) refl) in
              (q, rw (names.0, sym t'-eq) (lookup_at-replaced wanted k names n start t q a hit).0)
        ]
      ]
