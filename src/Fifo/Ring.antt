-- ===== src/Fifo/Ring.antt =====
-- Indices of a ring whose length is a power of two.
use native.Mathlib.Nat.{mul-add-mod_self_right, mul-le-mul_right}
use bcache_tools.Base.{
  List, [], ap, arith, dec_lt, get_elem?, length, refl, some, suc, sym, u64, zero, ℕ, ◌%◌, ◌*◌,
  ◌++◌, ◌+◌, ◌-◌, ◌/◌, ◌<◌, ◌^◌, ◌∙◌, ◌∷◌, ◌≡◌, ◌≤◌,
}
use bcache_tools.Base.Div.{split_pow, whole}

-- An index that wraps at 64 bits goes round the ring a whole number of times.
pub mod-u64 : (x i k : ℕ) → k ≤ 64 → (u64 x + i) % 2 ^ k ≡ (x + i) % 2 ^ k
mod-u64 x i k h =
    let c = 2 ^ k in
    let rounds = x / 2 ^ 64 * 2 ^ (64 - k) in
    let e : x + i ≡ rounds * c + (u64 x + i) =
      regroup x i (x / 2 ^ 64) (2 ^ (64 - k)) c (2 ^ 64) (u64 x)
        (split_pow 64 (64 - k) k (omega arith)) (whole x (2 ^ 64)) in
    sym (ap (λ t. t % c) e ∙ mul-add-mod_self_right rounds c (u64 x + i))
  where
    regroup : (x i q p c w r : ℕ) → w ≡ p * c → x ≡ q * w + r → x + i ≡ q * p * c + (r + i)
    regroup x i q p c w r e e' = rw (e', e) (grind arith)

-- A whole turn of the index.
pub mod-round : (x k : ℕ) → k ≤ 64 → (2 ^ 64 + x) % 2 ^ k ≡ x % 2 ^ k
mod-round x k h =
    let c = 2 ^ k in
    ap (λ t. (t + x) % c) (split_pow 64 (64 - k) k (omega arith))
    ∙ mul-add-mod_self_right (2 ^ (64 - k)) c x

-- Two places less than a round apart differ.
pub mod-apart : (a d c : ℕ) → 0 < d → d < c → ¬ ((a + d) % c ≡ a % c)
mod-apart a d c hd hc e =
    let q = a / c in
    let q' = (a + d) / c in
    let h = whole a c in
    let h' = whole (a + d) c in
    elim (dec_lt q q') [
      | yes lt ↦
          let more : suc q * c ≤ q' * c = mul-le-mul_right c lt in
          let next : suc q * c ≡ q * c + c = grind arith in omega arith
      | no ge ↦ let less : q' * c ≤ q * c = mul-le-mul_right c (omega arith) in omega arith
    ]

module _ {ℓ} {A : Type ℓ} where
  pub get_elem?-append_left :
      (xs ys : List A) (i : ℕ) → i < length xs → get_elem? (xs ++ ys) i ≡ get_elem? xs i
  get_elem?-append_left [] ys i h = elim h [ ]
  get_elem?-append_left (x ∷ xs) ys zero h = refl
  get_elem?-append_left (x ∷ xs) ys (suc i) h = get_elem?-append_left xs ys i (omega arith)

  pub get_elem?-append_last : (xs : List A) (x : A) → get_elem? (xs ++ x ∷ []) (length xs) ≡ some x
  get_elem?-append_last [] x = refl
  get_elem?-append_last (y ∷ xs) x = get_elem?-append_last xs x
