-- ===== src/Bkey/Compare.antt =====
-- Packed keys compare as the positions they hold: libbcache/bkey.c.
use mathlib.Core.Path.{subst}
use native.Mathlib.Nat.{div-div-eq-div-mul, mod-lt, mul-le-mul_right}
use bcache_tools.Base.Div.{div-lt, div_of_eq, split_pow, whole}
use bcache_tools.Bkey.Remains.{word_value-eq-add, word_value-lt}
use bcache_tools.Base.{
  Bool-cases, List, [], ap, ap₂, arith, dec_lt, false, if◌then◌else◌, inl, inr, length, ltb,
  pow-pos, refl, shr, some, suc, sym, ℕ, ◌%◌, ◌*◌, ◌+◌, ◌-◌, ◌/◌, ◌<◌, ◌==◌, ◌^◌, ◌∙◌, ◌∷◌, ◌≡◌,
  ◌≤◌,
}
use bcache_tools.Bkey.Order.{Cmp, cmp_then, cmp_words, equal, greater, less}
use bcache_tools.Bkey.Stream.{AreWords, word_value}

cmp_then-lt : (a b : ℕ) (next : Cmp) → a < b → cmp_then a b next ≡ less
unfolding cmp_then
cmp_then-lt a b next h = ground arith

cmp_then-gt : (a b : ℕ) (next : Cmp) → b < a → cmp_then a b next ≡ greater
unfolding cmp_then
cmp_then-gt a b next h = ground arith

pub cmp_then_self : (a : ℕ) (next : Cmp) → cmp_then a a next ≡ next
unfolding cmp_then
cmp_then_self a next = ground arith

-- Two numbers of two digits compare by the high digits first.
pub cmp_then-digits :
    (a b x y p : ℕ) (next : Cmp)
    → x < p
    → y < p
    → cmp_then (a * p + x) (b * p + y) next ≡ cmp_then a b (cmp_then x y next)
cmp_then-digits a b x y p next hx hy = elim (dec_lt a b) [
  | yes lt ↦
      cmp_then-lt (a * p + x) (b * p + y) next (digits-lt a b x y lt hx)
      ∙ sym (cmp_then-lt a b (cmp_then x y next) lt)
  | no ge ↦ elim (dec_lt b a) [
    | yes gt ↦
        cmp_then-gt (a * p + x) (b * p + y) next (digits-lt b a y x gt hy)
        ∙ sym (cmp_then-gt a b (cmp_then x y next) gt)
    | no le ↦
        let e : a ≡ b = omega arith in rw e (low b ∙ sym (cmp_then_self b (cmp_then x y next)))
  ]
]
  where
    digits-lt : (a b x y : ℕ) → a < b → x < p → a * p + x < b * p + y
    digits-lt a b x y h hx =
        let room : suc a * p ≤ b * p = mul-le-mul_right p h in
        let step : suc a * p ≡ a * p + p = grind arith in omega arith

    low : (b : ℕ) → cmp_then (b * p + x) (b * p + y) next ≡ cmp_then x y next
    low b = elim (dec_lt x y) [
      | yes lt ↦
          cmp_then-lt (b * p + x) (b * p + y) next (omega arith) ∙ sym (cmp_then-lt x y next lt)
      | no ge ↦ elim (dec_lt y x) [
        | yes gt ↦
            cmp_then-gt (b * p + x) (b * p + y) next (omega arith) ∙ sym (cmp_then-gt x y next gt)
        | no le ↦
            let e : x ≡ y = omega arith in
            rw e (cmp_then_self (b * p + y) next ∙ sym (cmp_then_self y next))
      ]
    ]

-- The high `nr` bits of `k` words.
unfoldable pub high_bits : ℕ → List ℕ → ℕ
high_bits nr ws = word_value 0 ws / 2 ^ (64 * length ws - nr)

word_value-cons :
    (x : ℕ) (l : List ℕ) → word_value 0 (x ∷ l) ≡ x * 2 ^ (64 * length l) + word_value 0 l
unfolding word_value
word_value-cons x l = ap (λ t. word_value t l) (omega arith) ∙ word_value-eq-add x l

high_bits-short :
    (nr x : ℕ) (l : List ℕ) → AreWords l → nr ≤ 64 → high_bits nr (x ∷ l) ≡ shr x (64 - nr)
unfolding high_bits
high_bits-short nr x l h hn =
    let p = 2 ^ (64 * length l) in
    let e : 2 ^ (64 * suc (length l) - nr) ≡ p * 2 ^ (64 - nr) =
      split_pow (64 * suc (length l) - nr) (64 * length l) (64 - nr) (omega arith) in
    ap₂ (λ t d. t / d) (word_value-cons x l) e
    ∙ sym (div-div-eq-div-mul (x * p + word_value 0 l) p (2 ^ (64 - nr)))
    ∙ ap (λ t. t / 2 ^ (64 - nr))
        (div_of_eq (x * p + word_value 0 l) p x (word_value 0 l) refl (word_value-lt l h))

high_bits-long :
    (nr x : ℕ) (l : List ℕ)
    → 64 ≤ nr
    → nr ≤ 64 * suc (length l)
    → high_bits nr (x ∷ l) ≡ x * 2 ^ (nr - 64) + high_bits (nr - 64) l
unfolding high_bits
high_bits-long nr x l hn hk =
    let n = nr - 64 in
    let m = 64 * length l - n in
    let d = 2 ^ m in
    let v = word_value 0 l in
    let e : 64 * suc (length l) - nr ≡ m = omega arith in
    let e' : 2 ^ (64 * length l) ≡ 2 ^ n * d = split_pow (64 * length l) n m (omega arith) in
    ap₂ (λ t j. t / 2 ^ j) (word_value-cons x l) e
    ∙ div_of_eq (x * 2 ^ (64 * length l) + v) d (x * 2 ^ n + v / d) (v % d)
        (regroup x (2 ^ n) d (2 ^ (64 * length l)) v (v / d) (v % d) e' (whole v d))
        (mod-lt v (pow-pos m))
  where
    regroup : (x p d pd v a b : ℕ) → pd ≡ p * d → v ≡ a * d + b → x * pd + v ≡ (x * p + a) * d + b
    regroup x p d pd v a b e e' = rw (e, e') (grind arith)

pub high_bits-lt : (n : ℕ) (l : List ℕ) → AreWords l → n ≤ 64 * length l → high_bits n l < 2 ^ n
unfolding high_bits
high_bits-lt n l h hn =
    let m = 64 * length l - n in
    div-lt (word_value 0 l) (2 ^ n) (2 ^ m) (pow-pos m) (
      subst (λ t. word_value 0 l < t) (split_pow (64 * length l) n m (omega arith))
        (word_value-lt l h))

-- Words of which all bits are compared.
cmp_high-long :
    (nr x y : ℕ) (l r : List ℕ)
    → AreWords l
    → AreWords r
    → length l ≡ length r
    → 64 ≤ nr
    → nr ≤ 64 * suc (length l)
    → cmp_then (high_bits nr (x ∷ l)) (high_bits nr (y ∷ r)) equal
      ≡ cmp_then x y (cmp_then (high_bits (nr - 64) l) (high_bits (nr - 64) r) equal)
cmp_high-long nr x y l r hl hr len hn hk =
    rw (high_bits-long nr x l hn hk, high_bits-long nr y r hn (omega arith))
      (cmp_then-digits x y (high_bits (nr - 64) l) (high_bits (nr - 64) r) (2 ^ (nr - 64)) equal
        (high_bits-lt (nr - 64) l hl (omega arith)) (high_bits-lt (nr - 64) r hr (omega arith)))

cmp_then-differ :
    (x y : ℕ) (next : Cmp)
    → (x == y) ≡ false
    → cmp_then x y next ≡ (if ltb x y then less else greater)
unfolding cmp_then
cmp_then-differ x y next h = rw (h, cmp_then) refl

-- The loop compares the high `nr` bits.
pub cmp_words-high :
    (nr : ℕ) (l r : List ℕ)
    → AreWords l
    → AreWords r
    → length l ≡ length r
    → 0 < nr
    → nr ≤ 64 * length l
    → cmp_words nr l r ≡ some (cmp_then (high_bits nr l) (high_bits nr r) equal)
unfolding cmp_words AreWords
cmp_words-high nr (x ∷ l) (y ∷ r) (hx, hl) (hy, hr) len hn hk = elim (Bool-cases (ltb nr 64)) [
  | inl short ↦
      rw
        (
          short,
          cmp_words,
          high_bits-short nr x l hl (ground arith),
          high_bits-short nr y r hr (ground arith),
        )
        refl
  | inr long ↦
      let e = cmp_high-long nr x y l r hl hr (omega arith) (ground arith) hk in
      elim (Bool-cases (x == y)) [
        | inr differ ↦
            rw (long, differ, cmp_words)
              (ap some (
                sym (
                  e
                  ∙ cmp_then-differ x y
                      (cmp_then (high_bits (nr - 64) l) (high_bits (nr - 64) r) equal) differ)))
        | inl same ↦
            let xy : x ≡ y = ground arith in
            let heads : cmp_then (high_bits nr (x ∷ l)) (high_bits nr (y ∷ r)) equal
                ≡ cmp_then (high_bits (nr - 64) l) (high_bits (nr - 64) r) equal =
              e
              ∙ ap
                  (λ t.
                    cmp_then t y (cmp_then (high_bits (nr - 64) l) (high_bits (nr - 64) r) equal))
                  xy
              ∙ cmp_then_self y (cmp_then (high_bits (nr - 64) l) (high_bits (nr - 64) r) equal) in
            elim (Bool-cases (nr == 64)) [
              | inl last ↦
                  let none_left : nr - 64 ≡ 0 = ground arith in
                  let a = high_bits-lt (nr - 64) l hl (omega arith) in
                  let b = high_bits-lt (nr - 64) r hr (omega arith) in
                  let a0 : high_bits (nr - 64) l ≡ 0 =
                    zero_bits (nr - 64) (high_bits (nr - 64) l) none_left a in
                  let b0 : high_bits (nr - 64) r ≡ 0 =
                    zero_bits (nr - 64) (high_bits (nr - 64) r) none_left b in
                  rw (long, same, last, cmp_words)
                    (ap some
                      (sym (heads ∙ ap₂ (λ s t. cmp_then s t equal) a0 b0 ∙ cmp_then_self 0 equal)))
              | inr more ↦
                  rw (long, same, more, cmp_words)
                    (cmp_words-high (nr - 64) l r hl hr (omega arith) (ground arith) (omega arith)
                      ∙ ap some (sym heads))
            ]
      ]
]
  where
    zero_bits : (n a : ℕ) → n ≡ 0 → a < 2 ^ n → a ≡ 0
    zero_bits n a e h = let h' : a < 2 ^ 0 = subst (λ t. a < 2 ^ t) e h in omega arith
cmp_words-high nr [] [] hl hr len hn hk = absurd (omega arith)
cmp_words-high nr [] (y ∷ r) hl hr len hn hk = absurd (omega arith)
cmp_words-high nr (x ∷ l) [] hl hr len hn hk = absurd (omega arith)
