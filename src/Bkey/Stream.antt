-- ===== src/Bkey/Stream.antt =====
-- What the words of a packed key hold as one number, libbcache/bkey.c.
use native.Mathlib.Nat.{mod-lt, mul-lt-mul_of_pos_right, div-div-eq-div-mul, mod-eq_of_lt}
use bcache_tools.Base.Div.{div-lt, mul-mod-mul, pow_mono, split_pow, two_digits-lt, whole}
use bcache_tools.Base.{
  Bool-cases, List, [], ap, arith, bit_or, inl, inr, length, length-append, ltb, ltb→lt, pow-pos,
  refl, shl, shr, suc, sym, two-pow-suc, u64, ℕ, ◌%◌, ◌*◌, ◌++◌, ◌+◌, ◌-◌, ◌/◌, ◌<◌, ◌^◌, ◌∙◌, ◌∷◌,
  ◌≡◌, ◌≤◌,
}
use bcache_tools.Base.Bits.{bit_or-shl_left, bit_or_zero_left}
use bcache_tools.Bkey.{PackState, put_bits}

-- The words as the digits of a number, the high word first, below `acc`.
unfoldable pub word_value : ℕ → List ℕ → ℕ
word_value acc [] = acc
word_value acc (w ∷ ws) = word_value (acc * 2 ^ 64 + w) ws

pub word_value-append :
    (acc : ℕ) (xs ys : List ℕ) → word_value acc (xs ++ ys) ≡ word_value (word_value acc xs) ys
unfolding word_value
word_value-append acc [] ys = refl
word_value-append acc (x ∷ xs) ys = word_value-append (acc * 2 ^ 64 + x) xs ys

pub word_value-concat :
    (acc : ℕ) (xs : List ℕ) (w : ℕ) → word_value acc (xs ++ w ∷ []) ≡ word_value acc xs * 2 ^ 64 + w
unfolding word_value
word_value-concat acc xs w = word_value-append acc xs (w ∷ [])

unfoldable pub AreWords : List ℕ → Type 0
AreWords [] = Unit
AreWords (w ∷ ws) = (w < 2 ^ 64) × AreWords ws

pub AreWords-concat : (ws : List ℕ) (w : ℕ) → AreWords ws → w < 2 ^ 64 → AreWords (ws ++ w ∷ [])
unfolding AreWords
AreWords-concat [] w h hw = (hw, tt)
AreWords-concat (v ∷ ws) w (hv, hs) hw = (hv, AreWords-concat ws w hs hw)

-- `n` bits are packed, and they are the number `acc`.
pub record PackedAs (s : PackState) (n acc : ℕ) : Type 0 where
  pub top : ℕ
  pub within : s.bits ≤ 64
  pub aligned : s.w ≡ shl top s.bits
  pub fits : top < 2 ^ (64 - s.bits)
  pub counted : n ≡ 64 * length s.stored + (64 - s.bits)
  pub valued : acc ≡ word_value 0 s.stored * 2 ^ (64 - s.bits) + top
  pub words : AreWords s.stored

shr_twice : (v m : ℕ) → shr (shr v 1) m ≡ v / 2 ^ suc m
shr_twice v m = div-div-eq-div-mul v 2 (2 ^ m) ∙ ap (λ t. v / t) (sym (two-pow-suc m))

-- Bits that fit what is left of a word.
put_whole :
    (s : PackState) (n acc b v : ℕ)
    → PackedAs s n acc
    → b ≤ s.bits
    → v < 2 ^ b
    → PackedAs
        (record { bits = s.bits - b; w = bit_or s.w (u64 (shl v (s.bits - b))); stored = s.stored })
        (n + b)
        (acc * 2 ^ b + v)
put_whole s n acc b v h hb hv =
    let c = s.bits - b in
    let e : 2 ^ s.bits ≡ 2 ^ b * 2 ^ c = split_pow s.bits b c (omega arith) in
    let room : 2 ^ (64 - c) ≡ 2 ^ (64 - s.bits) * 2 ^ b =
      split_pow (64 - c) (64 - s.bits) b (omega (arith, h.within)) in
    let below : v * 2 ^ c < 2 ^ b * 2 ^ c = mul-lt-mul_of_pos_right hv (pow-pos c) in
    let small : 2 ^ s.bits ≤ 2 ^ 64 = pow_mono s.bits 64 h.within in
    let stays : u64 (v * 2 ^ c) ≡ v * 2 ^ c = mod-eq_of_lt (omega arith) in
    record {
      top = h.top * 2 ^ b + v;
      within = omega (arith, h.within);
      aligned =
          rw (h.aligned, stays)
            (bit_or-shl_left s.bits h.top (v * 2 ^ c) (omega arith)
              ∙ ap (λ t. h.top * t + v * 2 ^ c) e
              ∙ digits h.top (2 ^ b) (2 ^ c) v);
      fits = rw room (two_digits-lt h.top v (2 ^ (64 - s.bits)) (2 ^ b) h.fits hv);
      counted = omega (arith, h.counted, h.within);
      valued = rw room (
          ap (λ t. t * 2 ^ b + v) h.valued
          ∙ digits' (word_value 0 s.stored) (2 ^ (64 - s.bits)) h.top (2 ^ b) v);
      words = h.words;
    }
  where
    digits : (top b c v : ℕ) → top * (b * c) + v * c ≡ (top * b + v) * c
    digits top b c v = grind arith

    digits' : (sv h top b v : ℕ) → (sv * h + top) * b + v ≡ sv * (h * b) + (top * b + v)
    digits' sv h top b v = grind arith

-- Bits of which the last `m` go to the next word.
put_split :
    (s : PackState) (n acc b m v : ℕ)
    → PackedAs s n acc
    → b ≡ s.bits + suc m
    → b ≤ 64
    → v < 2 ^ b
    → PackedAs
        (record {
          bits = 64 - suc m;
          w = bit_or 0 (u64 (shl v (64 - suc m)));
          stored = s.stored ++ bit_or s.w (shr (shr v 1) m) ∷ [];
        })
        (n + b)
        (acc * 2 ^ b + v)
put_split s n acc b m v h eb hb hv =
    let k = suc m in
    let p = 2 ^ k in
    let q = 2 ^ (64 - k) in
    let pq : p * q ≡ 2 ^ 64 = sym (split_pow 64 k (64 - k) (omega arith)) in
    let eb' : 2 ^ b ≡ 2 ^ s.bits * p = split_pow b s.bits k eb in
    let high : v / p < 2 ^ s.bits = div-lt v (2 ^ s.bits) p (pow-pos k) (omega arith) in
    let low : v % p < p = mod-lt v (pow-pos k) in
    let word : bit_or s.w (shr (shr v 1) m) ≡ h.top * 2 ^ s.bits + v / p =
      ap (bit_or s.w) (shr_twice v m)
      ∙ ap (λ t. bit_or t (v / p)) h.aligned
      ∙ bit_or-shl_left s.bits h.top (v / p) high in
    let sixty_four : 2 ^ 64 ≡ 2 ^ (64 - s.bits) * 2 ^ s.bits =
      split_pow 64 (64 - s.bits) s.bits (omega (arith, h.within)) in
    let back : 64 - (64 - k) ≡ k = omega arith in
    record {
      top = v % p;
      within = omega arith;
      aligned =
          bit_or_zero_left (u64 (v * q))
          ∙ ap (λ t. v * q % t) (sym pq)
          ∙ mul-mod-mul v p q (pow-pos k) (pow-pos (64 - k));
      fits = rw back low;
      counted =
          omega (
            arith,
            h.counted,
            h.within,
            length-append s.stored (bit_or s.w (shr (shr v 1) m) ∷ []),
          );
      valued =
          rw (back, word_value-concat 0 s.stored (bit_or s.w (shr (shr v 1) m)), word)
            (joined (word_value 0 s.stored) h.top acc (2 ^ b) (2 ^ (64 - s.bits)) (2 ^ s.bits) p v
                (v / p) (v % p) h.valued eb' (whole v p)
              ∙ ap (λ t. (word_value 0 s.stored * t + (h.top * 2 ^ s.bits + v / p)) * p + v % p)
                  (sym sixty_four));
      words = AreWords-concat s.stored (bit_or s.w (shr (shr v 1) m)) h.words (
          rw (word, sixty_four)
            (two_digits-lt h.top (v / p) (2 ^ (64 - s.bits)) (2 ^ s.bits) h.fits high));
    }
  where
    joined :
        (sv top acc b h sb p v high low : ℕ)
        → acc ≡ sv * h + top
        → b ≡ sb * p
        → v ≡ high * p + low
        → acc * b + v ≡ (sv * (h * sb) + (top * sb + high)) * p + low
    joined sv top acc b h sb p v high low e e' e'' = rw (e, e', e'') (grind arith)

pub put_bits-PackedAs :
    (s : PackState) (n acc b v : ℕ)
    → PackedAs s n acc
    → b ≤ 64
    → v < 2 ^ b
    → PackedAs (put_bits s b v) (n + b) (acc * 2 ^ b + v)
unfolding put_bits
put_bits-PackedAs s n acc b v h hb hv = elim (Bool-cases (ltb s.bits b)) [
  | inl split ↦
      let m = b - s.bits - 1 in
      let lt = ltb→lt s.bits b split in
      let e : b - s.bits ≡ suc m = omega arith in
      let e' : suc m - 1 ≡ m = omega arith in
      rw (split, e, e') (put_split s n acc b m v h (omega arith) hb hv)
  | inr whole ↦ rw whole (put_whole s n acc b v h (ground arith) hv)
]
