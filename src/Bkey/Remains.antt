-- ===== src/Bkey/Remains.antt =====
-- Reading a field back from the bits that remain of a packed key, libbcache/bkey.c.
use native.Mathlib.Nat.{mod-lt, div-div-eq-div-mul}
use bcache_tools.Base.{
  List, [], ap, arith, length, pow-pos, refl, shl, shr, suc, sym, two-pow-add, two-pow-suc, u64, ℕ,
  ◌%◌, ◌*◌, ◌+◌, ◌-◌, ◌/◌, ◌<◌, ◌^◌, ◌∙◌, ◌∷◌, ◌≡◌, ◌≤◌,
}
use bcache_tools.Base.Div.{
  div-lt, div_of_eq, mod_of_eq, mul-mod-mul, split_pow, two_digits-lt, whole,
}
use bcache_tools.Bkey.{UnpackState}
use bcache_tools.Bkey.Stream.{AreWords, word_value}

-- `n` bits remain, and they are the number `value`.
pub record Remains (s : UnpackState) (n value : ℕ) : Type 0 where
  pub cur : ℕ
  pub within : s.bits ≤ 64
  pub some_left : 0 < s.bits
  pub aligned : s.w ≡ shl cur (64 - s.bits)
  pub fits : cur < 2 ^ s.bits
  pub counted : n ≡ s.bits + 64 * length s.rest
  pub valued : value ≡ word_value cur s.rest
  pub words : AreWords s.rest

pub word_value-eq-add :
    (acc : ℕ) (ws : List ℕ) → word_value acc ws ≡ acc * 2 ^ (64 * length ws) + word_value 0 ws
unfolding word_value
word_value-eq-add acc [] = omega arith
word_value-eq-add acc (w ∷ ws) =
    let l = 64 * length ws in
    let e : 2 ^ (64 * suc (length ws)) ≡ 2 ^ 64 * 2 ^ l =
      split_pow (64 * suc (length ws)) 64 l (omega arith) in
    rw e (
      word_value-eq-add (acc * 2 ^ 64 + w) ws
      ∙ regroup acc (2 ^ 64) w (2 ^ l) (word_value 0 ws)
      ∙ ap (λ t. acc * (2 ^ 64 * 2 ^ l) + t) (sym (word_value-eq-add (0 * 2 ^ 64 + w) ws)))
  where
    regroup : (a p w q r : ℕ) → (a * p + w) * q + r ≡ a * (p * q) + ((0 * p + w) * q + r)
    regroup a p w q r = grind arith

pub word_value-lt : (ws : List ℕ) → AreWords ws → word_value 0 ws < 2 ^ (64 * length ws)
unfolding word_value AreWords
word_value-lt [] h = omega arith
word_value-lt (w ∷ ws) (hw, hs) =
    let l = 64 * length ws in
    let e : 2 ^ (64 * suc (length ws)) ≡ 2 ^ 64 * 2 ^ l =
      split_pow (64 * suc (length ws)) 64 l (omega arith) in
    let zero : 0 * 2 ^ 64 + w ≡ w = omega arith in
    rw (e, zero, word_value-eq-add w ws)
      (two_digits-lt w (word_value 0 ws) (2 ^ 64) (2 ^ l) hw (word_value-lt ws hs))

-- A number split at one place, and again at a place `c` further up.
pub split_value :
    (cur r0 v r c l : ℕ)
    → cur * 2 ^ l + r0 ≡ v * 2 ^ (c + l) + r
    → r0 < 2 ^ l
    → r < 2 ^ (c + l)
    → (cur ≡ v * 2 ^ c + r / 2 ^ l) × (r0 ≡ r % 2 ^ l) × (r / 2 ^ l < 2 ^ c)
split_value cur r0 v r c l e h0 hr =
    let p = 2 ^ l in
    let ep : 2 ^ (c + l) ≡ 2 ^ c * p = two-pow-add c l in
    let e' : cur * p + r0 ≡ (v * 2 ^ c + r / p) * p + r % p =
      e ∙ ap (λ t. v * t + r) ep ∙ regroup v (2 ^ c) p r (r / p) (r % p) (whole r p) in
    (
      sym (div_of_eq (cur * p + r0) p cur r0 refl h0)
          ∙ div_of_eq (cur * p + r0) p (v * 2 ^ c + r / p) (r % p) e' (mod-lt r (pow-pos l)),
      sym (mod_of_eq (cur * p + r0) p cur r0 refl h0)
          ∙ mod_of_eq (cur * p + r0) p (v * 2 ^ c + r / p) (r % p) e' (mod-lt r (pow-pos l)),
      div-lt r (2 ^ c) p (pow-pos l) (omega arith),
    )
  where
    regroup : (v c p r a b : ℕ) → r ≡ a * p + b → v * (c * p) + r ≡ (v * c + a) * p + b
    regroup v c p r a b h = rw h (grind arith)

-- `(w >> 1) >> (63 - b)`
pub shr-shr_one : (w b : ℕ) → b < 64 → shr (shr w 1) (63 - b) ≡ w / 2 ^ (64 - b)
shr-shr_one w b h =
    let e : 64 - b ≡ suc (63 - b) = omega arith in
    rw e (div-div-eq-div-mul w 2 (2 ^ (63 - b)) ∙ ap (λ t. w / t) (sym (two-pow-suc (63 - b))))

-- What `take_bits` leaves of a word with `c` bits to keep.
pub kept :
    (s : UnpackState) (cur c l v r : ℕ)
    → 0 < c
    → c ≤ 64
    → AreWords s.rest
    → s.bits ≡ c
    → s.w ≡ shl (r / 2 ^ l) (64 - c)
    → l ≡ 64 * length s.rest
    → cur * 2 ^ l + word_value 0 s.rest ≡ v * 2 ^ (c + l) + r
    → r < 2 ^ (c + l)
    → Remains s (c + l) r
kept s cur c l v r hc hc' hs eb ew el e hr =
    let (up, low, small) =
      split_value cur (word_value 0 s.rest) v r c l e (rw el (word_value-lt s.rest hs)) hr in
    record {
      cur = r / 2 ^ l;
      within = omega arith;
      some_left = omega arith;
      aligned = rw eb ew;
      fits = rw eb small;
      counted = omega arith;
      valued =
          whole r (2 ^ l)
          ∙ ap (λ t. r / 2 ^ l * 2 ^ l + t) (sym low)
          ∙ ap (λ t. r / 2 ^ l * 2 ^ t + word_value 0 s.rest) el
          ∙ sym (word_value-eq-add (r / 2 ^ l) s.rest);
      words = hs;
    }

-- `w <<= b` keeps the low `64 - b` bits.
pub shl_word : (w b : ℕ) → b ≤ 64 → u64 (shl w b) ≡ w % 2 ^ (64 - b) * 2 ^ b
shl_word w b h =
    ap (λ t. w * 2 ^ b % t) (split_pow 64 (64 - b) b (omega arith))
    ∙ mul-mod-mul w (2 ^ (64 - b)) (2 ^ b) (pow-pos (64 - b)) (pow-pos b)
