-- ===== src/Bkey/Finish.antt =====
-- The words of a packed key when all fields are stored: `pack_state_finish` of libbcache/bkey.c, and
-- the header written after it.
use native.Mathlib.Nat.{mul-lt-mul_of_pos_right}
use bcache_tools.Base.{
  List, [], ap, arith, length, length-append, length-replicate, pow-pos, refl, replicate, some, suc,
  sym, zero, ℕ, ◌%◌, ◌*◌, ◌++◌, ◌+◌, ◌-◌, ◌/◌, ◌<◌, ◌^◌, ◌∙◌, ◌∷◌, ◌≡◌, ◌≤◌,
}
use bcache_tools.Base.Div.{split_pow}
use bcache_tools.Bkey.{PackState, UnpackState, pack_state_finish, set_header, unpack_state_init}
use bcache_tools.Bkey.Key.{low_word}
use bcache_tools.Bkey.Stream.{
  AreWords, AreWords-concat, PackedAs, word_value, word_value-append, word_value-concat,
}
use bcache_tools.Bkey.Remains.{Remains}

-- `k` words that are the number `value`.
pub record Words (ws : List ℕ) (k value : ℕ) : Type 0 where
  pub count : length ws ≡ k
  pub bound : AreWords ws
  pub number : word_value 0 ws ≡ value

word_value-replicate : (a j : ℕ) → word_value a (replicate j 0) ≡ a * 2 ^ (64 * j)
unfolding word_value
word_value-replicate a zero = omega arith
word_value-replicate a (suc j) =
    ap (λ t. word_value t (replicate j 0)) (omega arith)
    ∙ word_value-replicate (a * 2 ^ 64) j
    ∙ regroup a (2 ^ 64) (2 ^ (64 * j))
    ∙ ap (λ t. a * t) (sym (split_pow (64 * suc j) 64 (64 * j) (omega arith)))
  where
    regroup : (a p q : ℕ) → a * p * q ≡ a * (p * q)
    regroup a p q = grind arith

AreWords-append : (xs ys : List ℕ) → AreWords xs → AreWords ys → AreWords (xs ++ ys)
unfolding AreWords
AreWords-append [] ys h h' = h'
AreWords-append (x ∷ xs) ys (hx, h) h' = (hx, AreWords-append xs ys h h')

AreWords-replicate : (j : ℕ) → AreWords (replicate j 0)
unfolding AreWords
AreWords-replicate zero = tt
AreWords-replicate (suc j) = (omega arith, AreWords-replicate j)

pub pack_state_finish-Words :
    (s : PackState) (n acc k : ℕ)
    → PackedAs s n acc
    → n < 64 * k
    → Words (pack_state_finish s k) k (acc * 2 ^ (64 * k - n))
pack_state_finish-Words s n acc k h hn =
    let len = length s.stored in
    let j = k - suc len in
    let place : 64 * k - n ≡ s.bits + 64 * j = omega (arith, h.counted, h.within) in
    let w64 : 2 ^ 64 ≡ 2 ^ (64 - s.bits) * 2 ^ s.bits =
      split_pow 64 (64 - s.bits) s.bits (omega (arith, h.within)) in
    let last : s.w < 2 ^ 64 =
      rw (h.aligned, w64) (mul-lt-mul_of_pos_right h.fits (pow-pos s.bits)) in
    let stored = s.stored ++ s.w ∷ [] in
    record {
      count = omega (
        arith,
        length-append stored (replicate j 0),
        length-append s.stored (s.w ∷ []),
        length-replicate {A = ℕ} j 0,
        h.counted,
        h.within,
      );
      bound =
          AreWords-append stored (replicate j 0) (AreWords-concat s.stored s.w h.words last)
            (AreWords-replicate j);
      number =
          word_value-append 0 stored (replicate j 0)
          ∙ word_value-replicate (word_value 0 stored) j
          ∙ joined (word_value 0 stored) (word_value 0 s.stored) s.w h.top acc (2 ^ (64 - s.bits))
              (2 ^ s.bits) (2 ^ (64 * j)) (2 ^ (64 * k - n)) (2 ^ 64)
              (word_value-concat 0 s.stored s.w) h.aligned h.valued w64
              (split_pow (64 * k - n) s.bits (64 * j) place);
    }
  where
    joined :
        (x sv w top acc hb sb p q e64 : ℕ)
        → x ≡ sv * e64 + w
        → w ≡ top * sb
        → acc ≡ sv * hb + top
        → e64 ≡ hb * sb
        → q ≡ sb * p
        → x * p ≡ acc * q
    joined x sv w top acc hb sb p q e64 e e' e'' e3 e4 = rw (e, e', e'', e3, e4) (grind arith)

-- The header takes the low bits.
set_header-value :
    (a h : ℕ) (w : ℕ) (ws : List ℕ)
    → word_value a (set_header h (w ∷ ws)) ≡ word_value a (w ∷ ws) / 2 ^ 24 * 2 ^ 24 + h
unfolding word_value set_header
set_header-value a h w [] = omega arith
set_header-value a h w (v ∷ ws) = set_header-value (a * 2 ^ 64 + w) h v ws

set_header-length : (h : ℕ) (ws : List ℕ) → length (set_header h ws) ≡ length ws
unfolding set_header
set_header-length h [] = refl
set_header-length h (w ∷ []) = refl
set_header-length h (w ∷ v ∷ ws) = ap suc (set_header-length h (v ∷ ws))

set_header-AreWords : (h : ℕ) (ws : List ℕ) → h < 2 ^ 24 → AreWords ws → AreWords (set_header h ws)
unfolding set_header AreWords
set_header-AreWords h [] hh hw = tt
set_header-AreWords h (w ∷ []) hh (hw, t) = (omega arith, tt)
set_header-AreWords h (w ∷ v ∷ ws) hh (hw, hs) = (hw, set_header-AreWords h (v ∷ ws) hh hs)

pub set_header-Words :
    (h : ℕ) (ws : List ℕ) (k acc m : ℕ)
    → 0 < k
    → h < 2 ^ 24
    → 24 ≤ m
    → Words ws k (acc * 2 ^ m)
    → Words (set_header h ws) k (acc * 2 ^ m + h)
set_header-Words h [] k acc m hk hh hm p = absurd (omega (arith, p.count))
set_header-Words h (w ∷ ws) k acc m hk hh hm p =
    let e : 2 ^ m ≡ 2 ^ (m - 24) * 2 ^ 24 = split_pow m (m - 24) 24 (omega arith) in
    let clear : acc * 2 ^ m / 2 ^ 24 * 2 ^ 24 ≡ acc * 2 ^ m =
      multiple (acc * 2 ^ m) (acc * 2 ^ (m - 24)) (rw e (regroup acc (2 ^ (m - 24)) (2 ^ 24))) in
    record {
      count = set_header-length h (w ∷ ws) ∙ p.count;
      bound = set_header-AreWords h (w ∷ ws) hh p.bound;
      number =
          set_header-value 0 h w ws
          ∙ ap (λ t. t / 2 ^ 24 * 2 ^ 24 + h) p.number
          ∙ ap (λ t. t + h) clear;
    }
  where
    multiple : (x q : ℕ) → x ≡ q * 2 ^ 24 → x / 2 ^ 24 * 2 ^ 24 ≡ x
    multiple x q e = omega arith

    regroup : (a p q : ℕ) → a * (p * q) ≡ a * p * q
    regroup a p q = grind arith

-- `_data[0]` below its header.
low_word-set_header :
    (h w : ℕ) (ws : List ℕ) → h < 2 ^ 24 → low_word (set_header h (w ∷ ws)) % 2 ^ 24 ≡ h
unfolding set_header
low_word-set_header h w [] hh = omega arith
low_word-set_header h w (v ∷ []) hh = low_word-set_header h v [] hh
low_word-set_header h w (v ∷ x ∷ xs) hh = low_word-set_header h v (x ∷ xs) hh

pub low_word-Words :
    (h : ℕ) (ws : List ℕ) (k value : ℕ)
    → 0 < k
    → h < 2 ^ 24
    → Words ws k value
    → low_word (set_header h ws) % 2 ^ 24 ≡ h
low_word-Words h [] k value hk hh p = absurd (omega (arith, p.count))
low_word-Words h (w ∷ ws) k value hk hh p = low_word-set_header h w ws hh

-- The words read from the high word down.
pub unpack_state_init-Remains :
    (ws : List ℕ) (k value : ℕ)
    → 0 < k
    → Words ws k value
    → (s : UnpackState) × (unpack_state_init ws ≡ some s) × Remains s (64 * k) value
unfolding AreWords word_value
unpack_state_init-Remains [] k value hk p = absurd (omega (arith, p.count))
unpack_state_init-Remains (w ∷ ws) k value hk p = (
  record { bits = 64; w = w; rest = ws },
  refl,
  record {
    cur = w;
    within = omega arith;
    some_left = omega arith;
    aligned = omega arith;
    fits = p.bound.0;
    counted = omega (arith, p.count);
    valued = sym p.number ∙ ap (λ t. word_value t ws) (omega arith);
    words = p.bound.1;
  },
)
