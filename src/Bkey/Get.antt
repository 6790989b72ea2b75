-- ===== src/Bkey/Get.antt =====
-- Reading one field of a packed key, `get_inc_field` of libbcache/bkey.c.
use mathlib.Core.Path.{subst}
use native.Mathlib.Nat.{mod-lt, mul-lt-mul_of_pos_right}
use bcache_tools.Base.{
  List, List-cases, ap, arith, bit_or, dec_lt, false, inl, inr, leb, length, pow-pos, refl, shl,
  shr, some, sym, true, u64, ℕ, ◌%◌, ◌*◌, ◌+◌, ◌-◌, ◌/◌, ◌<◌, ◌^◌, ◌∙◌, ◌∷◌, ◌≡◌, ◌≤◌,
}
use bcache_tools.Base.Bits.{bit_or-shl_left, bit_or_zero_left}
use bcache_tools.Base.Div.{div-lt, div_of_eq, mod_of_eq, split_pow, whole}
use bcache_tools.Bkey.{FormatField, UnpackState, get_inc_field}
use bcache_tools.Bkey.Stream.{AreWords, word_value}
use bcache_tools.Bkey.Remains.{
  Remains, kept, shl_word, shr-shr_one, split_value, word_value-eq-add, word_value-lt,
}

-- What a read of a field leaves.
unfoldable pub Got : UnpackState → FormatField → ℕ → ℕ → ℕ → Type 0
Got s f n v r =
    (s' : UnpackState) × (get_inc_field s f ≡ some (u64 (v + f.offset), s')) × Remains s' n r

-- A field within the current word.
get_within :
    (s : UnpackState) (f : FormatField) (n v r : ℕ)
    → Remains s (f.bits + n) (v * 2 ^ n + r)
    → r < 2 ^ n
    → f.bits < s.bits
    → Got s f n v r
unfolding get_inc_field Got
get_within s f n v r h hr hb =
    let b = f.bits in
    let c = s.bits - b in
    let l = 64 * length s.rest in
    let en : n ≡ c + l = omega (arith, h.counted) in
    let split =
      split_value h.cur (word_value 0 s.rest) v r c l
        (sym (word_value-eq-add h.cur s.rest) ∙ sym h.valued ∙ ap (λ t. v * 2 ^ t + r) en)
        (word_value-lt s.rest h.words) (subst (λ t. r < 2 ^ t) en hr) in
    let below : leb s.bits b ≡ false = ground arith in
    let q = 2 ^ (64 - s.bits) in
    let e64b : 2 ^ (64 - b) ≡ 2 ^ c * q =
      split_pow (64 - b) c (64 - s.bits) (omega (arith, h.within)) in
    let parts : s.w ≡ v * 2 ^ (64 - b) + r / 2 ^ l * q =
      h.aligned
      ∙ ap (λ t. t * q) split.0
      ∙ regroup v (2 ^ c) (r / 2 ^ l) q
      ∙ ap (λ t. v * t + r / 2 ^ l * q) (sym e64b) in
    let small : r / 2 ^ l * q < 2 ^ (64 - b) =
      rw e64b (mul-lt-mul_of_pos_right split.2 (pow-pos (64 - s.bits))) in
    let top = div_of_eq s.w (2 ^ (64 - b)) v (r / 2 ^ l * q) parts small in
    let keep = mod_of_eq s.w (2 ^ (64 - b)) v (r / 2 ^ l * q) parts small in
    let left : 2 ^ (64 - c) ≡ q * 2 ^ b =
      split_pow (64 - c) (64 - s.bits) b (omega (arith, h.within)) in
    let s' : UnpackState = record { bits = c; w = u64 (shl s.w b); rest = s.rest } in
    let word : u64 (shl s.w b) ≡ shl (r / 2 ^ l) (64 - c) =
      shl_word s.w b (omega (arith, h.within))
      ∙ ap (λ t. t * 2 ^ b) keep
      ∙ assoc (r / 2 ^ l) q (2 ^ b)
      ∙ ap (λ t. r / 2 ^ l * t) (sym left) in
    (
      s',
      rw
          (
            below,
            bit_or_zero_left (shr (shr s.w 1) (63 - b)),
            shr-shr_one s.w b (omega (arith, h.within)),
            top,
            get_inc_field,
          )
          refl,
      subst (λ t. Remains s' t r) (sym en)
          (kept s' h.cur c l v r (omega arith) (omega (arith, h.within)) h.words refl word refl
            (sym (word_value-eq-add h.cur s.rest) ∙ sym h.valued ∙ ap (λ t. v * 2 ^ t + r) en)
            (subst (λ t. r < 2 ^ t) en hr)),
    )
  where
    regroup : (v c a q : ℕ) → (v * c + a) * q ≡ v * (c * q) + a * q
    regroup v c a q = grind arith

    assoc : (a q b : ℕ) → a * q * b ≡ a * (q * b)
    assoc a q b = grind arith

-- A field that ends in the next word, or with this one.
get_across :
    (s : UnpackState) (f : FormatField) (n v r : ℕ)
    → Remains s (f.bits + n) (v * 2 ^ n + r)
    → 0 < n
    → f.bits ≤ 64
    → r < 2 ^ n
    → (next : ℕ) (rest : List ℕ) → s.rest ≡ next ∷ rest
    → s.bits ≤ f.bits
    → Got s f n v r
unfolding get_inc_field Got word_value AreWords
get_across s f n v r h hn hf hr next rest er hb =
    let b = f.bits in
    let m = b - s.bits in
    let c = 64 - m in
    let l = 64 * length rest in
    let words : (next < 2 ^ 64) × AreWords rest = subst AreWords er h.words in
    let en : n ≡ c + l = omega (arith, h.counted, ap length er, h.some_left) in
    let e : (h.cur * 2 ^ 64 + next) * 2 ^ l + word_value 0 rest ≡ v * 2 ^ (c + l) + r =
      sym (word_value-eq-add (h.cur * 2 ^ 64 + next) rest)
      ∙ ap (word_value h.cur) (sym er)
      ∙ sym h.valued
      ∙ ap (λ t. v * 2 ^ t + r) en in
    let split =
      split_value (h.cur * 2 ^ 64 + next) (word_value 0 rest) v r c l e (word_value-lt rest words.1)
        (subst (λ t. r < 2 ^ t) en hr) in
    let within : leb s.bits b ≡ true = ground arith in
    let q = 2 ^ c in
    let pq : 2 ^ 64 ≡ 2 ^ m * q = split_pow 64 m c (omega (arith, h.some_left)) in
    let high : shr s.w (64 - b) ≡ shl h.cur m =
      div_of_eq s.w (2 ^ (64 - b)) (h.cur * 2 ^ m) 0
        (h.aligned
          ∙ ap (λ t. h.cur * t) (split_pow (64 - s.bits) m (64 - b) (omega (arith, h.within)))
          ∙ shifted h.cur (2 ^ m) (2 ^ (64 - b)))
        (pow-pos (64 - b)) in
    let low : next / q < 2 ^ m = div-lt next (2 ^ m) q (pow-pos c) (omega arith) in
    let sum : h.cur * 2 ^ 64 + next ≡ (h.cur * 2 ^ m + next / q) * q + next % q =
      ap (λ t. h.cur * t + next) pq
      ∙ apart h.cur (2 ^ m) q next (next / q) (next % q) (whole next q) in
    let value : h.cur * 2 ^ m + next / q ≡ v =
      sym (
        div_of_eq (h.cur * 2 ^ 64 + next) q (h.cur * 2 ^ m + next / q) (next % q) sum
          (mod-lt next (pow-pos c)))
      ∙ div_of_eq (h.cur * 2 ^ 64 + next) q v (r / 2 ^ l) split.0 split.2 in
    let keep : next % q ≡ r / 2 ^ l =
      sym (
        mod_of_eq (h.cur * 2 ^ 64 + next) q (h.cur * 2 ^ m + next / q) (next % q) sum
          (mod-lt next (pow-pos c)))
      ∙ mod_of_eq (h.cur * 2 ^ 64 + next) q v (r / 2 ^ l) split.0 split.2 in
    let s' : UnpackState = record { bits = c; w = u64 (shl next m); rest = rest } in
    let back : 64 - c ≡ m = omega (arith, h.some_left) in
    let word : u64 (shl next m) ≡ shl (r / 2 ^ l) (64 - c) =
      rw back (shl_word next m (omega (arith, h.some_left)) ∙ ap (λ t. t * 2 ^ m) keep) in
    let together : bit_or (shr s.w (64 - b)) (shr (shr next 1) (63 - m)) ≡ v =
      ap (bit_or (shr s.w (64 - b))) (shr-shr_one next m (omega (arith, h.some_left)))
      ∙ ap (λ t. bit_or t (next / q)) high
      ∙ bit_or-shl_left m h.cur (next / q) low
      ∙ value in
    (
      s',
      rw (within, er, together, get_inc_field) refl,
      subst (λ t. Remains s' t r) (sym en)
          (kept s' (h.cur * 2 ^ 64 + next) c l v r (omega arith) (omega arith) words.1 refl word
            refl e (subst (λ t. r < 2 ^ t) en hr)),
    )
  where
    shifted : (a p q : ℕ) → a * (p * q) ≡ a * p * q + 0
    shifted a p q = grind arith

    apart : (a p q w hi lo : ℕ) → w ≡ hi * q + lo → a * (p * q) + w ≡ (a * p + hi) * q + lo
    apart a p q w hi lo e = rw e (grind arith)

-- A field is read where another bit remains after it.
pub get_inc_field-Got :
    (s : UnpackState) (f : FormatField) (n v r : ℕ)
    → Remains s (f.bits + n) (v * 2 ^ n + r)
    → 0 < n
    → f.bits ≤ 64
    → r < 2 ^ n
    → Got s f n v r
get_inc_field-Got s f n v r h hn hf hr = elim (dec_lt f.bits s.bits) [
  | yes lt ↦ get_within s f n v r h hr lt
  | no ge ↦ elim (List-cases s.rest) [
    | inl none_left ↦ absurd (omega (arith, h.counted, ap length none_left))
    | inr (next, rest, e) ↦ get_across s f n v r h hn hf hr next rest e (omega arith)
  ]
]
