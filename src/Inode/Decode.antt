-- ===== src/Inode/Decode.antt =====
-- `inode_decode_field` on what `inode_encode_field` wrote, libbcache/inode.c.
use native.Mathlib.Nat.{div-eq_of_eq-mul_right, pow-le-pow_right, mod-eq_of_lt}
use bcache_tools.Base.Fls.{fls64, fls_upto, fls_upto-eq}
use bcache_tools.Base.{
  List, [], ap, arith, bit_or, false, if◌then◌else◌, leb, length, length-append, ltb, pow-pos, refl,
  shl, shr, some, suc, sym, take, true, two-pow-add, two-pow-suc, u64, u8, zero, ℕ, ◌%◌, ◌*◌, ◌++◌,
  ◌+◌, ◌-◌, ◌<◌, ◌==◌, ◌^◌, ◌∙◌, ◌∷◌, ◌≡◌, ◌≤◌,
}
use bcache_tools.Base.Bits.{bit_or-shl}
use bcache_tools.Inode.{
  be64_at, be_bytes, be_value, bits_table, byte_table, clear_high, decode_field, decode_sized,
  mark_first,
}
use bcache_tools.Inode.Field.{
  be_value-append, be_value-be_bytes, length-be_bytes, take-append_length,
}

-- The marked first byte tells the length.
marker-eq : (s : ℕ) → s ≤ 8 → shr (shl 1 8) s ≡ 2 ^ (8 - s)
marker-eq s h =
    let e : s + (8 - s) ≡ 8 = omega arith in
    div-eq_of_eq-mul_right (pow-pos s) (ap (λ k. 2 ^ k) (sym e) ∙ two-pow-add s (8 - s))

mark_first-eq :
    (s a : ℕ) (tail : List ℕ)
    → 1 ≤ s
    → s ≤ 8
    → a < 2 ^ (8 - s)
    → mark_first s (a ∷ tail) ≡ (a + 2 ^ (8 - s)) ∷ tail
mark_first-eq s a tail h1 h8 ha =
    let k = 8 - s in
    let small : 2 ^ suc k ≤ 2 ^ 8 = pow-le-pow_right {n = 2} (omega arith) {j = 8} (omega arith) in
    let one : shl 1 k ≡ 2 ^ k = omega arith in
    ap (λ b. b ∷ tail)
      (ap (λ m. u8 (bit_or a m)) (marker-eq s h8 ∙ sym one)
        ∙ ap u8 (bit_or-shl k a 1 ha ∙ ap (λ t. a + t) one)
        ∙ mod-eq_of_lt (omega (arith, two-pow-suc k, small)))

decode_marked :
    (before s a : ℕ) (tail : List ℕ)
    → 1 ≤ s
    → s ≤ 8
    → a < 2 ^ (8 - s)
    → decode_field before ((a + 2 ^ (8 - s)) ∷ tail)
      ≡ decode_sized before s ((a + 2 ^ (8 - s)) ∷ tail)
unfolding decode_field fls64
decode_marked before s a tail h1 h8 ha =
    let k = 8 - s in
    let b = a + 2 ^ k in
    let e : fls_upto 64 b ≡ suc k =
      fls_upto-eq 64 b k (omega arith) (omega arith) (omega (arith, two-pow-suc k)) in
    let nonzero : (b == 0) ≡ false = ground (arith, pow-pos k) in
    let back : 9 - suc k ≡ s = omega arith in rw (nonzero, e, back) refl

be_value-take :
    (before n v : ℕ) (rest : List ℕ)
    → be_value before (take n (be_bytes n v ++ rest)) ≡ before * 2 ^ (8 * n) + v % 2 ^ (8 * n)
be_value-take before n v rest =
    let e : take n (be_bytes n v ++ rest) ≡ be_bytes n v =
      ap (λ k. take k (be_bytes n v ++ rest)) (sym (length-be_bytes n v))
      ∙ take-append_length (be_bytes n v) rest in
    ap (be_value before) e ∙ be_value-be_bytes before n v

-- A field of up to eight bytes.
decode_short :
    (before s n v : ℕ) (rest : List ℕ)
    → byte_table s ≡ suc n
    → n ≤ 7
    → (let first = u8 (shr v (8 * n)) + 2 ^ (8 - s) in
        clear_high
          (64 - (suc n * 8 - s))
          (u64 ((before * 2 ^ 8 + first) * 2 ^ (8 * n) + v % 2 ^ (8 * n)))
        ≡ v)
    → decode_sized before s ((u8 (shr v (8 * n)) + 2 ^ (8 - s)) ∷ be_bytes n v ++ rest)
      ≡ some (record { lo = v; hi = 0; bits = fls64 v; bytes = suc n })
decode_short before s n v rest bt hn hv =
    let first = u8 (shr v (8 * n)) + 2 ^ (8 - s) in
    let long_enough : ltb (suc (length (be_bytes n v ++ rest))) (suc n) ≡ false =
      ground (arith, length-append (be_bytes n v) rest, length-be_bytes n v) in
    let short : leb (suc n) 8 ≡ true = ground arith in
    rw (bt, long_enough, short, be_value-take (before * 2 ^ 8 + first) n v rest, hv) refl

take-append_add : (xs ys : List ℕ) (k : ℕ) → take (length xs + k) (xs ++ ys) ≡ xs ++ take k ys
take-append_add [] ys k = let e : 0 + k ≡ k = omega arith in rw e refl
take-append_add (x ∷ xs) ys k =
    let e : suc (length xs) + k ≡ suc (length xs + k) = omega arith in
    rw e (ap (λ t. x ∷ t) (take-append_add xs ys k))

-- The last eight of `n + 8` bytes.
be64_at_last :
    (before n lo hi : ℕ) (rest : List ℕ)
    → lo < 2 ^ 64
    → be64_at before (be_bytes n hi ++ (be_bytes 8 lo ++ rest)) (n + 8) ≡ lo
be64_at_last before n lo hi rest h =
    let bs = be_bytes n hi ++ (be_bytes 8 lo ++ rest) in
    let x = be_value before (be_bytes n hi) in
    ap (λ k. be64_at before bs (k + 8)) (sym (length-be_bytes n hi))
    ∙ ap (λ t. u64 (be_value before t)) (take-append_add (be_bytes n hi) (be_bytes 8 lo ++ rest) 8)
    ∙ ap u64 (be_value-append before (be_bytes n hi) (be_bytes 8 lo) ∙ be_value-be_bytes x 8 lo)
    ∙ last x lo h
  where
    last : (x lo : ℕ) → lo < 2 ^ 64 → u64 (x * 2 ^ 64 + lo % 2 ^ 64) ≡ lo
    last x lo h = omega arith

-- A field of more than eight bytes.
decode_long :
    (before s n lo hi : ℕ) (rest : List ℕ)
    → byte_table s ≡ suc n + 8
    → lo < 2 ^ 64
    → (let first = u8 (shr hi (8 * n)) + 2 ^ (8 - s) in
        clear_high
          (128 - ((suc n + 8) * 8 - s))
          (u64 ((before * 2 ^ 8 + first) * 2 ^ (8 * n) + hi % 2 ^ (8 * n)))
        ≡ hi)
    → decode_sized before s
        ((u8 (shr hi (8 * n)) + 2 ^ (8 - s)) ∷ (be_bytes n hi ++ (be_bytes 8 lo ++ rest)))
      ≡ some (record {
        lo = lo;
        hi = hi;
        bits = if hi == 0 then fls64 lo else 64 + fls64 hi;
        bytes = suc n + 8;
      })
decode_long before s n lo hi rest bt hlo hv =
    let first = u8 (shr hi (8 * n)) + 2 ^ (8 - s) in
    let bs = first ∷ (be_bytes n hi ++ (be_bytes 8 lo ++ rest)) in
    let long_enough : ltb (length bs) (suc n + 8) ≡ false = ground (
      arith,
      length-append (be_bytes n hi) (be_bytes 8 lo ++ rest),
      length-append (be_bytes 8 lo) rest,
      length-be_bytes n hi,
      length-be_bytes 8 lo,
    ) in
    let long : leb (suc n + 8) 8 ≡ false = ground arith in
    let cut : suc n + 8 - 8 ≡ suc n = omega arith in
    let up : suc n + 8 ≡ suc (n + 8) = omega arith in
    let low : be64_at before bs (suc n + 8) ≡ lo =
      ap (be64_at before bs) up ∙ be64_at_last (before * 2 ^ 8 + first) n lo hi rest hlo in
    let high : be_value before (take (suc n) bs)
        ≡ (before * 2 ^ 8 + first) * 2 ^ (8 * n) + hi % 2 ^ (8 * n) =
      be_value-take (before * 2 ^ 8 + first) n hi (be_bytes 8 lo ++ rest) in
    rw (bt, long_enough, long, low, cut, high, hv) refl

-- Every value that fits the shift is read back.
decode_shift_short :
    (before s n lo : ℕ) (rest : List ℕ)
    → byte_table s ≡ suc n
    → 1 ≤ s
    → s ≤ 8
    → n ≤ 7
    → u8 (shr lo (8 * n)) < 2 ^ (8 - s)
    → (let first = u8 (shr lo (8 * n)) + 2 ^ (8 - s) in
        clear_high
          (64 - (suc n * 8 - s))
          (u64 ((before * 2 ^ 8 + first) * 2 ^ (8 * n) + lo % 2 ^ (8 * n)))
        ≡ lo)
    → decode_field before (mark_first s (be_bytes (suc n) lo) ++ rest)
      ≡ some (record { lo = lo; hi = 0; bits = fls64 lo; bytes = suc n })
decode_shift_short before s n lo rest bt h1 h8 hn small hv =
    ap (λ bs. decode_field before (bs ++ rest))
      (mark_first-eq s (u8 (shr lo (8 * n))) (be_bytes n lo) h1 h8 small)
    ∙ decode_marked before s (u8 (shr lo (8 * n))) (be_bytes n lo ++ rest) h1 h8 small
    ∙ decode_short before s n lo rest bt hn hv

pub decode_shift :
    (before s lo : ℕ) (rest : List ℕ)
    → 1 ≤ s
    → s ≤ 6
    → lo < 2 ^ (bits_table s - 1)
    → decode_field before (mark_first s (be_bytes (byte_table s) lo) ++ rest)
      ≡ some (record { lo = lo; hi = 0; bits = fls64 lo; bytes = byte_table s })
decode_shift before zero lo rest h1 h6 hv = elim h1 [ ]
decode_shift before (suc zero) lo rest h1 h6 hv =
    decode_shift_short before 1 0 lo rest refl h1 (omega arith) (omega arith) (omega arith)
      (omega arith)
decode_shift before (suc (suc zero)) lo rest h1 h6 hv =
    decode_shift_short before 2 1 lo rest refl h1 (omega arith) (omega arith) (omega arith)
      (omega arith)
decode_shift before (suc (suc (suc zero))) lo rest h1 h6 hv =
    decode_shift_short before 3 2 lo rest refl h1 (omega arith) (omega arith) (omega arith)
      (omega arith)
decode_shift before (suc (suc (suc (suc zero)))) lo rest h1 h6 hv =
    decode_shift_short before 4 3 lo rest refl h1 (omega arith) (omega arith) (omega arith)
      (omega arith)
decode_shift before (suc (suc (suc (suc (suc zero))))) lo rest h1 h6 hv =
    decode_shift_short before 5 5 lo rest refl h1 (omega arith) (omega arith) (omega arith)
      (omega arith)
decode_shift before (suc (suc (suc (suc (suc (suc zero)))))) lo rest h1 h6 hv =
    decode_shift_short before 6 7 lo rest refl h1 (omega arith) (omega arith) (omega arith)
      (omega arith)
decode_shift before (suc (suc (suc (suc (suc (suc (suc s))))))) lo rest h1 h6 hv =
    absurd (omega arith)

pub decode_shift_long :
    (before s n lo hi : ℕ) (rest : List ℕ)
    → byte_table s ≡ suc n + 8
    → 1 ≤ s
    → s ≤ 8
    → lo < 2 ^ 64
    → u8 (shr hi (8 * n)) < 2 ^ (8 - s)
    → (let first = u8 (shr hi (8 * n)) + 2 ^ (8 - s) in
        clear_high
          (128 - ((suc n + 8) * 8 - s))
          (u64 ((before * 2 ^ 8 + first) * 2 ^ (8 * n) + hi % 2 ^ (8 * n)))
        ≡ hi)
    → decode_field before
        (mark_first s (u8 (shr hi (8 * n)) ∷ (be_bytes n hi ++ (be_bytes 8 lo ++ rest))))
      ≡ some (record {
        lo = lo;
        hi = hi;
        bits = if hi == 0 then fls64 lo else 64 + fls64 hi;
        bytes = suc n + 8;
      })
decode_shift_long before s n lo hi rest bt h1 h8 hlo small hv =
    ap (decode_field before)
      (mark_first-eq s (u8 (shr hi (8 * n))) (be_bytes n hi ++ (be_bytes 8 lo ++ rest)) h1 h8 small)
    ∙ decode_marked before s (u8 (shr hi (8 * n))) (be_bytes n hi ++ (be_bytes 8 lo ++ rest)) h1 h8
        small
    ∙ decode_long before s n lo hi rest bt hlo hv
