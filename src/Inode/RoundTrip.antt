-- ===== src/Inode/RoundTrip.antt =====
-- Fields of an inode written and read back, libbcache/inode.c.
use mathlib.Core.Path.{subst}
use bcache_tools.Base.Fls.{fls64, fls_upto-le, fls_upto-le_of_lt}
use bcache_tools.Base.{
  List, Option, [], ap, arith, dec_lt, false, if◌then◌else◌, leb, length, ltb, lt→ltb, pow-pos,
  refl, some, suc, sym, true, zero, ℕ, ℕ_discrete, ◌++◌, ◌+◌, ◌-◌, ◌<◌, ◌==◌, ◌^◌, ◌∙◌, ◌∷◌, ◌≡◌,
  ◌≢◌, ◌≤◌,
}
use bcache_tools.Inode.{
  Decoded, be_bytes, bits_table, byte_table, decode_field, encode_field, field_bits, field_bytes,
  find_shift, mark_first,
}
use bcache_tools.Inode.Decode.{decode_shift, decode_shift_long}
use bcache_tools.Inode.Field.{length-be_bytes}

find_shift-eq-some :
    (n shift bits : ℕ)
    → bits < bits_table (shift + n)
    → (s : ℕ) × (find_shift (suc n) shift bits ≡ some s)
      × (shift ≤ s)
      × (s ≤ shift + n)
      × (bits < bits_table s)
unfolding find_shift
find_shift-eq-some zero shift bits h =
    let e : shift + 0 ≡ shift = omega arith in
    let below : bits < bits_table shift = subst (λ k. bits < bits_table k) e h in
    (shift, rw (lt→ltb bits (bits_table shift) below) refl, omega arith, omega arith, below)
find_shift-eq-some (suc n) shift bits h = elim (dec_lt bits (bits_table shift)) [
  | yes below ↦
      (shift, rw (lt→ltb bits (bits_table shift) below) refl, omega arith, omega arith, below)
  | no above ↦
      let e : shift + suc n ≡ suc shift + n = omega arith in
      let later = find_shift-eq-some n (suc shift) bits (subst (λ k. bits < bits_table k) e h) in
      let not_here : ltb bits (bits_table shift) ≡ false = ground arith in
      (later.0, rw not_here later.1, omega (arith, later.2), omega (arith, later.3), later.4)
]

lo-lt :
    (lo s : ℕ) → lo < 2 ^ 64 → 1 ≤ s → field_bits lo 0 < bits_table s → lo < 2 ^ (bits_table s - 1)
unfolding fls64
lo-lt lo s h h1 hb = fls_upto-le 64 lo (bits_table s - 1) h (omega arith)

field_bits_nonzero : (lo hi : ℕ) → hi ≢ 0 → field_bits lo hi ≡ 64 + fls64 hi
field_bits_nonzero lo hi ne = ground arith

hi-lt : (lo hi k : ℕ) → hi < 2 ^ 64 → field_bits lo hi < 65 + k → hi < 2 ^ k
unfolding fls64
hi-lt lo hi k h hb = elim (ℕ_discrete hi 0) [
  | yes e ↦ omega (arith, pow-pos k)
  | no ne ↦ fls_upto-le 64 hi k h (omega (arith, field_bits_nonzero lo hi ne))
]

field_bits-eq : (lo hi : ℕ) → (if hi == 0 then fls64 lo else 64 + fls64 hi) ≡ field_bits lo hi
field_bits-eq lo hi = ground arith

hi-eq-zero : (lo hi : ℕ) → field_bits lo hi < 64 → hi ≡ 0
hi-eq-zero lo hi h = elim (ℕ_discrete hi 0) [
  | yes e ↦ e
  | no ne ↦ omega (arith, field_bits_nonzero lo hi ne)
]

length-mark_first : (s : ℕ) (bs : List ℕ) → length (mark_first s bs) ≡ length bs
length-mark_first s [] = refl
length-mark_first s (b ∷ bs) = refl

byte_table-le : (s : ℕ) → s < 7 → byte_table s ≤ 8
byte_table-le zero h = omega arith
byte_table-le (suc zero) h = omega arith
byte_table-le (suc (suc zero)) h = omega arith
byte_table-le (suc (suc (suc zero))) h = omega arith
byte_table-le (suc (suc (suc (suc zero)))) h = omega arith
byte_table-le (suc (suc (suc (suc (suc zero))))) h = omega arith
byte_table-le (suc (suc (suc (suc (suc (suc zero)))))) h = omega arith
byte_table-le (suc (suc (suc (suc (suc (suc (suc s))))))) h = absurd (omega arith)

-- `bytes` are the field written, and are read back.
Reads : ℕ → ℕ → ℕ → List ℕ → List ℕ → Type 0
Reads before lo hi rest bytes =
    (length bytes ≤ 13)
    × (decode_field before (bytes ++ rest)
        ≡ some (record { lo = lo; hi = hi; bits = field_bits lo hi; bytes = length bytes }))

decoded : ℕ → ℕ → ℕ → ℕ → Option Decoded
decoded lo hi bits bytes = some (record { lo = lo; hi = hi; bits = bits; bytes = bytes })

Reads-short :
    (before s lo : ℕ) (rest : List ℕ)
    → lo < 2 ^ 64
    → 1 ≤ s
    → s < 7
    → field_bits lo 0 < bits_table s
    → Reads before lo 0 rest (mark_first s (field_bytes (byte_table s) lo 0))
unfolding Reads decoded
Reads-short before s lo rest hlo h1 h6 hb =
    let le : leb (byte_table s) 8 ≡ true = ground (arith, byte_table-le s h6) in
    let len : length (mark_first s (be_bytes (byte_table s) lo)) ≡ byte_table s =
      length-mark_first s (be_bytes (byte_table s) lo) ∙ length-be_bytes (byte_table s) lo in
    rw le (
      omega (arith, len, byte_table-le s h6),
      decode_shift before s lo rest h1 (omega arith) (lo-lt lo s hlo h1 hb)
          ∙ ap (decoded lo 0 (fls64 lo)) (sym len),
    )

Reads-seven :
    (before lo hi : ℕ) (rest : List ℕ)
    → lo < 2 ^ 64
    → hi < 2 ^ 8
    → Reads before lo hi rest (mark_first 7 (field_bytes (byte_table 7) lo hi))
unfolding Reads decoded
Reads-seven before lo hi rest hlo hhi = (
  omega arith,
  decode_shift_long before 7 1 lo hi rest refl (omega arith) (omega arith) hlo (omega arith)
        (omega arith)
      ∙ ap (λ b. decoded lo hi b 10) (field_bits-eq lo hi),
)

Reads-eight :
    (before lo hi : ℕ) (rest : List ℕ)
    → lo < 2 ^ 64
    → hi < 2 ^ 31
    → Reads before lo hi rest (mark_first 8 (field_bytes (byte_table 8) lo hi))
unfolding Reads decoded
Reads-eight before lo hi rest hlo hhi = (
  omega arith,
  decode_shift_long before 8 4 lo hi rest refl (omega arith) (omega arith) hlo (omega arith)
        (omega arith)
      ∙ ap (λ b. decoded lo hi b 13) (field_bits-eq lo hi),
)

Reads-shift :
    (before s lo hi : ℕ) (rest : List ℕ)
    → lo < 2 ^ 64
    → hi < 2 ^ 31
    → 1 ≤ s
    → s ≤ 8
    → field_bits lo hi < bits_table s
    → Reads before lo hi rest (mark_first s (field_bytes (byte_table s) lo hi))
Reads-shift before s lo hi rest hlo hhi h1 h8 hb = elim (dec_lt s 7) [
  | yes short ↦
      let e : hi ≡ 0 = hi-eq-zero lo hi (omega (arith, byte_table-le s short)) in
      subst (λ h. Reads before lo h rest (mark_first s (field_bytes (byte_table s) lo h))) (sym e)
        (Reads-short before s lo rest hlo h1 short
          (subst (λ h. field_bits lo h < bits_table s) e hb))
  | no long ↦ elim (ℕ_discrete s 7) [
    | yes e ↦
        subst (λ t. Reads before lo hi rest (mark_first t (field_bytes (byte_table t) lo hi)))
          (sym e)
          (Reads-seven before lo hi rest hlo
            (hi-lt lo hi 8 (omega arith) (subst (λ t. field_bits lo hi < bits_table t) e hb)))
    | no ne ↦
        let e : s ≡ 8 = omega arith in
        subst (λ t. Reads before lo hi rest (mark_first t (field_bytes (byte_table t) lo hi)))
          (sym e) (Reads-eight before lo hi rest hlo hhi)
  ]
]

bits-lt : (lo hi : ℕ) → lo < 2 ^ 64 → hi < 2 ^ 31 → field_bits lo hi < 96
unfolding fls64
bits-lt lo hi hlo hhi = elim (ℕ_discrete hi 0) [
  | yes e ↦
      let b = fls_upto-le_of_lt 64 lo 64 hlo in
      subst (λ h. field_bits lo h < 96) (sym e) (omega arith)
  | no ne ↦ let b = fls_upto-le_of_lt 64 hi 31 hhi in omega (arith, field_bits_nonzero lo hi ne)
]

byte_table-le_max : (s : ℕ) → s ≤ 8 → byte_table s ≤ 13
byte_table-le_max s h = elim (dec_lt s 7) [
  | yes short ↦ omega (arith, byte_table-le s short)
  | no long ↦ elim (ℕ_discrete s 7) [
    | yes e ↦ subst (λ t. byte_table t ≤ 13) (sym e) (omega arith)
    | no ne ↦ let e : s ≡ 8 = omega arith in subst (λ t. byte_table t ≤ 13) (sym e) (omega arith)
  ]
]

pub field_bits-le : (lo w : ℕ) → lo < 2 ^ w → field_bits lo 0 ≤ w
unfolding fls64
field_bits-le lo w h = fls_upto-le_of_lt 64 lo w h

encode_field-eq :
    (room lo hi s : ℕ)
    → find_shift 8 1 (field_bits lo hi) ≡ some s
    → byte_table s ≤ room
    → encode_field room lo hi ≡ some (mark_first s (field_bytes (byte_table s) lo hi))
unfolding encode_field
encode_field-eq room lo hi s e h =
    let fits : leb (byte_table s) room ≡ true = ground arith in rw (e, fits, encode_field) refl

-- A field below 2^95, if there is room for 13 bytes, is encoded in at most 13 bytes, and whatever
-- lies before and after them, decoding reads the field, its bits and its length back.
pub decode_field-encode_field :
    (room before lo hi : ℕ) (rest : List ℕ)
    → lo < 2 ^ 64
    → hi < 2 ^ 31
    → 13 ≤ room
    → (bytes : List ℕ) × (encode_field room lo hi ≡ some bytes)
      × (length bytes ≤ 13)
      × (decode_field before (bytes ++ rest)
          ≡ some (record { lo = lo; hi = hi; bits = field_bits lo hi; bytes = length bytes }))
unfolding Reads
decode_field-encode_field room before lo hi rest hlo hhi hr =
    let found = find_shift-eq-some 7 1 (field_bits lo hi) (bits-lt lo hi hlo hhi) in
    let s = found.0 in
    let reads = Reads-shift before s lo hi rest hlo hhi found.2 found.3 found.4 in
    (
      mark_first s (field_bytes (byte_table s) lo hi),
      encode_field-eq room lo hi s found.1 (omega (arith, byte_table-le_max s found.3)),
      reads.0,
      reads.1,
    )
