-- ===== src/Inode.antt =====
-- The packed form of an inode, libbcache/inode.c: one field, `inode_encode_field` and
-- `inode_decode_field`.
mod Field
mod Decode
mod RoundTrip
mod Record
mod Listed
mod Packing
mod Valid
mod Tests
use bcache_tools.Base.Fls.{fls64}
use bcache_tools.Base.{
  List, Option, [], bit_or, get_or, if◌then◌else◌, leb, length, ltb, none, shl, shr, some, suc,
  take, u64, u8, zero, ℕ, ◌*◌, ◌++◌, ◌+◌, ◌-◌, ◌==◌, ◌^◌, ◌∷◌,
}

-- A byte is a number below 256. The bytes of `v` in big-endian order, and their value.
abbrev pub be_bytes : ℕ → ℕ → List ℕ
be_bytes zero v = []
be_bytes (suc n) v = u8 (shr v (8 * n)) ∷ be_bytes n v

abbrev pub be_value : ℕ → List ℕ → ℕ
be_value acc [] = acc
be_value acc (b ∷ bs) = be_value (acc * 2 ^ 8 + b) bs

-- `bits_table[shift - 1]` and `byte_table[shift - 1]`, for 1 <= shift <= 8.
abbrev pub byte_table : ℕ → ℕ
byte_table shift = get_or (1 ∷ 2 ∷ 3 ∷ 4 ∷ 6 ∷ 8 ∷ 10 ∷ 13 ∷ []) (shift - 1) 0

abbrev pub bits_table : ℕ → ℕ
bits_table shift = byte_table shift * 8 - shift

-- A field of two words, as `u64 in[2]`.
abbrev pub field_bits : ℕ → ℕ → ℕ
field_bits lo hi = if hi == 0 then fls64 lo else fls64 hi + 64

-- The loop `for (shift = 1; shift <= 8; shift++)`; `n` counts what is left of it. `BUG()` is `none`.
pub find_shift : ℕ → ℕ → ℕ → Option ℕ
find_shift zero shift bits = none
find_shift (suc n) shift bits =
    let later = find_shift n (suc shift) bits in
    if ltb bits (bits_table shift) then some shift else later

-- `*out |= (1 << 8) >> shift`
abbrev pub mark_first : ℕ → List ℕ → List ℕ
mark_first shift [] = []
mark_first shift (b ∷ bs) = u8 (bit_or b (shr (shl 1 8) shift)) ∷ bs

-- The bytes that the two `memcpy`s and `put_unaligned_be64` leave: of a long field, those of `in[1]`
-- before the last eight, which are `in[0]`. (What the second `memcpy` copies from beyond its source is
-- among these eight.)
abbrev pub field_bytes : ℕ → ℕ → ℕ → List ℕ
field_bytes bytes lo hi =
    if leb bytes 8 then be_bytes bytes lo else be_bytes (bytes - 8) hi ++ be_bytes 8 lo

-- `inode_encode_field`, where `room` is `end - out`. The result is the bytes written.
pub encode_field : ℕ → ℕ → ℕ → Option (List ℕ)
encode_field room lo hi = elim (find_shift 8 1 (field_bits lo hi)) [
  | none ↦ none
  | some shift ↦
      let bytes = byte_table shift in
      if leb bytes room then some (mark_first shift (field_bytes bytes lo hi)) else none
]

-- `get_unaligned_be64(in + n - 8)`, where `before` is `get_unaligned_be64(in - 8)`.
abbrev pub be64_at : ℕ → List ℕ → ℕ → ℕ
be64_at before input n = u64 (be_value before (take n input))

abbrev pub head_or_zero : List ℕ → ℕ
head_or_zero [] = 0
head_or_zero (b ∷ bs) = b

-- `x <<= k; x >>= k` in 64 bits.
abbrev pub clear_high : ℕ → ℕ → ℕ
clear_high k x = shr (u64 (shl x k)) k

-- What `inode_decode_field` writes: `out[2]`, `*out_bits`, and the number of bytes read.
pub record Decoded : Type 0 where
  pub lo : ℕ
  pub hi : ℕ
  pub bits : ℕ
  pub bytes : ℕ

abbrev pub decode_sized : ℕ → ℕ → List ℕ → Option Decoded
decode_sized before shift input =
    let bytes = byte_table shift in
    let bits = bytes * 8 - shift in
    let lo = be64_at before input bytes in
    if ltb (length input) bytes
    then none
    else if leb bytes 8
    then some (record {
      lo = clear_high (64 - bits) lo;
      hi = 0;
      bits = fls64 (clear_high (64 - bits) lo);
      bytes = bytes;
    })
    else (let hi = clear_high (128 - bits) (be64_at before input (bytes - 8)) in
        some (record {
          lo = lo;
          hi = hi;
          bits = if hi == 0 then fls64 lo else 64 + fls64 hi;
          bytes = bytes;
        }))

-- `inode_decode_field` on the bytes from `in` to `end`; `-1` is `none`. `8 - __fls(*in)` is
-- `9 - fls64(*in)`.
pub decode_field : ℕ → List ℕ → Option Decoded
decode_field before [] = none
decode_field before (b ∷ bs) = if b == 0 then none else decode_sized before (9 - fls64 b) (b ∷ bs)
