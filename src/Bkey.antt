-- ===== src/Bkey.antt =====
-- Packed keys, libbcache/bkey.c: how the fields of a key are written to and read from the words of a
-- packed key, on a little-endian machine. A key's words are listed from the high word down, the order
-- in which `next_word` goes over them.
mod Stream
mod Remains
mod Get
pub mod Key
mod Fields
mod Finish
mod Format
pub mod Layout
mod Range
mod Stored
mod RoundTrip
mod Transform
mod Fits
pub mod Trim
pub mod Current
mod Chosen
mod Packs
pub mod Order
mod Compare
mod Position
mod Tests
use bcache_tools.Base.{
  Bool, List, Option, [], bit_or, false, if◌then◌else◌, leb, length, ltb, none, replicate, shl, shr,
  some, suc, true, u64, ℕ, ◌*◌, ◌++◌, ◌+◌, ◌-◌, ◌/◌, ◌^◌, ◌∷◌,
}
use bcache_tools.Base.Fls.{fls64}

-- `bits_per_field[i]` and `field_offset[i]`
pub record FormatField : Type 0 where
  pub bits : ℕ
  pub offset : ℕ

-- The sum of `bits_per_field`
abbrev pub fields_bits : List FormatField → ℕ
fields_bits [] = 0
fields_bits (f ∷ fs) = f.bits + fields_bits fs

-- `struct bkey_format`
pub record BkeyFormat : Type 0 where
  pub key_u64s : ℕ
  pub nr_fields : ℕ
  pub fields : List FormatField

-- `struct pack_state`: the bits that are left of the word `w`, and the words stored before it.
pub record PackState : Type 0 where
  pub bits : ℕ
  pub w : ℕ
  pub stored : List ℕ

-- `pack_state_init`; `high_bit_offset` is 0.
abbrev pub pack_state_init : PackState
pack_state_init = record { bits = 64; w = 0; stored = [] }

-- The end of `set_inc_field` and of `set_inc_field_lossy`, from `if (bits > state->bits)` on.
pub put_bits : PackState → ℕ → ℕ → PackState
put_bits s bits v =
    if ltb s.bits bits
    then (let more = bits - s.bits in
        record {
          bits = 64 - more;
          w = bit_or 0 (u64 (shl v (64 - more)));
          stored = s.stored ++ bit_or s.w (shr (shr v 1) (more - 1)) ∷ [];
        })
    else record {
      bits = s.bits - bits;
      w = bit_or s.w (u64 (shl v (s.bits - bits)));
      stored = s.stored;
    }

-- `set_inc_field`; false is `none`.
pub set_inc_field : PackState → FormatField → ℕ → Option PackState
set_inc_field s f v =
    if ltb v f.offset
    then none
    else if ltb f.bits (fls64 (v - f.offset))
    then none
    else some (put_bits s f.bits (v - f.offset))

-- `set_inc_field_lossy`: the new state, and whether the value is stored as it is.
pub set_inc_field_lossy : PackState → FormatField → ℕ → PackState × Bool
set_inc_field_lossy s f v =
    if ltb f.bits (fls64 (v - f.offset))
    then (put_bits s f.bits (2 ^ f.bits - 1), false)
    else (put_bits s f.bits (v - f.offset), true)

-- `struct unpack_state`: the bits that are left of the word `w`, and the words after it.
pub record UnpackState : Type 0 where
  pub bits : ℕ
  pub w : ℕ
  pub rest : List ℕ

-- `unpack_state_init`; a key has a word.
abbrev pub unpack_state_init : List ℕ → Option UnpackState
unpack_state_init [] = none
unpack_state_init (w ∷ rest) = some (record { bits = 64; w = w; rest = rest })

-- The end of `get_inc_field`, where `bits` of the field are left to take from the word `w`, which has
-- `left` bits, and `v` has the others.
abbrev pub take_bits : ℕ → ℕ → ℕ → ℕ → List ℕ → ℕ → ℕ × UnpackState
take_bits v bits left w rest offset = (
  u64 (bit_or v (shr (shr w 1) (63 - bits)) + offset),
  record { bits = left - bits; w = u64 (shl w bits); rest = rest },
)

-- `get_inc_field`. A read past the last word of the key is `none`.
pub get_inc_field : UnpackState → FormatField → Option (ℕ × UnpackState)
get_inc_field s f = elim (leb s.bits f.bits) [
  | true ↦ elim s.rest [
    | [] ↦ none
    | next ∷ rest ↦ some (take_bits (shr s.w (64 - f.bits)) (f.bits - s.bits) 64 next rest f.offset)
  ]
  | false ↦ some (take_bits 0 f.bits s.bits s.w s.rest f.offset)
]

-- `bkey_fields()` in `bkey_pack_key`: every field in turn.
pub set_fields : PackState → List FormatField → List ℕ → Option PackState
set_fields s (f ∷ fs) (v ∷ vs) = elim (set_inc_field s f v) [
  | none ↦ none
  | some s' ↦ set_fields s' fs vs
]
set_fields s _ _ = some s

-- `bkey_fields()` in `__bkey_unpack_key`.
pub get_fields : UnpackState → List FormatField → Option (List ℕ)
get_fields s [] = some []
get_fields s (f ∷ fs) = elim (get_inc_field s f) [
  | none ↦ none
  | some (v, s') ↦ elim (get_fields s' fs) [ none ↦ none | some vs ↦ some (v ∷ vs) ]
]

-- `pack_state_finish`. The words of the key below the last that is stored are what they were: the
-- lowest, `_data[0]`, was cleared.
abbrev pub pack_state_finish : PackState → ℕ → List ℕ
pack_state_finish s key_u64s =
    (s.stored ++ s.w ∷ []) ++ replicate (key_u64s - suc (length s.stored)) 0

-- The header of a packed key lies in the low `KEY_PACKED_BITS_START` bits of `_data[0]`.
abbrev pub key_packed_bits_start : ℕ
key_packed_bits_start = 24

pub set_header : ℕ → List ℕ → List ℕ
set_header h [] = []
set_header h (w ∷ []) = (w / 2 ^ 24 * 2 ^ 24 + h) ∷ []
set_header h (w ∷ v ∷ ws) = w ∷ set_header h (v ∷ ws)
