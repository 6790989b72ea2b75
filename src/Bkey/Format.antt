-- ===== src/Bkey/Format.antt =====
-- Choosing a format for packed keys: `bch_bkey_format_*` of libbcache/bkey.c. Numbers that the source
-- indexes by field are lists here, in the order of the fields.
use bcache_tools.Base.{
  List, Option, [], false, if◌then◌else◌, leb, ltb, map, max, min, none, not, some, suc, true, u64,
  zero, ℕ, ◌%◌, ◌&&◌, ◌*◌, ◌+◌, ◌-◌, ◌/◌, ◌==◌, ◌^◌, ◌||◌, ◌∷◌,
}
use bcache_tools.Base.Fls.{fls64}
use bcache_tools.Bkey.{BkeyFormat, FormatField, fields_bits, key_packed_bits_start}
use bcache_tools.Bkey.Key.{Bkey, Bpos, bkey_fields, bkey_start_offset}

-- `field_min[i]` and `field_max[i]` of `struct bkey_format_state`
pub record FieldRange : Type 0 where
  pub field_min : ℕ
  pub field_max : ℕ

-- `bch_bkey_format_init`: six fields, of which the size has 0 in its range.
abbrev pub format_init : List FieldRange
format_init =
    let none_yet : FieldRange = record { field_min = 2 ^ 64 - 1; field_max = 0 } in
    none_yet
    ∷ none_yet
    ∷ none_yet
    ∷ record { field_min = 0; field_max = 0 }
    ∷ none_yet
    ∷ none_yet
    ∷ []

abbrev pub widen : FieldRange → ℕ → FieldRange
widen r v = record { field_min = min r.field_min v; field_max = max r.field_max v }

-- `__bkey_format_add`
unfoldable pub format_add : List FieldRange → ℕ → ℕ → List FieldRange
format_add [] field v = []
format_add (r ∷ rs) zero v = widen r v ∷ rs
format_add (r ∷ rs) (suc field) v = r ∷ format_add rs field v

-- One call for each of the values, from the field `i` on.
abbrev pub format_add_from : List FieldRange → ℕ → List ℕ → List FieldRange
format_add_from s i [] = s
format_add_from s i (v ∷ vs) = format_add_from (format_add s i v) (suc i) vs

-- `bch_bkey_format_add_key`
unfoldable pub format_add_key : List FieldRange → Bkey → List FieldRange
format_add_key s k = format_add (format_add_from s 0 (bkey_fields k)) 1 (bkey_start_offset k)

-- `bch_bkey_format_add_pos`
unfoldable pub format_add_pos : List FieldRange → Bpos → List FieldRange
format_add_pos s p = format_add_from s 0 (p.inode ∷ p.offset ∷ p.snapshot ∷ [])

-- `set_format_field`
unfoldable pub set_format_field : ℕ → ℕ → FormatField
set_format_field bits offset = record {
  bits = bits;
  offset = if bits == 64 then 0 else min offset (2 ^ 64 - 1 - (2 ^ bits - 1));
}

-- The first loop of `bch_bkey_format_done`.
abbrev pub format_field : FieldRange → FormatField
format_field r =
    let low = min r.field_min r.field_max in set_format_field (fls64 (r.field_max - low)) low

-- "allow for extent merging": four more bits for the size, the fourth field, where it has any.
unfoldable pub grow_field : FormatField → FormatField
grow_field f = if f.bits == 0 then f else record { bits = f.bits + 4; offset = f.offset }

abbrev pub grow_size : List FormatField → List FormatField
grow_size (a ∷ b ∷ c ∷ size ∷ fs) = a ∷ b ∷ c ∷ grow_field size ∷ fs
grow_size fs = fs

-- `DIV_ROUND_UP(bits, 64)`
abbrev pub words_for : ℕ → ℕ
words_for bits = (bits + 63) / 64

-- `round_up(bits, 8) - bits`
abbrev pub to_byte : ℕ → ℕ
to_byte bits = (bits + 7) / 8 * 8 - bits

-- The last loop of `bch_bkey_format_done`: `bits` are spare.
unfoldable pub round_fields : ℕ → List FormatField → List FormatField
round_fields bits [] = []
round_fields bits (f ∷ fs) = elim (leb (to_byte f.bits) bits) [
  | true ↦
      set_format_field (f.bits + to_byte f.bits) f.offset ∷ round_fields (bits - to_byte f.bits) fs
  | false ↦ f ∷ round_fields bits fs
]

-- `bch_bkey_format_done`; `key_u64s` is a byte.
unfoldable pub format_done : List FieldRange → BkeyFormat
format_done s =
    let fs = grow_size (map format_field s) in
    let bits = key_packed_bits_start + fields_bits fs in
    record {
      key_u64s = words_for bits % 2 ^ 8;
      nr_fields = 6;
      fields = round_fields (words_for bits % 2 ^ 8 * 64 - bits) fs;
    }

-- The messages of `bch_bkey_format_validate`.
pub data FormatError : Type 0 where
  incorrect_number_of_fields : FormatError
  field_too_large : FormatError
  offset_overflow : FormatError
  incorrect_key_u64s : FormatError

-- One field of the loop of `bch_bkey_format_validate`. `1ULL << bits` is 2 to the `bits` where it is
-- reached.
unfoldable pub validate_field : FormatField → Option FormatError
validate_field f =
    if ltb 64 f.bits
    then some field_too_large
    else if not (f.offset == 0)
        && (f.bits == 64 || ltb (u64 (f.offset + (2 ^ f.bits - 1))) f.offset)
    then some offset_overflow
    else none

unfoldable pub validate_fields : List FormatField → Option FormatError
validate_fields [] = none
validate_fields (f ∷ fs) = elim (validate_field f) [ some e ↦ some e | none ↦ validate_fields fs ]

-- `bch_bkey_format_validate`; a valid format is `none`.
unfoldable pub format_validate : BkeyFormat → Option FormatError
format_validate f =
    if not (f.nr_fields == 6)
    then some incorrect_number_of_fields
    else elim (validate_fields f.fields) [
      | some e ↦ some e
      | none ↦
          if f.key_u64s == words_for (key_packed_bits_start + fields_bits f.fields)
          then none
          else some incorrect_key_u64s
    ]
