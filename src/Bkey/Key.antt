-- ===== src/Bkey/Key.antt =====
-- Keys and their packed form: libbcache/bkey.c and include/linux/bcache.h. The words of a packed key
-- are listed from the high word down, so the last is `_data[0]`.
use bcache_tools.Base.{
  List, Option, [], false, get_elem?, ltb, none, some, take, true, u64, ℕ, ◌%◌, ◌*◌, ◌+◌, ◌-◌, ◌/◌,
  ◌^◌, ◌∷◌,
}
use bcache_tools.Bkey.{
  BkeyFormat, FormatField, PackState, UnpackState, get_fields, get_inc_field, pack_state_finish,
  pack_state_init, set_fields, set_header, set_inc_field, unpack_state_init,
}

-- `struct bpos`
pub record Bpos : Type 0 where
  pub inode : ℕ
  pub offset : ℕ
  pub snapshot : ℕ

-- `struct bversion`
pub record Bversion : Type 0 where
  pub hi : ℕ
  pub lo : ℕ

-- `struct bkey`; `pad` is 0.
pub record Bkey : Type 0 where
  pub u64s : ℕ
  pub format : ℕ
  pub needs_whiteout : ℕ
  pub kind : ℕ
  pub version : Bversion
  pub size : ℕ
  pub p : Bpos

abbrev pub bkey_u64s : ℕ
bkey_u64s = 5

abbrev pub key_format_local_btree : ℕ
key_format_local_btree = 0

abbrev pub key_format_current : ℕ
key_format_current = 1

-- `bkey_fields()`: the fields, in the order of their numbers.
abbrev pub bkey_fields : Bkey → List ℕ
bkey_fields k = k.p.inode ∷ k.p.offset ∷ k.p.snapshot ∷ k.size ∷ k.version.hi ∷ k.version.lo ∷ []

-- `bkey_start_offset`
abbrev pub bkey_start_offset : Bkey → ℕ
bkey_start_offset k = u64 (k.p.offset + 2 ^ 64 - k.size)

-- `field_offset[BKEY_FIELD_OFFSET]`
abbrev pub offset_field_offset : BkeyFormat → ℕ
offset_field_offset f = elim (get_elem? f.fields 1) [ none ↦ 0 | some g ↦ g.offset ]

-- `_data[0]`
abbrev pub low_word : List ℕ → ℕ
low_word [] = 0
low_word (w ∷ []) = w
low_word (w ∷ v ∷ ws) = low_word (v ∷ ws)

-- The bit fields of `struct bkey_packed`, in `_data[0]`.
abbrev pub packed_u64s : List ℕ → ℕ
packed_u64s ws = low_word ws % 2 ^ 8

abbrev pub packed_format : List ℕ → ℕ
packed_format ws = low_word ws / 2 ^ 8 % 2 ^ 7

abbrev pub packed_needs_whiteout : List ℕ → ℕ
packed_needs_whiteout ws = low_word ws / 2 ^ 15 % 2

abbrev pub packed_type : List ℕ → ℕ
packed_type ws = low_word ws / 2 ^ 16 % 2 ^ 8

-- The four written together.
abbrev pub header : ℕ → ℕ → ℕ → ℕ → ℕ
header u64s format needs_whiteout kind =
    u64s % 2 ^ 8 + format % 2 ^ 7 * 2 ^ 8 + needs_whiteout % 2 * 2 ^ 15 + kind % 2 ^ 8 * 2 ^ 16

-- `bkey_pack_key`; false is `none`.
unfoldable pub pack_key : BkeyFormat → Bkey → Option (List ℕ)
pack_key f k = elim (set_fields pack_state_init f.fields (bkey_fields k)) [
  | none ↦ none
  | some s ↦ elim (ltb (bkey_start_offset k) (offset_field_offset f)) [
    | true ↦ none
    | false ↦ some (
        set_header
          (header (f.key_u64s + k.u64s + 2 ^ 8 - bkey_u64s) key_format_local_btree k.needs_whiteout
            k.kind)
          (pack_state_finish s f.key_u64s))
  ]
]

-- The fields of the unpacked key, with the widths of `struct bkey`.
abbrev pub bkey_of_fields : ℕ → ℕ → ℕ → List ℕ → Option Bkey
bkey_of_fields u nw kind (inode ∷ offset ∷ snapshot ∷ size ∷ hi ∷ lo ∷ []) = some (record {
  u64s = u % 2 ^ 8;
  format = key_format_current;
  needs_whiteout = nw;
  kind = kind;
  version = record { hi = hi % 2 ^ 32; lo = lo };
  size = size % 2 ^ 32;
  p = record { inode = inode; offset = offset; snapshot = snapshot % 2 ^ 32 };
})
bkey_of_fields u nw kind _ = none

-- `__bkey_unpack_key`. A read past the words is `none`, as is a format that has not six fields.
unfoldable pub unpack_key : BkeyFormat → List ℕ → Option Bkey
unpack_key f ws = elim (unpack_state_init ws) [
  | none ↦ none
  | some s ↦ elim (get_fields s f.fields) [
    | none ↦ none
    | some vs ↦
        bkey_of_fields (bkey_u64s + packed_u64s ws + 2 ^ 8 - f.key_u64s) (packed_needs_whiteout ws)
          (packed_type ws) vs
  ]
]

-- `__bkey_unpack_pos`: only the first three fields are read.
unfoldable pub unpack_pos : BkeyFormat → List ℕ → Option Bpos
unpack_pos f ws = elim (unpack_state_init ws) [
  | none ↦ none
  | some s ↦ elim (get_fields s (take 3 f.fields)) [
    | none ↦ none
    | some vs ↦ elim vs [
      | [] ↦ none
      | inode ∷ vs ↦ elim vs [
        | [] ↦ none
        | offset ∷ vs ↦ elim vs [
          | [] ↦ none
          | snapshot ∷ _ ↦
              some (record { inode = inode; offset = offset; snapshot = snapshot % 2 ^ 32 })
        ]
      ]
    ]
  ]
]

-- The loop of `bch_bkey_transform_key`, with what is left of the key that is read.
unfoldable pub transform_fields :
    PackState → List FormatField → UnpackState → List FormatField → Option PackState
transform_fields o (g ∷ gs) i (f ∷ fs) = elim (get_inc_field i f) [
  | none ↦ none
  | some (v, i') ↦ elim (set_inc_field o g v) [
    | none ↦ none
    | some o' ↦ transform_fields o' gs i' fs
  ]
]
transform_fields o _ i _ = some o

-- `bch_bkey_transform_key`. Neither it nor its caller writes `format`, which the words of `out` had:
-- here the local format, which the clearing of `_data[0]` leaves.
unfoldable pub transform_key : BkeyFormat → BkeyFormat → List ℕ → Option (List ℕ)
transform_key out_f in_f ws = elim (unpack_state_init ws) [
  | none ↦ none
  | some i ↦ elim (transform_fields pack_state_init out_f.fields i in_f.fields) [
    | none ↦ none
    | some o ↦ some (
        set_header
          (header (out_f.key_u64s + packed_u64s ws + 2 ^ 8 - in_f.key_u64s) key_format_local_btree
            (packed_needs_whiteout ws) (packed_type ws))
          (pack_state_finish o out_f.key_u64s))
  ]
]
