-- ===== src/Inode/Record.antt =====
-- A whole inode, libbcache/inode.c: `bch_inode_pack`, `bch_inode_unpack` and `bch_inode_invalid`, with
-- the types of libbcache/inode.h and include/linux/bcache.h.
use bcache_tools.Base.{
  Bool, List, Option, [], bit_and, bit_or, drop, false, get_or, if◌then◌else◌, leb, length, ltb,
  none, not, replicate, shl, shr, some, suc, true, u32, ℕ, ◌%◌, ◌*◌, ◌++◌, ◌+◌, ◌-◌, ◌/◌, ◌==◌, ◌^◌,
  ◌∷◌,
}
use bcache_tools.Inode.{be64_at, decode_field, encode_field}

-- `BKEY_VAL_TYPE`'s types, and what follows from `BCH_INODE_FIELDS`: the bits of each field.
abbrev pub blockdev_inode_max : ℕ
blockdev_inode_max = 4096

abbrev pub bch_inode_fs : ℕ
bch_inode_fs = 128

abbrev pub bch_inode_blockdev : ℕ
bch_inode_blockdev = 129

abbrev pub widths : List ℕ
widths = 64 ∷ 64 ∷ 64 ∷ 64 ∷ 64 ∷ 64 ∷ 32 ∷ 32 ∷ 32 ∷ 32 ∷ 32 ∷ []

-- `struct bch_inode_unpacked`.
pub record Unpacked : Type 0 where
  pub inum : ℕ
  pub i_hash_seed : ℕ
  pub i_flags : ℕ
  pub i_mode : ℕ
  pub i_atime : ℕ
  pub i_ctime : ℕ
  pub i_mtime : ℕ
  pub i_otime : ℕ
  pub i_size : ℕ
  pub i_sectors : ℕ
  pub i_uid : ℕ
  pub i_gid : ℕ
  pub i_nlink : ℕ
  pub i_generation : ℕ
  pub i_dev : ℕ

-- What `BCH_INODE_FIELDS()` goes over.
abbrev pub fields_of : Unpacked → List ℕ
fields_of u =
    u.i_atime ∷ u.i_ctime ∷ u.i_mtime ∷ u.i_otime ∷ u.i_size ∷ u.i_sectors ∷ u.i_uid ∷ u.i_gid
    ∷ u.i_nlink ∷ u.i_generation ∷ u.i_dev ∷ []

abbrev pub with_fields : Unpacked → List ℕ → Unpacked
with_fields u fs = record u {
  i_atime = get_or fs 0 0;
  i_ctime = get_or fs 1 0;
  i_mtime = get_or fs 2 0;
  i_otime = get_or fs 3 0;
  i_size = get_or fs 4 0;
  i_sectors = get_or fs 5 0;
  i_uid = get_or fs 6 0;
  i_gid = get_or fs 7 0;
  i_nlink = get_or fs 8 0;
  i_generation = get_or fs 9 0;
  i_dev = get_or fs 10 0;
}

-- `struct bkey_i_inode`: the key's position and type, and the value. `fields` is what lies from
-- `v.fields` to the end of the value.
pub record Packed : Type 0 where
  pub offset : ℕ
  pub inode : ℕ
  pub type : ℕ
  pub hash_seed : ℕ
  pub flags : ℕ
  pub mode : ℕ
  pub fields : List ℕ

-- `INODE_STR_HASH` and `INODE_NR_FIELDS`, bits 20 to 23 and 24 to 31 of the flags.
abbrev pub inode_str_hash : ℕ → ℕ
inode_str_hash flags = bit_and (shr flags 20) (2 ^ 4 - 1)

abbrev pub inode_nr_fields : ℕ → ℕ
inode_nr_fields flags = bit_and (shr flags 24) (2 ^ 8 - 1)

-- `SET_INODE_NR_FIELDS`; the complement of the mask of bits 24 to 31 is that of the 24 below, in a
-- `__le32`.
abbrev pub set_inode_nr_fields : ℕ → ℕ → ℕ
set_inode_nr_fields flags nr =
    u32 (bit_or (bit_and flags (2 ^ 24 - 1)) (shl (bit_and nr (2 ^ 8 - 1)) 24))

-- `sizeof(struct bch_inode)`; what `struct bkey_inode_buf` has for the fields is its padding and the
-- two bytes that align `struct bkey_i_inode`.
abbrev pub sizeof_bch_inode : ℕ
sizeof_bch_inode = 14

abbrev pub sizeof_bch_inode_blockdev : ℕ
sizeof_bch_inode_blockdev = 80

abbrev pub pack_room : ℕ
pack_room = 158

-- The fields' part of `bch_inode_pack`: `last` ends at `last_nonzero_field`.
unfoldable pub pack_fields : List ℕ → List ℕ → ℕ → List ℕ → ℕ → Option (List ℕ × ℕ)
pack_fields [] out nr last last_nr = some (last, last_nr)
pack_fields (f ∷ fs) out nr last last_nr = elim (encode_field (pack_room - length out) f 0) [
  | none ↦ none
  | some bytes ↦
      let out' = out ++ bytes in
      pack_fields fs out' (suc nr) (if f == 0 then last else out')
        (if f == 0 then last_nr else suc nr)
]

-- `set_bkey_val_bytes` rounds the value up to words, and `memset` clears the rest of the last.
abbrev pub padding : ℕ → ℕ
padding n = (sizeof_bch_inode + n + 7) / 8 * 8 - (sizeof_bch_inode + n)

abbrev pub pad_to_u64 : List ℕ → List ℕ
pad_to_u64 bytes = bytes ++ replicate (padding (length bytes)) 0

-- `bch_inode_pack`; a `BUG_ON` is `none`.
unfoldable pub pack : Unpacked → Option Packed
pack u = elim (pack_fields (fields_of u) [] 0 [] 0) [
  | none ↦ none
  | some (bytes, nr) ↦ some (record {
    offset = 0;
    inode = u.inum;
    type = bch_inode_fs;
    hash_seed = u.i_hash_seed;
    flags = set_inode_nr_fields u.i_flags nr;
    mode = u.i_mode;
    fields = pad_to_u64 bytes;
  })
]

-- `BCH_INODE_FIELDS()` in `bch_inode_unpack`, from the field `fieldnr` on.
unfoldable pub unpack_fields : List ℕ → ℕ → ℕ → ℕ → List ℕ → Option (List ℕ)
unpack_fields [] nr fieldnr before input = some []
unpack_fields (w ∷ ws) nr fieldnr before input = elim (fieldnr == nr) [
  | true ↦ some (replicate (length (w ∷ ws)) 0)
  | false ↦ elim (decode_field before input) [
    | none ↦ none
    | some d ↦ elim (ltb w d.bits) [
      | true ↦ none
      | false ↦
          elim (unpack_fields ws nr (suc fieldnr) (be64_at before input d.bytes)
            (drop d.bytes input)) [ none ↦ none | some fs ↦ some (d.lo % 2 ^ w ∷ fs) ]
    ]
  ]
]

abbrev pub header_of : Packed → Unpacked
header_of p = record {
  inum = p.inode;
  i_hash_seed = p.hash_seed;
  i_flags = p.flags;
  i_mode = p.mode;
  i_atime = 0;
  i_ctime = 0;
  i_mtime = 0;
  i_otime = 0;
  i_size = 0;
  i_sectors = 0;
  i_uid = 0;
  i_gid = 0;
  i_nlink = 0;
  i_generation = 0;
  i_dev = 0;
}

-- `bch_inode_unpack`; `before` is what lies in the eight bytes ahead of the fields.
unfoldable pub unpack : ℕ → Packed → Option Unpacked
unpack before p = elim (unpack_fields widths (inode_nr_fields p.flags) 0 before p.fields) [
  | none ↦ none
  | some fs ↦ some (with_fields (header_of p) fs)
]

-- What `bch_inode_invalid` answers, `ok` for `NULL`.
pub data Verdict : Type 0 where
  ok nonzero_offset incorrect_value_size fs_inode_in_blockdev_range : Verdict
  invalid_str_hash_type invalid_fields blockdev_inode_in_fs_range invalid_type : Verdict

abbrev pub is_none {ℓ} : {A : Type ℓ} → Option A → Bool
is_none none = true
is_none (some a) = false

-- `bch_inode_invalid` on a key whose value has `size` bytes.
unfoldable pub inode_invalid : ℕ → ℕ → Packed → Verdict
inode_invalid before size p =
    if not (p.offset == 0)
    then nonzero_offset
    else if p.type == bch_inode_fs
    then (if ltb size sizeof_bch_inode
        then incorrect_value_size
        else if ltb p.inode blockdev_inode_max
        then fs_inode_in_blockdev_range
        else if leb 3 (inode_str_hash p.flags)
        then invalid_str_hash_type
        else if is_none (unpack before p)
        then invalid_fields
        else ok)
    else if p.type == bch_inode_blockdev
    then (if not (size == sizeof_bch_inode_blockdev)
        then incorrect_value_size
        else if leb blockdev_inode_max p.inode
        then blockdev_inode_in_fs_range
        else ok)
    else invalid_type
