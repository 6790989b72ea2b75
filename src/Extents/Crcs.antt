-- ===== src/Extents/Crcs.antt =====
-- The crc entries of an extent, made to cover only live data, and dropped where they say nothing:
-- `bch_extent_narrow_crcs` and `bch_extent_drop_redundant_crcs` of libbcache/extents.c.
use bcache_tools.Base.{
  Bool, List, Option, [], false, if◌then◌else◌, leb, length, none, not, some, suc, true, zero, ℕ,
  ◌%◌, ◌&&◌, ◌+◌, ◌-◌, ◌==◌, ◌^◌, ◌||◌, ◌∷◌,
}
use bcache_tools.Extents.{
  Crc, CrcKind, Entry, crc128, crc32, crc64, narrow_pointers, of_crc, of_ptr, offset_bits,
  starts_with_ptr,
}

-- `bch_crc_bytes`
abbrev pub crc_bytes : ℕ → Option ℕ
crc_bytes t =
    if t == 0
    then some 0
    else if t == 1
    then some 4
    else if t == 2
    then some 8
    else if t == 3
    then some 10
    else if t == 4
    then some 16
    else none

-- `bch_csum_type_is_encryption`
abbrev pub csum_type_is_encryption : ℕ → Bool
csum_type_is_encryption t = (t == 3) || (t == 4)

-- `crc_uncompressed_size`
abbrev pub uncompressed_sectors : Crc → ℕ
uncompressed_sectors c = c.uncompressed_size + 1

-- `have_wide` and `have_narrow`, and the checksum of a narrow crc.
pub record Found : Type 0 where
  pub have_wide : Bool
  pub have_narrow : Bool
  pub csum_lo : ℕ
  pub csum_hi : ℕ
  pub csum_type : ℕ

-- The body of the first loop of `bch_extent_narrow_crcs`.
abbrev pub found_crc : ℕ → Found → Crc → Found
found_crc size f c =
    if not (c.compression_type == 0) || csum_type_is_encryption c.csum_type
    then f
    else if not (uncompressed_sectors c == size)
    then record {
      have_wide = true;
      have_narrow = f.have_narrow;
      csum_lo = f.csum_lo;
      csum_hi = f.csum_hi;
      csum_type = f.csum_type;
    }
    else record {
      have_wide = f.have_wide;
      have_narrow = true;
      csum_lo = c.csum_lo;
      csum_hi = c.csum_hi;
      csum_type = c.csum_type;
    }

-- The first loop, over an extent of `size` sectors.
abbrev pub find_crcs : ℕ → Found → List Entry → Found
find_crcs size f [] = f
find_crcs size f (of_ptr p ∷ es) = find_crcs size f es
find_crcs size f (of_crc c ∷ es) = find_crcs size (found_crc size f c) es

-- What the loop starts with.
abbrev pub found_none : Found
found_none = record {
  have_wide = false;
  have_narrow = false;
  csum_lo = 0;
  csum_hi = 0;
  csum_type = 0;
}

-- The bytes of a checksum that each kind of crc has room for.
abbrev pub csum_room : CrcKind → ℕ
csum_room crc32 = 4
csum_room crc64 = 10
csum_room crc128 = 16

-- The bits of the high part of a checksum.
abbrev pub csum_hi_bits : CrcKind → ℕ
csum_hi_bits crc32 = 0
csum_hi_bits crc64 = 16
csum_hi_bits crc128 = 64

abbrev pub csum_lo_bits : CrcKind → ℕ
csum_lo_bits crc32 = 32
csum_lo_bits _ = 64

-- A crc of just the live data, with the checksum that was found.
abbrev pub narrowed : ℕ → Found → Crc → Crc
narrowed size f c = record {
  kind = c.kind;
  compressed_size = (size - 1) % 2 ^ offset_bits c.kind;
  uncompressed_size = (size - 1) % 2 ^ offset_bits c.kind;
  offset = 0;
  nonce = c.nonce;
  csum_type = f.csum_type % 2 ^ 4;
  compression_type = c.compression_type;
  csum_lo = f.csum_lo % 2 ^ csum_lo_bits c.kind;
  csum_hi = f.csum_hi % 2 ^ csum_hi_bits c.kind;
}

-- Whether the body of the second loop changes a crc; `bytes` are those of the checksum that was found.
abbrev pub is_narrowed : ℕ → ℕ → Crc → Bool
is_narrowed size bytes c =
    (c.compression_type == 0)
    && not (uncompressed_sectors c == size)
    && leb bytes (csum_room c.kind)

-- The second loop of `bch_extent_narrow_crcs`, on fuel, which is enough as the length of the list.
unfoldable pub narrow_each : ℕ → ℕ → ℕ → Found → List Entry → List Entry
narrow_each zero size bytes f es = es
narrow_each (suc fuel) size bytes f [] = []
narrow_each (suc fuel) size bytes f (of_ptr p ∷ es) = of_ptr p ∷ narrow_each fuel size bytes f es
narrow_each (suc fuel) size bytes f (of_crc c ∷ es) = elim (is_narrowed size bytes c) [
  | true ↦ of_crc (narrowed size f c) ∷ narrow_each fuel size bytes f (narrow_pointers c.offset es)
  | false ↦ of_crc c ∷ narrow_each fuel size bytes f es
]

-- `bch_extent_narrow_crcs`, on the entries of an extent of `size` sectors. A checksum type past the
-- table is `none`.
unfoldable pub narrow_crcs : ℕ → List Entry → Option (List Entry)
narrow_crcs size es =
    let f = find_crcs size found_none es in
    if not f.have_wide || not f.have_narrow then some es else elim (crc_bytes f.csum_type) [
      | none ↦ none
      | some bytes ↦ some (narrow_each (length es) size bytes f es)
    ]

abbrev pub same_kind : CrcKind → CrcKind → Bool
same_kind crc32 crc32 = true
same_kind crc64 crc64 = true
same_kind crc128 crc128 = true
same_kind _ _ = false

-- `crc_cmp`: equal, in every byte.
abbrev pub crc_cmp : Crc → Crc → Bool
crc_cmp l r =
    same_kind l.kind r.kind
    && (l.compressed_size == r.compressed_size)
    && (l.uncompressed_size == r.uncompressed_size)
    && (l.offset == r.offset)
    && (l.nonce == r.nonce)
    && (l.csum_type == r.csum_type)
    && (l.compression_type == r.compression_type)
    && (l.csum_lo == r.csum_lo)
    && (l.csum_hi == r.csum_hi)

-- What `bch_extent_drop_redundant_crcs` does to a crc.
pub data Fate : Type 0 where
  dropped : Fate
  nulled : Fate
  kept : Fate

-- The tests, of the crc before it that was kept, and of the entries after it.
abbrev pub crc_fate : Option Crc → Crc → List Entry → Fate
crc_fate prev c es = if not (starts_with_ptr es) then dropped else (elim prev [
  | some c' ↦ if crc_cmp c c' then dropped else kept
  | none ↦ if (c.csum_type == 0) && (c.compression_type == 0) then nulled else kept
])

-- The loop of `bch_extent_drop_redundant_crcs`, on fuel, which is enough as the length of the list.
unfoldable pub drop_crcs : ℕ → Option Crc → List Entry → List Entry
drop_crcs zero prev es = es
drop_crcs (suc fuel) prev [] = []
drop_crcs (suc fuel) prev (of_ptr p ∷ es) = of_ptr p ∷ drop_crcs fuel prev es
drop_crcs (suc fuel) prev (of_crc c ∷ es) = elim (crc_fate prev c es) [
  | dropped ↦ drop_crcs fuel prev es
  | nulled ↦ drop_crcs fuel prev (narrow_pointers c.offset es)
  | kept ↦ of_crc c ∷ drop_crcs fuel (some c) es
]

-- `bch_extent_drop_redundant_crcs`, on the entries; the words of the key are fewer by those dropped.
unfoldable pub drop_redundant_crcs : List Entry → List Entry
drop_redundant_crcs es = drop_crcs (length es) none es
