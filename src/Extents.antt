-- ===== src/Extents.antt =====
-- Extents: the entries of an extent's value and what is done to one key, libbcache/extents.c and
-- extents.h, with the types of include/linux/bcache.h.
mod Cut
mod Merge
mod Reads
mod CutReads
mod MergeReads
mod Crcs
mod CrcReads
mod DropReads
mod Squash
mod SquashParts
mod Saved
mod SquashReads
mod Cmpxchg
mod CmpxchgReads
mod Tests
use bcache_tools.Base.{Bool, List, [], false, if◌then◌else◌, suc, true, ℕ, ◌%◌, ◌+◌, ◌^◌, ◌∷◌}

-- `enum bch_extent_entry_type`, but for the pointers
pub data CrcKind : Type 0 where
  crc32 : CrcKind
  crc64 : CrcKind
  crc128 : CrcKind

-- `struct bch_extent_crc32`, `bch_extent_crc64` and `bch_extent_crc128`; the sizes are one less than
-- what they stand for. A field that a kind has not is 0.
pub record Crc : Type 0 where
  pub kind : CrcKind
  pub compressed_size : ℕ
  pub uncompressed_size : ℕ
  pub offset : ℕ
  pub nonce : ℕ
  pub csum_type : ℕ
  pub compression_type : ℕ
  pub csum_lo : ℕ
  pub csum_hi : ℕ

-- `struct bch_extent_ptr`
pub record ExtentPtr : Type 0 where
  pub cached : Bool
  pub reservation : Bool
  pub offset : ℕ
  pub dev : ℕ
  pub gen : ℕ

-- `union bch_extent_entry`
pub data Entry : Type 0 where
  of_ptr : ExtentPtr → Entry
  of_crc : Crc → Entry

-- The bits of `offset` in each kind of crc entry.
abbrev pub offset_bits : CrcKind → ℕ
offset_bits crc32 = 7
offset_bits crc64 = 9
offset_bits crc128 = 13

-- `extent_entry_u64s`
abbrev pub entry_u64s : Entry → ℕ
entry_u64s (of_ptr p) = 1
entry_u64s (of_crc c) = elim c.kind [ crc32 ↦ 1 | crc64 ↦ 2 | crc128 ↦ 3 ]

abbrev pub entries_u64s : List Entry → ℕ
entries_u64s [] = 0
entries_u64s (e ∷ es) = entry_u64s e + entries_u64s es

-- `ptr->offset += n`
abbrev pub ptr_forward : ℕ → ExtentPtr → ExtentPtr
ptr_forward n p = record {
  cached = p.cached;
  reservation = p.reservation;
  offset = (p.offset + n) % 2 ^ 44;
  dev = p.dev;
  gen = p.gen;
}

-- `crc->crc32.offset += n`, and so for the others
abbrev pub crc_forward : ℕ → Crc → Crc
crc_forward n c = record {
  kind = c.kind;
  compressed_size = c.compressed_size;
  uncompressed_size = c.uncompressed_size;
  offset = (c.offset + n) % 2 ^ offset_bits c.kind;
  nonce = c.nonce;
  csum_type = c.csum_type;
  compression_type = c.compression_type;
  csum_lo = c.csum_lo;
  csum_hi = c.csum_hi;
}

-- The entry after a crc is one of its pointers.
abbrev pub starts_with_ptr : List Entry → Bool
starts_with_ptr (of_ptr p ∷ es) = true
starts_with_ptr _ = false

-- The loop of `__bch_cut_front` over the pointers with the crc that each is under: a pointer that is
-- under none is moved, and of the others the crc is, at the first of its pointers.
abbrev pub forward : Bool → ℕ → List Entry → List Entry
forward under n [] = []
forward under n (of_ptr p ∷ es) = of_ptr (if under then p else ptr_forward n p) ∷ forward under n es
forward under n (of_crc c ∷ es) =
    of_crc (if starts_with_ptr es then crc_forward n c else c) ∷ forward true n es

-- `bch_extent_crc_narrow_pointers`: the pointers up to the next crc, moved by the offset of a crc.
abbrev pub narrow_pointers : ℕ → List Entry → List Entry
narrow_pointers n [] = []
narrow_pointers n (of_ptr p ∷ es) = of_ptr (ptr_forward n p) ∷ narrow_pointers n es
narrow_pointers n (of_crc c ∷ es) = of_crc c ∷ es

-- `bch_extent_nr_ptrs`
abbrev pub extent_nr_ptrs : List Entry → ℕ
extent_nr_ptrs [] = 0
extent_nr_ptrs (of_ptr p ∷ es) = suc (extent_nr_ptrs es)
extent_nr_ptrs (of_crc c ∷ es) = extent_nr_ptrs es

-- The loop of `bch_extent_nr_dirty_ptrs`
abbrev pub extent_nr_dirty_ptrs : List Entry → ℕ
extent_nr_dirty_ptrs [] = 0
extent_nr_dirty_ptrs (of_ptr p ∷ es) = (if p.cached then 0 else 1) + extent_nr_dirty_ptrs es
extent_nr_dirty_ptrs (of_crc c ∷ es) = extent_nr_dirty_ptrs es
