-- ===== src/Inode/Valid.antt =====
-- What `bch_inode_pack` makes passes `bch_inode_invalid`, libbcache/inode.c.
use native.Mathlib.Nat.{mod-eq_of_lt}
use bcache_tools.Base.{
  arith, bit_and, bit_or, false, leb, length, ltb, refl, shl, shr, some, sym, u32, ℕ, ◌%◌, ◌+◌, ◌-◌,
  ◌<◌, ◌^◌, ◌∙◌, ◌≡◌, ◌≤◌,
}
use bcache_tools.Base.Bits.{bit_or-shl, bit_and-low_mask}
use bcache_tools.Inode.Record.{
  Packed, Unpacked, bch_inode_fs, blockdev_inode_max, fields_of, inode_invalid, inode_str_hash,
  is_none, ok, pack, pad_to_u64, set_inode_nr_fields, sizeof_bch_inode, unpack,
}
use bcache_tools.Inode.Packing.{WellFormed, packed_fields, inode_nr_fields-set}

inode_str_hash-set :
    (flags nr : ℕ)
    → nr < 2 ^ 8
    → inode_str_hash (set_inode_nr_fields flags nr) ≡ inode_str_hash flags
inode_str_hash-set flags nr h =
    let low = bit_and flags (2 ^ 24 - 1) in
    let low-eq : low ≡ flags % 2 ^ 24 = bit_and-low_mask 24 flags in
    let same : bit_and nr (2 ^ 8 - 1) ≡ nr = bit_and-low_mask 8 nr ∙ mod-eq_of_lt h in
    let joined : bit_or low (shl nr 24) ≡ low + shl nr 24 = bit_or-shl 24 low nr (omega arith) in
    rw (same, joined)
      (bit_and-low_mask 4 (shr (u32 (low + shl nr 24)) 20)
        ∙ fields flags low nr low-eq
        ∙ sym (bit_and-low_mask 4 (shr flags 20)))
  where
    fields :
        (flags low nr : ℕ)
        → low ≡ flags % 2 ^ 24
        → shr (u32 (low + shl nr 24)) 20 % 2 ^ 4 ≡ shr flags 20 % 2 ^ 4
    fields flags low nr e = omega arith

-- An inode outside the block devices' range, of a known hash type and with fields that fit, is
-- packed into a key that is valid.
pub inode_invalid-pack :
    (before : ℕ) (u : Unpacked)
    → WellFormed u
    → blockdev_inode_max ≤ u.inum
    → inode_str_hash u.i_flags < 3
    → (p : Packed) × (pack u ≡ some p)
      × (inode_invalid before (sizeof_bch_inode + length p.fields) p ≡ ok)
unfolding pack unpack WellFormed inode_invalid
inode_invalid-pack before u h hi hash =
    let (result, done, small, reads) = packed_fields before (fields_of u) h refl in
    let flags = set_inode_nr_fields u.i_flags result.1 in
    let p : Packed = record {
      offset = 0;
      inode = u.inum;
      type = bch_inode_fs;
      hash_seed = u.i_hash_seed;
      flags = flags;
      mode = u.i_mode;
      fields = pad_to_u64 result.0;
    } in
    let size : ltb (sizeof_bch_inode + length (pad_to_u64 result.0)) sizeof_bch_inode ≡ false =
      ground arith in
    let range : ltb u.inum blockdev_inode_max ≡ false = ground arith in
    let known : leb 3 (inode_str_hash flags) ≡ false =
      ground (arith, inode_str_hash-set u.i_flags result.1 small) in
    let unpacks : is_none (unpack before p) ≡ false =
      rw (inode_nr_fields-set u.i_flags result.1 small, reads, unpack) refl in
    (p, rw (done, pack) refl, rw (size, range, known, unpacks, inode_invalid) refl)
