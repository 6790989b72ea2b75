-- ===== src/Inode/Packing.antt =====
-- `bch_inode_unpack` after `bch_inode_pack`, libbcache/inode.c.
use native.Mathlib.Nat.{mod-eq_of_lt}
use mathlib.Core.Path.{subst}
use bcache_tools.Inode.Listed.{InWidths, Restores, Packs, pack_fields-Packs, unpack_fields-cleared}
use bcache_tools.Base.{
  List, [], ap, arith, bit_and, bit_or, inl, inr, length, refl, replicate, shl, shr, some, sym, u32,
  ℕ, ◌+◌, ◌-◌, ◌<◌, ◌^◌, ◌∙◌, ◌≡◌,
}
use bcache_tools.Base.Bits.{bit_and-low_mask, bit_or-shl}
use bcache_tools.Inode.Record.{
  Packed, Unpacked, bch_inode_fs, fields_of, inode_nr_fields, pack, pack_fields, pad_to_u64,
  padding, set_inode_nr_fields, unpack, unpack_fields, widths,
}

-- The count of the packed fields is read back from the flags.
pub inode_nr_fields-set :
    (flags nr : ℕ) → nr < 2 ^ 8 → inode_nr_fields (set_inode_nr_fields flags nr) ≡ nr
inode_nr_fields-set flags nr h =
    let low = bit_and flags (2 ^ 24 - 1) in
    let small : low < 2 ^ 24 = omega (arith, bit_and-low_mask 24 flags) in
    let same : bit_and nr (2 ^ 8 - 1) ≡ nr = bit_and-low_mask 8 nr ∙ mod-eq_of_lt h in
    let joined : bit_or low (shl nr 24) ≡ low + shl nr 24 = bit_or-shl 24 low nr small in
    rw (same, joined) (bit_and-low_mask 8 (shr (u32 (low + shl nr 24)) 24) ∙ omega arith)

unfoldable pub WellFormed : Unpacked → Type 0
WellFormed u = InWidths widths (fields_of u)

-- The value of the packed inode, with its padding, is read back.
pub packed_fields :
    (before : ℕ) (fs : List ℕ)
    → InWidths widths fs
    → length fs ≡ 11
    → (result : List ℕ × ℕ) × (pack_fields fs [] 0 [] 0 ≡ some result)
      × (result.1 < 2 ^ 8)
      × (unpack_fields widths result.1 0 before (pad_to_u64 result.0) ≡ some fs)
unfolding Packs Restores
packed_fields before fs h len =
    let (result, done, packs) = pack_fields-Packs widths fs [] 0 [] 0 h (omega arith) in
    let Reads : List ℕ × ℕ → Type 0 =
      λ r. (r.1 < 2 ^ 8) × (unpack_fields widths r.1 0 before (pad_to_u64 r.0) ≡ some fs) in
    let both : Reads result = elim packs [
      | inl (zeros, same) ↦
          subst Reads (sym same) (
            omega arith,
            unpack_fields-cleared widths 0 before (pad_to_u64 []) ∙ ap some (sym zeros),
          )
      | inr (more, j, same, hj, le, restores) ↦
          let none_before : 0 + j ≡ j = omega arith in
          subst Reads (sym same)
            (omega arith, restores before 0 (replicate (padding (length more)) 0))
    ] in
    (result, done, both.0, both.1)

-- An inode whose fields fit their widths is packed, and unpacking what was packed, wherever it lies,
-- gives the inode back, with the number of the packed fields in its flags.
pub unpack-pack :
    (before : ℕ) (u : Unpacked)
    → WellFormed u
    → (p : Packed) × (pack u ≡ some p)
      × (unpack before p
          ≡ some (record u { i_flags = set_inode_nr_fields u.i_flags (inode_nr_fields p.flags) }))
unfolding pack unpack WellFormed
unpack-pack before u h =
    let (result, done, small, reads) = packed_fields before (fields_of u) h refl in
    let p : Packed = record {
      offset = 0;
      inode = u.inum;
      type = bch_inode_fs;
      hash_seed = u.i_hash_seed;
      flags = set_inode_nr_fields u.i_flags result.1;
      mode = u.i_mode;
      fields = pad_to_u64 result.0;
    } in
    (p, rw (done, pack) refl, rw (inode_nr_fields-set u.i_flags result.1 small, reads, unpack) refl)
