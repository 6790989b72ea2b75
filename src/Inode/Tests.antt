-- ===== src/Inode/Tests.antt =====
-- Runs of the code of libbcache/inode.c, and the theorems at these.
use bcache_tools.Base.Fls.{fls64}
use bcache_tools.Base.{[], arith, length, refl, some, ◌+◌, ◌^◌, ◌∷◌, ◌≡◌}
use bcache_tools.Inode.{encode_field, find_shift}
use bcache_tools.Inode.Record.{
  Packed, Unpacked, inode_invalid, inode_nr_fields, ok, pack, set_inode_nr_fields, sizeof_bch_inode,
  unpack,
}
use bcache_tools.Inode.Listed.{InWidths}
use bcache_tools.Inode.Packing.{WellFormed, unpack-pack}
use bcache_tools.Inode.Valid.{inode_invalid-pack}

encode_three_bytes : encode_field 158 1000 0 ≡ some (67 ∷ 232 ∷ [])
unfolding encode_field find_shift fls64
encode_three_bytes = refl

abbrev a_file : Unpacked
a_file = record {
  inum = 4097;
  i_hash_seed = 99;
  i_flags = 2 ^ 21 + 3;
  i_mode = 420;
  i_atime = 1000;
  i_ctime = 2 ^ 60;
  i_mtime = 0;
  i_otime = 5;
  i_size = 4096;
  i_sectors = 8;
  i_uid = 1000;
  i_gid = 0;
  i_nlink = 1;
  i_generation = 0;
  i_dev = 0;
}

a_file-WellFormed : WellFormed a_file
unfolding WellFormed InWidths
a_file-WellFormed = ground arith

unpack-pack_example :
    (p : Packed) × (pack a_file ≡ some p)
    × (unpack 7 p
        ≡ some (record a_file {
          i_flags = set_inode_nr_fields a_file.i_flags (inode_nr_fields p.flags);
        }))
unpack-pack_example = unpack-pack 7 a_file a_file-WellFormed

inode_invalid-pack_example :
    (p : Packed) × (pack a_file ≡ some p)
    × (inode_invalid 7 (sizeof_bch_inode + length p.fields) p ≡ ok)
inode_invalid-pack_example =
    inode_invalid-pack 7 a_file a_file-WellFormed (omega arith) (omega arith)
