-- ===== src/Extents/Tests.antt =====
-- Runs of libbcache/extents.c on small extents, and the theorems at these.
use bcache_tools.Extents.Cmpxchg.{cmpxchg_cmp, entry_at, ptrs_moved}
use bcache_tools.Extents.CmpxchgReads.{AllPtrs, cmpxchg_cmp-cut_crc, cmpxchg_cmp-reads}
use bcache_tools.Extents.CrcReads.{KnownTypes, narrow_crcs-places}
use bcache_tools.Extents.Crcs.{drop_crcs, drop_redundant_crcs, narrow_crcs, narrow_each}
use bcache_tools.Extents.DropReads.{IsReduced, drop_redundant_crcs-places}
use bcache_tools.Bkey.Current.{
  bkey_format_current, bkey_format_current-IsFormat, bkey_format_current-packs,
}
use bcache_tools.Bkey.Layout.{IsKey}
use bcache_tools.Extents.Saved.{Stored}
use bcache_tools.Extents.Squash.{Squashed, extent_squash}
use bcache_tools.Extents.SquashReads.{SquashReads, extent_squash-reads}
use bcache_tools.Base.{Bool, List, [], arith, false, none, refl, some, true, ℕ, ◌+◌, ◌∷◌, ◌≡◌}
use bcache_tools.Bkey.Order.{bkey_cmp, cmp_then}
use bcache_tools.Bkey.Key.{Bkey, Bpos, bkey_u64s}
use bcache_tools.Extents.{Crc, Entry, crc32, entries_u64s, of_crc, of_ptr}
use bcache_tools.Extents.Cut.{
  KeyValue, bch_extent, cut_back, cut_front, extent_overlap, last_sectors, overlap_middle,
}
use bcache_tools.Extents.Merge.{Merge, entries_follow, extent_merge, merged, resized, values_follow}
use bcache_tools.Extents.Reads.{Roomy, places}
use bcache_tools.Extents.CutReads.{CutBack, CutFront, cut_parts, reads}
use bcache_tools.Extents.MergeReads.{IsExtent, MergeReads, extent_merge-reads}

abbrev ptr : ℕ → Entry
ptr offset =
    of_ptr (record { cached = false; reservation = false; offset = offset; dev = 1; gen = 3 })

-- A crc of 16 sectors, with the checksum type and the offset.
abbrev crc : ℕ → ℕ → Crc
crc csum_type offset = record {
  kind = crc32;
  compressed_size = 15;
  uncompressed_size = 15;
  offset = offset;
  nonce = 0;
  csum_type = csum_type;
  compression_type = 0;
  csum_lo = 99;
  csum_hi = 0;
}

-- An extent of 8 sectors that ends at the sector `end` of a file.
abbrev extent : ℕ → List Entry → KeyValue
extent end entries = record {
  k = record {
    u64s = bkey_u64s + entries_u64s entries;
    format = 1;
    needs_whiteout = 0;
    kind = bch_extent;
    version = record { hi = 0; lo = 0 };
    size = 8;
    p = record { inode = 4096; offset = end; snapshot = 0 };
  };
  entries = entries;
  generation = 0;
  nr_replicas = 0;
  cookie = 0;
}

abbrev plain_extent : KeyValue
plain_extent = extent 24 (ptr 1024 ∷ [])

abbrev next_extent : KeyValue
next_extent = extent 32 (ptr 1032 ∷ [])

abbrev summed_extent : KeyValue
summed_extent = extent 24 (of_crc (crc 1 4) ∷ ptr 1024 ∷ [])

abbrev twenty : Bpos
twenty = record { inode = 4096; offset = 20; snapshot = 0 }

plain-IsExtent : IsExtent plain_extent
unfolding Roomy
plain-IsExtent = record {
  range = record { fits = omega arith; end = omega arith; narrow = omega arith };
  kind = refl;
  u64s = refl;
  roomy = (omega arith, tt);
}

next-IsExtent : IsExtent next_extent
unfolding Roomy
next-IsExtent = record {
  range = record { fits = omega arith; end = omega arith; narrow = omega arith };
  kind = refl;
  u64s = refl;
  roomy = (omega arith, tt);
}

summed-IsExtent : IsExtent summed_extent
unfolding Roomy
summed-IsExtent = record {
  range = record { fits = omega arith; end = omega arith; narrow = omega arith };
  kind = refl;
  u64s = refl;
  roomy = (omega arith, (omega arith, tt));
}

cut_parts_example :
    ((v' : KeyValue) × (cut : Bool) × (cut_front twenty summed_extent ≡ some (v', cut))
      × CutFront twenty summed_extent v')
    × ((k' : Bkey) × (cut : Bool) × (cut_back twenty summed_extent.k ≡ some (k', cut))
        × CutBack twenty summed_extent.k k')
cut_parts_example =
    cut_parts twenty summed_extent summed-IsExtent.range
      (record { inode = refl; snapshot = refl; low = omega arith; high = omega arith }) refl
      summed-IsExtent.roomy

-- Buckets of 512 sectors.
abbrev buckets : ℕ → ℕ
buckets dev = 512

extent_merge-reads_example :
    (m : Merge) × (extent_merge buckets false plain_extent next_extent ≡ some m)
    × MergeReads plain_extent next_extent m
extent_merge-reads_example =
    extent_merge-reads buckets false plain_extent next_extent plain-IsExtent next-IsExtent

-- These are merged.
extent_merge-next :
    extent_merge buckets false plain_extent next_extent ≡ some (merged (resized plain_extent 16))
unfolding extent_merge values_follow entries_follow bkey_cmp cmp_then
extent_merge-next = refl

-- What is left of the first after a cut.
abbrev part : KeyValue
part = last_sectors 4 plain_extent

part-IsExtent : IsExtent part
unfolding Roomy
part-IsExtent = record {
  range = record { fits = omega arith; end = omega arith; narrow = omega arith };
  kind = refl;
  u64s = refl;
  roomy = (omega arith, tt);
}

cmpxchg_cmp-part : cmpxchg_cmp part plain_extent ≡ some true
unfolding cmpxchg_cmp ptrs_moved entry_at
cmpxchg_cmp-part = refl

cmpxchg_cmp-reads_example : reads part 21 ≡ reads plain_extent 21
unfolding AllPtrs
cmpxchg_cmp-reads_example =
    cmpxchg_cmp-reads part plain_extent 21 part-IsExtent plain-IsExtent tt tt cmpxchg_cmp-part
      (omega arith) (omega arith) (omega arith) (omega arith)

cmpxchg_cmp-cut_crc_example : cmpxchg_cmp (last_sectors 4 summed_extent) summed_extent ≡ some false
cmpxchg_cmp-cut_crc_example =
    cmpxchg_cmp-cut_crc twenty summed_extent (crc 1 4)
      (record { cached = false; reservation = false; offset = 1024; dev = 1; gen = 3 }) []
      summed-IsExtent refl (omega arith) (omega arith)

-- Two crcs that say nothing: the first is null, and the last is the one before it again.
abbrev redundant : List Entry
redundant =
    of_crc (crc 0 4) ∷ ptr 1024 ∷ of_crc (crc 1 0) ∷ ptr 2048 ∷ of_crc (crc 1 0) ∷ ptr 3072 ∷ []

redundant-Roomy : Roomy 0 8 redundant
unfolding Roomy
redundant-Roomy =
    (omega arith, (omega arith, (omega arith, (omega arith, (omega arith, (omega arith, tt))))))

drop_redundant_crcs-redundant :
    drop_redundant_crcs redundant ≡ ptr 1028 ∷ of_crc (crc 1 0) ∷ ptr 2048 ∷ ptr 3072 ∷ []
unfolding drop_redundant_crcs drop_crcs
drop_redundant_crcs-redundant = refl

drop_redundant_crcs-places_example :
    (places none (drop_redundant_crcs redundant) 5 ≡ places none redundant 5)
    × IsReduced none (drop_redundant_crcs redundant)
drop_redundant_crcs-places_example =
    drop_redundant_crcs-places 8 5 redundant (omega arith) redundant-Roomy

-- A crc of just the 8 sectors.
abbrev live_crc : Crc
live_crc = record {
  kind = crc32;
  compressed_size = 7;
  uncompressed_size = 7;
  offset = 0;
  nonce = 0;
  csum_type = 1;
  compression_type = 0;
  csum_lo = 77;
  csum_hi = 0;
}

abbrev wide : List Entry
wide = of_crc (crc 1 4) ∷ ptr 1024 ∷ of_crc live_crc ∷ ptr 2048 ∷ []

narrow_crcs-wide :
    narrow_crcs 8 wide ≡ some (of_crc live_crc ∷ ptr 1028 ∷ of_crc live_crc ∷ ptr 2048 ∷ [])
unfolding narrow_crcs narrow_each
narrow_crcs-wide = refl

wide-Roomy : Roomy 0 8 wide
unfolding Roomy
wide-Roomy = (omega arith, (omega arith, (omega arith, (omega arith, tt))))

narrow_crcs-places_example :
    (es : List Entry) × (narrow_crcs 8 wide ≡ some es) × (places none es 5 ≡ places none wide 5)
unfolding KnownTypes
narrow_crcs-places_example =
    narrow_crcs-places 8 5 wide (omega arith) wide-Roomy (omega arith, (omega arith, tt))

-- An encrypted crc that is wide is narrowed too, with the checksum type of the other.
narrow_crcs-encrypted :
    narrow_crcs 8 (of_crc (crc 3 4) ∷ ptr 1024 ∷ wide)
    ≡ some
        (of_crc live_crc ∷ ptr 1028 ∷ of_crc live_crc ∷ ptr 1028 ∷ of_crc live_crc ∷ ptr 2048 ∷ [])
unfolding narrow_crcs narrow_each
narrow_crcs-encrypted = refl

-- Two sectors in the middle of the first extent.
abbrev middle : Bkey
middle = record {
  u64s = bkey_u64s;
  format = 1;
  needs_whiteout = 0;
  kind = bch_extent;
  version = record { hi = 0; lo = 0 };
  size = 2;
  p = twenty;
}

plain-IsKey : IsKey plain_extent.k
plain-IsKey = record {
  u64s = omega arith;
  format = refl;
  needs_whiteout = omega arith;
  kind = omega arith;
  hi = omega arith;
  lo = omega arith;
  size = omega arith;
  inode = omega arith;
  offset = omega arith;
  snapshot = omega arith;
}

-- The old extent is packed, in the format of unpacked keys.
plain-Stored : Stored (some bkey_format_current) plain_extent.k
unfolding Stored
plain-Stored =
    let (ws, e) = bkey_format_current-packs plain_extent.k plain-IsKey in
    (bkey_format_current-IsFormat, plain-IsKey, refl, ws, e)

extent_squash-reads_example :
    (q : Squashed) × (extent_squash
        (some bkey_format_current)
        1
        middle
        plain_extent
        (extent_overlap middle plain_extent.k)
      ≡ some q)
    × SquashReads middle plain_extent q
extent_squash-reads_example =
    extent_squash-reads middle plain_extent
      (record { fits = omega arith; end = omega arith; narrow = omega arith }) plain-IsExtent.range
      refl plain-IsExtent.roomy
      (record { inode = refl; snapshot = refl; low = omega arith; high = omega arith })
      (some bkey_format_current) 1 plain-Stored

-- The new extent falls in the middle of the old.
extent_overlap-middle : extent_overlap middle plain_extent.k ≡ overlap_middle
unfolding extent_overlap bkey_cmp cmp_then
extent_overlap-middle = refl
