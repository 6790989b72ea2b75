-- ===== src/Buckets.antt =====
-- libbcache/buckets.c, buckets.h and buckets_types.h: bucket marks and the usage counters of a device.
-- A compare-and-exchange loop is one atomic step. `BUG_ON` panics: such an operation is `none`.
pub mod Counts
mod Extent
pub mod Pointer
pub mod Marked
pub mod Available
mod Tests
use bcache_tools.Base.{
  Bool, Option, false, if◌then◌else◌, none, not, some, true, u64, u8, ℕ, ◌&&◌, ◌+◌, ◌-◌, ◌==◌, ◌^◌,
  ◌||◌,
}
use bcache_tools.Base.Family.{assign}

-- `enum bucket_data_type`
pub data BucketType : Type 0 where
  user btree prios journal sb : BucketType

-- `struct bucket_mark`, field by field.
pub record Mark : Type 0 where
  pub gen : ℕ  -- u8
  pub copygc : Bool
  pub journal_seq_valid : Bool
  pub had_metadata : Bool
  pub owned_by_allocator : Bool
  pub data_type : BucketType
  pub nouse : Bool
  pub dirty_sectors : ℕ  -- u16
  pub cached_sectors : ℕ  -- u16
  pub journal_seq : ℕ  -- u16

-- `struct bch_dev_usage`; each counter is a u64.
pub record DevUsage : Type 0 where
  pub buckets_dirty : ℕ
  pub buckets_cached : ℕ
  pub buckets_meta : ℕ
  pub buckets_alloc : ℕ
  pub sectors_dirty : ℕ
  pub sectors_cached : ℕ
  pub sectors_meta : ℕ

-- `x += a - b` on a u64, for a and b of a narrower type
abbrev pub shift : ℕ → ℕ → ℕ → ℕ
shift x a b = u64 (x + a + 2 ^ 64 - b)

abbrev pub to_nat : Bool → ℕ
to_nat true = 1
to_nat false = 0

abbrev pub is_user : BucketType → Bool
is_user user = true
is_user _ = false

abbrev pub is_meta_bucket : Mark → Bool
is_meta_bucket m = not (is_user m.data_type)

abbrev pub is_dirty_bucket : Mark → Bool
is_dirty_bucket m = is_user m.data_type && not (m.dirty_sectors == 0)

abbrev pub is_cached_bucket : Mark → Bool
is_cached_bucket m = is_user m.data_type && m.dirty_sectors == 0 && not (m.cached_sectors == 0)

abbrev pub is_available_bucket : Mark → Bool
is_available_bucket m =
    not m.owned_by_allocator && is_user m.data_type && m.dirty_sectors == 0 && not m.nouse

-- The sectors that a mark adds to `sectors_meta` and to `sectors_dirty`.
abbrev pub meta_sectors : Mark → ℕ
meta_sectors m = if is_meta_bucket m then m.dirty_sectors else 0

abbrev pub user_sectors : Mark → ℕ
user_sectors m = if is_meta_bucket m then 0 else m.dirty_sectors

-- `bucket_stats_update` on the counters of the device. Each of the two tests of `is_meta_bucket`
-- picks the counter that its statement changes; the other is left alone.
pub stats_update : Mark → Mark → DevUsage → DevUsage
stats_update old new d =
    let sub_meta =
      if is_meta_bucket old
      then u64 (d.sectors_meta + 2 ^ 64 - old.dirty_sectors)
      else d.sectors_meta in
    let sub_dirty =
      if is_meta_bucket old
      then d.sectors_dirty
      else u64 (d.sectors_dirty + 2 ^ 64 - old.dirty_sectors) in
    record {
      sectors_cached = shift d.sectors_cached new.cached_sectors old.cached_sectors;
      sectors_meta = if is_meta_bucket new then u64 (sub_meta + new.dirty_sectors) else sub_meta;
      sectors_dirty = if is_meta_bucket new then sub_dirty else u64 (sub_dirty + new.dirty_sectors);
      buckets_alloc =
          shift d.buckets_alloc (to_nat new.owned_by_allocator) (to_nat old.owned_by_allocator);
      buckets_meta =
          shift d.buckets_meta (to_nat (is_meta_bucket new)) (to_nat (is_meta_bucket old));
      buckets_cached =
          shift d.buckets_cached (to_nat (is_cached_bucket new)) (to_nat (is_cached_bucket old));
      buckets_dirty =
          shift d.buckets_dirty (to_nat (is_dirty_bucket new)) (to_nat (is_dirty_bucket old));
    }

-- `struct cache`, as far as buckets.c reads it. `usage` is what `bucket_stats_read_raw` sums up.
pub record Dev : Type 0 where
  pub marks : ℕ → Mark
  pub usage : DevUsage
  pub first_bucket : ℕ
  pub nbuckets : ℕ
  pub bucket_bits : ℕ
  pub saturated_count : ℕ

-- The store of a new mark, with the counters updated.
abbrev pub mark_set : Dev → ℕ → Mark → Dev
mark_set ca g new = record ca {
  marks = assign ca.marks g new;
  usage = stats_update (ca.marks g) new ca.usage;
}

-- The `bch_became_unavailable` of the old and the new mark; `done` is `gc_pos.phase == GC_PHASE_DONE`.
abbrev pub became_unavailable : Bool → Mark → Mark → Bool
became_unavailable done old new = is_available_bucket old && not (is_available_bucket new) && done

abbrev pub invalidated : Mark → Mark
invalidated m = record m {
  owned_by_allocator = true;
  had_metadata = false;
  data_type = user;
  cached_sectors = 0;
  dirty_sectors = 0;
  copygc = false;
  gen = u8 (m.gen + 1);
}

-- `BUG_ON(old.dirty_sectors)`. The second check, that only the cached count of the file system's
-- statistics changed, follows from it.
pub invalidate_bucket : Dev → ℕ → Option Dev
invalidate_bucket ca g =
    if (ca.marks g).dirty_sectors == 0
    then some (mark_set ca g (invalidated (ca.marks g)))
    else none

abbrev pub freed : Mark → Mark
freed m = record m {
  owned_by_allocator = false;
  data_type = user;
  cached_sectors = 0;
  dirty_sectors = 0;
}

pub mark_free_bucket : Bool → Dev → ℕ → Option Dev
mark_free_bucket done ca g =
    if became_unavailable done (ca.marks g) (freed (ca.marks g))
    then none
    else some (mark_set ca g (freed (ca.marks g)))

pub mark_alloc_bucket : Dev → ℕ → Bool → Dev
mark_alloc_bucket ca g owned = mark_set ca g (record (ca.marks g) { owned_by_allocator = owned })

pub mark_metadata_bucket : Bool → Dev → ℕ → BucketType → Bool → Option Dev
mark_metadata_bucket done ca g type may =
    let old = ca.marks g in
    let new = record old { data_type = type; had_metadata = true } in
    if is_user type
      || not (old.cached_sectors == 0)
      || not (old.dirty_sectors == 0)
      || (not may && became_unavailable done old new)
    then none
    else some (mark_set ca g new)
