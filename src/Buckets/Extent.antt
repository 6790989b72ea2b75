-- ===== src/Buckets/Extent.antt =====
-- Marking the pointers of an extent, and whole keys: `bch_mark_pointer` to `__bch_mark_key` of
-- libbcache/buckets.c.
use bcache_tools.Base.{
  Bool, List, Option, [], false, if◌then◌else◌, leb, ltb, none, not, some, suc, true, u16, u32, u64,
  u8, zero, ℕ, ◌&&◌, ◌*◌, ◌+◌, ◌-◌, ◌/◌, ◌==◌, ◌^◌, ◌||◌, ◌∷◌,
}
use bcache_tools.Base.Family.{assign}
use bcache_tools.Buckets.{
  BucketType, Dev, Mark, became_unavailable, btree, is_meta_bucket, mark_set, user,
}

-- An `s64` number of sectors: how many are added, or how many taken away.
pub data Delta : Type 0 where
  plus minus : ℕ → Delta

abbrev pub gc_max_sectors_used : ℕ
gc_max_sectors_used = 2 ^ 15 - 1

-- `saturated_add`, in the arithmetic of `int`: a sum below 0 is a BUG, `none`, and so is one past its
-- range, which wraps to below 0.
unfoldable pub saturated_add : ℕ → Delta → Option ℕ
saturated_add dst (plus n) =
    if leb (2 ^ 31) (dst + n)
    then none
    else some (
        if dst == gc_max_sectors_used
        then dst
        else if leb (dst + n) gc_max_sectors_used
        then dst + n
        else gc_max_sectors_used)
saturated_add dst (minus n) =
    if ltb dst n
    then none
    else some (
        if dst == gc_max_sectors_used
        then dst
        else if leb (dst - n) gc_max_sectors_used
        then dst - n
        else gc_max_sectors_used)

-- `disk_sectors` and `compressed_sectors`: the difference of two `unsigned`, as an `int`.
unfoldable pub int_sectors : Delta → Delta
int_sectors (plus n) = if ltb (u32 n) (2 ^ 31) then plus (u32 n) else minus (2 ^ 32 - u32 n)
int_sectors (minus n) = if leb (u32 n) (2 ^ 31) then minus (u32 n) else plus (2 ^ 32 - u32 n)

-- `enum s_alloc`
pub data Alloc : Type 0 where
  s_meta s_dirty s_cached : Alloc

abbrev pub is_s_cached : Alloc → Bool
is_s_cached s_cached = true
is_s_cached _ = false

abbrev pub alloc_type : Alloc → BucketType
alloc_type s_meta = btree
alloc_type _ = user

-- `__gen_after` and `gen_after`; the latter is `none` where it BUGs.
unfoldable pub gen_after_or_zero : ℕ → ℕ → ℕ
gen_after_or_zero a b = let r = u8 (a + 2 ^ 8 - b) in if ltb 128 r then 0 else r

unfoldable pub gen_after : ℕ → ℕ → Option ℕ
gen_after a b = let r = u8 (a + 2 ^ 8 - b) in if ltb 128 r then none else some r

-- The end of the exchange loop of `bch_mark_pointer`: the data type, the journal sequence number, and
-- `had_metadata`, from the new sector counts.
unfoldable pub retyped : Alloc → ℕ → Mark → Mark
retyped type seq m =
    let m' =
      if m.dirty_sectors == 0 && m.cached_sectors == 0
      then (if seq == 0
          then record m { data_type = user }
          else record m { data_type = user; journal_seq_valid = true; journal_seq = u16 seq })
      else record m { data_type = alloc_type type } in
    record m' { had_metadata = m'.had_metadata || is_meta_bucket m' }

-- The sector count that a pointer of each type is counted in.
abbrev pub sectors_of : Alloc → Mark → ℕ
sectors_of s_cached m = m.cached_sectors
sectors_of _ m = m.dirty_sectors

abbrev pub with_sectors : Alloc → ℕ → Mark → Mark
with_sectors s_cached n m = record m { cached_sectors = n }
with_sectors _ n m = record m { dirty_sectors = n }

-- The new mark of the exchange loop.
unfoldable pub pointer_mark : Alloc → Delta → ℕ → Mark → Option Mark
pointer_mark type change seq m = elim (saturated_add (sectors_of type m) change) [
  | none ↦ none
  | some n ↦ some (retyped type seq (with_sectors type n m))
]

-- What is taken from a saturated count, and so cannot be counted.
unfoldable pub saturated : Alloc → Delta → Mark → ℕ
saturated s_cached change m = 0
saturated type (plus n) m = 0
saturated type (minus n) m = if m.dirty_sectors == gc_max_sectors_used then n else 0

-- `struct bch_extent_ptr`
pub record Ptr : Type 0 where
  pub cached : Bool
  pub offset : ℕ
  pub dev : ℕ
  pub gen : ℕ

-- `struct bch_fs_usage`: `s[S_COMPRESSED][…]`, `s[S_UNCOMPRESSED][…]` and the reservations, as u64.
pub record FsUsage : Type 0 where
  pub compressed : Alloc → ℕ
  pub uncompressed : Alloc → ℕ
  pub persistent_reserved : ℕ
  pub online_reserved : ℕ
  pub available_cache : ℕ

abbrev pub add_delta : ℕ → Delta → ℕ
add_delta x (plus n) = u64 (x + n)
add_delta x (minus n) = u64 (x + 2 ^ 64 - n)

abbrev pub alloc_eq : Alloc → Alloc → Bool
alloc_eq s_meta s_meta = true
alloc_eq s_dirty s_dirty = true
alloc_eq s_cached s_cached = true
alloc_eq _ _ = false

-- The statements under `out:`. With compression's accounting reverted (`#if 0`), both counts move
-- by the number of sectors, the first by what an `int` holds of it.
abbrev pub count_sectors : Alloc → Delta → FsUsage → FsUsage
count_sectors type change s = record s {
  compressed = λ t.
      if alloc_eq t type then add_delta (s.compressed t) (int_sectors change) else s.compressed t;
  uncompressed =
      λ t. if alloc_eq t type then add_delta (s.uncompressed t) change else s.uncompressed t;
}

-- How a call of `bch_mark_pointer` is made: `done` is `GC_PHASE_DONE`, `visit` is `gc_will_visit`.
pub record Call : Type 0 where
  pub done : Bool
  pub may : Bool
  pub visit : Bool
  pub seq : ℕ

-- `bch_mark_pointer` on an online device; for one that is not there see `mark_pointer`.
unfoldable pub mark_pointer_at : Call → Ptr → Alloc → Delta → Dev → FsUsage → Option (Dev × FsUsage)
mark_pointer_at c ptr type change ca stats =
    let g = ptr.offset / 2 ^ ca.bucket_bits in
    let old = ca.marks g in
    if c.visit
    then some (
      if c.seq == 0
          then ca
          else record ca { marks = assign ca.marks g (record old { journal_seq = u16 c.seq }) },
      count_sectors type change stats,
    )
    else elim (gen_after old.gen ptr.gen) [
      | none ↦ none
      | some (suc _) ↦ some (ca, stats)
      | some zero ↦ elim (pointer_mark type (int_sectors change) c.seq old) [
        | none ↦ none
        | some new ↦
            if not c.may && became_unavailable c.done old new
            then none
            else some (
              record (mark_set ca g new) {
                saturated_count = ca.saturated_count + saturated type (int_sectors change) old;
              },
              count_sectors type change stats,
            )
      ]
    ]

-- The devices of the file system; a slot is empty where the device is offline.
abbrev pub Devs : Type 0
Devs = ℕ → Option Dev

unfoldable pub mark_pointer : Call → Delta → Alloc → Ptr → Devs × FsUsage → Option (Devs × FsUsage)
mark_pointer c change type ptr (devs, stats) = elim (devs ptr.dev) [
  | none ↦ some (devs, count_sectors type change stats)
  | some ca ↦ elim (mark_pointer_at c ptr type change ca stats) [
    | none ↦ none
    | some (ca', stats') ↦ some (assign devs ptr.dev (some ca'), stats')
  ]
]

-- The loop of `bch_mark_extent`, whose `BUG_ON(!sectors)` is the first test of `mark_extent`.
unfoldable pub mark_ptrs :
    Call → Delta → Alloc → List Ptr → Devs × FsUsage → Option (Devs × FsUsage)
mark_ptrs c change type [] s = some s
mark_ptrs c change type (p ∷ ps) s =
    elim (mark_pointer c change (if p.cached then s_cached else type) p s) [
      | none ↦ none
      | some s' ↦ mark_ptrs c change type ps s'
    ]

abbrev pub magnitude : Delta → ℕ
magnitude (plus n) = n
magnitude (minus n) = n

-- The keys that `__bch_mark_key` tells apart.
pub data Key : Type 0 where
  extent : (is_cached : Bool) → List Ptr → Key
  reservation : (nr_replicas : ℕ) → Key
  other : Key

abbrev pub scale : ℕ → Delta → Delta
scale k (plus n) = plus (k * n)
scale k (minus n) = minus (k * n)

unfoldable pub mark_key : Call → Key → Delta → Bool → Devs × FsUsage → Option (Devs × FsUsage)
mark_key c (extent cached ps) change metadata s =
    if (metadata && cached) || magnitude change == 0
    then none
    else mark_ptrs c change (if metadata then s_meta else s_dirty) ps s
mark_key c (reservation k) change metadata (devs, stats) = some (
  devs,
  record stats { persistent_reserved = add_delta stats.persistent_reserved (scale k change) },
)
mark_key c other change metadata s = some s
