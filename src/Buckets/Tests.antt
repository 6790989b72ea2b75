-- ===== src/Buckets/Tests.antt =====
-- The theorems on bucket marks at a concrete device.
use bcache_tools.Buckets.Marked.{AllCounted, mark_key-AllCounted}
use bcache_tools.Buckets.Extent.{
  Call, Devs, FsUsage, Key, count_sectors, extent, gen_after, mark_key, mark_pointer, int_sectors,
  mark_pointer_at, mark_ptrs, plus, pointer_mark, retyped, s_dirty, saturated, saturated_add,
}
use bcache_tools.Base.{
  Bool-cases, [], arith, false, inl, inr, none, refl, some, true, ◌+◌, ◌-◌, ◌/◌, ◌<◌, ◌==◌, ◌^◌,
  ◌∷◌, ◌≡◌, ◌≤◌,
}
use mathlib.Core.Path.{subst}
use mathlib.Core.Option.{some-injective}
use bcache_tools.Base.Family.{assign, total}
use bcache_tools.Buckets.{
  Dev, DevUsage, Mark, is_available_bucket, mark_alloc_bucket, mark_set, stats_update, to_nat, user,
}
use bcache_tools.Buckets.Counts.{IsCounted, alloc, apply-IsCounted}
use bcache_tools.Buckets.Available.{buckets_available, buckets_available-le}

abbrev empty : Mark
empty = record {
  gen = 0;
  copygc = false;
  journal_seq_valid = false;
  had_metadata = false;
  owned_by_allocator = false;
  data_type = user;
  nouse = false;
  dirty_sectors = 0;
  cached_sectors = 0;
  journal_seq = 0;
}

abbrev no_usage : DevUsage
no_usage = record {
  buckets_dirty = 0;
  buckets_cached = 0;
  buckets_meta = 0;
  buckets_alloc = 0;
  sectors_dirty = 0;
  sectors_cached = 0;
  sectors_meta = 0;
}

-- Two buckets of 16 sectors.
abbrev blank : Dev
blank = record {
  marks = λ _. empty;
  usage = no_usage;
  first_bucket = 0;
  nbuckets = 2;
  bucket_bits = 4;
  saturated_count = 0;
}

blank-IsCounted : IsCounted 2 blank
unfolding total
blank-IsCounted = record {
  marks = λ g. omega arith;
  buckets_dirty = refl;
  buckets_cached = refl;
  buckets_meta = refl;
  buckets_alloc = refl;
  sectors_dirty = refl;
  sectors_cached = refl;
  sectors_meta = refl;
}

apply-IsCounted_example : IsCounted 2 (mark_alloc_bucket blank 1 true)
apply-IsCounted_example = apply-IsCounted (alloc 1 true) blank (omega arith) blank-IsCounted refl

buckets_available-le_example :
    buckets_available blank
    ≤ total (λ m. to_nat (is_available_bucket m)) 2 blank.marks
      + total (λ m. to_nat m.nouse) 2 blank.marks
      - 0
buckets_available-le_example =
    buckets_available-le blank blank-IsCounted (omega arith) (omega arith)

abbrev one_dev : Devs
one_dev = assign (λ _. none) 3 (some blank)

abbrev no_stats : FsUsage
no_stats = record {
  compressed = λ _. 0;
  uncompressed = λ _. 0;
  persistent_reserved = 0;
  online_reserved = 0;
  available_cache = 0;
}

abbrev call : Call
call = record { done = true; may = true; visit = false; seq = 7 }

-- An extent of 8 sectors with a pointer into bucket 1 of device 3.
abbrev key : Key
key = extent false (record { cached = false; offset = 20; dev = 3; gen = 0 } ∷ [])

one_dev-AllCounted : AllCounted one_dev
one_dev-AllCounted d ca e = elim (Bool-cases (d == 3)) [
  | inl q ↦ subst (λ x. IsCounted x.nbuckets x) (some-injective _ _ (rw q at e)) blank-IsCounted
  | inr q ↦ ground arith
]

-- Bucket 1 now has 8 dirty sectors, and the counters of the device say so.
abbrev marked : Devs × FsUsage
marked = (
  assign one_dev 3 (some (mark_set blank 1 (record empty { dirty_sectors = 8 }))),
  count_sectors s_dirty (plus 8) no_stats,
)

mark_key-marked : mark_key call key (plus 8) false (one_dev, no_stats) ≡ some marked
unfolding mark_key mark_ptrs mark_pointer mark_pointer_at gen_after int_sectors pointer_mark
    saturated_add retyped saturated stats_update
mark_key-marked = refl

mark_key-AllCounted_example : AllCounted marked.0
mark_key-AllCounted_example =
    mark_key-AllCounted call key (plus 8) false (one_dev, no_stats) marked one_dev-AllCounted
      (
        λ ca e.
            subst (λ x. 20 / 2 ^ x.bucket_bits < x.nbuckets) (some-injective _ _ e) (omega arith),
        tt,
      )
      mark_key-marked
