-- ===== src/Buckets/Counts.antt =====
-- The counters of a device are a recount of its bucket marks, whatever marks change.
use bcache_tools.Base.{
  Bool, Bool-cases, Option, ap, arith, false, inl, inr, refl, some, sym, true, u64, ℕ, ◌+◌, ◌<◌,
  ◌==◌, ◌^◌, ◌∙◌, ◌≡◌, ◌≤◌,
}
use mathlib.Core.Path.{subst}
use bcache_tools.Base.Family.{assign, total, total-assign, total-assign_same}
use bcache_tools.Buckets.{
  BucketType, Dev, DevUsage, Mark, freed, invalidate_bucket, invalidated, is_cached_bucket,
  is_dirty_bucket, is_meta_bucket, mark_alloc_bucket, mark_free_bucket, mark_metadata_bucket,
  mark_set, meta_sectors, shift, stats_update, to_nat, user_sectors,
}

-- The sector counts fit their fields.
pub record IsMark (m : Mark) : Type 0 where
  pub dirty : m.dirty_sectors < 2 ^ 16
  pub cached : m.cached_sectors < 2 ^ 16

-- Each of the seven counters is the sum over the buckets, as a u64.
pub record IsCounted (n : ℕ) (ca : Dev) : Type 0 where
  pub marks : (g : ℕ) → IsMark (ca.marks g)
  pub buckets_dirty :
      ca.usage.buckets_dirty ≡ u64 (total (λ m. to_nat (is_dirty_bucket m)) n ca.marks)
  pub buckets_cached :
      ca.usage.buckets_cached ≡ u64 (total (λ m. to_nat (is_cached_bucket m)) n ca.marks)
  pub buckets_meta : ca.usage.buckets_meta ≡ u64 (total (λ m. to_nat (is_meta_bucket m)) n ca.marks)
  pub buckets_alloc :
      ca.usage.buckets_alloc ≡ u64 (total (λ m. to_nat m.owned_by_allocator) n ca.marks)
  pub sectors_dirty : ca.usage.sectors_dirty ≡ u64 (total user_sectors n ca.marks)
  pub sectors_cached : ca.usage.sectors_cached ≡ u64 (total (λ m. m.cached_sectors) n ca.marks)
  pub sectors_meta : ca.usage.sectors_meta ≡ u64 (total meta_sectors n ca.marks)

to_nat-le : (b : Bool) → to_nat b ≤ 1
to_nat-le true = omega arith
to_nat-le false = omega arith

recount : (x a b t t' : ℕ) → x ≡ u64 t → b ≤ 2 ^ 64 → a + t ≡ b + t' → shift x a b ≡ u64 t'
recount x a b t t' e h k = omega arith

recount-mark :
    (w : Mark → ℕ) {n g x : ℕ} (marks : ℕ → Mark) (new : Mark)
    → g < n
    → w (marks g) ≤ 2 ^ 64
    → x ≡ u64 (total w n marks)
    → shift x (w new) (w (marks g)) ≡ u64 (total w n (assign marks g new))
recount-mark w {n} {g} {x} marks new lt small e =
    recount x (w new) (w (marks g)) (total w n marks) _ e small (total-assign w marks new lt)

-- The two steps of the code on a sector counter are one shift.
stats_update-sectors :
    (old new : Mark) (d : DevUsage)
    → IsMark old
    → d.sectors_meta < 2 ^ 64
    → d.sectors_dirty < 2 ^ 64
    → ((stats_update old new d).sectors_meta
        ≡ shift d.sectors_meta (meta_sectors new) (meta_sectors old))
      × ((stats_update old new d).sectors_dirty
          ≡ shift d.sectors_dirty (user_sectors new) (user_sectors old))
unfolding stats_update
stats_update-sectors old new d m a b = elim (Bool-cases (is_meta_bucket old)) [
  | inl p ↦ elim (Bool-cases (is_meta_bucket new)) [
    | inl q ↦ rw (p, q) (omega arith, omega arith)
    | inr q ↦ rw (p, q) (omega arith, omega arith)
  ]
  | inr p ↦ elim (Bool-cases (is_meta_bucket new)) [
    | inl q ↦ rw (p, q) (omega arith, omega arith)
    | inr q ↦ rw (p, q) (omega arith, omega arith)
  ]
]

assign-IsMark :
    (marks : ℕ → Mark) (g : ℕ) (new : Mark)
    → ((h : ℕ) → IsMark (marks h))
    → IsMark new
    → (h : ℕ) → IsMark (assign marks g new h)
assign-IsMark marks g new all one h = elim (Bool-cases (h == g)) [
  | inl e ↦ rw e one
  | inr e ↦ rw e (all h)
]

-- A store of a mark together with `bucket_stats_update` keeps the counters a recount.
pub mark_set-IsCounted :
    {n : ℕ} {ca : Dev} (g : ℕ) (new : Mark)
    → g < n
    → IsMark new
    → IsCounted n ca
    → IsCounted n (mark_set ca g new)
unfolding stats_update
mark_set-IsCounted {n} {ca} g new lt m k = record {
  marks = assign-IsMark ca.marks g new k.marks m;
  buckets_dirty =
      recount-mark (λ m. to_nat (is_dirty_bucket m)) ca.marks new lt
        (omega (arith, to_nat-le (is_dirty_bucket (ca.marks g)))) k.buckets_dirty;
  buckets_cached =
      recount-mark (λ m. to_nat (is_cached_bucket m)) ca.marks new lt
        (omega (arith, to_nat-le (is_cached_bucket (ca.marks g)))) k.buckets_cached;
  buckets_meta =
      recount-mark (λ m. to_nat (is_meta_bucket m)) ca.marks new lt
        (omega (arith, to_nat-le (is_meta_bucket (ca.marks g)))) k.buckets_meta;
  buckets_alloc =
      recount-mark (λ m. to_nat m.owned_by_allocator) ca.marks new lt
        (omega (arith, to_nat-le (ca.marks g).owned_by_allocator)) k.buckets_alloc;
  sectors_dirty =
      sectors.1
      ∙ recount-mark user_sectors ca.marks new lt (ground (arith, k.marks g)) k.sectors_dirty;
  sectors_cached =
      recount-mark (λ m. m.cached_sectors) ca.marks new lt (ground (arith, k.marks g))
        k.sectors_cached;
  sectors_meta =
      sectors.0
      ∙ recount-mark meta_sectors ca.marks new lt (ground (arith, k.marks g)) k.sectors_meta;
}
  where
    sectors :
        ((stats_update (ca.marks g) new ca.usage).sectors_meta
          ≡ shift ca.usage.sectors_meta (meta_sectors new) (meta_sectors (ca.marks g)))
        × ((stats_update (ca.marks g) new ca.usage).sectors_dirty
            ≡ shift ca.usage.sectors_dirty (user_sectors new) (user_sectors (ca.marks g)))
    sectors =
        stats_update-sectors (ca.marks g) new ca.usage (k.marks g) (omega (arith, k.sectors_meta))
          (omega (arith, k.sectors_dirty))

-- A change of a mark that no counter looks at.
pub same_counts :
    {n : ℕ} {ca : Dev} (g : ℕ) (seq : ℕ)
    → IsCounted n ca
    → IsCounted n
        (record ca { marks = assign ca.marks g (record (ca.marks g) { journal_seq = seq }) })
same_counts {n} {ca} g seq k = record {
  marks = assign-IsMark ca.marks g _ k.marks (ground (arith, k.marks g));
  buckets_dirty = k.buckets_dirty ∙ same (λ m. to_nat (is_dirty_bucket m)) refl;
  buckets_cached = k.buckets_cached ∙ same (λ m. to_nat (is_cached_bucket m)) refl;
  buckets_meta = k.buckets_meta ∙ same (λ m. to_nat (is_meta_bucket m)) refl;
  buckets_alloc = k.buckets_alloc ∙ same (λ m. to_nat m.owned_by_allocator) refl;
  sectors_dirty = k.sectors_dirty ∙ same user_sectors refl;
  sectors_cached = k.sectors_cached ∙ same (λ m. m.cached_sectors) refl;
  sectors_meta = k.sectors_meta ∙ same meta_sectors refl;
}
  where
    new : Mark
    new = record (ca.marks g) { journal_seq = seq }

    same :
        (w : Mark → ℕ)
        → w new ≡ w (ca.marks g)
        → u64 (total w n ca.marks) ≡ u64 (total w n (assign ca.marks g new))
    same w e = ap u64 (sym (total-assign_same w n ca.marks g new e))

-- The operations of the allocator and of the metadata code.
pub data Op : Type 0 where
  invalidate : (g : ℕ) → Op
  free : (done : Bool) (g : ℕ) → Op
  alloc : (g : ℕ) (owned : Bool) → Op
  metadata : (done : Bool) (g : ℕ) (type : BucketType) (may : Bool) → Op

abbrev pub bucket_of : Op → ℕ
bucket_of (invalidate g) = g
bucket_of (free done g) = g
bucket_of (alloc g owned) = g
bucket_of (metadata done g type may) = g

abbrev pub apply : Op → Dev → Option Dev
apply (invalidate g) ca = invalidate_bucket ca g
apply (free done g) ca = mark_free_bucket done ca g
apply (alloc g owned) ca = some (mark_alloc_bucket ca g owned)
apply (metadata done g type may) ca = mark_metadata_bucket done ca g type may

-- Every operation that returns stores one mark, whose sector counts fit.
apply-mark_set :
    (op : Op) (ca : Dev) {ca' : Dev}
    → ((g : ℕ) → IsMark (ca.marks g))
    → apply op ca ≡ some ca'
    → (new : Mark) × IsMark new × (ca' ≡ mark_set ca (bucket_of op) new)
unfolding invalidate_bucket mark_free_bucket mark_alloc_bucket mark_metadata_bucket
apply-mark_set (invalidate g) ca k e = (invalidated (ca.marks g), omega arith, ground arith)
apply-mark_set (free done g) ca k e = (freed (ca.marks g), omega arith, ground arith)
apply-mark_set (alloc g owned) ca k e =
    (record (ca.marks g) { owned_by_allocator = owned }, ground (arith, k g), ground arith)
apply-mark_set (metadata done g type may) ca k e = (
  record (ca.marks g) { data_type = type; had_metadata = true },
  ground (arith, k g),
  ground arith,
)

-- Every operation on a bucket of the device that returns leaves the seven counters of the device
-- equal to a recount of its bucket marks, if they were so before.
pub apply-IsCounted :
    {n : ℕ} (op : Op) (ca : Dev) {ca' : Dev}
    → bucket_of op < n
    → IsCounted n ca
    → apply op ca ≡ some ca'
    → IsCounted n ca'
apply-IsCounted {n} op ca lt k e =
    let (new, m, q) = apply-mark_set op ca k.marks e in
    subst (IsCounted n) (sym q) (mark_set-IsCounted (bucket_of op) new lt m k)
