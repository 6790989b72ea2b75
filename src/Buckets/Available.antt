-- ===== src/Buckets/Available.antt =====
-- `__buckets_available_cache` of buckets.h: the allocator's view of a device.
use bcache_tools.Base.{
  Bool, Bool-cases, arith, if◌then◌else◌, inl, inr, leb, suc, u64, zero, ℕ, ◌*◌, ◌+◌, ◌-◌, ◌<◌, ◌^◌,
  ◌≤◌,
}
use bcache_tools.Base.Family.{total}
use bcache_tools.Buckets.{Dev, Mark, is_available_bucket, is_dirty_bucket, is_meta_bucket, to_nat}
use bcache_tools.Buckets.Counts.{IsCounted}

-- The difference is a u64 that `max_t(s64, 0, …)` reads as signed.
pub buckets_available : Dev → ℕ
buckets_available ca =
    let v = u64 (
      ca.nbuckets
      + 4 * 2 ^ 64
      - ca.first_bucket
      - ca.usage.buckets_dirty
      - ca.usage.buckets_alloc
      - ca.usage.buckets_meta) in
    if leb (2 ^ 63) v then 0 else v

one-le-weights :
    (m : Mark)
    → 1
      ≤ to_nat (is_available_bucket m)
        + to_nat m.nouse
        + to_nat (is_dirty_bucket m)
        + to_nat m.owned_by_allocator
        + to_nat (is_meta_bucket m)
one-le-weights m = ground arith

-- A bucket that is not available is counted at least once.
le-totals :
    (n : ℕ) (f : ℕ → Mark)
    → n
      ≤ total (λ m. to_nat (is_available_bucket m)) n f
        + total (λ m. to_nat m.nouse) n f
        + total (λ m. to_nat (is_dirty_bucket m)) n f
        + total (λ m. to_nat m.owned_by_allocator) n f
        + total (λ m. to_nat (is_meta_bucket m)) n f
unfolding total
le-totals zero f = omega arith
le-totals (suc n) f = omega (arith, le-totals n f, one-le-weights (f n))

total-le : (w : Mark → Bool) (n : ℕ) (f : ℕ → Mark) → total (λ m. to_nat (w m)) n f ≤ n
unfolding total
total-le w zero f = omega arith
total-le w (suc n) f = elim (Bool-cases (w (f n))) [
  | inl e ↦ rw e (omega (arith, total-le w n f))
  | inr e ↦ rw e (omega (arith, total-le w n f))
]

-- While the counters are a recount, the allocator is never promised more buckets than there are
-- available ones and unusable ones (`nouse`) together, less the buckets before the first.
pub buckets_available-le :
    (ca : Dev)
    → IsCounted ca.nbuckets ca
    → ca.nbuckets < 2 ^ 60
    → ca.first_bucket ≤ ca.nbuckets
    → buckets_available ca
      ≤ total (λ m. to_nat (is_available_bucket m)) ca.nbuckets ca.marks
        + total (λ m. to_nat m.nouse) ca.nbuckets ca.marks
        - ca.first_bucket
unfolding buckets_available
buckets_available-le ca k small first = ground (
  arith,
  le-totals ca.nbuckets ca.marks,
  total-le is_dirty_bucket ca.nbuckets ca.marks,
  total-le (λ m. m.owned_by_allocator) ca.nbuckets ca.marks,
  total-le is_meta_bucket ca.nbuckets ca.marks,
)
