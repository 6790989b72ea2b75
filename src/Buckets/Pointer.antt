-- ===== src/Buckets/Pointer.antt =====
-- The mark that `bch_mark_pointer` makes, libbcache/buckets.c.
use bcache_tools.Buckets.Extent.{
  Alloc, Delta, gc_max_sectors_used, minus, plus, pointer_mark, retyped, s_cached, s_dirty, s_meta,
  saturated_add, sectors_of, with_sectors,
}
use bcache_tools.Base.{Option-cases, arith, inl, inr, refl, some, sym, ℕ, ◌+◌, ◌<◌, ◌^◌, ◌≡◌, ◌≤◌}
use mathlib.Core.Path.{subst}
use bcache_tools.Buckets.{Mark}
use bcache_tools.Buckets.Counts.{IsMark}

-- A saturating addition stays in its field, never passes the bound, and is the sum below it.
pub saturated_add_bounds :
    (dst : ℕ) (change : Delta) {n : ℕ}
    → dst ≤ gc_max_sectors_used
    → saturated_add dst change ≡ some n
    → n ≤ gc_max_sectors_used
unfolding saturated_add
saturated_add_bounds dst (plus k) h e = ground arith
saturated_add_bounds dst (minus k) h e = ground arith

saturated_add-lt :
    (dst : ℕ) (change : Delta) {n : ℕ}
    → dst < 2 ^ 16
    → saturated_add dst change ≡ some n
    → n < 2 ^ 16
unfolding saturated_add
saturated_add-lt dst (plus k) h e = ground arith
saturated_add-lt dst (minus k) h e = ground arith

retyped-sectors :
    (type : Alloc) (seq : ℕ) (m : Mark)
    → ((retyped type seq m).dirty_sectors ≡ m.dirty_sectors)
      × ((retyped type seq m).cached_sectors ≡ m.cached_sectors)
unfolding retyped
retyped-sectors type seq m = ground arith

-- Inversion: a new mark holds the sum in the count of its type.
pointer_mark-eq-some :
    (type : Alloc) (change : Delta) (seq : ℕ) (m : Mark) {new : Mark}
    → pointer_mark type change seq m ≡ some new
    → (n : ℕ) × (saturated_add (sectors_of type m) change ≡ some n)
      × (new ≡ retyped type seq (with_sectors type n m))
unfolding pointer_mark
pointer_mark-eq-some type change seq m e =
    elim (Option-cases (saturated_add (sectors_of type m) change)) [
      | inl q ↦ ground arith
      | inr (n, q) ↦ (n, q, ground arith)
    ]

retyped-IsMark :
    (type : Alloc) (n seq : ℕ) (m : Mark)
    → IsMark m
    → n < 2 ^ 16
    → IsMark (retyped type seq (with_sectors type n m))
retyped-IsMark s_cached n seq m k h =
    ground (arith, retyped-sectors s_cached seq (with_sectors s_cached n m))
retyped-IsMark s_meta n seq m k h =
    ground (arith, retyped-sectors s_meta seq (with_sectors s_meta n m))
retyped-IsMark s_dirty n seq m k h =
    ground (arith, retyped-sectors s_dirty seq (with_sectors s_dirty n m))

sectors_of-lt : (type : Alloc) (m : Mark) → IsMark m → sectors_of type m < 2 ^ 16
sectors_of-lt s_cached m k = k.cached
sectors_of-lt s_meta m k = k.dirty
sectors_of-lt s_dirty m k = k.dirty

pub pointer_mark-IsMark :
    (type : Alloc) (change : Delta) (seq : ℕ) (m : Mark) {new : Mark}
    → IsMark m
    → pointer_mark type change seq m ≡ some new
    → IsMark new
pointer_mark-IsMark type change seq m k e =
    let (n, q, r) = pointer_mark-eq-some type change seq m e in
    subst IsMark (sym r) (
      retyped-IsMark type n seq m k
        (saturated_add-lt (sectors_of type m) change (sectors_of-lt type m k) q))

-- `retyped` changes no sector count, and each type is counted in its own.
sectors_of-retyped :
    (type : Alloc) (n seq : ℕ) (m : Mark)
    → (sectors_of type (retyped type seq (with_sectors type n m)) ≡ n)
      × ((k : ℕ)
          → let m' =
              retyped type k (
                with_sectors type (sectors_of type m) (retyped type seq (with_sectors type n m))) in
            (m'.dirty_sectors ≡ m.dirty_sectors) × (m'.cached_sectors ≡ m.cached_sectors))
unfolding retyped
sectors_of-retyped s_cached n seq m = (ground arith, λ k. ground arith)
sectors_of-retyped s_meta n seq m = (ground arith, λ k. ground arith)
sectors_of-retyped s_dirty n seq m = (ground arith, λ k. ground arith)

saturated_add-plus :
    (dst k : ℕ) → dst + k < gc_max_sectors_used → saturated_add dst (plus k) ≡ some (dst + k)
unfolding saturated_add
saturated_add-plus dst k h = ground arith

saturated_add-minus :
    (dst k : ℕ) → dst + k < gc_max_sectors_used → saturated_add (dst + k) (minus k) ≡ some dst
unfolding saturated_add
saturated_add-minus dst k h = ground arith

pointer_mark_of :
    (type : Alloc) (change : Delta) (seq : ℕ) (m : Mark) (s n : ℕ)
    → sectors_of type m ≡ s
    → saturated_add s change ≡ some n
    → pointer_mark type change seq m ≡ some (retyped type seq (with_sectors type n m))
unfolding pointer_mark
pointer_mark_of type change seq m s n e q = rw (e, q, pointer_mark) refl

-- What a pointer adds to a count that does not saturate, its removal takes away again: both marks
-- succeed in a row, and the sector counts are as before.
pointer_mark_undone :
    (type : Alloc) (k seq seq' : ℕ) (m : Mark)
    → sectors_of type m + k < gc_max_sectors_used
    → (once : Mark) × (twice : Mark) × (pointer_mark type (plus k) seq m ≡ some once)
      × (pointer_mark type (minus k) seq' once ≡ some twice)
      × (twice.dirty_sectors ≡ m.dirty_sectors)
      × (twice.cached_sectors ≡ m.cached_sectors)
pointer_mark_undone type k seq seq' m h =
    let n = sectors_of type m in
    let once = retyped type seq (with_sectors type (n + k) m) in
    (
      once,
      retyped type seq' (with_sectors type n once),
      pointer_mark_of type (plus k) seq m n (n + k) refl (saturated_add-plus n k h),
      pointer_mark_of type (minus k) seq' once (n + k) n (sectors_of-retyped type (n + k) seq m).0
          (saturated_add-minus n k h),
      ((sectors_of-retyped type (n + k) seq m).1 seq').0,
      ((sectors_of-retyped type (n + k) seq m).1 seq').1,
    )
