-- ===== src/Heap.antt =====
-- The heaps of libbcache/util.h: an array with the least element, by a comparison, at its start.
pub mod Sift
pub mod Weight
mod Build
pub mod Ordered
pub mod Removed
mod Tests
use bcache_tools.Base.{
  Bool, Option, false, if◌then◌else◌, leb, ltb, none, not, some, suc, true, zero, ℕ, ◌&&◌, ◌*◌, ◌+◌,
  ◌-◌, ◌/◌, ◌==◌,
}

-- `DECLARE_HEAP`: the array, how many elements it holds, and how many it has room for.
pub record Heap (S : Type 0) : Type 0 where
  pub size : ℕ
  pub used : ℕ
  pub items : ℕ → S

module _ {S : Type 0} where
  -- `heap_swap`
  unfoldable pub swap : ℕ → ℕ → (ℕ → S) → ℕ → S
  swap i j items k = if k == i then items j else if k == j then items i else items k

-- `cmp(l, r)` says that `l` comes after `r`.
module _ {S : Type 0} (cmp : S → S → Bool) where
  -- The child of `j` that comes first.
  unfoldable pub first_child : ℕ → (ℕ → S) → ℕ → ℕ
  first_child used items j =
      if ltb (2 * j + 2) used && cmp (items (2 * j + 1)) (items (2 * j + 2))
      then 2 * j + 2
      else 2 * j + 1

  -- The loop of `heap_sift`, on fuel: `used` is enough, as `j` grows.
  unfoldable pub sift : ℕ → ℕ → ℕ → (ℕ → S) → ℕ → S
  sift zero used j items = items
  sift (suc fuel) used j items =
      let r = first_child used items j in
      let rest = sift fuel used r (swap r j items) in
      if not (ltb (2 * j + 1) used) then items else if cmp (items r) (items j) then items else rest

  -- The loop of `heap_sift_down`: where the element has come to, and the array. `i` is enough fuel.
  unfoldable pub sift_down : ℕ → ℕ → (ℕ → S) → ℕ × (ℕ → S)
  sift_down zero i items = (i, items)
  sift_down (suc fuel) i items =
      let p = (i - 1) / 2 in
      let rest = sift_down fuel p (swap i p items) in
      if i == 0 then (i, items) else if cmp (items i) (items p) then (i, items) else rest

  -- `heap_sift`
  abbrev pub heap_sift : Heap S → ℕ → Heap S
  heap_sift h i = record { size = h.size; used = h.used; items = sift h.used h.used i h.items }

  -- The loop of `heap_resort`, from `n - 1` down to 0.
  unfoldable pub resort_from : ℕ → Heap S → Heap S
  resort_from zero h = h
  resort_from (suc i) h = resort_from i (heap_sift h i)

  -- `heap_resort`
  unfoldable pub heap_resort : Heap S → Heap S
  heap_resort h = resort_from (h.used / 2) h

  -- `heap_sift_down` and then `heap_sift`, from where the first has come to.
  unfoldable pub resift : ℕ → Heap S → Heap S
  resift i h =
      let (i', items) = sift_down i i h.items in
      heap_sift (record { size = h.size; used = h.used; items = items }) i'

  -- `heap_add`: whether there was room, and the heap.
  unfoldable pub heap_add : S → Heap S → Bool × Heap S
  heap_add d h = if h.used == h.size then (false, h) else (
    true,
    resift h.used (record {
      size = h.size;
      used = suc h.used;
      items = λ k. if k == h.used then d else h.items k;
    }),
  )

  -- `heap_del`. Its BUG_ON is `none`.
  unfoldable pub heap_del : ℕ → Heap S → Option (Heap S)
  heap_del i h =
      if leb h.used i
      then none
      else some (
          resift i
            (record { size = h.size; used = h.used - 1; items = swap i (h.used - 1) h.items }))

  -- `heap_pop`: the first element, if there is one, and the heap.
  unfoldable pub heap_pop : Heap S → Option (Option S × Heap S)
  heap_pop h = elim (h.used == 0) [
    | true ↦ some (none, h)
    | false ↦ elim (heap_del 0 h) [ none ↦ none | some h' ↦ some (some (h.items 0), h') ]
  ]
