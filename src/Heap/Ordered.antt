-- ===== src/Heap/Ordered.antt =====
-- The heap operations of libbcache/util.h leave a heap in order.
use bcache_tools.Base.{
  Bool, Bool-cases, arith, false, if◌then◌else◌, inl, inr, suc, zero, ℕ, ◌-◌, ◌/◌, ◌<◌, ◌==◌, ◌≡◌,
  ◌≤◌,
}
use bcache_tools.Heap.{Heap, heap_resort, heap_sift, resort_from, swap}
use bcache_tools.Heap.Sift.{IsHeapFrom, IsOrder, sift-IsHeapFrom, swap-other}
use bcache_tools.Heap.Build.{IsDisturbed}

module _ {S : Type 0} (cmp : S → S → Bool) (o : IsOrder cmp) where
  -- No element comes after its children.
  unfoldable pub IsHeap : Heap S → Type 0
  IsHeap h = IsHeapFrom cmp o 0 h.used h.items

  -- The element at the start comes after none.
  pub IsHeap-first :
      (h : Heap S)
      → IsHeap h
      → (fuel k : ℕ) → k ≤ fuel
      → k < h.used
      → cmp (h.items 0) (h.items k) ≡ false
  unfolding IsHeap IsHeapFrom
  IsHeap-first h w fuel zero hk hu = elim (Bool-cases (cmp (h.items 0) (h.items 0))) [
    | inl e ↦ o.asym _ _ e
    | inr e ↦ e
  ]
  IsHeap-first h w zero (suc k) hk hu = absurd (omega arith)
  IsHeap-first h w (suc fuel) (suc k) hk hu =
      let p = k / 2 in
      o.trans _ _ _ (IsHeap-first h w fuel p (omega arith) (omega arith))
        (w p (suc k) (omega arith) (omega arith) (omega arith) hu)

  resort_from-IsHeap :
      (i : ℕ) (h : Heap S) → IsHeapFrom cmp o i h.used h.items → IsHeap (resort_from cmp i h)
  unfolding resort_from IsHeap IsHeapFrom
  resort_from-IsHeap zero h w = w
  resort_from-IsHeap (suc i) h w = resort_from-IsHeap i (heap_sift cmp h i) (
      sift-IsHeapFrom cmp o h.used i i h.used h.items (omega arith) (omega arith) (record {
        others = λ p c ip ne lo hi hc. w p c (omega arith) lo hi hc;
        across = λ p c ip lo. absurd (omega arith);
      }))

  -- Any array becomes a heap.
  pub heap_resort-IsHeap : (h : Heap S) → IsHeap (heap_resort cmp h)
  unfolding heap_resort IsHeapFrom
  heap_resort-IsHeap h = resort_from-IsHeap (h.used / 2) h (λ j c ij lo hi hc. absurd (omega arith))

  -- What is put at the end of a heap is all that can be out of order.
  pub added-IsDisturbed :
      (d : S) (h : Heap S)
      → IsHeap h
      → IsDisturbed cmp o h.used (suc h.used) (λ k. if k == h.used then d else h.items k)
  unfolding IsHeap IsHeapFrom
  added-IsDisturbed d h w = record {
    others = λ p c np nc lo hi hc.
        let ep : (p == h.used) ≡ false = ground arith in
        let ec : (c == h.used) ≡ false = ground arith in
        rw (ep, ec) (w p c (omega arith) lo hi (omega arith));
    around = λ p c lo hi cl ch hc. absurd (omega arith);
  }

  -- And what is put in the place of the element that goes.
  pub removed-IsDisturbed :
      (i : ℕ) (h : Heap S)
      → IsHeap h
      → i < h.used
      → IsDisturbed cmp o i (h.used - 1) (swap i (h.used - 1) h.items)
  unfolding IsHeap IsHeapFrom
  removed-IsDisturbed i h w hi = record {
    others = λ p c np nc lo hi hc.
        rw
          (
            swap-other i (h.used - 1) h.items p np (λ x. absurd (omega arith)),
            swap-other i (h.used - 1) h.items c nc (λ x. absurd (omega arith)),
          )
          (w p c (omega arith) lo hi (omega arith));
    around = λ p c lo hi cl ch hc.
        rw
          (
            swap-other i (h.used - 1) h.items p (λ x. absurd (omega arith))
                (λ x. absurd (omega arith)),
            swap-other i (h.used - 1) h.items c (λ x. absurd (omega arith))
                (λ x. absurd (omega arith)),
          )
          (o.trans _ _ _ (w p i (omega arith) lo hi (omega arith))
            (w i c (omega arith) cl ch (omega arith)));
  }
