-- ===== src/Heap/Removed.antt =====
-- What the heap operations of libbcache/util.h put in and take out.
use bcache_tools.Base.{
  Bool, ap, ap₂, arith, false, if◌then◌else◌, leb, refl, some, suc, sym, true, zero, ℕ, ℕ_discrete,
  ◌+◌, ◌-◌, ◌/◌, ◌<◌, ◌==◌, ◌∙◌, ◌≡◌,
}
use bcache_tools.Heap.{
  Heap, heap_add, heap_del, heap_pop, heap_resort, heap_sift, resift, resort_from, sift_down, swap,
}
use bcache_tools.Heap.Sift.{IsOrder, swap-other, swap-right}
use bcache_tools.Heap.Weight.{
  weight, weight-sift, weight-sift_down, weight-swap_out, weight_changed, weight_same,
}
use bcache_tools.Heap.Build.{resift-IsHeapFrom}
use bcache_tools.Heap.Ordered.{
  IsHeap, IsHeap-first, added-IsDisturbed, heap_resort-IsHeap, removed-IsDisturbed,
}

module _ {S : Type 0} (cmp : S → S → Bool) (o : IsOrder cmp) (f : S → ℕ) where
  weight-resort_from :
      (i : ℕ) (h : Heap S)
      → (weight f h.used (resort_from cmp i h).items ≡ weight f h.used h.items)
        × ((resort_from cmp i h).used ≡ h.used)
  unfolding resort_from
  weight-resort_from zero h = (refl, refl)
  weight-resort_from (suc i) h =
      let (w, u) = weight-resort_from i (heap_sift cmp h i) in
      (w ∙ weight-sift cmp f h.used h.used i h.items, u)

  -- By any strict order, in which elements may tie, the resort of an array leaves a heap of as
  -- many elements, with the same sum of any weight.
  pub heap_resort-IsHeap_of :
      (h : Heap S)
      → IsHeap cmp o (heap_resort cmp h)
        × ((heap_resort cmp h).used ≡ h.used)
        × (weight f h.used (heap_resort cmp h).items ≡ weight f h.used h.items)
  unfolding heap_resort
  heap_resort-IsHeap_of h =
      let (w, u) = weight-resort_from (h.used / 2) h in (heap_resort-IsHeap cmp o h, u, w)

  weight-resift :
      (i : ℕ) (h : Heap S)
      → i < h.used
      → weight f h.used (resift cmp i h).items ≡ weight f h.used h.items
  unfolding resift
  weight-resift i h hi =
      weight-sift cmp f h.used h.used (sift_down cmp i i h.items).0 (sift_down cmp i i h.items).1
      ∙ (weight-sift_down cmp f i h.used i h.items hi).0

  weight-put_last :
      (d : S) (h : Heap S)
      → weight f (suc h.used) (λ k. if k == h.used then d else h.items k)
        ≡ weight f h.used h.items + f d
  unfolding weight
  weight-put_last d h =
      let same : (h.used == h.used) ≡ true = ground arith in
      ap₂ (λ a b. a + b)
        (weight_same f h.used (λ k. if k == h.used then d else h.items k) h.items
          (λ k hk. let e : (k == h.used) ≡ false = ground arith in rw e refl))
        (rw same refl)

  weight-last :
      (h : Heap S) (last : ℕ)
      → suc last ≡ h.used
      → weight f last h.items + f (h.items last) ≡ weight f h.used h.items
  unfolding weight
  weight-last h last e = ap (λ t. weight f t h.items) e

  -- A heap that has room takes one more element and is a heap again: the sum of any weight grows
  -- by that of the element.
  heap_add-IsHeap :
      (d : S) (h : Heap S)
      → IsHeap cmp o h
      → h.used < h.size
      → (h' : Heap S) × (heap_add cmp d h ≡ (true, h'))
        × IsHeap cmp o h'
        × (h'.used ≡ suc h.used)
        × (weight f h'.used h'.items ≡ weight f h.used h.items + f d)
  unfolding heap_add IsHeap resift
  heap_add-IsHeap d h w hs =
      let e : (h.used == h.size) ≡ false = ground arith in
      let put_last : ℕ → S = λ k. if k == h.used then d else h.items k in
      let start : Heap S = record { size = h.size; used = suc h.used; items = put_last } in
      (
        resift cmp h.used start,
        rw e refl,
        resift-IsHeapFrom cmp o h.used start (added-IsDisturbed cmp o d h w),
        refl,
        weight-resift h.used start (omega arith) ∙ weight-put_last d h,
      )

  swap_self : (i : ℕ) (items : ℕ → S) (k : ℕ) → swap i i items k ≡ items k
  unfolding swap
  swap_self i items k = elim (ℕ_discrete k i) [
    | yes e ↦ let at_i : (k == i) ≡ true = ground arith in rw at_i (ap items (sym e))
    | no ne ↦ let other : (k == i) ≡ false = ground arith in rw other refl
  ]

  weight-resift_tied :
      (i : ℕ) (h : Heap S)
      → suc i ≡ h.used
      → ¬ (i ≡ 0)
      → cmp (h.items i) (h.items ((i - 1) / 2)) ≡ false
      → weight f i
            (resift cmp i (record { size = h.size; used = i; items = swap i i h.items })).items
          + f (h.items ((i - 1) / 2))
        ≡ weight f h.used h.items
  unfolding resift sift_down
  weight-resift_tied zero h e ne tie = absurd (ne refl)
  weight-resift_tied (suc n) h e ne tie =
      let items = swap (suc n) (suc n) h.items in
      let p = (suc n - 1) / 2 in
      let at_i = swap_self (suc n) h.items (suc n) in
      let at_p = swap_self (suc n) h.items p in
      let moves : cmp (items (suc n)) (items p) ≡ false = rw (at_i, at_p) tie in
      let below : (suc n == 0) ≡ false = ground arith in
      let (w, up) = weight-sift_down cmp f n (suc n) p (swap (suc n) p items) (omega arith) in
      let changed : weight f (suc n) (swap (suc n) p items) + f (h.items p)
          ≡ weight f (suc n) h.items + f (swap (suc n) p items p) =
        weight_changed f (suc n) p (swap (suc n) p items) h.items (omega arith) (λ k hk nk.
          swap-other (suc n) p items k (λ x. absurd (omega arith)) nk
          ∙ swap_self (suc n) h.items k) in
      rw (below, moves)
        (ap (λ t. t + f (h.items p))
            (weight-sift cmp f (suc n) (suc n) (sift_down cmp n p (swap (suc n) p items)).0
                (sift_down cmp n p (swap (suc n) p items)).1
              ∙ w)
          ∙ changed
          ∙ ap (λ t. weight f (suc n) h.items + f t) (swap-right (suc n) p items ∙ at_i)
          ∙ weight-last h (suc n) e)

  -- The weight of the rest, where the last element is taken out as it is.
  weight-resift_last :
      (i : ℕ) (h : Heap S)
      → suc i ≡ h.used
      → (¬ (i ≡ 0) → cmp (h.items i) (h.items ((i - 1) / 2)) ≡ true)
      → (items : ℕ → S) → ((k : ℕ) → items k ≡ h.items k)
      → weight f i (resift cmp i (record { size = h.size; used = i; items = items })).items
        ≡ weight f i h.items
  unfolding resift sift_down
  weight-resift_last zero h e strict items same =
      weight-sift cmp f 0 0 0 items ∙ weight_same f 0 items h.items (λ k hk. same k)
  weight-resift_last (suc n) h e strict items same =
      let stays : cmp (items (suc n)) (items ((suc n - 1) / 2)) ≡ true =
        rw (same (suc n), same ((suc n - 1) / 2)) (strict (λ x. absurd (omega arith))) in
      let below : (suc n == 0) ≡ false = ground arith in
      rw (sift_down, below, stays)
        (weight-sift cmp f (suc n) (suc n) (suc n) items
          ∙ weight_same f (suc n) items h.items (λ k hk. same k))

  -- An element is taken out of a heap: what is left is a heap, and the sum of any weight falls by
  -- that of the element. If it is the last element, and not the only one, it must come after its
  -- parent.
  pub heap_del-IsHeap :
      (i : ℕ) (h : Heap S)
      → IsHeap cmp o h
      → i < h.used
      → (suc i ≡ h.used → ¬ (i ≡ 0) → cmp (h.items i) (h.items ((i - 1) / 2)) ≡ true)
      → (h' : Heap S) × (heap_del cmp i h ≡ some h')
        × IsHeap cmp o h'
        × (suc h'.used ≡ h.used)
        × (weight f h'.used h'.items + f (h.items i) ≡ weight f h.used h.items)
  unfolding heap_del IsHeap resift
  heap_del-IsHeap i h w hi strict =
      let e : leb h.used i ≡ false = ground arith in
      let last = h.used - 1 in
      let start : Heap S = record { size = h.size; used = last; items = swap i last h.items } in
      (
        resift cmp i start,
        rw e refl,
        resift-IsHeapFrom cmp o i start (removed-IsDisturbed cmp o i h w hi),
        omega arith,
        elim (ℕ_discrete (suc i) h.used) [
          | no inner ↦
              ap (λ t. t + f (h.items i)) (weight-resift i start (omega arith))
              ∙ weight-swap_out f last i last h.items (omega arith) (omega arith)
              ∙ weight-last h last (omega arith)
          | yes at_end ↦
              let el : last ≡ i = omega arith in
              rw el (
                ap (λ t. t + f (h.items i))
                  (weight-resift_last i h at_end (strict at_end) (swap i i h.items)
                    (swap_self i h.items))
                ∙ weight-last h i at_end)
        ],
      )

  -- The last element, where it does not come after its parent, stays when it is to be taken out:
  -- the sum of any weight falls by that of the parent.
  pub heap_del_tied :
      (i : ℕ) (h : Heap S)
      → suc i ≡ h.used
      → ¬ (i ≡ 0)
      → cmp (h.items i) (h.items ((i - 1) / 2)) ≡ false
      → (h' : Heap S) × (heap_del cmp i h ≡ some h')
        × (suc h'.used ≡ h.used)
        × (weight f h'.used h'.items + f (h.items ((i - 1) / 2)) ≡ weight f h.used h.items)
  unfolding heap_del resift
  heap_del_tied i h e ne tie =
      let room : leb h.used i ≡ false = ground arith in
      let last = h.used - 1 in
      let start : Heap S = record { size = h.size; used = last; items = swap i last h.items } in
      let el : last ≡ i = omega arith in
      (resift cmp i start, rw room refl, omega arith, rw el (weight-resift_tied i h e ne tie))

  -- A heap that is not empty gives its first element, which comes after no other; what is left is
  -- a heap, and the sum of any weight falls by that of the element.
  pub heap_pop-first :
      (h : Heap S)
      → IsHeap cmp o h
      → 0 < h.used
      → (h' : Heap S) × (heap_pop cmp h ≡ some (some (h.items 0), h'))
        × IsHeap cmp o h'
        × (suc h'.used ≡ h.used)
        × (weight f h'.used h'.items + f (h.items 0) ≡ weight f h.used h.items)
        × ((k : ℕ) → k < h.used → cmp (h.items 0) (h.items k) ≡ false)
  unfolding heap_pop
  heap_pop-first h w hu =
      let e : (h.used == 0) ≡ false = ground arith in
      let (h', del, w', u, s) = heap_del-IsHeap 0 h w hu (λ x ne. absurd (ne refl)) in
      (
        h',
        rw (heap_pop, e, del) refl,
        w',
        u,
        s,
        λ k hk. IsHeap-first cmp o h w k k (omega arith) hk,
      )
