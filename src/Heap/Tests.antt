-- ===== src/Heap/Tests.antt =====
-- Runs of the heaps of libbcache/util.h, and the theorems at these.
use bcache_tools.Base.{
  Bool, List, [], arith, false, if◌then◌else◌, ltb, refl, some, suc, ℕ, ℕ_discrete, ◌+◌, ◌-◌, ◌/◌,
  ◌<◌, ◌==◌, ◌∷◌, ◌≡◌,
}
use bcache_tools.Heap.{Heap, first_child, heap_del, heap_pop, heap_resort, resort_from, sift, swap}
use bcache_tools.Heap.Sift.{IsHeapFrom, IsOrder}
use bcache_tools.Heap.Weight.{weight}
use bcache_tools.Heap.Ordered.{IsHeap}
use bcache_tools.Heap.Removed.{
  heap_del-IsHeap, heap_del_tied, heap_pop-first, heap_resort-IsHeap_of,
}

-- Numbers, the least first.
after_number : ℕ → ℕ → Bool
after_number a b = ltb b a

number_order : IsOrder after_number
unfolding after_number
number_order = record {
  asym = λ a b h. ground (arith, h);
  trans = λ a b c h h'. ground (arith, h, h');
}

-- The elements of a list, and 0 past its end.
array : List ℕ → ℕ → ℕ
array [] k = 0
array (x ∷ xs) k = let rest = array xs (k - 1) in if k == 0 then x else rest

abbrev mixed : Heap ℕ
mixed = record { size = 4; used = 3; items = array (7 ∷ 5 ∷ 2 ∷ []) }

heap_resort-mixed : (heap_resort after_number mixed).items 0 ≡ 2
unfolding after_number array heap_resort resort_from sift first_child swap
heap_resort-mixed = refl

heap_resort-IsHeap_of_example :
    IsHeap after_number number_order (heap_resort after_number mixed)
    × ((heap_resort after_number mixed).used ≡ 3)
    × (weight (λ x. x) 3 (heap_resort after_number mixed).items ≡ weight (λ x. x) 3 mixed.items)
heap_resort-IsHeap_of_example = heap_resort-IsHeap_of after_number number_order (λ x. x) mixed

abbrev ordered : Heap ℕ
ordered = record { size = 4; used = 3; items = array (2 ∷ 7 ∷ 5 ∷ []) }

ordered-IsHeap : IsHeap after_number number_order ordered
unfolding IsHeap IsHeapFrom after_number array
ordered-IsHeap j c z lo hi h =
    let ej : j ≡ 0 = omega arith in
    elim (ℕ_discrete c 1) [
      | yes e ↦ rw (ej, e) refl
      | no ne ↦ let e : c ≡ 2 = omega arith in rw (ej, e) refl
    ]

-- Numbers by their tens, so that some tie.
after_tens : ℕ → ℕ → Bool
after_tens a b = ltb (b / 10) (a / 10)

tens_order : IsOrder after_tens
unfolding after_tens
tens_order = record {
  asym = λ a b h. ground (arith, h);
  trans = λ a b c h h'. ground (arith, h, h');
}

abbrev tied : Heap ℕ
tied = record { size = 4; used = 3; items = array (21 ∷ 70 ∷ 22 ∷ []) }

heap_pop-first_example :
    (h' : Heap ℕ) × (heap_pop after_number ordered ≡ some (some 2, h'))
    × IsHeap after_number number_order h'
    × (suc h'.used ≡ 3)
    × (weight (λ x. x) h'.used h'.items + 2 ≡ weight (λ x. x) 3 ordered.items)
    × ((k : ℕ) → k < 3 → after_number 2 (ordered.items k) ≡ false)
unfolding array
heap_pop-first_example =
    heap_pop-first after_number number_order (λ x. x) ordered ordered-IsHeap (omega arith)

heap_del-IsHeap_example :
    (h' : Heap ℕ) × (heap_del after_number 1 ordered ≡ some h')
    × IsHeap after_number number_order h'
    × (suc h'.used ≡ 3)
    × (weight (λ x. x) h'.used h'.items + 7 ≡ weight (λ x. x) 3 ordered.items)
unfolding array
heap_del-IsHeap_example =
    heap_del-IsHeap after_number number_order (λ x. x) 1 ordered ordered-IsHeap (omega arith)
      (λ e. absurd (omega arith))

-- The last of 21, 70 and 22 was to be taken out, but it is 21 that is.
heap_del_tied_example :
    (h' : Heap ℕ) × (heap_del after_tens 2 tied ≡ some h')
    × (suc h'.used ≡ 3)
    × (weight (λ x. x) h'.used h'.items + 21 ≡ weight (λ x. x) 3 tied.items)
unfolding array after_tens
heap_del_tied_example =
    heap_del_tied after_tens tens_order (λ x. x) 2 tied refl (λ e. absurd (omega arith)) refl
