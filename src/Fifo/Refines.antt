-- ===== src/Fifo/Refines.antt =====
-- The ring buffer of libbcache/fifo.h is a bounded queue.
use bcache_tools.Fifo.Slots.{
  fifo_used-length, front_element, place, pop_front-Represents, push_back-Represents,
  push_front-Represents,
}
use bcache_tools.Base.Fls.{fls64, fls64-le, lt-fls64}
use bcache_tools.Base.{
  Bool-cases, List, [], ap, ap₂, arith, bit_and, false, get_elem?, inl, inr, length, length-append,
  refl, some, true, u64, ℕ, ◌*◌, ◌++◌, ◌+◌, ◌-◌, ◌<◌, ◌==◌, ◌^◌, ◌∙◌, ◌∷◌, ◌≡◌, ◌≤◌,
}
use bcache_tools.Fifo.{
  Answer, Fifo, Operation, back, fifo_used, front, init_fifo, operate, peek_back, pop, pop_front,
  push_back, push_front, roundup_pow_of_two, run,
}
use bcache_tools.Fifo.Ring.{get_elem?-append_last}
use bcache_tools.Fifo.Queue.{Represents, queue_operate, queue_run}

-- A new fifo is empty: its size is not 0, and its memory is what `init_fifo` allocates.
pub init_fifo-Represents :
    {A : Type 0} (f : Fifo A) (size : ℕ) (memory : List A)
    → 0 < size
    → size ≤ 2 ^ 63
    → length memory ≡ roundup_pow_of_two size
    → Represents (init_fifo f size memory) []
unfolding init_fifo roundup_pow_of_two
init_fifo-Represents f size memory h h' e =
    let some_size : (size == 0) ≡ false = ground arith in
    let k = fls64 (size - 1) in
    let one : 1 * 2 ^ k ≡ 2 ^ k = omega arith in
    let room = fls64-le (size - 1) k (omega arith) (omega arith) in
    rw (some_size, init_fifo)
      (record {
        power = k;
        power_le = lt-fls64 (size - 1) 63 (omega arith);
        mask = rw one refl;
        memory = e ∙ one;
        size_le = omega arith;
        front_lt = omega arith;
        length_le = omega arith;
        back = omega arith;
        entries = λ i hi. absurd (omega arith);
      })

-- One operation does to the ring what it does to the queue.
pub record Refined {A : Type 0} (size : ℕ) (r : Fifo A × Answer A) (q : List A × Answer A)
    : Type 0 where
  pub answer : r.1 ≡ q.1
  pub state : Represents r.0 q.0
  pub same_size : r.0.size ≡ size

pub operate-Refined :
    {A : Type 0} (f : Fifo A) (xs : List A) (o : Operation A)
    → Represents f xs
    → Refined f.size (operate f o) (queue_operate f.size xs o)
unfolding push_back push_front pop_front
operate-Refined f xs (back i) h = elim (Bool-cases (length xs == f.size)) [
  | inl full ↦
      let full' : (fifo_used f == f.size) ≡ true = rw (fifo_used-length f xs h) full in
      rw (full, full', push_back) (record { answer = refl; state = h; same_size = refl })
  | inr room ↦
      let room' : (fifo_used f == f.size) ≡ false = rw (fifo_used-length f xs h) room in
      rw (room, room', push_back)
        (record {
          answer = refl;
          state = push_back-Represents f xs h i (ground (arith, h.length_le));
          same_size = refl;
        })
]
operate-Refined f xs (front i) h = elim (Bool-cases (length xs == f.size)) [
  | inl full ↦
      let full' : (fifo_used f == f.size) ≡ true = rw (fifo_used-length f xs h) full in
      rw (full, full', push_front) (record { answer = refl; state = h; same_size = refl })
  | inr room ↦
      let room' : (fifo_used f == f.size) ≡ false = rw (fifo_used-length f xs h) room in
      rw (room, room', push_front)
        (record {
          answer = refl;
          state = push_front-Represents f xs h i (ground (arith, h.length_le));
          same_size = refl;
        })
]
operate-Refined f [] pop h =
    let empty : (f.front == f.back) ≡ true = ground (arith, h.back, h.front_lt) in
    rw (empty, pop_front) (record { answer = refl; state = h; same_size = refl })
operate-Refined f (x ∷ xs) pop h =
    let used = fifo_used-length f (x ∷ xs) h in
    let some_left : (f.front == f.back) ≡ false = ground (arith, used) in
    rw (some_left, front_element f x xs h, pop_front)
      (record { answer = refl; state = pop_front-Represents f x xs h; same_size = refl })

pub run-queue_run :
    {A : Type 0} (f : Fifo A) (xs : List A) (os : List (Operation A))
    → Represents f xs
    → run f os ≡ queue_run f.size xs os
run-queue_run f xs [] h = refl
run-queue_run f xs (o ∷ os) h =
    let r = operate-Refined f xs o h in
    ap₂ (λ a as'. a ∷ as') r.answer
      (run-queue_run (operate f o).0 (queue_operate f.size xs o).0 os r.state
        ∙ ap (λ n. queue_run n (queue_operate f.size xs o).0 os) r.same_size)

-- A new fifo answers any operations as an empty queue does that refuses what exceeds its size: the size
-- is not 0, and the memory is what `init_fifo` allocates.
pub init_fifo-run :
    {A : Type 0} (f : Fifo A) (size : ℕ) (memory : List A) (os : List (Operation A))
    → 0 < size
    → size ≤ 2 ^ 63
    → length memory ≡ roundup_pow_of_two size
    → run (init_fifo f size memory) os ≡ queue_run size [] os
unfolding init_fifo
init_fifo-run f size memory os h h' e =
    let some_size : (size == 0) ≡ false = ground arith in
    let same : (init_fifo f size memory).size ≡ size = rw (some_size, init_fifo) refl in
    run-queue_run (init_fifo f size memory) [] os (init_fifo-Represents f size memory h h' e)
    ∙ ap (λ n. queue_run n [] os) same

-- The last element of a fifo is the one that `fifo_peek_back` reads.
peek_back-last :
    {A : Type 0} (f : Fifo A) (xs : List A) (x : A)
    → Represents f (xs ++ x ∷ [])
    → peek_back f ≡ some x
unfolding peek_back
peek_back-last f xs x h =
    let len = length-append xs (x ∷ []) in
    let at : u64 (f.back + (2 ^ 64 - 1)) ≡ u64 (f.front + length xs) =
      omega (arith, h.back, len, h.front_lt) in
    ap (get_elem? f.slots)
      (ap (λ t. bit_and t f.mask) at ∙ place f (xs ++ x ∷ []) h (f.front + length xs))
    ∙ h.entries (length xs) (omega (arith, len))
    ∙ get_elem?-append_last xs x
