-- ===== src/Fifo/Queue.antt =====
-- What a fifo promises: a queue of at most `size` elements. libbcache/fifo.h.
use bcache_tools.Base.{
  List, [], false, get_elem?, if◌then◌else◌, length, none, some, true, u64, ℕ, ◌%◌, ◌++◌, ◌+◌, ◌-◌,
  ◌<◌, ◌==◌, ◌^◌, ◌∷◌, ◌≡◌, ◌≤◌,
}
use bcache_tools.Fifo.{Answer, Fifo, Operation, back, front, pop, popped, pushed}

module _ {A : Type 0} where
  -- A push is refused when the queue is full.
  abbrev pub queue_operate : ℕ → List A → Operation A → List A × Answer A
  queue_operate size xs (back i) =
      if length xs == size then (xs, pushed false) else (xs ++ i ∷ [], pushed true)
  queue_operate size xs (front i) =
      if length xs == size then (xs, pushed false) else (i ∷ xs, pushed true)
  queue_operate size [] pop = ([], popped none)
  queue_operate size (x ∷ xs) pop = (xs, popped (some x))

  abbrev pub queue_run : ℕ → List A → List (Operation A) → List (Answer A)
  queue_run size xs [] = []
  queue_run size xs (o ∷ os) = let (xs', a) = queue_operate size xs o in a ∷ queue_run size xs' os

-- The elements of a fifo, from its front.
pub record Represents {A : Type 0} (f : Fifo A) (xs : List A) : Type 0 where
  pub power : ℕ
  pub power_le : power ≤ 63
  pub mask : f.mask ≡ 2 ^ power - 1
  pub memory : length f.slots ≡ 2 ^ power
  pub size_le : f.size ≤ 2 ^ power
  pub front_lt : f.front < 2 ^ 64
  pub length_le : length xs ≤ f.size
  pub back : f.back ≡ u64 (f.front + length xs)
  pub entries :
      (i : ℕ) → i < length xs → get_elem? f.slots ((f.front + i) % 2 ^ power) ≡ get_elem? xs i
