-- ===== src/Fifo.antt =====
-- The ring buffer of libbcache/fifo.h, with a `size_t` of 64 bits. A macro that takes an lvalue
-- returns the element here.
mod Ring
mod Queue
mod Slots
mod Refines
mod Move
mod Tests
use bcache_tools.Base.{
  Bool, List, Option, [], bit_and, false, get_elem?, if◌then◌else◌, none, set, shl, some, suc, true,
  u64, zero, ℕ, ◌+◌, ◌-◌, ◌==◌, ◌^◌, ◌∷◌,
}
use bcache_tools.Base.Fls.{fls64}

-- `DECLARE_FIFO`; `slots`, its `data`, is the memory it points to.
pub record Fifo (A : Type 0) : Type 0 where
  pub front : ℕ
  pub back : ℕ
  pub size : ℕ
  pub mask : ℕ
  pub slots : List A

-- `__roundup_pow_of_two`
unfoldable pub roundup_pow_of_two : ℕ → ℕ
roundup_pow_of_two n = shl 1 (fls64 (n - 1))

module _ {A : Type 0} where
  -- `init_fifo`, given the memory that is allocated. For a size of 0 the mask is not written.
  unfoldable pub init_fifo : Fifo A → ℕ → List A → Fifo A
  init_fifo f size memory =
      if size == 0
      then record { front = 0; back = 0; size = 0; mask = f.mask; slots = [] }
      else record {
        front = 0;
        back = 0;
        size = size;
        mask = roundup_pow_of_two size - 1;
        slots = memory;
      }

  -- `fifo_used`
  abbrev pub fifo_used : Fifo A → ℕ
  fifo_used f = u64 (f.back + 2 ^ 64 - f.front)

  -- `fifo_empty`
  abbrev pub fifo_empty : Fifo A → Bool
  fifo_empty f = f.front == f.back

  -- `fifo_full`
  abbrev pub fifo_full : Fifo A → Bool
  fifo_full f = fifo_used f == f.size

  -- `fifo_push_back`, and whether there was room.
  unfoldable pub push_back : Fifo A → A → Fifo A × Bool
  push_back f i = if fifo_full f then (f, false) else (
    record {
      front = f.front;
      back = u64 (f.back + 1);
      size = f.size;
      mask = f.mask;
      slots = set f.slots (bit_and f.back f.mask) i;
    },
    true,
  )

  -- `fifo_pop_front`; an empty fifo gives `none`.
  unfoldable pub pop_front : Fifo A → Fifo A × Option A
  pop_front f = if fifo_empty f then (f, none) else (
    record {
      front = u64 (f.front + 1);
      back = f.back;
      size = f.size;
      mask = f.mask;
      slots = f.slots;
    },
    get_elem? f.slots (bit_and f.front f.mask),
  )

  -- `fifo_push_front`
  unfoldable pub push_front : Fifo A → A → Fifo A × Bool
  push_front f i =
      let front = u64 (f.front + (2 ^ 64 - 1)) in
      if fifo_full f then (f, false) else (
        record {
          front = front;
          back = f.back;
          size = f.size;
          mask = f.mask;
          slots = set f.slots (bit_and front f.mask) i;
        },
        true,
      )

  -- `fifo_peek_back`
  unfoldable pub peek_back : Fifo A → Option A
  peek_back f = get_elem? f.slots (bit_and (u64 (f.back + (2 ^ 64 - 1))) f.mask)

module _ {A : Type 0} where
  -- `fifo_move`, of two fifos with memory of their own; `none` is out of fuel.
  unfoldable pub fifo_move : ℕ → Fifo A → Fifo A → Option (Fifo A × Fifo A)
  fifo_move zero dest src = none
  fifo_move (suc fuel) dest src = elim (fifo_full dest) [
    | true ↦ some (dest, src)
    | false ↦ elim (pop_front src).1 [
      | none ↦ some (dest, src)
      | some i ↦ fifo_move fuel (push_back dest i).0 (pop_front src).0
    ]
  ]

-- What a client does to a fifo.
pub data Operation (A : Type 0) : Type 0 where
  back : A → Operation A
  front : A → Operation A
  pop : Operation A

-- What it is told.
pub data Answer (A : Type 0) : Type 0 where
  pushed : Bool → Answer A
  popped : Option A → Answer A

module _ {A : Type 0} where
  abbrev pub operate : Fifo A → Operation A → Fifo A × Answer A
  operate f (back i) = let (f', ok) = push_back f i in (f', pushed ok)
  operate f (front i) = let (f', ok) = push_front f i in (f', pushed ok)
  operate f pop = let (f', i) = pop_front f in (f', popped i)

  -- The answers to a sequence of operations.
  abbrev pub run : Fifo A → List (Operation A) → List (Answer A)
  run f [] = []
  run f (o ∷ os) = let (f', a) = operate f o in a ∷ run f' os
