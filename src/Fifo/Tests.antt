-- ===== src/Fifo/Tests.antt =====
-- A fifo of three elements in a ring of four, libbcache/fifo.h.
use bcache_tools.Fifo.Move.{Moved, fifo_move-Moved}
use bcache_tools.Base.{
  List, [], arith, false, get_elem?, min, refl, some, suc, true, zero, ℕ, ◌%◌, ◌+◌, ◌-◌, ◌<◌, ◌^◌,
  ◌∷◌, ◌≡◌,
}
use bcache_tools.Base.Fls.{fls64, fls_upto}
use bcache_tools.Fifo.{
  Fifo, Operation, back, fifo_move, front, init_fifo, pop, popped, pushed, roundup_pow_of_two, run,
}
use bcache_tools.Fifo.Queue.{Represents, queue_run}
use bcache_tools.Fifo.Refines.{init_fifo-Represents, init_fifo-run}

abbrev unset : Fifo ℕ
unset = record { front = 9; back = 9; size = 9; mask = 9; slots = [] }

abbrev memory : List ℕ
memory = 0 ∷ 0 ∷ 0 ∷ 0 ∷ []

-- A push too many, and the ring goes round.
abbrev operations : List (Operation ℕ)
operations = back 5 ∷ back 6 ∷ front 4 ∷ back 7 ∷ pop ∷ pop ∷ back 8 ∷ back 9 ∷ pop ∷ []

init_fifo-run_example : run (init_fifo unset 3 memory) operations ≡ queue_run 3 [] operations
unfolding roundup_pow_of_two fls64 fls_upto
init_fifo-run_example = init_fifo-run unset 3 memory operations (omega arith) (omega arith) refl

queue_answers :
    queue_run 3 [] operations
    ≡ pushed true
      ∷ pushed true
      ∷ pushed true
      ∷ pushed false
      ∷ popped (some 4)
      ∷ popped (some 5)
      ∷ pushed true
      ∷ pushed true
      ∷ popped (some 6)
      ∷ []
queue_answers = refl

abbrev two : Fifo ℕ
two = record { front = 2 ^ 64 - 1; back = 1; size = 3; mask = 3; slots = 7 ∷ 0 ∷ 0 ∷ 6 ∷ [] }

two-Represents : Represents two (6 ∷ 7 ∷ [])
two-Represents = record {
  power = 2;
  power_le = omega arith;
  mask = refl;
  memory = refl;
  size_le = omega arith;
  front_lt = omega arith;
  length_le = omega arith;
  back = refl;
  entries = at;
}
  where
    at : (i : ℕ) → i < 2 → get_elem? two.slots ((two.front + i) % 4) ≡ get_elem? (6 ∷ 7 ∷ []) i
    at zero h = refl
    at (suc zero) h = refl
    at (suc (suc i)) h = absurd (omega arith)

abbrev single : Fifo ℕ
single = init_fifo unset 1 (0 ∷ [])

-- One of two elements fits.
fifo_move-Moved_example : Moved (fifo_move 3 single two) [] (6 ∷ 7 ∷ []) (min (single.size - 0) 2)
unfolding roundup_pow_of_two fls64 fls_upto
fifo_move-Moved_example =
    fifo_move-Moved 3 single two [] (6 ∷ 7 ∷ [])
      (init_fifo-Represents unset 1 (0 ∷ []) (omega arith) (omega arith) refl) two-Represents
      (omega arith)
