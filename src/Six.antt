-- ===== src/Six.antt =====
-- libbcache/six.c and six.h: shared/intent/exclusive locks in one 64-bit word.
-- `READ_ONCE` with its compare-and-exchange loop is one atomic step: the loop leaves only through
-- a return, or by an exchange at an unchanged word. `EBUG_ON` and lockdep are debugging aids; the
-- conditions that they assert are premises of the steps in Six/System.antt.
pub mod Fields
pub mod System
pub mod Invariant
pub mod Safety
pub mod Waiters
mod Tests
use bcache_tools.Base.{
  ℕ, ◌+◌, ◌-◌, ◌*◌, ◌/◌, ◌%◌, ◌^◌, bit_and, Bool, true, false, not, ◌&&◌, ◌||◌, Option, none, some,
  List, [], ◌∷◌, ◌++◌, if◌then◌else◌, ◌==◌, u64,
}

-- `enum six_lock_type`
pub data LockType : Type 0 where
  read intent write : LockType

abbrev pub index : LockType → ℕ
index read = 0
index intent = 1
index write = 2

-- The bit fields of `union six_lock_state`, lowest first: 26, 3, 3 and 32 bits.
abbrev pub read_lock : ℕ → ℕ
read_lock v = v % 2 ^ 26

abbrev pub intent_lock : ℕ → ℕ
intent_lock v = v / 2 ^ 26 % 2 ^ 3

abbrev pub waiters : ℕ → ℕ
waiters v = v / 2 ^ 29 % 2 ^ 3

abbrev pub seq : ℕ → ℕ
seq v = v / 2 ^ 32 % 2 ^ 32

-- `__SIX_LOCK_HELD_read`, `_intent` and `_write`
abbrev pub held_mask : LockType → ℕ
held_mask read = 2 ^ 26 - 1
held_mask intent = 7 * 2 ^ 26
held_mask write = 1 * 2 ^ 32

-- The columns of `LOCK_VALS`.
abbrev pub lock_val : LockType → ℕ
lock_val read = 1
lock_val intent = 2 ^ 26
lock_val write = 2 ^ 32

abbrev pub lock_fail : LockType → ℕ
lock_fail read = held_mask write
lock_fail intent = held_mask intent
lock_fail write = held_mask read

abbrev pub unlock_val : LockType → ℕ
unlock_val read = 2 ^ 64 - 1
unlock_val intent = 2 ^ 64 - 2 ^ 26
unlock_val write = 2 ^ 32

abbrev pub unlock_wakeup : LockType → LockType
unlock_wakeup read = write
unlock_wakeup intent = intent
unlock_wakeup write = read

-- `v & mask`, as a condition
abbrev pub hits : ℕ → ℕ → Bool
hits v mask = not (bit_and v mask == 0)

-- The word that `__six_trylock_type` stores; `none` where it returns false.
pub trylock_word : LockType → ℕ → Option ℕ
trylock_word t v = if hits v (lock_fail t) then none else some (u64 (v + lock_val t))

-- The word that `six_relock_type` stores.
pub relock_word : LockType → ℕ → ℕ → Option ℕ
relock_word t at v =
    if not (seq v == at) || hits v (lock_fail t) then none else some (u64 (v + lock_val t))

pub unlock_word : LockType → ℕ → ℕ
unlock_word t v = u64 (v + unlock_val t)

-- The word that `six_trylock_convert` stores. Its test reads the word without the old lock.
pub convert_word : LockType → LockType → ℕ → Option ℕ
convert_word from to v =
    let new = u64 (v + unlock_val from) in
    if hits new (lock_fail to) then none else some (u64 (new + lock_val to))

pub increment_word : LockType → ℕ → ℕ
increment_word t v = u64 (v + lock_val t)

-- `waitlist_bitnr(id)`: `waiters` begins at bit 29.
abbrev pub waitlist_bit : LockType → ℕ
waitlist_bit t = 2 ^ (29 + index t)

abbrev pub test_bit : ℕ → ℕ → Bool
test_bit bit v = v / bit % 2 == 1

abbrev pub set_bit : ℕ → ℕ → ℕ
set_bit bit v = if test_bit bit v then v else v + bit

abbrev pub clear_bit : ℕ → ℕ → ℕ
clear_bit bit v = if test_bit bit v then v - bit else v

-- One round of the exchange loop in `six_lock_type`: the new word, and whether it took the lock.
pub lock_round_word : LockType → ℕ → Bool × ℕ
lock_round_word t v =
    if hits v (lock_fail t)
    then (false, set_bit (waitlist_bit t) v)
    else (true, u64 (v + lock_val t))

-- `struct six_lock`, less the optimistic-spin queue. A task is a number.
pub record SixLock : Type 0 where
  pub state : ℕ
  pub owner : Option ℕ
  pub wait_read : List ℕ
  pub wait_intent : List ℕ
  pub wait_write : List ℕ

pub init : SixLock
init = record { state = 0; owner = none; wait_read = []; wait_intent = []; wait_write = [] }

abbrev pub wait_list : LockType → SixLock → List ℕ
wait_list read l = l.wait_read
wait_list intent l = l.wait_intent
wait_list write l = l.wait_write

abbrev pub set_wait_list : LockType → List ℕ → SixLock → SixLock
set_wait_list read ws l = record l { wait_read = ws }
set_wait_list intent ws l = record l { wait_intent = ws }
set_wait_list write ws l = record l { wait_write = ws }

pub set_owner : LockType → ℕ → SixLock → SixLock
set_owner intent current l = record l { owner = some current }
set_owner _ current l = l

pub clear_owner : LockType → SixLock → SixLock
clear_owner intent l = record l { owner = none }
clear_owner _ l = l

-- `six_trylock_type` by the task `current`.
pub trylock_type : LockType → ℕ → SixLock → Bool × SixLock
trylock_type t current l = elim (trylock_word t l.state) [
  | none ↦ (false, l)
  | some v ↦ (true, set_owner t current (record l { state = v }))
]

pub relock_type : LockType → ℕ → ℕ → SixLock → Bool × SixLock
relock_type t at current l = elim (relock_word t at l.state) [
  | none ↦ (false, l)
  | some v ↦ (true, set_owner t current (record l { state = v }))
]

abbrev pub is_read : LockType → Bool
is_read read = true
is_read _ = false

abbrev pub is_write : LockType → Bool
is_write write = true
is_write _ = false

abbrev pub is_empty : List ℕ → Bool
is_empty [] = true
is_empty _ = false

-- The early returns of `six_lock_wakeup`.
pub nobody_to_wake : ℕ → LockType → Bool
nobody_to_wake state t =
    (is_write t && not (read_lock state == 0)) || not (test_bit (2 ^ index t) (waiters state))

-- `clear_bit`, the list as the loop left it, and `set_bit` if the loop asked for it.
pub after_wakeup : LockType → List ℕ × Bool → SixLock → SixLock
after_wakeup t (left, again) l =
    let v = clear_bit (waitlist_bit t) l.state in
    set_wait_list t left (record l { state = if again then set_bit (waitlist_bit t) v else v })

-- What `wake_up_process` answers is the scheduler's: `wake`.
module _ (wake : ℕ → Bool) where
  -- The loop over the wait list: the tasks left on it, and whether the bit is set again.
  pub wake_loop : LockType → List ℕ → List ℕ × Bool
  wake_loop t [] = ([], false)
  wake_loop t (w ∷ ws) =
      if wake w && not (is_read t) then (ws, not (is_empty ws)) else wake_loop t ws

  -- `six_lock_wakeup(lock, state, waitlist_id)`
  pub lock_wakeup : ℕ → LockType → SixLock → SixLock
  lock_wakeup state t l =
      if nobody_to_wake state t then l else after_wakeup t (wake_loop t (wait_list t l)) l

  pub unlock_type : LockType → SixLock → SixLock
  unlock_type t l =
      let v = unlock_word t l.state in
      lock_wakeup v (unlock_wakeup t) (record (clear_owner t l) { state = v })

  -- `six_lock_wakeup` is handed `new`, the word with the old lock released.
  pub trylock_convert : LockType → LockType → ℕ → SixLock → Bool × SixLock
  trylock_convert from to current l = elim (convert_word from to l.state) [
    | none ↦ (false, l)
    | some v ↦ (
      true,
      lock_wakeup (unlock_word from l.state) (unlock_wakeup from)
          (set_owner to current (clear_owner from (record l { state = v }))),
    )
  ]

  pub lock_increment : LockType → SixLock → SixLock
  lock_increment t l = record l { state = increment_word t l.state }

  pub lock_downgrade : SixLock → SixLock
  lock_downgrade l = unlock_type intent (lock_increment read l)

abbrev pub mem : ℕ → List ℕ → Bool
mem x [] = false
mem x (y ∷ ys) = (x == y) || mem x ys

abbrev pub remove : ℕ → List ℕ → List ℕ
remove x [] = []
remove x (y ∷ ys) = if x == y then ys else y ∷ remove x ys

-- `list_add_tail`, unless the task is on the list.
abbrev pub joined : ℕ → List ℕ → List ℕ
joined c ws = if mem c ws then ws else ws ++ (c ∷ [])

-- One round of the waiting loop of `six_lock_type`: the task joins the wait list if it is not on it,
-- tries the word, and on success leaves the list. `false` stands before `schedule()`.
pub lock_round : LockType → ℕ → SixLock → Bool × SixLock
lock_round t current l =
    let ws' = joined current (wait_list t l) in
    let (taken, v) = lock_round_word t l.state in
    if taken
    then (true, set_owner t current (set_wait_list t (remove current ws') (record l { state = v })))
    else (false, set_wait_list t ws' (record l { state = v }))
