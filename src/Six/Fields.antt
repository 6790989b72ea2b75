-- ===== src/Six/Fields.antt =====
-- What the masks of six.c test, and what its additions do to the bit fields.
use bcache_tools.Base.{u64, ℕ, ◌+◌, ◌-◌, ◌/◌, ◌%◌, ◌^◌, ◌<◌, true, false, ◌≡◌, arith, some, refl}
use bcache_tools.Base.Bits.{bit_and-low_mask, bit_and-shl}
use bcache_tools.Six.{
  LockType, read, intent, write, read_lock, intent_lock, waiters, seq, held_mask, hits,
  trylock_word, relock_word, unlock_word, convert_word, lock_val, set_bit, clear_bit, waitlist_bit,
}

-- The field that a mask of `held_mask` looks at; for `write` the lowest bit of `seq`.
abbrev pub held : LockType → ℕ → ℕ
held read v = read_lock v
held intent v = intent_lock v
held write v = seq v % 2

pub hits-held_mask : (t : LockType) (v : ℕ) → hits v (held_mask t) ≡ false → held t v ≡ 0
hits-held_mask read v h = ground (arith, bit_and-low_mask 26 v)
hits-held_mask intent v h = ground (arith, bit_and-shl 26 v 7, bit_and-low_mask 3 (v / 2 ^ 26))
hits-held_mask write v h = ground (arith, bit_and-shl 32 v 1, bit_and-low_mask 1 (v / 2 ^ 32))

pub held-hits : (t : LockType) (v : ℕ) → hits v (held_mask t) ≡ true → 0 < held t v
held-hits read v h = ground (arith, bit_and-low_mask 26 v)
held-hits intent v h = ground (arith, bit_and-shl 26 v 7, bit_and-low_mask 3 (v / 2 ^ 26))
held-hits write v h = ground (arith, bit_and-shl 32 v 1, bit_and-low_mask 1 (v / 2 ^ 32))

-- The fields of a word, one by one.
pub record Fields (v r i w q : ℕ) : Type 0 where
  pub fits : v < 2 ^ 64
  pub reads : read_lock v ≡ r
  pub intents : intent_lock v ≡ i
  pub waiting : waiters v ≡ w
  pub sequence : seq v ≡ q

-- What a lock of each type adds to the fields.
abbrev pub one_if : LockType → LockType → ℕ
one_if read read = 1
one_if intent intent = 1
one_if write write = 1
one_if _ _ = 0

abbrev pub Room : LockType → ℕ → Type 0
Room read v = read_lock v + 1 < 2 ^ 26
Room intent v = intent_lock v + 1 < 2 ^ 3
Room write v = Unit

-- Taking a lock that has room in its field changes that field alone; for write it is the lowest
-- bits of `seq`, which wraps.
pub add-Fields :
    (t : LockType) (v : ℕ)
    → v < 2 ^ 64
    → Room t v
    → Fields
        (u64 (v + lock_val t))
        (read_lock v + one_if read t)
        (intent_lock v + one_if intent t)
        (waiters v)
        ((seq v + one_if write t) % 2 ^ 32)
add-Fields read v fits room = omega arith
add-Fields intent v fits room = omega arith
add-Fields write v fits room = omega arith

pub unlock_word-Fields :
    (t : LockType) (v : ℕ)
    → v < 2 ^ 64
    → 0 < held t v
    → Fields
        (unlock_word t v)
        (read_lock v - one_if read t)
        (intent_lock v - one_if intent t)
        (waiters v)
        ((seq v + one_if write t) % 2 ^ 32)
unfolding unlock_word
unlock_word-Fields read v fits h = omega arith
unlock_word-Fields intent v fits h = omega arith
unlock_word-Fields write v fits h = omega arith

-- What the test of `six_trylock_type` finds free.
abbrev pub Free : LockType → ℕ → Type 0
Free read v = seq v % 2 ≡ 0
Free intent v = intent_lock v ≡ 0
Free write v = read_lock v ≡ 0

pub trylock_word-eq-some :
    (t : LockType) (v : ℕ) {w : ℕ}
    → trylock_word t v ≡ some w
    → (w ≡ u64 (v + lock_val t)) × Free t v
unfolding trylock_word
trylock_word-eq-some read v e = ground (arith, hits-held_mask write v)
trylock_word-eq-some intent v e = ground (arith, hits-held_mask intent v)
trylock_word-eq-some write v e = ground (arith, hits-held_mask read v)

-- `six_relock_type` succeeds only where `six_trylock_type` would, and at the given `seq`.
pub relock_word-eq-some :
    (t : LockType) (at v : ℕ) {w : ℕ}
    → relock_word t at v ≡ some w
    → (trylock_word t v ≡ some w) × (seq v ≡ at)
unfolding relock_word trylock_word
relock_word-eq-some t at v e = ground arith

pub convert_word-eq-trylock_word :
    (from to : LockType) (v : ℕ) → convert_word from to v ≡ trylock_word to (unlock_word from v)
unfolding convert_word trylock_word unlock_word
convert_word-eq-trylock_word from to v = refl

-- The `waiters` field is no part of the others.
pub set_bit-Fields :
    (t : LockType) (v : ℕ)
    → v < 2 ^ 64
    → (set_bit (waitlist_bit t) v < 2 ^ 64)
      × (read_lock (set_bit (waitlist_bit t) v) ≡ read_lock v)
      × (intent_lock (set_bit (waitlist_bit t) v) ≡ intent_lock v)
      × (seq (set_bit (waitlist_bit t) v) ≡ seq v)
set_bit-Fields read v fits = ground arith
set_bit-Fields intent v fits = ground arith
set_bit-Fields write v fits = ground arith

pub clear_bit-Fields :
    (t : LockType) (v : ℕ)
    → v < 2 ^ 64
    → (clear_bit (waitlist_bit t) v < 2 ^ 64)
      × (read_lock (clear_bit (waitlist_bit t) v) ≡ read_lock v)
      × (intent_lock (clear_bit (waitlist_bit t) v) ≡ intent_lock v)
      × (seq (clear_bit (waitlist_bit t) v) ≡ seq v)
clear_bit-Fields read v fits = ground arith
clear_bit-Fields intent v fits = ground arith
clear_bit-Fields write v fits = ground arith
