-- ===== src/Six/System.antt =====
-- Threads that use one lock, interleaved in any order. The premises of a step are what six.c asks
-- of its callers: a lock is released by a thread that holds it, the write lock is taken by the
-- holder of the intent lock, and the counts fit their fields ("that we don't overflow").
use bcache_tools.Base.{ℕ, ◌+◌, ◌-◌, ◌<◌, ◌≡◌, ◌≢◌, ◌⊎◌, false, some}
use bcache_tools.Base.Family.{assign}
use bcache_tools.Six.Fields.{Room}
use bcache_tools.Six.{
  LockType, read, intent, write, trylock_word, relock_word, unlock_word, convert_word,
  increment_word, lock_round_word, waitlist_bit, set_bit, clear_bit,
}

-- How often a thread holds each lock.
pub record Held : Type 0 where
  pub reads : ℕ
  pub intents : ℕ
  pub writes : ℕ

abbrev pub count : LockType → Held → ℕ
count read h = h.reads
count intent h = h.intents
count write h = h.writes

abbrev pub gain : LockType → Held → Held
gain read h = record h { reads = h.reads + 1 }
gain intent h = record h { intents = h.intents + 1 }
gain write h = record h { writes = h.writes + 1 }

abbrev pub lose : LockType → Held → Held
lose read h = record h { reads = h.reads - 1 }
lose intent h = record h { intents = h.intents - 1 }
lose write h = record h { writes = h.writes - 1 }

-- `events` counts the lockings and unlockings for write since `six_lock_init`.
pub record System : Type 0 where
  pub word : ℕ
  pub held : ℕ → Held
  pub events : ℕ

abbrev pub event : LockType → ℕ
event write = 1
event _ = 0

-- What the caller of a locking function guarantees.
abbrev pub MayLock : LockType → Held → Type 0
MayLock write h = (0 < h.intents) × (h.writes ≡ 0)
MayLock _ h = Unit

-- What the caller of an unlocking function guarantees: a writer keeps its intent lock.
abbrev pub MayUnlock : LockType → Held → Type 0
MayUnlock intent h = (0 < h.intents) × ((h.writes ≡ 0) ⊎ (1 < h.intents))
MayUnlock t h = 0 < count t h

-- "assuming we already have it read or intent locked"
abbrev pub MayIncrement : LockType → Held → Type 0
MayIncrement read h = (0 < h.reads) ⊎ ((0 < h.intents) × (h.writes ≡ 0))
MayIncrement intent h = 0 < h.intents
MayIncrement write h = ⊥

pub data Step (n : ℕ) (s : System) : System → Type 0 where
  trylock :
      (i v : ℕ) (t : LockType)
      → i < n
      → MayLock t (s.held i)
      → Room t s.word
      → trylock_word t s.word ≡ some v
      → Step n s (record {
        word = v;
        held = assign s.held i (gain t (s.held i));
        events = s.events + event t;
      })
  relock :
      (i v at : ℕ) (t : LockType)
      → i < n
      → MayLock t (s.held i)
      → Room t s.word
      → relock_word t at s.word ≡ some v
      → Step n s (record {
        word = v;
        held = assign s.held i (gain t (s.held i));
        events = s.events + event t;
      })
  unlock :
      (i : ℕ) (t : LockType)
      → i < n
      → MayUnlock t (s.held i)
      → Step n s (record {
        word = unlock_word t s.word;
        held = assign s.held i (lose t (s.held i));
        events = s.events + event t;
      })
  convert :
      (i v : ℕ) (from to : LockType)
      → i < n
      → from ≢ write
      → to ≢ write
      → MayUnlock from (s.held i)
      → Room to (unlock_word from s.word)
      → convert_word from to s.word ≡ some v
      → Step n s (record s { word = v; held = assign s.held i (gain to (lose from (s.held i))) })
  increment :
      (i : ℕ) (t : LockType)
      → i < n
      → MayIncrement t (s.held i)
      → Room t s.word
      → Step n s
          (record s { word = increment_word t s.word; held = assign s.held i (gain t (s.held i)) })
  -- a round of `six_lock_type` that does not take the lock
  wait :
      (v : ℕ) (t : LockType)
      → lock_round_word t s.word ≡ (false, v)
      → Step n s (record s { word = v })
  -- the two atomic changes of `waiters` in `six_lock_wakeup`
  clear : (t : LockType) → Step n s (record s { word = clear_bit (waitlist_bit t) s.word })
  flag : (t : LockType) → Step n s (record s { word = set_bit (waitlist_bit t) s.word })

pub data Reach (n : ℕ) (s : System) : System → Type 0 where
  here : Reach n s s
  later : {t u : System} → Reach n s t → Step n t u → Reach n s u

abbrev pub nothing : Held
nothing = record { reads = 0; intents = 0; writes = 0 }

-- `six_lock_init`: nobody holds anything.
abbrev pub start : System
start = record { word = 0; held = λ _. nothing; events = 0 }
