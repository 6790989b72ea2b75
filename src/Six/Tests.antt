-- ===== src/Six/Tests.antt =====
-- The theorems on six.c at concrete locks.
use bcache_tools.Base.{
  ℕ, ◌+◌, ◌^◌, ◌<◌, ◌≡◌, ◌≢◌, refl, arith, some, true, false, [], ◌∷◌, ℕ_discrete,
}
use bcache_tools.Base.Family.{assign}
use bcache_tools.Six.{
  read, intent, write, SixLock, trylock_word, relock_word, unlock_type, lock_round, mem, wait_list,
}
use bcache_tools.Six.System.{System, Reach, here, later, trylock, start, gain, nothing}
use bcache_tools.Six.Safety.{write_excludes, intent_excludes, relock_sound}
use bcache_tools.Six.Waiters.{
  IsFlagged, unlock_type-IsFlagged, unlock_type-wait_read, lock_round-IsFlagged,
}

-- Thread 0 takes the intent lock, then the write lock.
abbrev has_intent : System
has_intent = record { word = 2 ^ 26; held = assign start.held 0 (gain intent nothing); events = 0 }

abbrev has_write : System
has_write = record {
  word = 2 ^ 26 + 2 ^ 32;
  held = assign has_intent.held 0 (gain write (gain intent nothing));
  events = 1;
}

to_intent : Reach 2 start has_intent
unfolding trylock_word ℕ_discrete
to_intent = later here (trylock 0 (2 ^ 26) intent (omega arith) tt (omega arith) refl)

to_write : Reach 2 has_intent has_write
unfolding trylock_word ℕ_discrete
to_write = later here (trylock 0 _ write (omega arith) (omega arith, refl) tt refl)

write_excludes_example :
    ((has_write.held 1).reads ≡ 0)
    × ((has_write.held 0).writes ≡ 1)
    × (0 < (has_write.held 0).intents)
    × (◌≢◌ {A = ℕ} 0 1 → ((has_write.held 1).writes ≡ 0) × ((has_write.held 1).intents ≡ 0))
unfolding trylock_word ℕ_discrete
write_excludes_example =
    write_excludes {n = 2} {s = has_write}
      (later to_intent
        (trylock 0 (2 ^ 26 + 2 ^ 32) write (omega arith) (omega arith, refl) tt refl))
      0 1 (omega arith) (omega arith) (omega arith)

intent_excludes_example : ◌≡◌ {A = ℕ} 0 0
unfolding ℕ_discrete
intent_excludes_example =
    intent_excludes to_intent 0 0 (omega arith) (omega arith) (omega arith) (omega arith)

relock_sound_example :
    ((v : ℕ) → relock_word read 0 (2 ^ 26 + 2 ^ 32) ≡ some v → ◌≡◌ {A = ℕ} 1 0)
    × (◌≡◌ {A = ℕ} 1 0 → relock_word read 0 (2 ^ 26 + 2 ^ 32) ≡ trylock_word read (2 ^ 26 + 2 ^ 32))
relock_sound_example = relock_sound to_intent to_write (omega arith) read

-- Held for write by one task, with a reader asleep.
abbrev contended : SixLock
contended = record {
  state = 2 ^ 26 + 2 ^ 29 + 2 ^ 32;
  owner = some 7;
  wait_read = 8 ∷ [];
  wait_intent = [];
  wait_write = [];
}

contended-IsFlagged : IsFlagged contended
contended-IsFlagged = record {
  fits = omega arith;
  flagged = elim [
    | read ↦ λ _. refl
    | intent ↦ λ h. absurd (h refl)
    | write ↦ λ h. absurd (h refl)
  ];
}

unlock_type-IsFlagged_example : IsFlagged (unlock_type (λ _. true) write contended)
unlock_type-IsFlagged_example =
    unlock_type-IsFlagged (λ _. true) write contended contended-IsFlagged (omega arith)

unlock_type-wait_read_example : (unlock_type (λ _. false) write contended).wait_read ≡ []
unlock_type-wait_read_example =
    unlock_type-wait_read (λ _. false) contended contended-IsFlagged (omega arith)

lock_round-IsFlagged_example :
    IsFlagged (lock_round read 9 contended).1
    × ((lock_round read 9 contended).0 ≡ false
        → mem 9 (wait_list read (lock_round read 9 contended).1) ≡ true)
lock_round-IsFlagged_example =
    lock_round-IsFlagged read 9 contended contended-IsFlagged (omega arith)
