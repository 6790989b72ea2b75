-- ===== src/Six/Safety.antt =====
-- What six.h promises of the three kinds of lock and of `seq`, for every interleaving.
use bcache_tools.Base.{ℕ, ◌+◌, ◌^◌, ◌<◌, ◌≤◌, ◌≡◌, ◌≢◌, some, refl, arith, u64, ◌*◌}
use bcache_tools.Base.Family.{two-le-total}
use bcache_tools.Six.{LockType, read, intent, write, seq, trylock_word, relock_word, unlock_word}
use bcache_tools.Six.System.{
  Held, System, Step, trylock, relock, unlock, convert, increment, wait, clear, flag, Reach, here,
  later, start,
}
use bcache_tools.Six.Fields.{Room, trylock_word-eq-some, relock_word-eq-some}
use bcache_tools.Six.Invariant.{Inv-start, Reach-Inv, Inv-Local}

-- Write excludes read: in every reachable state, while a thread holds the write lock no thread
-- holds a read lock, no other thread holds the write lock or the intent lock, and the writer
-- itself holds the intent lock and holds the write lock once.
pub write_excludes :
    {n : ℕ} {s : System}
    → Reach n start s
    → (i j : ℕ) → i < n
    → j < n
    → 0 < (s.held i).writes
    → ((s.held j).reads ≡ 0)
      × ((s.held i).writes ≡ 1)
      × (0 < (s.held i).intents)
      × (i ≢ j → ((s.held j).writes ≡ 0) × ((s.held j).intents ≡ 0))
write_excludes {n} {s} r i j hi hj w =
    let inv = Reach-Inv (Inv-start n) r in
    let l = Inv-Local inv i hi in
    let k = Inv-Local inv j hj in
    (
      omega (arith, k.reads, l.exclusive (omega (arith, l.writes))),
      omega (arith, l.writes),
      l.writer w,
      λ ne. (
        omega (arith, inv.writes, two-le-total (λ (h : Held). h.writes) n s.held i j hi hj ne),
        ground (arith, l.writer, inv.single i j hi hj),
      ),
    )

-- Intent excludes intent: in every reachable state at most one thread holds the intent lock.
pub intent_excludes :
    {n : ℕ} {s : System}
    → Reach n start s
    → (i j : ℕ) → i < n
    → j < n
    → 0 < (s.held i).intents
    → 0 < (s.held j).intents
    → i ≡ j
intent_excludes {n} r = (Reach-Inv (Inv-start n) r).single

Step-events : {n : ℕ} {s u : System} → Step n s u → s.events ≤ u.events
Step-events (trylock i v t a b c d) = omega arith
Step-events (relock i v at t a b c d) = omega arith
Step-events (unlock i t a b) = omega arith
Step-events (convert i v from to a b c d e f) = omega arith
Step-events (increment i t a b c) = omega arith
Step-events (wait v t a) = omega arith
Step-events (clear t) = omega arith
Step-events (flag t) = omega arith

Reach-events : {n : ℕ} {s u : System} → Reach n s u → s.events ≤ u.events
Reach-events here = omega arith
Reach-events (later r st) = omega (arith, Reach-events r, Step-events st)

Reach-trans : {n : ℕ} {s t u : System} → Reach n s t → Reach n t u → Reach n s u
Reach-trans r here = r
Reach-trans r (later q st) = later (Reach-trans r q) st

-- A relock with the `seq` of an earlier state: where it succeeds, and fewer than 2^32 lockings and
-- unlockings for write happened in between, none happened at all; and where none happened, it
-- answers as a fresh trylock does.
pub relock_sound :
    {n : ℕ} {s u : System}
    → Reach n start s
    → Reach n s u
    → u.events < s.events + 2 ^ 32
    → (t : LockType)
    → ((v : ℕ) → relock_word t (seq s.word) u.word ≡ some v → u.events ≡ s.events)
      × (u.events ≡ s.events → relock_word t (seq s.word) u.word ≡ trylock_word t u.word)
unfolding relock_word trylock_word
relock_sound {n} {s} {u} r q few t =
    let inv = Reach-Inv (Inv-start n) r in
    let inv' = Reach-Inv inv q in
    (
      λ v e. omega (
        arith,
        inv.counted,
        inv'.counted,
        (relock_word-eq-some t (seq s.word) u.word e).1,
        Reach-events q,
      ),
      λ e. ground (arith, inv.counted, inv'.counted),
    )

-- Unlocking undoes locking on a word with room in the lock's field: the word is as before, but for
-- `seq`, which a write lock moves on by two, from an even number to an even number.
unlock-trylock :
    (t : LockType) (v w : ℕ)
    → v < 2 ^ 64
    → Room t v
    → trylock_word t v ≡ some w
    → (t ≢ write → unlock_word t w ≡ v) × (t ≡ write → unlock_word t w ≡ u64 (v + 2 * 2 ^ 32))
unfolding unlock_word
unlock-trylock read v w fits room e = (λ _. omega (arith, trylock_word-eq-some read v e), λ p. cc)
unlock-trylock intent v w fits room e =
    (λ _. omega (arith, trylock_word-eq-some intent v e), λ p. cc)
unlock-trylock write v w fits room e =
    (λ ne. absurd (ne refl), λ _. omega (arith, trylock_word-eq-some write v e))
