-- ===== src/Six/Invariant.antt =====
-- The word and what the threads hold agree, in every reachable state.
use bcache_tools.Base.{
  ℕ, ◌+◌, ◌%◌, ◌^◌, ◌<◌, ◌≤◌, ◌≡◌, ◌≢◌, ◌⊎◌, inl, inr, some, refl, false, arith, sym, ◌∙◌, ap,
}
use mathlib.Core.Path.{subst}
use bcache_tools.Base.Family.{assign, total, total-assign, le-total, total_of_zero, total-eq-one}
use bcache_tools.Six.{
  LockType, read, intent, write, read_lock, intent_lock, seq, waiters, trylock_word, unlock_word,
  convert_word, increment_word, lock_round_word, waitlist_bit, set_bit,
}
use bcache_tools.Six.System.{
  Held, gain, lose, System, event, MayLock, MayUnlock, MayIncrement, Step, trylock, relock, unlock,
  convert, increment, wait, clear, flag, Reach, here, later, start, nothing,
}
use bcache_tools.Six.Fields.{
  Room, Free, Fields, one_if, add-Fields, unlock_word-Fields, trylock_word-eq-some,
  relock_word-eq-some, convert_word-eq-trylock_word, set_bit-Fields, clear_bit-Fields,
}

pub record Inv (n : ℕ) (s : System) : Type 0 where
  pub fits : s.word < 2 ^ 64
  pub reads : read_lock s.word ≡ total (λ h. h.reads) n s.held
  pub intents : intent_lock s.word ≡ total (λ h. h.intents) n s.held
  pub writes : seq s.word % 2 ≡ total (λ h. h.writes) n s.held
  pub counted : seq s.word ≡ s.events % 2 ^ 32
  pub exclusive : 0 < seq s.word % 2 → read_lock s.word ≡ 0
  pub kept : 0 < seq s.word % 2 → 0 < intent_lock s.word
  pub writer : (i : ℕ) → i < n → 0 < (s.held i).writes → 0 < (s.held i).intents
  pub single : (i j : ℕ) → i < n → j < n → 0 < (s.held i).intents → 0 < (s.held j).intents → i ≡ j

pub Inv-start : (n : ℕ) → Inv n start
Inv-start n = record {
  fits = omega arith;
  reads = omega (arith, total_of_zero (λ (h : Held). h.reads) n nothing refl);
  intents = omega (arith, total_of_zero (λ (h : Held). h.intents) n nothing refl);
  writes = omega (arith, total_of_zero (λ (h : Held). h.writes) n nothing refl);
  counted = refl;
  exclusive = λ h. omega arith;
  kept = λ h. absurd (omega arith);
  writer = λ i lt h. omega arith;
  single = λ i j hi hj a b. absurd (omega arith);
}

-- What thread `i` knows of the word: `h` is what it holds.
pub record Local (w : ℕ) (h : Held) (events : ℕ) : Type 0 where
  pub fits : w < 2 ^ 64
  pub reads : h.reads ≤ read_lock w
  pub intents : h.intents ≤ intent_lock w
  pub writes : h.writes ≤ seq w % 2
  pub counted : seq w ≡ events % 2 ^ 32
  pub exclusive : 0 < seq w % 2 → read_lock w ≡ 0
  pub writer : 0 < h.writes → 0 < h.intents
  pub kept : 0 < seq w % 2 → 0 < intent_lock w
  pub sole : 0 < h.intents → h.writes ≡ seq w % 2

-- An operation of the thread takes the word from `w` to `v` as its counts go from `h` to `a`.
pub record Moves (w : ℕ) (h a : Held) (v events : ℕ) : Type 0 where
  pub reads : read_lock v + h.reads ≡ read_lock w + a.reads
  pub intents : intent_lock v + h.intents ≡ intent_lock w + a.intents
  pub writes : seq v % 2 + h.writes ≡ seq w % 2 + a.writes
  pub after : Local v a events
  pub taken : 0 < a.intents → (0 < h.intents) ⊎ (intent_lock w ≡ 0)

lock-Moves :
    (t : LockType) {w e v : ℕ} {h : Held}
    → Local w h e
    → MayLock t h
    → Room t w
    → trylock_word t w ≡ some v
    → Moves w h (gain t h) v (e + event t)
lock-Moves t {w} l may room q =
    let (z, free) = trylock_word-eq-some t w q in
    rw z (moved t l may free (add-Fields t w l.fits room))
  where
    moved :
        (t : LockType) {w e v : ℕ} {h : Held}
        → Local w h e
        → MayLock t h
        → Free t w
        → Fields v
            (read_lock w + one_if read t)
            (intent_lock w + one_if intent t)
            (waiters w)
            ((seq w + one_if write t) % 2 ^ 32)
        → Moves w h (gain t h) v (e + event t)
    moved read l may free f = ground arith
    moved intent l may free f = ground arith
    moved write l may free f = ground arith

unlock-Moves :
    (t : LockType) {w e : ℕ} {h : Held}
    → Local w h e
    → MayUnlock t h
    → Moves w h (lose t h) (unlock_word t w) (e + event t)
unlock-Moves read {w} l may = ground (arith, unlock_word-Fields read w l.fits (omega arith))
unlock-Moves intent {w} l may = ground (arith, unlock_word-Fields intent w l.fits (omega arith))
unlock-Moves write {w} l may = ground (arith, unlock_word-Fields write w l.fits (omega arith))

Moves-trans :
    {w v u e e' : ℕ} {h a b : Held} → Moves w h a v e → Moves v a b u e' → Moves w h b u e'
Moves-trans m m' = ground arith

increment-Moves :
    (t : LockType) {w e : ℕ} {h : Held}
    → Local w h e
    → MayIncrement t h
    → Room t w
    → Moves w h (gain t h) (increment_word t w) e
unfolding increment_word
increment-Moves read {w} l may room = ground (arith, add-Fields read w l.fits room)
increment-Moves intent {w} l may room = ground (arith, add-Fields intent w l.fits room)
increment-Moves write l may room = absurd may

module _ {n : ℕ} {s : System} (inv : Inv n s) (i : ℕ) (lt : i < n) where
  no_intent : intent_lock s.word ≡ 0 → (j : ℕ) → j < n → (s.held j).intents ≡ 0
  no_intent free j hj = omega (arith, inv.intents, le-total (λ (h : Held). h.intents) n s.held j hj)

  single-assign :
      (a : Held)
      → (0 < a.intents → (0 < (s.held i).intents) ⊎ (intent_lock s.word ≡ 0))
      → (j : ℕ) → j < n
      → j ≢ i
      → 0 < a.intents
      → 0 < (s.held j).intents
      → ⊥
  single-assign a taken j hj ne ha hb = elim (taken ha) [
    | inl had ↦ ne (inv.single j i hj lt hb had)
    | inr free ↦ omega (arith, no_intent free j hj)
  ]

  pub Moves-Inv :
      (a : Held) (v e : ℕ)
      → Moves s.word (s.held i) a v e
      → Inv n (record { word = v; held = assign s.held i a; events = e })
  Moves-Inv a v e m = record {
    fits = m.after.fits;
    reads = omega (arith, m.reads, inv.reads, total-assign (λ (h : Held). h.reads) s.held a lt);
    intents =
        omega (arith, m.intents, inv.intents, total-assign (λ (h : Held). h.intents) s.held a lt);
    writes = omega (arith, m.writes, inv.writes, total-assign (λ (h : Held). h.writes) s.held a lt);
    counted = m.after.counted;
    exclusive = m.after.exclusive;
    kept = m.after.kept;
    writer = λ j hj w. ground (arith, m.after.writer, inv.writer j hj);
    single = λ j k hj hk x y.
        ground
          (arith, inv.single j k hj hk, single-assign a m.taken j hj, single-assign a m.taken k hk);
  }

  pub Inv-Local : Local s.word (s.held i) s.events
  Inv-Local = record {
    fits = inv.fits;
    reads = omega (arith, inv.reads, le-total (λ (h : Held). h.reads) n s.held i lt);
    intents = omega (arith, inv.intents, le-total (λ (h : Held). h.intents) n s.held i lt);
    writes = omega (arith, inv.writes, le-total (λ (h : Held). h.writes) n s.held i lt);
    counted = inv.counted;
    exclusive = inv.exclusive;
    kept = inv.kept;
    writer = inv.writer i lt;
    sole = λ has. sym (
        inv.writes
        ∙ total-eq-one (λ (h : Held). h.writes) n s.held i lt
            (λ j hj ne. ground (arith, inv.writer j hj, inv.single j i hj lt)));
  }

-- A change of the `waiters` alone.
waiters-Inv :
    {n : ℕ} {s : System} {v : ℕ}
    → Inv n s
    → (v < 2 ^ 64)
      × (read_lock v ≡ read_lock s.word)
      × (intent_lock v ≡ intent_lock s.word)
      × (seq v ≡ seq s.word)
    → Inv n (record s { word = v })
waiters-Inv inv same = record {
  fits = same.0;
  reads = same.1 ∙ inv.reads;
  intents = same.2 ∙ inv.intents;
  writes = ap (λ t. t % 2) same.3 ∙ inv.writes;
  counted = same.3 ∙ inv.counted;
  exclusive = ground (arith, inv.exclusive);
  kept = ground (arith, inv.kept);
  writer = inv.writer;
  single = inv.single;
}

lock_round_word-eq :
    (t : LockType) (w v : ℕ) → lock_round_word t w ≡ (false, v) → v ≡ set_bit (waitlist_bit t) w
unfolding lock_round_word
lock_round_word-eq t w v e = ground arith

event-eq-zero : (t : LockType) → t ≢ write → event t ≡ 0
event-eq-zero read ne = refl
event-eq-zero intent ne = refl
event-eq-zero write ne = absurd (ne refl)

MayLock-of_ne : (t : LockType) (h : Held) → t ≢ write → MayLock t h
MayLock-of_ne read h ne = tt
MayLock-of_ne intent h ne = tt
MayLock-of_ne write h ne = absurd (ne refl)

convert-Moves :
    (from to : LockType) {w e v : ℕ} {h : Held}
    → Local w h e
    → from ≢ write
    → to ≢ write
    → MayUnlock from h
    → Room to (unlock_word from w)
    → convert_word from to w ≡ some v
    → Moves w h (gain to (lose from h)) v e
convert-Moves from to {w} {e} {v} {h} l hf ht may room q =
    subst (λ t. Moves w h (gain to (lose from h)) v t) same_events (Moves-trans released locked)
  where
    released : Moves w h (lose from h) (unlock_word from w) (e + event from)
    released = unlock-Moves from l may

    locked :
        Moves
          (unlock_word from w)
          (lose from h)
          (gain to (lose from h))
          v
          (e + event from + event to)
    locked =
        lock-Moves to released.after (MayLock-of_ne to _ ht) room
          (sym (convert_word-eq-trylock_word from to w) ∙ q)

    same_events : e + event from + event to ≡ e
    same_events = omega (arith, event-eq-zero from hf, event-eq-zero to ht)

-- Every step of the threads keeps the invariant.
pub Step-Inv : {n : ℕ} {s u : System} → Step n s u → Inv n s → Inv n u
Step-Inv {s} (trylock i v t lt may room e) inv =
    Moves-Inv inv i lt _ v _ (lock-Moves t (Inv-Local inv i lt) may room e)
Step-Inv {s} (relock i v at t lt may room e) inv =
    Moves-Inv inv i lt _ v _
      (lock-Moves t (Inv-Local inv i lt) may room (relock_word-eq-some t at s.word e).0)
Step-Inv (unlock i t lt may) inv =
    Moves-Inv inv i lt _ _ _ (unlock-Moves t (Inv-Local inv i lt) may)
Step-Inv {s} (convert i v from to lt hf ht may room e) inv =
    Moves-Inv inv i lt _ v _ (convert-Moves from to (Inv-Local inv i lt) hf ht may room e)
Step-Inv (increment i t lt may room) inv =
    Moves-Inv inv i lt _ _ _ (increment-Moves t (Inv-Local inv i lt) may room)
Step-Inv {s} (wait v t e) inv =
    waiters-Inv inv (rw (lock_round_word-eq t s.word v e) (set_bit-Fields t s.word inv.fits))
Step-Inv {s} (clear t) inv = waiters-Inv inv (clear_bit-Fields t s.word inv.fits)
Step-Inv {s} (flag t) inv = waiters-Inv inv (set_bit-Fields t s.word inv.fits)

pub Reach-Inv : {n : ℕ} {s u : System} → Inv n s → Reach n s u → Inv n u
Reach-Inv inv here = inv
Reach-Inv inv (later r st) = Step-Inv st (Reach-Inv inv r)
