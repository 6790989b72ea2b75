-- ===== src/Six/Waiters.antt =====
-- Wait lists and the `waiters` field: nobody sleeps on a list whose bit is clear.
use bcache_tools.Base.{
  ℕ, ◌+◌, ◌^◌, ◌<◌, ◌≡◌, ◌≢◌, ◌⊎◌, inl, inr, refl, arith, Bool, true, false, List, [], ◌∷◌, ◌++◌,
  Bool-cases, Option, none, some, u64,
}
use bcache_tools.Six.{
  LockType, read, intent, write, index, waiters, set_bit, clear_bit, test_bit, waitlist_bit,
  SixLock, wait_list, set_wait_list, lock_wakeup, wake_loop, unlock_type, unlock_word,
  unlock_wakeup, clear_owner, set_owner, lock_round, lock_round_word, hits, lock_fail, lock_val,
  mem, remove, joined, after_wakeup, nobody_to_wake,
}
use bcache_tools.Six.Fields.{held, Room, unlock_word-Fields, add-Fields}

-- A task on a wait list has its bit set.
pub record IsFlagged (l : SixLock) : Type 0 where
  pub fits : l.state < 2 ^ 64
  pub flagged : (t : LockType) → wait_list t l ≢ [] → test_bit (waitlist_bit t) l.state ≡ true

test_bit-waiters :
    (t : LockType) (v : ℕ) → test_bit (2 ^ index t) (waiters v) ≡ test_bit (waitlist_bit t) v
test_bit-waiters read v = ground arith
test_bit-waiters intent v = ground arith
test_bit-waiters write v = ground arith

-- Setting a bit sets it, clearing clears it, and neither touches the bit of another list.
test_bit-set_bit :
    (t u : LockType) (v : ℕ)
    → v < 2 ^ 64
    → (test_bit (waitlist_bit t) (set_bit (waitlist_bit t) v) ≡ true)
      × (test_bit (waitlist_bit u) v ≡ true
          → test_bit (waitlist_bit u) (set_bit (waitlist_bit t) v) ≡ true)
test_bit-set_bit read read v fits = ground arith
test_bit-set_bit read intent v fits = ground arith
test_bit-set_bit read write v fits = ground arith
test_bit-set_bit intent read v fits = ground arith
test_bit-set_bit intent intent v fits = ground arith
test_bit-set_bit intent write v fits = ground arith
test_bit-set_bit write read v fits = ground arith
test_bit-set_bit write intent v fits = ground arith
test_bit-set_bit write write v fits = ground arith

test_bit-clear_bit :
    (t u : LockType) (v : ℕ)
    → t ≢ u
    → test_bit (waitlist_bit u) v ≡ true
    → test_bit (waitlist_bit u) (clear_bit (waitlist_bit t) v) ≡ true
test_bit-clear_bit read read v ne h = absurd (ne refl)
test_bit-clear_bit read intent v ne h = ground arith
test_bit-clear_bit read write v ne h = ground arith
test_bit-clear_bit intent read v ne h = ground arith
test_bit-clear_bit intent intent v ne h = absurd (ne refl)
test_bit-clear_bit intent write v ne h = ground arith
test_bit-clear_bit write read v ne h = ground arith
test_bit-clear_bit write intent v ne h = ground arith
test_bit-clear_bit write write v ne h = absurd (ne refl)

-- To change one list and the word keeps the flags, if the word keeps the bits that are needed.
IsFlagged-set_wait_list :
    (t : LockType) (ws : List ℕ) (v : ℕ) (l : SixLock)
    → v < 2 ^ 64
    → (ws ≢ [] → test_bit (waitlist_bit t) v ≡ true)
    → ((u : LockType) → t ≢ u → wait_list u l ≢ [] → test_bit (waitlist_bit u) v ≡ true)
    → IsFlagged (set_wait_list t ws (record l { state = v }))
IsFlagged-set_wait_list read ws v l fits own others = record {
  fits = fits;
  flagged = elim [ read ↦ own | intent ↦ others intent (λ e. cc) | write ↦ others write (λ e. cc) ];
}
IsFlagged-set_wait_list intent ws v l fits own others = record {
  fits = fits;
  flagged = elim [ read ↦ others read (λ e. cc) | intent ↦ own | write ↦ others write (λ e. cc) ];
}
IsFlagged-set_wait_list write ws v l fits own others = record {
  fits = fits;
  flagged = elim [ read ↦ others read (λ e. cc) | intent ↦ others intent (λ e. cc) | write ↦ own ];
}

clear_bit-lt : (t : LockType) (v : ℕ) → v < 2 ^ 64 → clear_bit (waitlist_bit t) v < 2 ^ 64
clear_bit-lt t v fits = ground arith

set_bit-lt : (t : LockType) (v : ℕ) → v < 2 ^ 64 → set_bit (waitlist_bit t) v < 2 ^ 64
set_bit-lt read v fits = ground arith
set_bit-lt intent v fits = ground arith
set_bit-lt write v fits = ground arith

after_wakeup-IsFlagged :
    (t : LockType) (left : List ℕ) (again : Bool) (l : SixLock)
    → IsFlagged l
    → (left ≢ [] → again ≡ true)
    → IsFlagged (after_wakeup t (left, again) l)
unfolding after_wakeup
after_wakeup-IsFlagged t left true l f h =
    let v = clear_bit (waitlist_bit t) l.state in
    IsFlagged-set_wait_list t left _ l (set_bit-lt t v (clear_bit-lt t l.state f.fits))
      (λ _. (test_bit-set_bit t t v (clear_bit-lt t l.state f.fits)).0)
      (λ u ne some_wait.
        (test_bit-set_bit t u v (clear_bit-lt t l.state f.fits)).1
          (test_bit-clear_bit t u l.state ne (f.flagged u some_wait)))
after_wakeup-IsFlagged t left false l f h =
    IsFlagged-set_wait_list t left _ l (clear_bit-lt t l.state f.fits) (λ ne. cc (h ne))
      (λ u ne some_wait. test_bit-clear_bit t u l.state ne (f.flagged u some_wait))

-- A bit is read from `waiters` alone.
same_bit :
    (v w : ℕ)
    → waiters v ≡ waiters w
    → (t : LockType) → test_bit (waitlist_bit t) w ≡ true
    → test_bit (waitlist_bit t) v ≡ true
same_bit v w same t h = rw (← test_bit-waiters t v, same, test_bit-waiters t w) h

-- A word with the same `waiters`, and any owner, keeps the flags.
IsFlagged-state :
    (v : ℕ) (o : Option ℕ) (l : SixLock)
    → IsFlagged l
    → v < 2 ^ 64
    → waiters v ≡ waiters l.state
    → IsFlagged (record l { state = v; owner = o })
IsFlagged-state v o l f fits same = record {
  fits = fits;
  flagged = elim [
    | read ↦ λ h. same_bit v l.state same read (f.flagged read h)
    | intent ↦ λ h. same_bit v l.state same intent (f.flagged intent h)
    | write ↦ λ h. same_bit v l.state same write (f.flagged write h)
  ];
}

clear_owner-eq :
    (t : LockType) (l : SixLock) → (o : Option ℕ) × (clear_owner t l ≡ record l { owner = o })
unfolding clear_owner
clear_owner-eq read l = (l.owner, refl)
clear_owner-eq intent l = (none, refl)
clear_owner-eq write l = (l.owner, refl)

set_owner-eq :
    (t : LockType) (c : ℕ) (l : SixLock)
    → (o : Option ℕ) × (set_owner t c l ≡ record l { owner = o })
unfolding set_owner
set_owner-eq read c l = (l.owner, refl)
set_owner-eq intent c l = (some c, refl)
set_owner-eq write c l = (l.owner, refl)

IsFlagged-set_owner :
    (t : LockType) (c : ℕ) (l : SixLock) → IsFlagged l → IsFlagged (set_owner t c l)
IsFlagged-set_owner t c l f =
    let (o, e) = set_owner-eq t c l in rw e (IsFlagged-state l.state o l f f.fits refl)

remove-join-nil : (c : ℕ) (ws : List ℕ) → remove c (joined c ws) ≢ [] → ws ≢ []
remove-join-nil c [] h = λ e. h (ground arith)
remove-join-nil c (w ∷ ws) h = λ e. cc

list-cases : (ws : List ℕ) → (ws ≡ []) ⊎ (ws ≢ [])
list-cases [] = inl refl
list-cases (w ∷ ws) = inr (λ e. cc)

module _ (wake : ℕ → Bool) where
  -- The bit is set again exactly where tasks are left on the list.
  again-wake_loop :
      (t : LockType) (ws : List ℕ) → (wake_loop wake t ws).0 ≢ [] → (wake_loop wake t ws).1 ≡ true
  unfolding wake_loop
  again-wake_loop t [] h = absurd (h refl)
  again-wake_loop t (w ∷ ws) h = ground (arith, again-wake_loop t ws)

  wake_loop-read : (ws : List ℕ) → wake_loop wake read ws ≡ ([], false)
  unfolding wake_loop
  wake_loop-read [] = refl
  wake_loop-read (w ∷ ws) = ground (arith, wake_loop-read ws)

  pub lock_wakeup-IsFlagged :
      (state : ℕ) (t : LockType) (l : SixLock)
      → IsFlagged l
      → IsFlagged (lock_wakeup wake state t l)
  unfolding lock_wakeup
  lock_wakeup-IsFlagged state t l f = elim (Bool-cases (nobody_to_wake state t)) [
    | inl e ↦ rw e f
    | inr e ↦ rw e (after_wakeup-IsFlagged t _ _ l f (again-wake_loop t (wait_list t l)))
  ]

  -- Unlocking keeps a flag on every wait list that is not empty, whichever tasks wake up.
  pub unlock_type-IsFlagged :
      (t : LockType) (l : SixLock)
      → IsFlagged l
      → 0 < held t l.state
      → IsFlagged (unlock_type wake t l)
  unfolding unlock_type
  unlock_type-IsFlagged t l f has =
      let after = unlock_word-Fields t l.state f.fits has in
      let (o, e) = clear_owner-eq t l in
      lock_wakeup-IsFlagged (unlock_word t l.state) (unlock_wakeup t) _
        (rw e (IsFlagged-state (unlock_word t l.state) o l f after.fits after.waiting))

  -- Unlocking for write leaves no reader asleep.
  pub unlock_type-wait_read :
      (l : SixLock)
      → IsFlagged l
      → 0 < held write l.state
      → (unlock_type wake write l).wait_read ≡ []
  unfolding unlock_type lock_wakeup after_wakeup nobody_to_wake clear_owner
  unlock_type-wait_read l f has = elim (list-cases l.wait_read) [
    | inl none_wait ↦ ground (arith, wake_loop-read l.wait_read)
    | inr some_wait ↦ ground (
      arith,
      wake_loop-read l.wait_read,
      f.flagged read some_wait,
      (unlock_word-Fields write l.state f.fits has).waiting,
    )
  ]

lock_round_word-cases :
    (t : LockType) (v : ℕ)
    → (lock_round_word t v ≡ (false, set_bit (waitlist_bit t) v))
      ⊎ (lock_round_word t v ≡ (true, u64 (v + lock_val t)))
unfolding lock_round_word
lock_round_word-cases t v = elim (Bool-cases (hits v (lock_fail t))) [
  | inl e ↦ inl (rw e refl)
  | inr e ↦ inr (rw e refl)
]

mem-joined : (c : ℕ) (ws : List ℕ) → mem c (joined c ws) ≡ true
mem-joined c ws = elim (Bool-cases (mem c ws)) [ inl e ↦ rw e e | inr e ↦ rw e (at_end ws) ]
  where
    at_end : (ws : List ℕ) → mem c (ws ++ (c ∷ [])) ≡ true
    at_end [] = ground arith
    at_end (w ∷ ws) = ground (arith, at_end ws)

wait_list-set_wait_list :
    (t : LockType) (ws : List ℕ) (l : SixLock) → wait_list t (set_wait_list t ws l) ≡ ws
wait_list-set_wait_list read ws l = refl
wait_list-set_wait_list intent ws l = refl
wait_list-set_wait_list write ws l = refl

-- A round of the waiting loop keeps the flags; where it does not take the lock, the task is on the
-- wait list, so that the next wakeup of this list finds it.
pub lock_round-IsFlagged :
    (t : LockType) (c : ℕ) (l : SixLock)
    → IsFlagged l
    → Room t l.state
    → IsFlagged (lock_round t c l).1
      × ((lock_round t c l).0 ≡ false → mem c (wait_list t (lock_round t c l).1) ≡ true)
unfolding lock_round
lock_round-IsFlagged t c l f room = elim (lock_round_word-cases t l.state) [
  | inl e ↦ rw e (
    IsFlagged-set_wait_list t _ _ l (set_bit-lt t l.state f.fits)
        (λ _. (test_bit-set_bit t t l.state f.fits).0)
        (λ u ne some_wait. (test_bit-set_bit t u l.state f.fits).1 (f.flagged u some_wait)),
    λ _. rw wait_list-set_wait_list (mem-joined c (wait_list t l)),
  )
  | inr e ↦ rw e (
    let after = add-Fields t l.state f.fits room in
        IsFlagged-set_owner t c _ (
          IsFlagged-set_wait_list t _ _ l after.fits
            (λ some_wait.
              same_bit _ l.state after.waiting t
                (f.flagged t (remove-join-nil c (wait_list t l) some_wait)))
            (λ u ne some_wait. same_bit _ l.state after.waiting u (f.flagged u some_wait))),
    λ p. cc,
  )
]
