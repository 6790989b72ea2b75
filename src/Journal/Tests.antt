-- ===== src/Journal/Tests.antt =====
-- An entry of the journal that is opened, reserved from, closed and written: libbcache/journal.h and
-- journal.c.
use bcache_tools.Base.{Bool, List, [], arith, false, refl, true, ℕ, ◌∷◌, ◌≡◌}
use bcache_tools.Journal.{
  Res, ResState, buf_put, buf_switch, bug, closed_val, entry_open, fields, res_get_fast, state_inc,
  word,
}
use bcache_tools.Journal.System.{
  Journal, Reachable, at_start, get, next_step, open_entry, put, start, switch,
}
use bcache_tools.Journal.Counted.{All, AllApart}
use bcache_tools.Journal.Holders.{buf_switch_no_bug, reservations_apart, write_excludes_holders}

abbrev state : ℕ → ℕ → ℕ → ℕ → ℕ → ResState
state offset idx unwritten b0 b1 = record {
  cur_entry_offset = offset;
  idx = idx;
  prev_buf_unwritten = unwritten;
  buf0_count = b0;
  buf1_count = b1;
}

abbrev with_holders : ResState → List Res → Bool → Journal
with_holders s hs w = record { res = s; cur_entry_u64s = 100; holders = hs; writing = w }

abbrev first : Res
first = record { idx = 0; u64s = 8; offset = 0 }

abbrev second : Res
second = record { idx = 0; u64s = 10; offset = 8 }

abbrev switcher : Res
switcher = record { idx = 0; u64s = 0; offset = 0 }

abbrev opened : Journal
opened = with_holders (state 0 0 0 0 0) [] false

abbrev held : Journal
held = with_holders (state 18 0 0 2 0) (second ∷ first ∷ []) false

abbrev closed : Journal
closed = with_holders (state closed_val 1 1 3 0) (switcher ∷ second ∷ first ∷ []) false

abbrev writing : Journal
writing = with_holders (state closed_val 1 1 0 0) [] true

opened-Reachable : Reachable opened
unfolding entry_open
opened-Reachable =
    next_step start opened at_start
      (open_entry 100 0 (state 0 0 0 0 0) (omega arith) (omega arith) (omega arith) refl)

held-Reachable : Reachable held
unfolding res_get_fast state_inc
held-Reachable =
    let one : Journal = with_holders (state 8 0 0 1 0) (first ∷ []) false in
    next_step one held
      (next_step opened one opened-Reachable
        (get 5 8 (state 8 0 0 1 0) first (omega arith) (omega arith) refl))
      (get 10 10 (state 18 0 0 2 0) second (omega arith) (omega arith) refl)

closed-Reachable : Reachable closed
unfolding buf_switch state_inc
closed-Reachable =
    next_step held closed held-Reachable (switch (state closed_val 1 1 3 0) (omega arith) refl)

-- The last of the three puts starts the write.
writing-Reachable : Reachable writing
unfolding buf_put fields word
writing-Reachable =
    let two : Journal = with_holders (state closed_val 1 1 2 0) (second ∷ first ∷ []) false in
    let one : Journal = with_holders (state closed_val 1 1 1 0) (first ∷ []) false in
    next_step one writing
      (next_step two one
        (next_step closed two closed-Reachable (put [] switcher (second ∷ first ∷ []) refl))
        (put [] second (first ∷ []) refl))
      (put [] first [] refl)

reservations_apart_example : AllApart held.holders
reservations_apart_example = reservations_apart held held-Reachable

write_excludes_holders_example : All (λ h. h.idx ≡ writing.res.idx) writing.holders
write_excludes_holders_example = write_excludes_holders writing writing-Reachable refl

buf_switch_no_bug_example : ¬ (buf_switch held.res ≡ bug)
buf_switch_no_bug_example = buf_switch_no_bug held held-Reachable (omega arith)
