-- ===== src/Journal/System.antt =====
-- Any number of holders of reservations in the journal, libbcache/journal.h and journal.c. Each step is
-- one change of `j->reservations`, or of a holder's own reservation.
use bcache_tools.Base.{
  Bool, List, [], false, some, true, ℕ, ◌++◌, ◌-◌, ◌<◌, ◌^◌, ◌||◌, ◌∷◌, ◌≡◌, ◌≤◌,
}
use bcache_tools.Journal.{
  Res, ResState, add_keys, buf_put, buf_switch, closed_val, entry_open, halt, res_get_fast,
  state_count, switched, write_done,
}

-- The journal, the reservations held, and whether a buffer is being written.
pub record Journal : Type 0 where
  pub res : ResState
  pub cur_entry_u64s : ℕ
  pub holders : List Res
  pub writing : Bool

-- `bch_fs_journal_init` starts with no entry open.
abbrev pub start : Journal
start = record {
  res = record {
    cur_entry_offset = closed_val;
    idx = 0;
    prev_buf_unwritten = 0;
    buf0_count = 0;
    buf1_count = 0;
  };
  cur_entry_u64s = 0;
  holders = [];
  writing = false;
}

-- Holders are fewer than a count can hold.
abbrev pub Countable : ResState → Type 0
Countable s = state_count s s.idx < 2 ^ 21 - 1

pub data Step (j : Journal) : Journal → Type 0 where
  -- `u64s` of a reservation has 16 bits.
  get :
      (u64s_min u64s_max : ℕ) (r : ResState) (h : Res)
      → Countable j.res
      → u64s_min < 2 ^ 16
      → res_get_fast j.res j.cur_entry_u64s u64s_min u64s_max ≡ some (r, h)
      → Step j (record {
        res = r;
        cur_entry_u64s = j.cur_entry_u64s;
        holders = h ∷ j.holders;
        writing = j.writing;
      })
  use_part :
      (before : List Res) (h : Res) (after : List Res) (u64s : ℕ) (h' : Res)
      → j.holders ≡ before ++ h ∷ after
      → add_keys h u64s ≡ some h'
      → Step j (record {
        res = j.res;
        cur_entry_u64s = j.cur_entry_u64s;
        holders = before ++ h' ∷ after;
        writing = j.writing;
      })
  -- The last put of a closed buffer starts its write.
  put :
      (before : List Res) (h : Res) (after : List Res)
      → j.holders ≡ before ++ h ∷ after
      → Step j (record {
        res = (buf_put j.res h.idx).0;
        cur_entry_u64s = j.cur_entry_u64s;
        holders = before ++ after;
        writing = j.writing || (buf_put j.res h.idx).1;
      })
  -- The switching thread holds the buffer that it closes.
  switch :
      (r : ResState)
      → Countable j.res
      → buf_switch j.res ≡ switched r
      → Step j (record {
        res = r;
        cur_entry_u64s = j.cur_entry_u64s;
        holders = record { idx = j.res.idx; u64s = 0; offset = 0 } ∷ j.holders;
        writing = j.writing;
      })
  -- The entry that is opened has `u64s` words, of which `filled` are taken.
  open_entry :
      (u64s filled : ℕ) (r : ResState)
      → closed_val ≤ j.res.cur_entry_offset
      → filled < u64s
      → u64s < closed_val
      → entry_open j.res filled ≡ some r
      → Step j (record { res = r; cur_entry_u64s = u64s; holders = j.holders; writing = j.writing })
  stop : Step j (record {
    res = halt j.res;
    cur_entry_u64s = j.cur_entry_u64s;
    holders = j.holders;
    writing = j.writing;
  })
  written :
      j.writing ≡ true
      → Step j (record {
        res = write_done j.res;
        cur_entry_u64s = j.cur_entry_u64s;
        holders = j.holders;
        writing = false;
      })

pub data Reachable : Journal → Type 0 where
  at_start : Reachable start
  next_step : (j j' : Journal) → Reachable j → Step j j' → Reachable j'
