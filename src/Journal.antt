-- ===== src/Journal.antt =====
-- Reservations of space in the open journal entry: libbcache/journal.h, journal_types.h and journal.c.
mod Word
mod System
mod Counted
mod Invariant
mod Steps
mod Turn
mod Safety
mod Holders
mod Tests
use bcache_tools.Base.{
  Bool, List, Option, [], false, if◌then◌else◌, ltb, min, none, not, some, suc, true, u32, u64,
  zero, ℕ, ◌%◌, ◌&&◌, ◌*◌, ◌+◌, ◌-◌, ◌/◌, ◌==◌, ◌^◌, ◌∷◌,
}

-- The bit fields of `union journal_res_state`
pub record ResState : Type 0 where
  pub cur_entry_offset : ℕ
  pub idx : ℕ
  pub prev_buf_unwritten : ℕ
  pub buf0_count : ℕ
  pub buf1_count : ℕ

-- `v`, of 20, 1, 1, 21 and 21 bits.
unfoldable pub word : ResState → ℕ
word s =
    s.cur_entry_offset
    + s.idx * 2 ^ 20
    + s.prev_buf_unwritten * 2 ^ 21
    + s.buf0_count * 2 ^ 22
    + s.buf1_count * 2 ^ 43

unfoldable pub fields : ℕ → ResState
fields v = record {
  cur_entry_offset = v % 2 ^ 20;
  idx = v / 2 ^ 20 % 2;
  prev_buf_unwritten = v / 2 ^ 21 % 2;
  buf0_count = v / 2 ^ 22 % 2 ^ 21;
  buf1_count = v / 2 ^ 43 % 2 ^ 21;
}

-- `JOURNAL_ENTRY_CLOSED_VAL`
abbrev pub closed_val : ℕ
closed_val = 2 ^ 20 - 2

-- `JOURNAL_ENTRY_ERROR_VAL`
abbrev pub error_val : ℕ
error_val = 2 ^ 20 - 1

-- `journal_state_count`
abbrev pub state_count : ResState → ℕ → ℕ
state_count s idx = if idx == 0 then s.buf0_count else s.buf1_count

abbrev pub bit_of : Bool → ℕ
bit_of true = 1
bit_of false = 0

-- `journal_state_inc`
unfoldable pub state_inc : ResState → ResState
state_inc s = record {
  cur_entry_offset = s.cur_entry_offset;
  idx = s.idx;
  prev_buf_unwritten = s.prev_buf_unwritten;
  buf0_count = (s.buf0_count + bit_of (s.idx == 0)) % 2 ^ 21;
  buf1_count = (s.buf1_count + bit_of (s.idx == 1)) % 2 ^ 21;
}

abbrev pub with_offset : ResState → ℕ → ResState
with_offset s offset = record {
  cur_entry_offset = offset % 2 ^ 20;
  idx = s.idx;
  prev_buf_unwritten = s.prev_buf_unwritten;
  buf0_count = s.buf0_count;
  buf1_count = s.buf1_count;
}

-- `struct journal_res`, but for `ref` and `seq`
pub record Res : Type 0 where
  pub idx : ℕ
  pub u64s : ℕ
  pub offset : ℕ

-- `journal_res_get_fast`; a 0 is `none`.
unfoldable pub res_get_fast : ResState → ℕ → ℕ → ℕ → Option (ResState × Res)
res_get_fast s cur_entry_u64s u64s_min u64s_max =
    let u64s = min u64s_max (u32 (cur_entry_u64s + 2 ^ 32 - s.cur_entry_offset)) % 2 ^ 16 in
    if ltb cur_entry_u64s (u32 (s.cur_entry_offset + u64s_min))
    then none
    else some (
      with_offset (state_inc s) (s.cur_entry_offset + u64s),
      record { idx = s.idx; u64s = u64s; offset = s.cur_entry_offset },
    )

-- `jset_u64s`; a `struct jset_entry` is a word.
abbrev pub jset_u64s : ℕ → ℕ
jset_u64s u64s = u64s + 1

-- What `bch_journal_add_keys` does to the reservation, for a key of `u64s` words; its BUG_ON is
-- `none`.
unfoldable pub add_keys : Res → ℕ → Option Res
add_keys r u64s =
    if ltb r.u64s (jset_u64s u64s)
    then none
    else some (record {
      idx = r.idx;
      u64s = r.u64s - jset_u64s u64s;
      offset = u32 (r.offset + jset_u64s u64s);
    })

-- The loop of `bch_journal_res_put`: where it puts empty entries.
unfoldable pub fill : ℕ → ℕ → List ℕ
fill offset zero = []
fill offset (suc u64s) = offset ∷ fill (u32 (offset + 1)) u64s

-- `bch_journal_buf_put`: the new state, and whether the write of the buffer is started.
unfoldable pub buf_put : ResState → ℕ → ResState × Bool
buf_put s idx =
    let unit = bit_of (idx == 0) * 2 ^ 22 + bit_of (idx == 1) * 2 ^ 43 in
    let s' = fields (u64 (word s + 2 ^ 64 - unit)) in
    (
      s',
      not (s'.idx == idx) && ((state_count s' idx == 0) && not (s'.cur_entry_offset == error_val)),
    )

-- The values of `journal_buf_switch`; its BUG_ON is `bug`.
pub data Switch : Type 0 where
  entry_error : Switch
  entry_inuse : Switch
  entry_closed : Switch
  switched : ResState → Switch
  bug : Switch

-- The loop of `journal_buf_switch`
unfoldable pub buf_switch : ResState → Switch
buf_switch s =
    let new = state_inc s in
    let next = (s.idx + 1) % 2 in
    if s.cur_entry_offset == closed_val
    then entry_closed
    else if s.cur_entry_offset == error_val
    then entry_error
    else if s.prev_buf_unwritten == 1
    then entry_inuse
    else if state_count new next == 0
    then switched (record {
      cur_entry_offset = closed_val;
      idx = next;
      prev_buf_unwritten = 1;
      buf0_count = new.buf0_count;
      buf1_count = new.buf1_count;
    })
    else bug

-- `bch_journal_halt`
unfoldable pub halt : ResState → ResState
halt s = with_offset s error_val

-- The loop of `journal_entry_open`, where the buffer has `filled` words; an error is `none`.
unfoldable pub entry_open : ResState → ℕ → Option ResState
entry_open s filled = if s.cur_entry_offset == error_val then none else some (with_offset s filled)

-- The end of a write, `journal_write_done`.
unfoldable pub write_done : ResState → ResState
write_done s = fields (u64 (word s + 2 ^ 64 - 2 ^ 21))
