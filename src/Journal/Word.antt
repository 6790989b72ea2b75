-- ===== src/Journal/Word.antt =====
-- The word of `union journal_res_state` and its bit fields, libbcache/journal_types.h.
use mathlib.Core.Path.{subst}
use native.Mathlib.Nat.{mod-eq_of_lt}
use bcache_tools.Base.{
  Bool-cases, ap, arith, false, if◌then◌else◌, inl, inr, refl, suc, u64, zero, ℕ, ◌%◌, ◌+◌, ◌-◌,
  ◌/◌, ◌<◌, ◌==◌, ◌^◌, ◌∙◌, ◌≡◌,
}
use bcache_tools.Journal.{
  ResState, bit_of, buf_put, fields, state_count, state_inc, word, write_done,
}

-- The widths of the bit fields.
pub record InFields (s : ResState) : Type 0 where
  pub offset : s.cur_entry_offset < 2 ^ 20
  pub idx : s.idx < 2
  pub unwritten : s.prev_buf_unwritten < 2
  pub count0 : s.buf0_count < 2 ^ 21
  pub count1 : s.buf1_count < 2 ^ 21

-- The fields are read back from the word.
pub fields-word : (s : ResState) → InFields s → fields (word s) ≡ s
unfolding fields word
fields-word s h =
    let a : word s % 2 ^ 20 ≡ s.cur_entry_offset = omega (arith, h.offset) in
    let b : word s / 2 ^ 20 % 2 ≡ s.idx = omega (arith, h.offset, h.idx) in
    let c : word s / 2 ^ 21 % 2 ≡ s.prev_buf_unwritten =
      omega (arith, h.offset, h.idx, h.unwritten) in
    let d : word s / 2 ^ 22 % 2 ^ 21 ≡ s.buf0_count =
      omega (arith, h.offset, h.idx, h.unwritten, h.count0) in
    let e : word s / 2 ^ 43 % 2 ^ 21 ≡ s.buf1_count =
      omega (arith, h.offset, h.idx, h.unwritten, h.count0, h.count1) in
    rw (a, b, c, d, e) refl

-- `s` with other counts.
abbrev pub with_counts : ResState → ℕ → ℕ → ResState
with_counts s b0 b1 = record {
  cur_entry_offset = s.cur_entry_offset;
  idx = s.idx;
  prev_buf_unwritten = s.prev_buf_unwritten;
  buf0_count = b0;
  buf1_count = b1;
}

-- A reference to the buffer `k` is dropped.
pub buf_put-with_counts :
    (s : ResState) (k : ℕ)
    → InFields s
    → k < 2
    → 0 < state_count s k
    → (buf_put s k).0
      ≡ with_counts s (s.buf0_count - bit_of (k == 0)) (s.buf1_count - bit_of (k == 1))
unfolding buf_put word
buf_put-with_counts s zero h hk some_held =
    let s' = with_counts s (s.buf0_count - 1) (s.buf1_count - 0) in
    let e : u64 (word s + 2 ^ 64 - 2 ^ 22) ≡ word s' =
      omega (arith, h.offset, h.idx, h.unwritten, h.count0, h.count1) in
    ap fields e
    ∙ fields-word s' (record {
      offset = h.offset;
      idx = h.idx;
      unwritten = h.unwritten;
      count0 = omega (arith, h.count0);
      count1 = omega (arith, h.count1);
    })
buf_put-with_counts s (suc zero) h hk some_held =
    let s' = with_counts s (s.buf0_count - 0) (s.buf1_count - 1) in
    let e : u64 (word s + 2 ^ 64 - 2 ^ 43) ≡ word s' =
      omega (arith, h.offset, h.idx, h.unwritten, h.count0, h.count1) in
    ap fields e
    ∙ fields-word s' (record {
      offset = h.offset;
      idx = h.idx;
      unwritten = h.unwritten;
      count0 = omega (arith, h.count0);
      count1 = omega (arith, h.count1);
    })
buf_put-with_counts s (suc (suc k)) h hk some_held = absurd (omega arith)

-- The previous buffer is marked as written.
pub write_done-fields :
    (s : ResState)
    → InFields s
    → s.prev_buf_unwritten ≡ 1
    → write_done s ≡ record {
      cur_entry_offset = s.cur_entry_offset;
      idx = s.idx;
      prev_buf_unwritten = 0;
      buf0_count = s.buf0_count;
      buf1_count = s.buf1_count;
    }
unfolding write_done word
write_done-fields s h one =
    let s' : ResState = record {
      cur_entry_offset = s.cur_entry_offset;
      idx = s.idx;
      prev_buf_unwritten = 0;
      buf0_count = s.buf0_count;
      buf1_count = s.buf1_count;
    } in
    let e : u64 (word s + 2 ^ 64 - 2 ^ 21) ≡ word s' =
      omega (arith, h.offset, h.idx, h.count0, h.count1) in
    ap fields e
    ∙ fields-word s' (record {
      offset = h.offset;
      idx = h.idx;
      unwritten = omega arith;
      count0 = h.count0;
      count1 = h.count1;
    })

-- What a count is after a reference is dropped, and after one is taken.
pub state_count-dropped :
    (s : ResState) (k i : ℕ)
    → k < 2
    → i < 2
    → state_count
        (with_counts s (s.buf0_count - bit_of (k == 0)) (s.buf1_count - bit_of (k == 1)))
        i
      ≡ state_count s i - bit_of (k == i)
state_count-dropped s k zero hk hi = refl
state_count-dropped s k (suc zero) hk hi = refl
state_count-dropped s k (suc (suc i)) hk hi = absurd (omega arith)

pub state_inc-state_count :
    (s : ResState) (i : ℕ)
    → InFields s
    → i < 2
    → state_count s s.idx < 2 ^ 21 - 1
    → state_count (state_inc s) i ≡ state_count s i + bit_of (s.idx == i)
unfolding state_inc
state_inc-state_count s zero h hi room = elim (Bool-cases (s.idx == 0)) [
  | inl e ↦
      let room' : s.buf0_count < 2 ^ 21 - 1 =
        subst (λ t. (if t then s.buf0_count else s.buf1_count) < 2 ^ 21 - 1) e room in
      rw e (mod-eq_of_lt (omega arith))
  | inr e ↦ rw e (mod-eq_of_lt (omega (arith, h.count0)))
]
state_inc-state_count s (suc zero) h hi room = elim (Bool-cases (s.idx == 1)) [
  | inl e ↦
      let zero_not : (s.idx == 0) ≡ false = ground arith in
      let room' : s.buf1_count < 2 ^ 21 - 1 =
        subst (λ t. (if t then s.buf0_count else s.buf1_count) < 2 ^ 21 - 1) zero_not room in
      rw e (mod-eq_of_lt (omega arith))
  | inr e ↦ rw e (mod-eq_of_lt (omega (arith, h.count1)))
]
state_inc-state_count s (suc (suc i)) h hi room = absurd (omega arith)

pub InFields-state_inc : (s : ResState) → InFields s → InFields (state_inc s)
unfolding state_inc
InFields-state_inc s h = record {
  offset = h.offset;
  idx = h.idx;
  unwritten = h.unwritten;
  count0 = omega arith;
  count1 = omega arith;
}
