-- ===== src/Journal/Turn.antt =====
-- The steps that close, open, stop and write a journal entry: libbcache/journal.c.
use bcache_tools.Base.{arith, false, sym, true, ℕ, ◌%◌, ◌+◌, ◌<◌, ◌==◌, ◌∙◌, ◌∷◌, ◌≡◌}
use bcache_tools.Journal.{
  bit_of, closed_val, error_val, halt, state_count, state_inc, with_offset, write_done,
}
use bcache_tools.Journal.Word.{InFields-state_inc, state_inc-state_count, write_done-fields}
use bcache_tools.Journal.System.{Countable, Journal}
use bcache_tools.Journal.Counted.{All, All-map, All-none, AllApart, Apart, count}
use bcache_tools.Journal.Invariant.{HolderOk, Inv}

module _ (j : Journal) (inv : Inv j) where
  -- The open buffer is closed, and the other is empty.
  pub switch-Inv :
      Countable j.res
      → j.res.prev_buf_unwritten ≡ 0
      → Inv (record {
        res = record {
          cur_entry_offset = closed_val;
          idx = (j.res.idx + 1) % 2;
          prev_buf_unwritten = 1;
          buf0_count = (state_inc j.res).buf0_count;
          buf1_count = (state_inc j.res).buf1_count;
        };
        cur_entry_u64s = j.cur_entry_u64s;
        holders = record { idx = j.res.idx; u64s = 0; offset = 0 } ∷ j.holders;
        writing = j.writing;
      })
  unfolding HolderOk Apart All AllApart count
  switch-Inv room zero_unwritten =
      let s = j.res in
      let inc = InFields-state_inc s inv.ok in
      let next = (s.idx + 1) % 2 in
      let next_ne : ¬ (next ≡ s.idx) = λ same. omega (arith, inv.ok.idx) in
      let next_empty : state_count s next ≡ 0 =
        inv.clean zero_unwritten next (omega arith) next_ne in
      record {
        ok = record {
          offset = omega arith;
          idx = omega arith;
          unwritten = omega arith;
          count0 = inc.count0;
          count1 = inc.count1;
        };
        limit = inv.limit;
        counted = λ i hi. omega (arith, state_inc-state_count s i inv.ok hi room, inv.counted i hi);
        each = (
          (inv.ok.idx, omega arith, λ same. absurd (next_ne (sym same))),
          All-none (HolderOk s)
              (HolderOk (record {
                cur_entry_offset = closed_val;
                idx = next;
                prev_buf_unwritten = 1;
                buf0_count = (state_inc s).buf0_count;
                buf1_count = (state_inc s).buf1_count;
              }))
              next j.holders (λ h ok ne. (ok.0, ok.1, λ same. absurd (ne same)))
              (sym (inv.counted next (omega arith)) ∙ next_empty) inv.each,
        );
        apart = (
          All-map (HolderOk s) (Apart (record { idx = s.idx; u64s = 0; offset = 0 })) j.holders
              (λ h ok x same p q. omega (arith, p.1)) inv.each,
          inv.apart,
        );
        closed = λ e.
            state_inc-state_count s next inv.ok (omega arith) room
            ∙ omega (arith, next_empty, differ next s.idx next_ne);
        clean = λ e. absurd (omega arith);
        write = λ w. absurd (omega (arith, (inv.write w).0));
      }
    where
      differ : (i k : ℕ) → ¬ (i ≡ k) → bit_of (k == i) ≡ 0
      differ i k ne = ground arith

  -- The entry that is opened has no holder.
  pub open_entry-Inv :
      (u64s filled : ℕ)
      → j.res.cur_entry_offset ≡ closed_val
      → filled < u64s
      → u64s < closed_val
      → Inv (record {
        res = with_offset j.res filled;
        cur_entry_u64s = u64s;
        holders = j.holders;
        writing = j.writing;
      })
  unfolding HolderOk
  open_entry-Inv u64s filled closed h h' = record {
    ok = record {
      offset = omega arith;
      idx = inv.ok.idx;
      unwritten = inv.ok.unwritten;
      count0 = inv.ok.count0;
      count1 = inv.ok.count1;
    };
    limit = h';
    counted = inv.counted;
    each =
        All-none (HolderOk j.res) (HolderOk (with_offset j.res filled)) j.res.idx j.holders
          (λ g ok ne. (ok.0, ok.1, λ same. absurd (ne same)))
          (sym (inv.counted j.res.idx inv.ok.idx) ∙ inv.closed closed) inv.each;
    apart = inv.apart;
    closed = λ e. absurd (omega arith);
    clean = inv.clean;
    write = inv.write;
  }

  pub halt-Inv : Inv (record {
    res = halt j.res;
    cur_entry_u64s = j.cur_entry_u64s;
    holders = j.holders;
    writing = j.writing;
  })
  unfolding HolderOk halt
  halt-Inv = record {
    ok = record {
      offset = omega arith;
      idx = inv.ok.idx;
      unwritten = inv.ok.unwritten;
      count0 = inv.ok.count0;
      count1 = inv.ok.count1;
    };
    limit = inv.limit;
    counted = inv.counted;
    each =
        All-map (HolderOk j.res) (HolderOk (with_offset j.res error_val)) j.holders
          (λ g ok. (ok.0, ok.1, λ same. omega (arith, ok.2 same, inv.ok.offset))) inv.each;
    apart = inv.apart;
    closed = λ e. absurd (omega arith);
    clean = inv.clean;
    write = inv.write;
  }

  pub written-Inv :
      j.writing ≡ true
      → Inv (record {
        res = write_done j.res;
        cur_entry_u64s = j.cur_entry_u64s;
        holders = j.holders;
        writing = false;
      })
  unfolding HolderOk
  written-Inv w =
      let (one, none_held) = inv.write w in
      rw (write_done-fields j.res inv.ok one) (record {
        ok = record {
          offset = inv.ok.offset;
          idx = inv.ok.idx;
          unwritten = omega arith;
          count0 = inv.ok.count0;
          count1 = inv.ok.count1;
        };
        limit = inv.limit;
        counted = inv.counted;
        each = inv.each;
        apart = inv.apart;
        closed = inv.closed;
        clean = λ e. none_held;
        write = λ e. absurd (not_true e);
      })
    where
      not_true : false ≡ true → ⊥
      not_true e = cc
