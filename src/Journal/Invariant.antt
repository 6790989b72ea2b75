-- ===== src/Journal/Invariant.antt =====
-- What every step on the journal's reservations preserves: libbcache/journal.h and journal.c.
use mathlib.Core.Option.{some-injective}
use bcache_tools.Base.{
  Bool-cases, ap, arith, false, inl, inr, ltb, min, none-ne-some, refl, some, suc, sym, true, u32,
  zero, ℕ, ◌%◌, ◌+◌, ◌-◌, ◌<◌, ◌==◌, ◌^◌, ◌∙◌, ◌∷◌, ◌≡◌, ◌≤◌,
}
use bcache_tools.Journal.{
  Res, ResState, bit_of, closed_val, res_get_fast, state_count, state_inc, with_offset,
}
use bcache_tools.Journal.Word.{InFields, InFields-state_inc, state_inc-state_count}
use bcache_tools.Journal.System.{Countable, Journal, start}
use bcache_tools.Journal.Counted.{All, All-map, AllApart, Apart, count}

-- A reservation lies within the entry, and below the offset where its buffer is the open one.
unfoldable pub HolderOk : ResState → Res → Type 0
HolderOk s h =
    (h.idx < 2)
    × (h.offset + h.u64s ≤ 2 ^ 20)
    × (h.idx ≡ s.idx → h.offset + h.u64s ≤ s.cur_entry_offset)

pub record Inv (j : Journal) : Type 0 where
  pub ok : InFields j.res
  pub limit : j.cur_entry_u64s < closed_val
  pub counted : (i : ℕ) → i < 2 → state_count j.res i ≡ count i j.holders
  pub each : All (HolderOk j.res) j.holders
  pub apart : AllApart j.holders
  pub closed : j.res.cur_entry_offset ≡ closed_val → state_count j.res j.res.idx ≡ 0
  pub clean :
      j.res.prev_buf_unwritten ≡ 0 → (i : ℕ) → i < 2 → ¬ (i ≡ j.res.idx) → state_count j.res i ≡ 0
  pub write :
      j.writing ≡ true
      → (j.res.prev_buf_unwritten ≡ 1)
        × ((i : ℕ) → i < 2 → ¬ (i ≡ j.res.idx) → state_count j.res i ≡ 0)

pub start-Inv : Inv start
unfolding All AllApart count
start-Inv = record {
  ok = record {
    offset = omega arith;
    idx = omega arith;
    unwritten = omega arith;
    count0 = omega arith;
    count1 = omega arith;
  };
  limit = omega arith;
  counted = none_held;
  each = tt;
  apart = tt;
  closed = λ e. refl;
  clean = λ e i hi ne. none_held i hi;
  write = λ e. absurd (false_ne_true e);
}
  where
    none_held : (i : ℕ) → i < 2 → state_count start.res i ≡ 0
    none_held zero h = refl
    none_held (suc zero) h = refl
    none_held (suc (suc i)) h = absurd (omega arith)

    false_ne_true : false ≡ true → ⊥
    false_ne_true e = cc

-- What a reservation that is granted is.
pub get_fast :
    (s : ResState) (cur u64s_min u64s_max : ℕ) (r : ResState) (h : Res)
    → s.cur_entry_offset < 2 ^ 20
    → cur < closed_val
    → u64s_min < 2 ^ 16
    → res_get_fast s cur u64s_min u64s_max ≡ some (r, h)
    → (u : ℕ) × (r ≡ with_offset (state_inc s) (s.cur_entry_offset + u))
      × (h ≡ record { idx = s.idx; u64s = u; offset = s.cur_entry_offset })
      × (s.cur_entry_offset + u ≤ cur)
unfolding res_get_fast
get_fast s cur u64s_min u64s_max r h hs hc hm e =
    elim (Bool-cases (ltb cur (u32 (s.cur_entry_offset + u64s_min)))) [
      | inl full ↦ absurd (none-ne-some {a = (r, h)} (sym (rw (full, res_get_fast) refl) ∙ e))
      | inr room ↦
          let u = min u64s_max (u32 (cur + 2 ^ 32 - s.cur_entry_offset)) % 2 ^ 16 in
          let grant : Res = record { idx = s.idx; u64s = u; offset = s.cur_entry_offset } in
          let same =
            some-injective (with_offset (state_inc s) (s.cur_entry_offset + u), grant) (r, h)
              (sym (rw (room, res_get_fast) refl) ∙ e) in
          (u, sym (ap (λ p. p.0) same), sym (ap (λ p. p.1) same), ground arith)
    ]

module _ (j : Journal) (inv : Inv j) where
  pub get-Inv :
      (u : ℕ)
      → Countable j.res
      → j.res.cur_entry_offset + u ≤ j.cur_entry_u64s
      → Inv (record {
        res = with_offset (state_inc j.res) (j.res.cur_entry_offset + u);
        cur_entry_u64s = j.cur_entry_u64s;
        holders = record { idx = j.res.idx; u64s = u; offset = j.res.cur_entry_offset } ∷ j.holders;
        writing = j.writing;
      })
  unfolding All AllApart HolderOk Apart count state_inc
  get-Inv u room fits =
      let s = j.res in
      let new = (s.cur_entry_offset + u) % 2 ^ 20 in
      let e : new ≡ s.cur_entry_offset + u = omega (arith, inv.limit) in
      let inc = InFields-state_inc s inv.ok in
      let others : (i : ℕ)
          → i < 2
          → ¬ (i ≡ s.idx)
          → state_count s i ≡ 0
          → state_count (state_inc s) i ≡ 0 =
        λ i hi ne z. omega (arith, other i ne, state_inc-state_count s i inv.ok hi room, z) in
      record {
        ok = record {
          offset = omega arith;
          idx = inc.idx;
          unwritten = inc.unwritten;
          count0 = inc.count0;
          count1 = inc.count1;
        };
        limit = inv.limit;
        counted = λ i hi. omega (arith, state_inc-state_count s i inv.ok hi room, inv.counted i hi);
        each = (
          (inv.ok.idx, omega (arith, inv.limit), λ same. omega (arith, e)),
          All-map (HolderOk s) (HolderOk (with_offset (state_inc s) (s.cur_entry_offset + u)))
              j.holders (λ h ok. (ok.0, ok.1, λ same. omega (arith, ok.2 same, e))) inv.each,
        );
        apart = (
          All-map (HolderOk s)
              (Apart (record { idx = s.idx; u64s = u; offset = s.cur_entry_offset })) j.holders
              (λ h ok x same p q. omega (arith, ok.2 (sym same))) inv.each,
          inv.apart,
        );
        closed = λ c. absurd (omega (arith, inv.limit, e));
        clean = λ p i hi ne. others i hi ne (inv.clean p i hi ne);
        write = λ w. ((inv.write w).0, λ i hi ne. others i hi ne ((inv.write w).1 i hi ne));
      }
    where
      other : (i : ℕ) → ¬ (i ≡ j.res.idx) → bit_of (j.res.idx == i) ≡ 0
      other i ne = ground arith
