-- ===== src/Journal/Safety.antt =====
-- What holds however the journal's reservations are taken, used and put: libbcache/journal.h and
-- journal.c.
use mathlib.Core.Path.{subst}
use mathlib.Core.Option.{some-injective}
use bcache_tools.Journal.Turn.{halt-Inv, open_entry-Inv, switch-Inv, written-Inv}
use bcache_tools.Base.{
  Bool-cases, Option, ap, arith, inl, inr, ltb, none, none-ne-some, refl, some, sym, u32, ℕ, ◌%◌,
  ◌+◌, ◌-◌, ◌<◌, ◌==◌, ◌^◌, ◌∙◌, ◌≡◌, ◌≤◌,
}
use bcache_tools.Journal.{
  Res, ResState, Switch, add_keys, bit_of, buf_put, buf_switch, bug, closed_val, entry_closed,
  entry_error, entry_inuse, entry_open, error_val, jset_u64s, state_count, state_inc, switched,
  with_offset,
}
use bcache_tools.Journal.Word.{buf_put-with_counts}
use bcache_tools.Journal.System.{
  Journal, Reachable, Step, at_start, get, next_step, open_entry, put, stop, switch, use_part,
  written,
}
use bcache_tools.Journal.Counted.{All, All-middle, count, count-middle}
use bcache_tools.Journal.Invariant.{HolderOk, Inv, get-Inv, get_fast, start-Inv}
use bcache_tools.Journal.Steps.{buf_put-starts, put-Inv, use_part-Inv}

add_keys-some :
    (h : Res) (u64s : ℕ) (h' : Res)
    → h.offset + h.u64s ≤ 2 ^ 20
    → add_keys h u64s ≡ some h'
    → (h'.idx ≡ h.idx) × (h.offset ≤ h'.offset) × (h'.offset + h'.u64s ≡ h.offset + h.u64s)
unfolding add_keys
add_keys-some h u64s h' small e = elim (Bool-cases (ltb h.u64s (jset_u64s u64s))) [
  | inl large ↦ absurd (none-ne-some {a = h'} (sym (rw (large, add_keys) refl) ∙ e))
  | inr fits ↦
      let used : Res = record {
        idx = h.idx;
        u64s = h.u64s - jset_u64s u64s;
        offset = u32 (h.offset + jset_u64s u64s);
      } in
      let same : h' ≡ used = sym (some-injective used h' (sym (rw (fits, add_keys) refl) ∙ e)) in
      rw same (refl, ground arith, ground arith)
]

abbrev result_of : Switch → Option ResState
result_of (switched r) = some r
result_of _ = none

-- What a switch that succeeds does.
buf_switch-switched :
    (s r : ResState)
    → s.prev_buf_unwritten < 2
    → buf_switch s ≡ switched r
    → (s.prev_buf_unwritten ≡ 0)
      × (r ≡ record {
        cur_entry_offset = closed_val;
        idx = (s.idx + 1) % 2;
        prev_buf_unwritten = 1;
        buf0_count = (state_inc s).buf0_count;
        buf1_count = (state_inc s).buf1_count;
      })
unfolding buf_switch
buf_switch-switched s r small e = elim (Bool-cases (s.cur_entry_offset == closed_val)) [
  | inl c ↦ absurd (refused entry_closed (rw (c, buf_switch) refl) refl)
  | inr c ↦ elim (Bool-cases (s.cur_entry_offset == error_val)) [
    | inl d ↦ absurd (refused entry_error (rw (c, d, buf_switch) refl) refl)
    | inr d ↦ elim (Bool-cases (s.prev_buf_unwritten == 1)) [
      | inl p ↦ absurd (refused entry_inuse (rw (c, d, p, buf_switch) refl) refl)
      | inr p ↦ elim (Bool-cases (state_count (state_inc s) ((s.idx + 1) % 2) == 0)) [
        | inl z ↦
            let new : ResState = record {
              cur_entry_offset = closed_val;
              idx = (s.idx + 1) % 2;
              prev_buf_unwritten = 1;
              buf0_count = (state_inc s).buf0_count;
              buf1_count = (state_inc s).buf1_count;
            } in
            let switches : buf_switch s ≡ switched new = rw (c, d, p, z, buf_switch) refl in
            let same : some new ≡ some r = ap result_of (sym switches ∙ e) in
            (ground arith, sym (some-injective new r same))
        | inr z ↦ absurd (refused bug (rw (c, d, p, z, buf_switch) refl) refl)
      ]
    ]
  ]
]
  where
    refused : (o : Switch) → buf_switch s ≡ o → result_of o ≡ none → ⊥
    refused o p q = none-ne-some {a = r} (sym q ∙ ap result_of (sym p ∙ e))

entry_open-some :
    (s r : ResState) (filled : ℕ)
    → s.cur_entry_offset < 2 ^ 20
    → closed_val ≤ s.cur_entry_offset
    → entry_open s filled ≡ some r
    → (s.cur_entry_offset ≡ closed_val) × (r ≡ with_offset s filled)
unfolding entry_open
entry_open-some s r filled small closed e = elim (Bool-cases (s.cur_entry_offset == error_val)) [
  | inl broken ↦ absurd (none-ne-some {a = r} (sym (rw (broken, entry_open) refl) ∙ e))
  | inr fine ↦ (
    ground arith,
    sym (some-injective (with_offset s filled) r (sym (rw (fine, entry_open) refl) ∙ e)),
  )
]

step-Inv : (j j' : Journal) → Inv j → Step j j' → Inv j'
unfolding HolderOk
step-Inv j j' inv (get u64s_min u64s_max r h room small e) =
    let (u, er, eh, fits) =
      get_fast j.res j.cur_entry_u64s u64s_min u64s_max r h inv.ok.offset inv.limit small e in
    rw (er, eh) (get-Inv j inv u room fits)
step-Inv j j' inv (use_part xs h ys u64s h' eh e) =
    let (hok, rest) =
      All-middle (HolderOk j.res) xs h ys (subst (All (HolderOk j.res)) eh inv.each) in
    let (a, b, c) = add_keys-some h u64s h' hok.1 e in use_part-Inv j inv xs h ys h' eh a b c
step-Inv j j' inv (put xs h ys eh) =
    let (hok, rest) =
      All-middle (HolderOk j.res) xs h ys (subst (All (HolderOk j.res)) eh inv.each) in
    let held : 0 < state_count j.res h.idx = omega (
      arith,
      inv.counted h.idx hok.0,
      ap (count h.idx) eh,
      count-middle h.idx xs h ys,
      own h.idx,
    ) in
    put-Inv j inv xs h ys (buf_put j.res h.idx).0 (buf_put j.res h.idx).1 eh
      (buf_put-with_counts j.res h.idx inv.ok hok.0 held) (buf_put-starts j.res h.idx)
  where
    own : (k : ℕ) → bit_of (k == k) ≡ 1
    own k = ground arith
step-Inv j j' inv (switch r room e) =
    let (zero_unwritten, er) = buf_switch-switched j.res r inv.ok.unwritten e in
    rw er (switch-Inv j inv room zero_unwritten)
step-Inv j j' inv (open_entry u64s filled r closed h h' e) =
    let (c, er) = entry_open-some j.res r filled inv.ok.offset closed e in
    rw er (open_entry-Inv j inv u64s filled c h h')
step-Inv j j' inv stop = halt-Inv j inv
step-Inv j j' inv (written w) = written-Inv j inv w

pub Reachable-Inv : (j : Journal) → Reachable j → Inv j
Reachable-Inv _ at_start = start-Inv
Reachable-Inv _ (next_step i j r s) = step-Inv i j (Reachable-Inv i r) s
