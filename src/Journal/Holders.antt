-- ===== src/Journal/Holders.antt =====
-- What the holders of journal reservations rely on: libbcache/journal.h and journal.c.
use mathlib.Core.Option.{some-injective}
use bcache_tools.Base.{
  Bool, Bool-cases, ap, arith, false, get_elem?, inl, inr, length, ltb, min, none, none-ne-some,
  refl, some, suc, sym, true, u32, zero, ℕ, ◌%◌, ◌+◌, ◌-◌, ◌<◌, ◌==◌, ◌^◌, ◌∙◌, ◌≡◌, ◌≤◌,
}
use bcache_tools.Journal.{
  Res, ResState, Switch, bit_of, buf_switch, bug, closed_val, entry_closed, entry_error,
  entry_inuse, error_val, fill, halt, res_get_fast, state_count, state_inc, switched, with_offset,
}
use bcache_tools.Journal.Word.{state_inc-state_count}
use bcache_tools.Journal.System.{Countable, Journal, Reachable}
use bcache_tools.Journal.Counted.{All, All-none, AllApart}
use bcache_tools.Journal.Invariant.{HolderOk}
use bcache_tools.Journal.Safety.{Reachable-Inv}

-- In every reachable state no two reservations in one buffer have a word in common.
pub reservations_apart : (j : Journal) → Reachable j → AllApart j.holders
reservations_apart j r = (Reachable-Inv j r).apart

-- In every reachable state, while a buffer is written nobody holds a reservation in it: all that are
-- held are in the open buffer.
pub write_excludes_holders :
    (j : Journal) → Reachable j → j.writing ≡ true → All (λ h. h.idx ≡ j.res.idx) j.holders
unfolding HolderOk
write_excludes_holders j r w =
    let inv = Reachable-Inv j r in
    let other = (j.res.idx + 1) % 2 in
    let ne : ¬ (other ≡ j.res.idx) = λ same. omega (arith, inv.ok.idx) in
    All-none (HolderOk j.res) (λ h. h.idx ≡ j.res.idx) other j.holders
      (λ h ok differ. two_values h.idx j.res.idx ok.0 inv.ok.idx differ)
      (sym (inv.counted other (omega arith)) ∙ (inv.write w).1 other (omega arith) ne) inv.each
  where
    two_values : (i k : ℕ) → i < 2 → k < 2 → ¬ (i ≡ (k + 1) % 2) → i ≡ k
    two_values i k hi hk ne = omega arith

-- In every reachable state where the holders can be counted, the switch to the other buffer finds it
-- without holders: its BUG_ON is not met.
pub buf_switch_no_bug : (j : Journal) → Reachable j → Countable j.res → ¬ (buf_switch j.res ≡ bug)
unfolding buf_switch
buf_switch_no_bug j r room e = elim (Bool-cases (j.res.cur_entry_offset == closed_val)) [
  | inl c ↦ ends entry_closed (rw (c, buf_switch) refl) refl
  | inr c ↦ elim (Bool-cases (j.res.cur_entry_offset == error_val)) [
    | inl d ↦ ends entry_error (rw (c, d, buf_switch) refl) refl
    | inr d ↦ elim (Bool-cases (j.res.prev_buf_unwritten == 1)) [
      | inl p ↦ ends entry_inuse (rw (c, d, p, buf_switch) refl) refl
      | inr p ↦
          let inv = Reachable-Inv j r in
          let next = (j.res.idx + 1) % 2 in
          let ne : ¬ (next ≡ j.res.idx) = λ same. omega (arith, inv.ok.idx) in
          let clean : state_count j.res next ≡ 0 =
            inv.clean (ground (arith, inv.ok.unwritten)) next (omega arith) ne in
          let empty : state_count (state_inc j.res) next ≡ 0 =
            state_inc-state_count j.res next inv.ok (omega arith) room
            ∙ omega (arith, clean, differ next j.res.idx ne) in
          let z : (state_count (state_inc j.res) next == 0) ≡ true = ground (arith, empty) in
          let new : ResState = record {
            cur_entry_offset = closed_val;
            idx = next;
            prev_buf_unwritten = 1;
            buf0_count = (state_inc j.res).buf0_count;
            buf1_count = (state_inc j.res).buf1_count;
          } in
          some_result new (rw (c, d, p, z, buf_switch) refl)
    ]
  ]
]
  where
    is_bug : Switch → Bool
    is_bug bug = true
    is_bug _ = false

    not_true : false ≡ true → ⊥
    not_true e = cc

    ends : (o : Switch) → buf_switch j.res ≡ o → is_bug o ≡ false → ⊥
    ends o p q = not_true (sym q ∙ ap is_bug (sym p ∙ e))

    some_result : (s : ResState) → buf_switch j.res ≡ switched s → ⊥
    some_result s p = ends (switched s) p refl

    differ : (i k : ℕ) → ¬ (i ≡ k) → bit_of (k == i) ≡ 0
    differ i k ne = ground arith

-- A reservation that is granted in a reachable state has the words asked for, within the entry: the
-- words asked for fit the 16 bits of its length.
res_get_fast_bounds :
    (j : Journal) (u64s_min u64s_max : ℕ) (s : ResState) (h : Res)
    → Reachable j
    → u64s_min ≤ u64s_max
    → u64s_max < 2 ^ 16
    → res_get_fast j.res j.cur_entry_u64s u64s_min u64s_max ≡ some (s, h)
    → (u64s_min ≤ h.u64s) × (h.u64s ≤ u64s_max) × (h.offset + h.u64s ≤ j.cur_entry_u64s)
unfolding res_get_fast
res_get_fast_bounds j u64s_min u64s_max s h r ordered small e =
    let inv = Reachable-Inv j r in
    let cur = j.cur_entry_u64s in
    let offset = j.res.cur_entry_offset in
    elim (Bool-cases (ltb cur (u32 (offset + u64s_min)))) [
      | inl full ↦ absurd (none-ne-some {a = (s, h)} (sym (rw (full, res_get_fast) refl) ∙ e))
      | inr room ↦
          let u = min u64s_max (u32 (cur + 2 ^ 32 - offset)) % 2 ^ 16 in
          let grant : Res = record { idx = j.res.idx; u64s = u; offset = offset } in
          let same =
            some-injective (with_offset (state_inc j.res) (offset + u), grant) (s, h)
              (sym (rw (room, res_get_fast) refl) ∙ e) in
          let eh : h ≡ grant = sym (ap (λ p. p.1) same) in
          let fits : offset + u64s_min ≤ cur = ground (arith, inv.ok.offset) in
          let full_size : u ≡ min u64s_max (cur - offset) = omega (arith, inv.limit) in
          rw (eh, full_size) (omega arith, omega arith, omega arith)
    ]

-- The loop of `bch_journal_res_put` ends, and puts one empty entry at each word that is left: the
-- reservation lies within the largest entry.
fill-get_elem? :
    (offset u64s i : ℕ)
    → offset + u64s ≤ 2 ^ 20
    → (length (fill offset u64s) ≡ u64s)
      × (i < u64s → get_elem? (fill offset u64s) i ≡ some (offset + i))
unfolding fill
fill-get_elem? offset zero i h = (refl, λ hi. absurd (omega arith))
fill-get_elem? offset (suc u64s) zero h =
    let e : u32 (offset + 1) ≡ offset + 1 = omega arith in
    (
      rw e (ap suc (fill-get_elem? (offset + 1) u64s 0 (omega arith)).0),
      λ hi. ap some (omega arith),
    )
fill-get_elem? offset (suc u64s) (suc i) h =
    let e : u32 (offset + 1) ≡ offset + 1 = omega arith in
    let (l, g) = fill-get_elem? (offset + 1) u64s i (omega arith) in
    (rw e (ap suc l), λ hi. rw e (g (omega arith) ∙ ap some (omega arith)))

-- A journal that is halted grants nothing: the words asked for fit the 16 bits of a reservation.
halt-res_get_fast :
    (j : Journal) (u64s_min u64s_max : ℕ)
    → Reachable j
    → u64s_min < 2 ^ 16
    → res_get_fast (halt j.res) j.cur_entry_u64s u64s_min u64s_max ≡ none
unfolding res_get_fast halt
halt-res_get_fast j u64s_min u64s_max r small =
    let inv = Reachable-Inv j r in
    let full : ltb j.cur_entry_u64s (u32 ((2 ^ 20 - 1) % 2 ^ 20 + u64s_min)) ≡ true =
      ground (arith, inv.limit) in
    rw (full, res_get_fast) refl
