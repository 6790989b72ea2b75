-- ===== src/Journal/Steps.antt =====
-- Using and putting a journal reservation: libbcache/journal.h.
use mathlib.Core.Path.{subst}
use bcache_tools.Base.{
  Bool, Bool-cases, List, ap, arith, dec_lt, false, inl, inr, not, refl, sym, true, ℕ, ◌&&◌, ◌++◌,
  ◌+◌, ◌-◌, ◌<◌, ◌==◌, ◌||◌, ◌∙◌, ◌∷◌, ◌≡◌, ◌≤◌, ◌⊎◌,
}
use bcache_tools.Journal.{Res, ResState, bit_of, buf_put, error_val, state_count}
use bcache_tools.Journal.Word.{state_count-dropped, with_counts}
use bcache_tools.Journal.System.{Journal}
use bcache_tools.Journal.Counted.{
  All, All-insert, All-map, All-middle, AllApart, AllApart-insert, AllApart-middle, Apart, count,
  count-middle,
}
use bcache_tools.Journal.Invariant.{HolderOk, Inv}

-- When a put starts a write.
pub buf_put-starts :
    (s : ResState) (k : ℕ)
    → (buf_put s k).1 ≡ true
    → ¬ ((buf_put s k).0.idx ≡ k) × (state_count (buf_put s k).0 k ≡ 0)
unfolding buf_put
buf_put-starts s k e = starts (buf_put s k).0 k e
  where
    false_ne_true : false ≡ true → ⊥
    false_ne_true e = cc

    starts :
        (s' : ResState) (k : ℕ)
        → (not (s'.idx == k) && ((state_count s' k == 0) && not (s'.cur_entry_offset == error_val)))
          ≡ true
        → ¬ (s'.idx ≡ k) × (state_count s' k ≡ 0)
    starts s' k e = elim (Bool-cases (s'.idx == k)) [
      | inl same ↦ absurd (false_ne_true (sym (rw same refl) ∙ e))
      | inr differ ↦ elim (Bool-cases (state_count s' k == 0)) [
        | inl none_held ↦ (λ same. ground arith, ground arith)
        | inr held ↦ absurd (false_ne_true (sym (rw (differ, held) refl) ∙ e))
      ]
    ]

or-cases : (a b : Bool) → (a || b) ≡ true → (a ≡ true) ⊎ (b ≡ true)
or-cases true b e = inl refl
or-cases false b e = inr e

module _ (j : Journal) (inv : Inv j) where
  -- A holder of `k` is gone.
  pub put-Inv :
      (before : List Res) (h : Res) (after : List Res) (r : ResState) (w : Bool)
      → j.holders ≡ before ++ h ∷ after
      → r
        ≡ with_counts j.res
            (j.res.buf0_count - bit_of (h.idx == 0))
            (j.res.buf1_count - bit_of (h.idx == 1))
      → (w ≡ true → ¬ (r.idx ≡ h.idx) × (state_count r h.idx ≡ 0))
      → Inv (record {
        res = r;
        cur_entry_u64s = j.cur_entry_u64s;
        holders = before ++ after;
        writing = j.writing || w;
      })
  unfolding HolderOk
  put-Inv before h after r w eh er hw =
      let s = j.res in
      let (hok, rest) =
        All-middle (HolderOk s) before h after (subst (All (HolderOk s)) eh inv.each) in
      let (ha, apart) = AllApart-middle before h after (subst AllApart eh inv.apart) in
      let left : (i : ℕ) → i < 2 → state_count r i ≡ count i (before ++ after) = λ i hi.
        ap (λ t. state_count t i) er
        ∙ state_count-dropped s h.idx i hok.0 hi
        ∙ omega (arith, inv.counted i hi, ap (count i) eh, count-middle i before h after) in
      let none_left : (i : ℕ) → i < 2 → state_count s i ≡ 0 → state_count r i ≡ 0 = λ i hi z.
        ap (λ t. state_count t i) er ∙ state_count-dropped s h.idx i hok.0 hi ∙ omega (arith, z) in
      let idx : r.idx ≡ s.idx = ap (λ t. t.idx) er in
      let offset : r.cur_entry_offset ≡ s.cur_entry_offset = ap (λ t. t.cur_entry_offset) er in
      let unwritten : r.prev_buf_unwritten ≡ s.prev_buf_unwritten =
        ap (λ t. t.prev_buf_unwritten) er in
      let b0 : r.buf0_count ≡ s.buf0_count - bit_of (h.idx == 0) = ap (λ t. t.buf0_count) er in
      let b1 : r.buf1_count ≡ s.buf1_count - bit_of (h.idx == 1) = ap (λ t. t.buf1_count) er in
      record {
        ok = record {
          offset = omega (arith, offset, inv.ok.offset);
          idx = omega (arith, idx, inv.ok.idx);
          unwritten = omega (arith, unwritten, inv.ok.unwritten);
          count0 = omega (arith, b0, inv.ok.count0);
          count1 = omega (arith, b1, inv.ok.count1);
        };
        limit = inv.limit;
        counted = left;
        each =
            All-map (HolderOk s) (HolderOk r) (before ++ after)
              (λ g ok. (ok.0, ok.1, λ same. omega (arith, ok.2 (same ∙ idx), offset))) rest;
        apart = apart;
        closed = λ c.
            subst (λ t. state_count r t ≡ 0) (sym idx)
              (none_left s.idx inv.ok.idx (inv.closed (sym offset ∙ c)));
        clean = λ p i hi ne.
            none_left i hi (inv.clean (sym unwritten ∙ p) i hi (λ same. ne (same ∙ sym idx)));
        write = λ some_write. elim (or-cases j.writing w some_write) [
          | inl going ↦ (
            unwritten ∙ (inv.write going).0,
            λ i hi ne. none_left i hi ((inv.write going).1 i hi (λ same. ne (same ∙ sym idx))),
          )
          | inr starts ↦
              let (ne, z) = hw starts in
              let held : 0 < state_count s h.idx = omega (
                arith,
                inv.counted h.idx hok.0,
                ap (count h.idx) eh,
                count-middle h.idx before h after,
                own h.idx,
              ) in
              (
                unwritten
                    ∙ one s.prev_buf_unwritten inv.ok.unwritten (λ p.
                      absurd (
                        omega
                          (arith, held, inv.clean p h.idx hok.0 (λ same. ne (idx ∙ sym same))))),
                λ i hi other.
                    subst (λ t. state_count r t ≡ 0)
                      (two_values i h.idx r.idx hi hok.0 (omega (arith, idx, inv.ok.idx)) other ne)
                      z,
              )
        ];
      }
    where
      own : (k : ℕ) → bit_of (k == k) ≡ 1
      own k = ground arith

      one : (p : ℕ) → p < 2 → (p ≡ 0 → ⊥) → p ≡ 1
      one p h f = elim (dec_lt 0 p) [ yes lt ↦ omega arith | no z ↦ absurd (f (omega arith)) ]

      two_values : (i k x : ℕ) → i < 2 → k < 2 → x < 2 → ¬ (i ≡ x) → ¬ (x ≡ k) → k ≡ i
      two_values i k x hi hk hx ne ne' = omega arith

  -- A holder that takes some of its words.
  pub use_part-Inv :
      (before : List Res) (h : Res) (after : List Res) (h' : Res)
      → j.holders ≡ before ++ h ∷ after
      → h'.idx ≡ h.idx
      → h.offset ≤ h'.offset
      → h'.offset + h'.u64s ≡ h.offset + h.u64s
      → Inv (record {
        res = j.res;
        cur_entry_u64s = j.cur_entry_u64s;
        holders = before ++ h' ∷ after;
        writing = j.writing;
      })
  unfolding HolderOk Apart
  use_part-Inv before h after h' eh ei eo ee =
      let s = j.res in
      let (hok, rest) =
        All-middle (HolderOk s) before h after (subst (All (HolderOk s)) eh inv.each) in
      let (ha, apart) = AllApart-middle before h after (subst AllApart eh inv.apart) in
      record {
        ok = inv.ok;
        limit = inv.limit;
        counted = λ i hi.
            inv.counted i hi
            ∙ ap (count i) eh
            ∙ count-middle i before h after
            ∙ ap (λ t. bit_of (t == i) + count i (before ++ after)) (sym ei)
            ∙ sym (count-middle i before h' after);
        each =
            All-insert (HolderOk s) before h' after
              (
                omega (arith, ei, hok.0),
                omega (arith, ee, hok.1),
                λ same. omega (arith, hok.2 (sym ei ∙ same), ee),
              )
              rest;
        apart =
            AllApart-insert before h' after
              (All-map (Apart h) (Apart h') (before ++ after)
                (λ g a x same p q. a x (sym ei ∙ same) (omega (arith, p.0), omega (arith, p.1)) q)
                ha)
              apart;
        closed = inv.closed;
        clean = inv.clean;
        write = inv.write;
      }
