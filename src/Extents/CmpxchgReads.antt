-- ===== src/Extents/CmpxchgReads.antt =====
-- What a match of `bch_extent_cmpxchg_cmp` says of the data: libbcache/extents.c.
use bcache_tools.Bkey.Key.{Bpos, bkey_start_offset}
use bcache_tools.Extents.Cut.{KeyValue, key_type_cookie, last_sectors}
use bcache_tools.Extents.CutReads.{bkey_start_offset-start, reads, start}
use bcache_tools.Extents.MergeReads.{IsExtent, entry_u64s-pos}
use bcache_tools.Extents.Merge.{same_version}
use bcache_tools.Extents.Reads.{Roomy, locate, places}
use mathlib.Core.Path.{subst}
use mathlib.Core.Option.{some-injective}
use bcache_tools.Base.{
  Bool, Bool-cases, List, Option, [], append_assoc, ap₂, arith, false, if◌then◌else◌, inl, inr, ltb,
  none, none-ne-some, not, refl, some, sym, true, true-ne-false, u64, ℕ, ◌%◌, ◌++◌, ◌+◌, ◌-◌, ◌<◌,
  ◌==◌, ◌^◌, ◌||◌, ◌∷◌, ◌≡◌, ◌≤◌,
}
use bcache_tools.Extents.{
  Crc, Entry, ExtentPtr, crc_forward, entries_u64s, entry_u64s, forward, of_crc, of_ptr,
}
use bcache_tools.Extents.Cmpxchg.{cmpxchg_cmp, entry_at, ptr_moved, ptrs_moved}

-- An extent with no crc entries.
unfoldable pub AllPtrs : List Entry → Type 0
AllPtrs [] = Unit
AllPtrs (of_ptr p ∷ es) = AllPtrs es
AllPtrs (of_crc c ∷ es) = ⊥

entry_at-++ :
    (ds bs : List Entry) (e : Entry) (n : ℕ)
    → AllPtrs ds
    → n ≡ entries_u64s ds
    → entry_at n (ds ++ e ∷ bs) ≡ some e
unfolding entry_at AllPtrs
entry_at-++ [] bs e n a h = rw h refl
entry_at-++ (of_ptr p ∷ ds) bs e n a h =
    let more : (n == 0) ≡ false = ground arith in
    let far : ltb n 1 ≡ false = ground arith in
    rw (more, far) (entry_at-++ ds bs e (n - 1) a (omega arith))
entry_at-++ (of_crc c ∷ ds) bs e n a h = absurd a

AllPtrs-snoc : (ds : List Entry) (p : ExtentPtr) → AllPtrs ds → AllPtrs (ds ++ of_ptr p ∷ [])
unfolding AllPtrs
AllPtrs-snoc [] p a = tt
AllPtrs-snoc (of_ptr q ∷ ds) p a = AllPtrs-snoc ds p a
AllPtrs-snoc (of_crc c ∷ ds) p a = absurd a

entries_u64s-snoc :
    (ds : List Entry) (p : ExtentPtr) → entries_u64s (ds ++ of_ptr p ∷ []) ≡ entries_u64s ds + 1
entries_u64s-snoc [] p = refl
entries_u64s-snoc (e ∷ ds) p = omega (arith, entries_u64s-snoc ds p)

-- A pointer that has moved as far as the start points the same sector out.
module _ (sl sr s : ℕ) (low_l : sl ≤ s) (low_r : sr ≤ s) (size_l size_r : ℕ)
    (high_l : s < sl + size_l) (high_r : s < sr + size_r) (narrow_l : size_l < 2 ^ 32)
    (narrow_r : size_r < 2 ^ 32) (word_l : sl < 2 ^ 64) (word_r : sr < 2 ^ 64) where
  moved_same :
      (l r : ℕ)
      → l + size_l ≤ 2 ^ 44
      → r + size_r ≤ 2 ^ 44
      → l ≡ u64 (r + u64 (sl + 2 ^ 64 - sr))
      → l + (s - sl) ≡ r + (s - sr)
  moved_same l r hl hr e = omega arith

  ptr_moved-locate :
      (l r : ExtentPtr)
      → l.offset + 0 + size_l ≤ 2 ^ 44
      → r.offset + 0 + size_r ≤ 2 ^ 44
      → ptr_moved (u64 (sl + 2 ^ 64 - sr)) l r ≡ true
      → locate none l (s - sl) ≡ locate none r (s - sr)
  unfolding locate
  ptr_moved-locate l r hl hr h =
      let off : l.offset ≡ u64 (r.offset + u64 (sl + 2 ^ 64 - sr)) = ground arith in
      let dev : l.dev ≡ r.dev = ground arith in
      let gen : l.gen ≡ r.gen = ground arith in
      rw (dev, gen, moved_same l.offset r.offset (omega arith) (omega arith) off) refl

  ptrs_moved-places :
      (ls rs ds : List Entry) (n : ℕ)
      → AllPtrs ls
      → AllPtrs rs
      → AllPtrs ds
      → n ≡ entries_u64s ds
      → entries_u64s ls ≡ entries_u64s rs
      → Roomy 0 size_l ls
      → Roomy 0 size_r rs
      → ptrs_moved (u64 (sl + 2 ^ 64 - sr)) n ls (ds ++ rs) ≡ some true
      → places none ls (s - sl) ≡ places none rs (s - sr)
  unfolding AllPtrs Roomy ptrs_moved places
  ptrs_moved-places [] [] ds n al ar ad en eu wl wr h = refl
  ptrs_moved-places [] (of_ptr r ∷ rs) ds n al ar ad en eu wl wr h = absurd (omega arith)
  ptrs_moved-places ls (of_crc c ∷ rs) ds n al ar ad en eu wl wr h = absurd ar
  ptrs_moved-places (of_crc c ∷ ls) rs ds n al ar ad en eu wl wr h = absurd al
  ptrs_moved-places (of_ptr l ∷ ls) [] ds n al ar ad en eu wl wr h = absurd (omega arith)
  ptrs_moved-places (of_ptr l ∷ ls) (of_ptr r ∷ rs) ds n al ar ad en eu (hl, wl) (hr, wr) h =
      let one = of_ptr r ∷ [] in
      let after_one : (ds ++ one) ++ rs ≡ ds ++ of_ptr r ∷ rs = append_assoc ds one rs in
      elim (Bool-cases (ptr_moved (u64 (sl + 2 ^ 64 - sr)) l r)) [
        | inl same ↦
            let h' = (rw (ptrs_moved, entry_at-++ ds rs (of_ptr r) n ad en, same) at h) in
            ap₂ (λ x xs. x ∷ xs) (ptr_moved-locate l r hl hr same)
              (ptrs_moved-places ls rs (ds ++ one) (n + 1) al ar (AllPtrs-snoc ds r ad)
                (omega (arith, entries_u64s-snoc ds r)) (omega arith) wl wr (rw after_one h'))
        | inr differ ↦
            let h' = (rw (ptrs_moved, entry_at-++ ds rs (of_ptr r) n ad en, differ) at h) in
            absurd (true-ne-false (sym (some-injective _ _ h')))
      ]

-- Two data extents without crcs, with room for their sizes, that match: each sector that is in the
-- range of both reads the same in both.
pub cmpxchg_cmp-reads :
    (l r : KeyValue) (s : ℕ)
    → IsExtent l
    → IsExtent r
    → AllPtrs l.entries
    → AllPtrs r.entries
    → cmpxchg_cmp l r ≡ some true
    → start l.k ≤ s
    → s < l.k.p.offset
    → start r.k ≤ s
    → s < r.k.p.offset
    → reads l s ≡ reads r s
unfolding cmpxchg_cmp reads AllPtrs
cmpxchg_cmp-reads l r s hl hr al ar h ll lh rl rh =
    let (_, h1) = else_of (l.k.size == 0 || r.k.size == 0) none _ (some true) none-ne-some h in
    let (_, h2) =
      else_of (not (l.k.kind == r.k.kind) || not (same_version l.k.version r.k.version))
        (some false) _ (some true) some_false-ne h1 in
    let cookie : (l.k.kind == key_type_cookie) ≡ false = ground (arith, hl.kind) in
    let h3 = (rw (cookie, hl.kind) at h2) in
    let (same, h4) =
      else_of (not (l.k.u64s == r.k.u64s)) (some false) _ (some true) some_false-ne h3 in
    let words : l.k.u64s ≡ r.k.u64s = ground (arith, same) in
    let h5 =
      (rw (bkey_start_offset-start l.k hl.range, bkey_start_offset-start r.k hr.range) at h4) in
    ptrs_moved-places (start l.k) (start r.k) s ll rl l.k.size r.k.size
      (omega (arith, hl.range.fits)) (omega (arith, hr.range.fits)) hl.range.narrow hr.range.narrow
      (omega (arith, hl.range.end)) (omega (arith, hr.range.end)) l.entries r.entries [] 0 al ar tt
      refl (omega (arith, hl.u64s, hr.u64s, words)) hl.roomy hr.roomy h5
  where
    some_false-ne : ¬ (some false ≡ some true)
    some_false-ne e = cc

    else_of :
        (b : Bool) (x y z : Option Bool)
        → ¬ (x ≡ z)
        → (if b then x else y) ≡ z
        → (b ≡ false) × (y ≡ z)
    else_of true x y z bad e = absurd (bad e)
    else_of false x y z bad e = (refl, e)

-- After a crc, a pointer that does not move.
ptrs_moved-crc :
    (offset n : ℕ) (c : Crc) (p : ExtentPtr) (ls rs : List Entry)
    → (p.offset == u64 (p.offset + offset)) ≡ false
    → ptrs_moved offset 0 (of_crc (crc_forward n c) ∷ of_ptr p ∷ ls) (of_crc c ∷ of_ptr p ∷ rs)
      ≡ some false
unfolding ptrs_moved entry_at
ptrs_moved-crc offset n c p ls rs e =
    let w = entry_u64s (of_crc c) in
    let some_word : 0 < w = entry_u64s-pos (of_crc c) in
    let skip : (0 + w == 0) ≡ false = ground arith in
    let past : ltb (0 + w) w ≡ false = ground arith in
    let there : (0 + w - w == 0) ≡ true = ground arith in
    let first : entry_at (0 + w) (of_crc c ∷ of_ptr p ∷ rs) ≡ some (of_ptr p) =
      rw (entry_at, skip, past, there) refl in
    rw (ptrs_moved, first, e) refl

-- A data extent whose first pointer is under a crc does not match what is left of it after a cut
-- at a position inside it: the cut moves the offset of the crc, not that of the pointer.
pub cmpxchg_cmp-cut_crc :
    (at : Bpos) (v : KeyValue) (c : Crc) (p : ExtentPtr) (es : List Entry)
    → IsExtent v
    → v.entries ≡ of_crc c ∷ of_ptr p ∷ es
    → start v.k < at.offset
    → at.offset < v.k.p.offset
    → cmpxchg_cmp (last_sectors (v.k.p.offset - at.offset) v) v ≡ some false
unfolding cmpxchg_cmp ptrs_moved entry_at Roomy
cmpxchg_cmp-cut_crc at v c p es h ev lo hi =
    let len = v.k.p.offset - at.offset in
    let roomy = subst (Roomy 0 v.k.size) ev h.roomy in
    let more : (len == 0) ≡ false = ground arith in
    let size_l : (len % 2 ^ 32 == 0) ≡ false = ground (arith, h.range.fits, h.range.narrow) in
    let size_r : (v.k.size == 0) ≡ false = ground (arith, h.range.fits) in
    let kind : (v.k.kind == v.k.kind) ≡ true = ground arith in
    let version : same_version v.k.version v.k.version ≡ true = ground arith in
    let cookie : (v.k.kind == key_type_cookie) ≡ false = ground (arith, h.kind) in
    let words : (v.k.u64s == v.k.u64s) ≡ true = ground arith in
    let moved : u64 (u64 (v.k.p.offset + 2 ^ 64 - len % 2 ^ 32) + 2 ^ 64 - bkey_start_offset v.k)
        ≡ v.k.size - len =
      omega (arith, h.range.fits, h.range.end, h.range.narrow) in
    let stays : (p.offset == u64 (p.offset + (v.k.size - len))) ≡ false =
      ground (arith, h.range.fits, h.range.narrow, roomy.1.0) in
    rw (more, size_l, size_r, kind, version, cookie, h.kind, words, ev, moved)
      (ptrs_moved-crc (v.k.size - len) (v.k.size - len) c p (forward true (v.k.size - len) es) es
        stays)
