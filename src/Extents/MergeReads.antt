-- ===== src/Extents/MergeReads.antt =====
-- A merged extent reads as the two did: `bch_extent_merge` of libbcache/extents.c.
use bcache_tools.Base.{
  Bool, Bool-cases, List, [], ap, arith, both_true, dec_lt, false, inl, inr, ltb, lt→ltb, none, not,
  refl, some, sym, true, true-ne-false, u64, ℕ, ◌+◌, ◌-◌, ◌<◌, ◌^◌, ◌||◌, ◌∙◌, ◌∷◌, ◌≡◌, ◌≤◌,
}
use bcache_tools.Bkey.Key.{Bpos, bkey_u64s}
use bcache_tools.Bkey.Order.{bkey_cmp, cmp_then}
use bcache_tools.Extents.{Entry, ExtentPtr, entries_u64s, entry_u64s, of_crc, of_ptr}
use bcache_tools.Extents.Cut.{KeyValue, bkey_start_pos, extent_is_data}
use bcache_tools.Extents.Merge.{
  Merge, entries_follow, extent_merge, headers_follow, is_equal, joined_whiteout, key_size_max,
  merged, nomerge, partial, ptr_follows, resized, values_follow,
}
use bcache_tools.Extents.Reads.{Roomy, locate, places, plain}
use bcache_tools.Extents.CutReads.{
  CutFront, IsRange, bkey_start_offset-start, cut_front-reads, reads, start,
}

-- An extent with its words counted, and with entries that have room for its size.
pub record IsExtent (v : KeyValue) : Type 0 where
  pub range : IsRange v.k
  pub kind : extent_is_data v.k ≡ true
  pub u64s : v.k.u64s ≡ bkey_u64s + entries_u64s v.entries
  pub roomy : Roomy 0 v.k.size v.entries

-- `l'` is the two extents in a row, up to its end.
pub record Joined (l r l' : KeyValue) : Type 0 where
  pub begin : start l'.k ≡ start l.k
  pub longer : l.k.p.offset ≤ l'.k.p.offset
  pub left : (s : ℕ) → start l.k ≤ s → s < l.k.p.offset → reads l' s ≡ reads l s
  pub right : (s : ℕ) → l.k.p.offset ≤ s → s < l'.k.p.offset → reads l' s ≡ reads r s

-- What the merge promises of its result.
pub MergeReads : KeyValue → KeyValue → Merge → Type 0
MergeReads l r nomerge = Unit
MergeReads l r (partial l' r') = Joined l r l' × CutFront l'.k.p r r'
MergeReads l r (merged l') = Joined l r l' × (l'.k.p.offset ≡ r.k.p.offset)

is_equal-bkey_cmp :
    (a b : Bpos)
    → is_equal (bkey_cmp a b) ≡ true
    → (a.inode ≡ b.inode) × (a.offset ≡ b.offset) × (a.snapshot ≡ b.snapshot)
unfolding bkey_cmp cmp_then
is_equal-bkey_cmp a b e = (ground arith, ground arith, ground arith)

pub entry_u64s-pos : (e : Entry) → 0 < entry_u64s e
entry_u64s-pos (of_ptr p) = omega arith
entry_u64s-pos (of_crc c) = grind arith

module _ (bucket_size : ℕ → ℕ) where
  ptr_follows-eq :
      (size : ℕ) (l r : ExtentPtr)
      → ptr_follows bucket_size size l r ≡ true
      → (l.offset + size ≡ r.offset) × (l.dev ≡ r.dev) × (l.gen ≡ r.gen)
  ptr_follows-eq size l r h = (ground arith, ground arith, ground arith)

  entries_follow-places :
      (size : ℕ) (ls rs : List Entry) (d : ℕ)
      → entries_follow bucket_size size ls rs ≡ true
      → entries_u64s ls ≡ entries_u64s rs
      → places none ls (size + d) ≡ places none rs d
  unfolding entries_follow places locate
  entries_follow-places size [] [] d h e = refl
  entries_follow-places size [] (of_ptr p ∷ rs) d h e = absurd (omega arith)
  entries_follow-places size [] (of_crc c ∷ rs) d h e =
      absurd (omega (arith, e, entry_u64s-pos (of_crc c)))
  entries_follow-places size (of_ptr l ∷ ls) (of_ptr r ∷ rs) d h e =
      let (same, rest) = both_true _ _ h in
      let (off, dev, gen) = ptr_follows-eq size l r same in
      let there : l.offset + (size + d) ≡ r.offset + d = omega (arith, off) in
      rw (there, dev, gen)
        (ap (λ t. plain r.dev r.gen (r.offset + d) ∷ t)
          (entries_follow-places size ls rs d rest (omega (arith, e))))
  entries_follow-places size (of_ptr l ∷ ls) (of_crc r ∷ rs) d h e = absurd (true-ne-false (sym h))
  entries_follow-places size (of_ptr l ∷ ls) [] d h e = absurd (true-ne-false (sym h))
  entries_follow-places size (of_crc l ∷ ls) rs d h e = absurd (true-ne-false (sym h))

  values_follow-data :
      (l r : KeyValue)
      → extent_is_data l.k ≡ true
      → values_follow bucket_size l r ≡ entries_follow bucket_size l.k.size l.entries r.entries
  unfolding values_follow
  values_follow-data l r d = ground arith

  -- The left extent made longer, over what the right one has.
  module _ (l r : KeyValue) (hl : IsExtent l) (hr : IsExtent r) (next : l.k.p.offset ≡ start r.k)
      (follows : entries_follow bucket_size l.k.size l.entries r.entries ≡ true)
      (words : entries_u64s l.entries ≡ entries_u64s r.entries) (n : ℕ) where
    resized-end :
        n ≤ l.k.size + r.k.size → u64 (u64 (l.k.p.offset + 2 ^ 64 - l.k.size) + n) ≡ start l.k + n
    resized-end hn = omega (arith, hl.range.fits, hl.range.end, hr.range.fits, hr.range.end, next)

    resized-Joined :
        l.k.size ≤ n
        → n ≤ l.k.size + r.k.size
        → n < 2 ^ 32
        → Joined l r (resized (joined_whiteout l r) n)
    unfolding reads
    resized-Joined hl' hn hw =
        let e = resized-end hn in
        let at_start : start (resized (joined_whiteout l r) n).k ≡ start l.k =
          omega (arith, hl.range.fits) in
        record {
          begin = at_start;
          longer = omega (arith, hl.range.fits);
          left = λ s hs he. ap (λ t. places none l.entries (s - t)) at_start;
          right = λ s hs he.
              let there : s - start l.k ≡ l.k.size + (s - start r.k) =
                omega (arith, hl.range.fits) in
              ap (λ t. places none l.entries (s - t)) at_start
              ∙ ap (places none l.entries) there
              ∙ entries_follow-places l.k.size l.entries r.entries (s - start r.k) follows words;
        }

  -- The merge of two data extents, whose entries have room for their sizes, meets no BUG. If it
  -- changes anything, the left extent becomes one that reads as the left and then as the right
  -- did, up to the end of the right or to the largest size; in that case what is left of the right
  -- reads as it did.
  pub extent_merge-reads :
      (disabled : Bool) (l r : KeyValue)
      → IsExtent l
      → IsExtent r
      → (m : Merge) × (extent_merge bucket_size disabled l r ≡ some m) × MergeReads l r m
  unfolding extent_merge MergeReads values_follow
  extent_merge-reads disabled l r hl hr =
      elim (Bool-cases
        (disabled || not (headers_follow l.k r.k) || not (values_follow bucket_size l r))) [
          | inl differ ↦ (nomerge, rw differ refl, tt)
          | inr agree ↦
              let heads : headers_follow l.k r.k ≡ true = ground arith in
              let values : values_follow bucket_size l r ≡ true = ground arith in
              let data_follows = sym (values_follow-data l r hl.kind) ∙ values in
              let words : entries_u64s l.entries ≡ entries_u64s r.entries =
                let same : l.k.u64s ≡ r.k.u64s = ground arith in
                omega (arith, same, hl.u64s, hr.u64s) in
              let (inode, offset, snapshot) =
                is_equal-bkey_cmp l.k.p (bkey_start_pos r.k) (ground arith) in
              let next : l.k.p.offset ≡ start r.k = offset ∙ bkey_start_offset-start r.k hr.range in
              elim (dec_lt key_size_max (l.k.size + r.k.size)) [
                | yes long ↦
                    let j =
                      resized-Joined l r hl hr next data_follows words key_size_max (omega arith)
                        (omega arith) (omega arith) in
                    let (r', cut, e, c) =
                      cut_front-reads (resized (joined_whiteout l r) key_size_max).k.p r hr.range
                        (record {
                          inode = inode;
                          snapshot = snapshot;
                          low = omega (
                            arith,
                            resized-end l r hl hr next data_follows words key_size_max
                                (omega arith),
                          );
                          high = omega (
                            arith,
                            resized-end l r hl hr next data_follows words key_size_max
                                (omega arith),
                            hr.range.fits,
                          );
                        })
                        hr.kind hr.roomy in
                    (
                      partial (resized (joined_whiteout l r) key_size_max) r',
                      rw (agree, lt→ltb _ _ long, e) refl,
                      (j, c),
                    )
                | no fits ↦
                    let n = l.k.size + r.k.size in
                    let small : ltb key_size_max n ≡ false = ground arith in
                    (
                      merged (resized (joined_whiteout l r) n),
                      rw (agree, small) refl,
                      (
                        resized-Joined l r hl hr next data_follows words n (omega arith)
                            (omega arith) (omega arith),
                        resized-end l r hl hr next data_follows words n (omega arith)
                            ∙ omega (arith, hl.range.fits, hr.range.fits),
                      ),
                    )
              ]
        ]
