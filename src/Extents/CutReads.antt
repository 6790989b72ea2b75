-- ===== src/Extents/CutReads.antt =====
-- What is left of an extent that is cut reads as it did: `bch_cut_front` and `bch_cut_back` of
-- libbcache/extents.c.
use bcache_tools.Base.{
  Bool, List, ap, arith, dec_lt, false, if◌then◌else◌, ltb, lt→ltb, none, refl, some, true, u64, ℕ,
  ◌%◌, ◌&&◌, ◌+◌, ◌-◌, ◌<◌, ◌==◌, ◌^◌, ◌∙◌, ◌≡◌, ◌≤◌,
}
use bcache_tools.Bkey.Key.{Bkey, Bpos, bkey_fields, bkey_start_offset}
use bcache_tools.Bkey.Trim.{trimmed}
use bcache_tools.Bkey.Order.{bkey_cmp, cmp_then}
use bcache_tools.Extents.Cut.{
  KeyValue, bkey_start_pos, cut_back, cut_front, extent_is_data, is_greater, is_less,
  key_type_deleted, last_sectors, with_size,
}
use bcache_tools.Extents.Reads.{Place, Roomy, places, places-forward}

-- A key whose range does not start below 0, with the fields that a key has room for.
pub record IsRange (k : Bkey) : Type 0 where
  pub fits : k.size ≤ k.p.offset
  pub end : k.p.offset < 2 ^ 64
  pub narrow : k.size < 2 ^ 32

-- Where the range of a key starts.
abbrev pub start : Bkey → ℕ
start k = k.p.offset - k.size

-- The places of the sector `s` of the file.
unfoldable pub reads : KeyValue → ℕ → List Place
reads v s = places none v.entries (s - start v.k)

-- A position in the range of a key.
pub record Within (at : Bpos) (k : Bkey) : Type 0 where
  pub inode : at.inode ≡ k.p.inode
  pub snapshot : at.snapshot ≡ k.p.snapshot
  pub low : start k ≤ at.offset
  pub high : at.offset ≤ k.p.offset

pub bkey_start_offset-start : (k : Bkey) → IsRange k → bkey_start_offset k ≡ start k
bkey_start_offset-start k h = omega (arith, h.fits, h.end)

-- Positions of one file compare as their offsets.
pub is_greater-bkey_cmp :
    (a b : Bpos)
    → a.inode ≡ b.inode
    → a.snapshot ≡ b.snapshot
    → is_greater (bkey_cmp a b) ≡ ltb b.offset a.offset
unfolding bkey_cmp cmp_then
is_greater-bkey_cmp a b ei es = rw (ei, es) (ground arith)

pub is_less-bkey_cmp :
    (a b : Bpos)
    → a.inode ≡ b.inode
    → a.snapshot ≡ b.snapshot
    → is_less (bkey_cmp a b) ≡ ltb a.offset b.offset
unfolding bkey_cmp cmp_then
is_less-bkey_cmp a b ei es = rw (ei, es) (ground arith)

-- `v'` is what `v` was, from the position `at` on.
pub record CutFront (at : Bpos) (v v' : KeyValue) : Type 0 where
  pub end : v'.k.p ≡ v.k.p
  pub begin : start v'.k ≡ at.offset
  pub range : IsRange v'.k
  pub fields : bkey_fields v'.k ≡ bkey_fields (trimmed v.k v.k.p.offset v'.k.size)
  pub kind : v'.k.kind ≡ (
      if ltb (start v.k) at.offset && (at.offset == v.k.p.offset)
      then key_type_deleted
      else v.k.kind)
  pub reads : (s : ℕ) → at.offset ≤ s → s < v.k.p.offset → reads v' s ≡ reads v s

-- Of an extent of `size` sectors, the last `len` are what they were.
last_sectors-reads :
    (at : Bpos) (v : KeyValue) (len : ℕ)
    → IsRange v.k
    → len ≡ v.k.p.offset - at.offset
    → start v.k < at.offset
    → at.offset ≤ v.k.p.offset
    → extent_is_data v.k ≡ true
    → Roomy 0 v.k.size v.entries
    → CutFront at v (last_sectors len v)
unfolding reads
last_sectors-reads at v len h e low high d r = record {
  end = refl;
  begin = omega (arith, h.fits, h.narrow);
  range = record { fits = omega (arith, h.fits, h.narrow); end = h.end; narrow = omega arith };
  fields = refl;
  kind = ground arith;
  reads = λ s hs he.
      let left : (len == 0) ≡ false = ground arith in
      let at_start : s - (v.k.p.offset - len % 2 ^ 32) ≡ s - at.offset =
        omega (arith, h.fits, h.narrow) in
      let moved : v.k.size - len + (s - at.offset) ≡ s - start v.k = omega (arith, h.fits) in
      rw (left, d, at_start)
        (places-forward (v.k.size - len) v.k.size v.entries (s - at.offset) (omega (arith, h.fits))
            r
          ∙ ap (places none v.entries) moved);
}

pub cut_front-reads :
    (at : Bpos) (v : KeyValue)
    → IsRange v.k
    → Within at v.k
    → extent_is_data v.k ≡ true
    → Roomy 0 v.k.size v.entries
    → (v' : KeyValue) × (cut : Bool) × (cut_front at v ≡ some (v', cut)) × CutFront at v v'
unfolding cut_front reads
cut_front-reads at v h w d r =
    let es : bkey_start_offset v.k ≡ start v.k = bkey_start_offset-start v.k h in
    let el : u64 (v.k.p.offset + 2 ^ 64 - at.offset) ≡ v.k.p.offset - at.offset =
      omega (arith, h.end, w.high) in
    let cmp : is_greater (bkey_cmp at (bkey_start_pos v.k)) ≡ ltb (start v.k) at.offset =
      is_greater-bkey_cmp at (bkey_start_pos v.k) w.inode w.snapshot
      ∙ ap (λ t. ltb t at.offset) es in
    elim (dec_lt (start v.k) at.offset) [
      | yes low ↦
          let yes_cut : ltb (start v.k) at.offset ≡ true = lt→ltb _ _ low in
          let no_bug : ltb v.k.size (v.k.p.offset - at.offset) ≡ false = ground arith in
          (
            last_sectors (v.k.p.offset - at.offset) v,
            true,
            rw (cmp, yes_cut, el, no_bug) refl,
            last_sectors-reads at v (v.k.p.offset - at.offset) h refl low w.high d r,
          )
      | no nl ↦
          let no_cut : ltb (start v.k) at.offset ≡ false = ground arith in
          (
            v,
            false,
            rw (cmp, no_cut) refl,
            record {
              end = refl;
              begin = omega (arith, w.low);
              range = h;
              fields = refl;
              kind = rw no_cut refl;
              reads = λ s hs he. refl;
            },
          )
    ]

-- `k'` is what `k` was, up to the position `at`.
pub record CutBack (at : Bpos) (k k' : Bkey) : Type 0 where
  pub end : k'.p.offset ≡ at.offset
  pub begin : start k' ≡ start k
  pub range : IsRange k'
  pub fields : bkey_fields k' ≡ bkey_fields (trimmed k at.offset k'.size)
  pub kind :
      k'.kind
      ≡ (if ltb at.offset k.p.offset && (at.offset == start k) then key_type_deleted else k.kind)

pub cut_back-range :
    (at : Bpos) (k : Bkey)
    → IsRange k
    → Within at k
    → (k' : Bkey) × (cut : Bool) × (cut_back at k ≡ some (k', cut)) × CutBack at k k'
unfolding cut_back
cut_back-range at k h w =
    let es : bkey_start_offset k ≡ start k = bkey_start_offset-start k h in
    let el : u64 (at.offset + 2 ^ 64 - start k) ≡ at.offset - start k =
      omega (arith, h.end, w.high, w.low) in
    let cmp : is_less (bkey_cmp at k.p) ≡ ltb at.offset k.p.offset =
      is_less-bkey_cmp at k.p w.inode w.snapshot in
    elim (dec_lt at.offset k.p.offset) [
      | yes low ↦
          let yes_cut : ltb at.offset k.p.offset ≡ true = lt→ltb _ _ low in
          let no_bug : ltb k.size (at.offset - start k) ≡ false = ground arith in
          (
            with_size k (if (at.offset - start k) == 0 then key_type_deleted else k.kind)
                (at.offset - start k) at,
            true,
            rw (cmp, yes_cut, es, el, no_bug) refl,
            record {
              end = refl;
              begin = omega (arith, w.low, h.narrow, h.fits);
              range = record {
                fits = omega (arith, w.low, h.narrow, h.fits);
                end = omega (arith, h.end);
                narrow = omega arith;
              };
              fields = rw (w.inode, w.snapshot) refl;
              kind = ground arith;
            },
          )
      | no nl ↦
          let no_cut : ltb at.offset k.p.offset ≡ false = ground arith in
          (
            k,
            false,
            rw (cmp, no_cut) refl,
            record {
              end = omega (arith, w.high);
              begin = refl;
              range = h;
              fields = ap (λ t. bkey_fields (trimmed k t k.size)) (omega (arith, w.high));
              kind = rw no_cut refl;
            },
          )
    ]

-- A data extent, whose entries have room for its size, is cut at a position in it. At the front:
-- the end stays, the start is the position, and each sector after it reads as it did. At the back:
-- the start stays and the end is the position. Either way a key of which nothing is left is
-- deleted, and any other keeps its type; inode, snapshot and version stay; no BUG is met.
pub cut_parts :
    (at : Bpos) (v : KeyValue)
    → IsRange v.k
    → Within at v.k
    → extent_is_data v.k ≡ true
    → Roomy 0 v.k.size v.entries
    → ((v' : KeyValue) × (cut : Bool) × (cut_front at v ≡ some (v', cut)) × CutFront at v v')
      × ((k' : Bkey) × (cut : Bool) × (cut_back at v.k ≡ some (k', cut)) × CutBack at v.k k')
cut_parts at v h w d r = (cut_front-reads at v h w d r, cut_back-range at v.k h w)
