-- ===== src/Extents/SquashParts.antt =====
-- The parts of an extent that another, inserted over it, leaves: libbcache/extents.c.
use bcache_tools.Base.{
  Bool, Bool-cases, List, [], ap, arith, false, if◌then◌else◌, inl, inr, leb, ltb, none, refl, some,
  true, u64, ℕ, ◌&&◌, ◌++◌, ◌+◌, ◌-◌, ◌<◌, ◌^◌, ◌∙◌, ◌∷◌, ◌≡◌, ◌≤◌,
}
use bcache_tools.Bkey.Key.{Bkey, bkey_fields, bkey_start_offset}
use bcache_tools.Bkey.Trim.{trimmed}
use bcache_tools.Extents.Cut.{
  KeyValue, bkey_start_pos, cut_back, cut_front, extent_is_data, extent_overlap, overlap_all,
  overlap_back, overlap_front, overlap_middle,
}
use bcache_tools.Extents.Squash.{
  Squashed, bkey_deleted, cut_subtract_front, with_key, with_whiteout,
}
use bcache_tools.Extents.Reads.{Place, Roomy, places}
use bcache_tools.Extents.CutReads.{
  CutBack, CutFront, IsRange, bkey_start_offset-start, cut_back-range, cut_front-reads,
  is_greater-bkey_cmp, is_less-bkey_cmp, reads, start,
}

-- The sector `s` is in the range of the key.
abbrev pub in_range : Bkey → ℕ → Bool
in_range k s = leb (start k) s && ltb s k.p.offset

-- What the keys have for a sector of the file.
unfoldable pub found : KeyValue → ℕ → List (List Place)
found v s = if in_range v.k s then reads v s ∷ [] else []

abbrev pub found_squashed : Squashed → ℕ → List (List Place)
found_squashed q s = elim q.split [ none ↦ found q.k s | some v ↦ found v s ++ found q.k s ]

-- The key is left just as it is for the sectors from `low` to `high`.
pub record IsPart (v v' : KeyValue) (low high : ℕ) : Type 0 where
  pub begin : start v'.k ≡ low
  pub end : v'.k.p.offset ≡ high
  pub range : IsRange v'.k
  pub fields : bkey_fields v'.k ≡ bkey_fields (trimmed v.k high v'.k.size)
  pub same : (s : ℕ) → low ≤ s → s < high → reads v' s ≡ reads v s

pub IsPart-found :
    (v v' : KeyValue) (low high s : ℕ)
    → IsPart v v' low high
    → found v' s ≡ (if leb low s && ltb s high then reads v s ∷ [] else [])
unfolding found
IsPart-found v v' low high s p = elim (Bool-cases (leb low s && ltb s high)) [
  | inl inside ↦
      let e : in_range v'.k s ≡ true = rw (p.begin, p.end) inside in
      rw (e, inside) (ap (λ t. t ∷ []) (p.same s (ground (arith, inside)) (ground (arith, inside))))
  | inr outside ↦
      let e : in_range v'.k s ≡ false = rw (p.begin, p.end) outside in rw (e, outside) refl
]

-- Two extents of one file that share a sector.
pub record Overlaps (insert k : Bkey) : Type 0 where
  pub inode : insert.p.inode ≡ k.p.inode
  pub snapshot : insert.p.snapshot ≡ k.p.snapshot
  pub low : start insert < k.p.offset
  pub high : start k < insert.p.offset

pub extent_overlap-start :
    (insert k : Bkey)
    → IsRange insert
    → IsRange k
    → Overlaps insert k
    → extent_overlap insert k ≡ (
        if ltb insert.p.offset k.p.offset
        then (if ltb (start k) (start insert) then overlap_middle else overlap_front)
        else if ltb (start k) (start insert)
        then overlap_back
        else overlap_all)
unfolding extent_overlap
extent_overlap-start insert k hi hk o =
    let ends = is_less-bkey_cmp insert.p k.p o.inode o.snapshot in
    let starts =
      is_greater-bkey_cmp (bkey_start_pos insert) (bkey_start_pos k) o.inode o.snapshot in
    rw (ends, starts, bkey_start_offset-start insert hi, bkey_start_offset-start k hk) refl

module _ (insert : Bkey) (v : KeyValue) (hi : IsRange insert) (hv : IsRange v.k)
    (d : extent_is_data v.k ≡ true) (r : Roomy 0 v.k.size v.entries) (o : Overlaps insert v.k) where
  -- What is left after the new extent.
  front_of :
      (v' : KeyValue) (cut : Bool)
      → insert.p.offset < v.k.p.offset
      → cut_front insert.p v ≡ some (v', cut)
      → CutFront insert.p v v'
      → (cut_subtract_front insert.p v ≡ some (insert.p.offset - start v.k, v'))
        × IsPart v v' insert.p.offset v.k.p.offset
  unfolding cut_subtract_front
  front_of v' cut h e c =
      let live : bkey_deleted v'.k ≡ false = ground (arith, c.kind, d) in
      let n : u64 (insert.p.offset + 2 ^ 64 - bkey_start_offset v.k) ≡ insert.p.offset - start v.k =
        omega (arith, hi.end, o.high, bkey_start_offset-start v.k hv) in
      (
        rw (cut_subtract_front, e, live, n) refl,
        record {
          begin = c.begin;
          end = ap (λ p. p.offset) c.end;
          range = c.range;
          fields = c.fields;
          same = c.reads;
        },
      )

  pub front-IsPart :
      insert.p.offset < v.k.p.offset
      → (v' : KeyValue) × (cut_subtract_front insert.p v ≡ some (insert.p.offset - start v.k, v'))
        × IsPart v v' insert.p.offset v.k.p.offset
  front-IsPart h =
      let (v', cut, e, c) =
        cut_front-reads insert.p v hv
          (record {
            inode = o.inode;
            snapshot = o.snapshot;
            low = omega (arith, o.high);
            high = omega arith;
          })
          d r in
      let (e', p) = front_of v' cut h e c in (v', e', p)

  -- What is left before it.
  pub back_of :
      (k : Bkey) (written : ℕ)
      → start v.k < start insert
      → CutBack (bkey_start_pos insert) v.k k
      → (bkey_deleted k ≡ false)
        × IsPart v (with_key v k) (start v.k) (start insert)
        × IsPart v (with_whiteout written (with_key v k)) (start v.k) (start insert)
        × (k.size ≡ start insert - start v.k)
  unfolding reads
  back_of k written h c =
      let es = bkey_start_offset-start insert hi in
      let live : bkey_deleted k ≡ false = ground (arith, c.kind, d, es) in
      let fields = c.fields ∙ ap (λ t. bkey_fields (trimmed v.k t k.size)) es in
      let same = λ (s : ℕ). ap (λ t. places none v.entries (s - t)) c.begin in
      (
        live,
        record {
          begin = c.begin;
          end = c.end ∙ es;
          range = c.range;
          fields = fields;
          same = λ s lo hi. same s;
        },
        record {
          begin = c.begin;
          end = c.end ∙ es;
          range = record { fits = c.range.fits; end = c.range.end; narrow = c.range.narrow };
          fields = fields;
          same = λ s lo hi. same s;
        },
        omega (arith, c.begin, c.end, es, c.range.fits),
      )

  pub back_range :
      start v.k < start insert
      → (k : Bkey) × (cut : Bool) × (cut_back (bkey_start_pos insert) v.k ≡ some (k, cut))
        × CutBack (bkey_start_pos insert) v.k k
  back_range h =
      let es = bkey_start_offset-start insert hi in
      cut_back-range (bkey_start_pos insert) v.k hv (record {
        inode = o.inode;
        snapshot = o.snapshot;
        low = omega (arith, es);
        high = omega (arith, es, o.low);
      })
