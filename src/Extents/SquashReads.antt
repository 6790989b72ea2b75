-- ===== src/Extents/SquashReads.antt =====
-- Inserting an extent over another takes from it just what they share: libbcache/extents.c.
use bcache_tools.Base.{
  Bool-cases, Option, [], ap₂, arith, dec_lt, false, if◌then◌else◌, inl, inr, ltb, lt→ltb, max, min,
  none, refl, some, true, u64, ℕ, ◌++◌, ◌+◌, ◌-◌, ◌<◌, ◌^◌, ◌∙◌, ◌≡◌,
}
use bcache_tools.Bkey.{BkeyFormat}
use bcache_tools.Extents.Saved.{IsPart-extent_save, Stored, extent_saves-part}
use bcache_tools.Bkey.Key.{Bkey, bkey_start_offset}
use bcache_tools.Extents.Cut.{
  KeyValue, bkey_start_pos, extent_is_data, extent_overlap, key_type_deleted, with_size,
}
use bcache_tools.Extents.Squash.{
  Squashed, cut_subtract_back, extent_save, extent_saves, extent_squash, squash_all, with_key,
  with_whiteout,
}
use bcache_tools.Extents.Reads.{Roomy}
use bcache_tools.Extents.CutReads.{IsRange, bkey_start_offset-start, start}
use bcache_tools.Extents.SquashParts.{
  IsPart, IsPart-found, Overlaps, back_of, back_range, extent_overlap-start, found, found_squashed,
  front-IsPart, in_range,
}

-- What is promised of the keys that are left, and of the sectors that are accounted.
pub SquashReads : Bkey → KeyValue → Squashed → Type 0
SquashReads insert v q =
    ((s : ℕ) → found_squashed q s ≡ (if in_range insert s then [] else found v s))
    × (q.subtracted
          + (v.k.size - (min v.k.p.offset insert.p.offset - max (start v.k) (start insert)))
        ≡ q.added + v.k.size)

module _ (insert : Bkey) (v : KeyValue) (hi : IsRange insert) (hv : IsRange v.k)
    (d : extent_is_data v.k ≡ true) (r : Roomy 0 v.k.size v.entries) (o : Overlaps insert v.k) where
  -- The four cases, by what the cuts give.
  all_reads :
      (gone : KeyValue)
      → gone.k.size ≡ 0
      → ¬ (start v.k < start insert)
      → ¬ (insert.p.offset < v.k.p.offset)
      → SquashReads insert v (record { split = none; k = gone; subtracted = v.k.size; added = 0 })
  unfolding SquashReads found
  all_reads gone e h h' = (λ s. ground arith, omega (arith, hv.fits, hi.fits, o.low, o.high))

  front_reads :
      (v' : KeyValue)
      → ¬ (start v.k < start insert)
      → insert.p.offset < v.k.p.offset
      → IsPart v v' insert.p.offset v.k.p.offset
      → SquashReads insert v
          (record { split = none; k = v'; subtracted = insert.p.offset - start v.k; added = 0 })
  unfolding SquashReads found
  front_reads v' h h' p = (
    λ s. IsPart-found v v' insert.p.offset v.k.p.offset s p ∙ ground arith,
    omega (arith, hv.fits, hi.fits, o.low, o.high),
  )

  back_reads :
      (v' : KeyValue)
      → start v.k < start insert
      → ¬ (insert.p.offset < v.k.p.offset)
      → IsPart v v' (start v.k) (start insert)
      → SquashReads insert v
          (record { split = none; k = v'; subtracted = v.k.p.offset - start insert; added = 0 })
  unfolding SquashReads found
  back_reads v' h h' p = (
    λ s. IsPart-found v v' (start v.k) (start insert) s p ∙ ground arith,
    omega (arith, hv.fits, hi.fits, o.low, o.high),
  )

  middle_reads :
      (split v' : KeyValue)
      → start v.k < start insert
      → insert.p.offset < v.k.p.offset
      → IsPart v split (start v.k) (start insert)
      → IsPart v v' insert.p.offset v.k.p.offset
      → SquashReads insert v (record {
        split = some split;
        k = v';
        subtracted = insert.p.offset - start v.k;
        added = start insert - start v.k;
      })
  unfolding SquashReads found
  middle_reads split v' h h' p p' = (
    λ s.
        ap₂ (λ a b. a ++ b) (IsPart-found v split (start v.k) (start insert) s p)
          (IsPart-found v v' insert.p.offset v.k.p.offset s p')
        ∙ ground arith,
    omega (arith, hv.fits, hi.fits, o.low, o.high),
  )

  -- The whole extent is covered: the key that is stored has a size of 0.
  squash_all-empty :
      (stored : Option BkeyFormat)
      → Stored stored v.k
      → (gone : KeyValue) × (squash_all stored insert v ≡ some gone) × (gone.k.size ≡ 0)
  unfolding squash_all extent_save
  squash_all-empty stored st =
      let gone = with_size v.k key_type_deleted 0 (bkey_start_pos insert) in
      let kept = with_size v.k key_type_deleted 0 v.k.p in
      let saved : extent_saves stored kept ≡ true =
        extent_saves-part stored v.k kept st hv.fits (omega arith) (omega arith) (omega arith)
          refl in
      elim (Bool-cases (extent_saves stored gone)) [
        | inl e ↦ (with_key v gone, rw e refl, refl)
        | inr e ↦ (with_key v kept, rw (e, saved) refl, refl)
      ]

  -- An extent is inserted over a data extent that it overlaps with, both with ranges in a file,
  -- where the entries have room for the size; the old key is stored unpacked, or packed in a format
  -- that validates and that stores a size of 0. No BUG is met, of a cut or of `extent_save`. What is
  -- left of the old extent, its second part included, has for each sector outside the new one what
  -- it had, and for those inside nothing; and the sectors taken off, less those put on, are those
  -- that the two shared.
  pub extent_squash-reads :
      (stored : Option BkeyFormat) (written : ℕ)
      → Stored stored v.k
      → (q : Squashed) × (extent_squash stored written insert v (extent_overlap insert v.k)
          ≡ some q)
        × SquashReads insert v q
  unfolding extent_squash cut_subtract_back
  extent_squash-reads stored written st =
      let lap = extent_overlap-start insert v.k hi hv o in
      elim (dec_lt insert.p.offset v.k.p.offset) [
        | yes after_it ↦
            let lt_end : ltb insert.p.offset v.k.p.offset ≡ true = lt→ltb _ _ after_it in
            let (v', e, p) = front-IsPart insert v hi hv d r o after_it in
            let saved =
              IsPart-extent_save stored v v' insert.p.offset v.k.p.offset st hv p
                (omega (arith, o.high)) (omega arith) in
            elim (dec_lt (start v.k) (start insert)) [
              | yes before_it ↦
                  let lt_start : ltb (start v.k) (start insert) ≡ true = lt→ltb _ _ before_it in
                  let (k, cut, ek, c) = back_range insert v hi hv d r o before_it in
                  let (live, p', p'', n) = back_of insert v hi hv d r o k written before_it c in
                  (
                    record {
                      split = some (with_whiteout written (with_key v k));
                      k = v';
                      subtracted = insert.p.offset - start v.k;
                      added = start insert - start v.k;
                    },
                    rw (lap, lt_end, lt_start, extent_squash, ek, live, e, saved, n) refl,
                    middle_reads (with_whiteout written (with_key v k)) v' before_it after_it p'' p,
                  )
              | no nb ↦
                  let ge_start : ltb (start v.k) (start insert) ≡ false = ground arith in
                  (
                    record {
                      split = none;
                      k = v';
                      subtracted = insert.p.offset - start v.k;
                      added = 0;
                    },
                    rw (lap, lt_end, ge_start, extent_squash, e, saved) refl,
                    front_reads v' nb after_it p,
                  )
            ]
        | no na ↦
            let ge_end : ltb insert.p.offset v.k.p.offset ≡ false = ground arith in
            elim (dec_lt (start v.k) (start insert)) [
              | yes before_it ↦
                  let lt_start : ltb (start v.k) (start insert) ≡ true = lt→ltb _ _ before_it in
                  let (k, cut, ek, c) = back_range insert v hi hv d r o before_it in
                  let (live, p', p'', n) = back_of insert v hi hv d r o k written before_it c in
                  let saved =
                    IsPart-extent_save stored v (with_key v k) (start v.k) (start insert) st hv p'
                      (omega arith) (omega (arith, o.low)) in
                  let m : u64 (v.k.p.offset + 2 ^ 64 - bkey_start_offset insert)
                      ≡ v.k.p.offset - start insert =
                    omega (arith, hv.end, o.low, bkey_start_offset-start insert hi) in
                  (
                    record {
                      split = none;
                      k = with_key v k;
                      subtracted = v.k.p.offset - start insert;
                      added = 0;
                    },
                    rw (lap, ge_end, lt_start, extent_squash, cut_subtract_back, ek, live, saved, m)
                        refl,
                    back_reads (with_key v k) before_it na p',
                  )
              | no nb ↦
                  let ge_start : ltb (start v.k) (start insert) ≡ false = ground arith in
                  let (gone, e, none_left) = squash_all-empty stored st in
                  (
                    record { split = none; k = gone; subtracted = v.k.size; added = 0 },
                    rw (lap, ge_end, ge_start, extent_squash, e) refl,
                    all_reads gone none_left nb na,
                  )
            ]
      ]
