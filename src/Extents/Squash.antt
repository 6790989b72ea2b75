-- ===== src/Extents/Squash.antt =====
-- What is left of an extent that another is inserted over: `extent_squash` of libbcache/extents.c.
use bcache_tools.Base.{
  Bool, Option, bit_or, false, if◌then◌else◌, none, some, true, u64, ℕ, ◌+◌, ◌-◌, ◌==◌, ◌^◌,
}
use bcache_tools.Bkey.{BkeyFormat}
use bcache_tools.Bkey.Key.{Bkey, Bpos, bkey_start_offset, pack_key}
use bcache_tools.Extents.Cut.{
  KeyValue, Overlap, bkey_start_pos, cut_back, cut_front, key_type_deleted, overlap_all,
  overlap_back, overlap_front, overlap_middle, with_size,
}

-- A BUG ends the call.
infixl 1 ◌>>=◌
abbrev ◌>>=◌ {ℓ ℓ'} : {A : Type ℓ} {B : Type ℓ'} → Option A → (A → Option B) → Option B
none >>= f = none
some a >>= f = f a

-- What becomes of the old key: `split` is inserted beside it. The other two are the sectors that
-- `bch_add_sectors` is called with, taken off and put on.
pub record Squashed : Type 0 where
  pub split : Option KeyValue
  pub k : KeyValue
  pub subtracted : ℕ
  pub added : ℕ

abbrev pub with_key : KeyValue → Bkey → KeyValue
with_key v k = record {
  k = k;
  entries = v.entries;
  generation = v.generation;
  nr_replicas = v.nr_replicas;
  cookie = v.cookie;
}

-- `k.needs_whiteout |= written`
abbrev pub with_whiteout : ℕ → KeyValue → KeyValue
with_whiteout written v = with_key v (record {
  u64s = v.k.u64s;
  format = v.k.format;
  needs_whiteout = bit_or v.k.needs_whiteout written;
  kind = v.k.kind;
  version = v.k.version;
  size = v.k.size;
  p = v.k.p;
})

abbrev pub bkey_deleted : Bkey → Bool
bkey_deleted k = k.kind == key_type_deleted

-- `bch_cut_subtract_front`: the sectors, and the key. A BUG, of it or that nothing is left, is `none`.
unfoldable pub cut_subtract_front : Bpos → KeyValue → Option (ℕ × KeyValue)
cut_subtract_front at v = elim (cut_front at v) [
  | none ↦ none
  | some (v', cut) ↦
      if bkey_deleted v'.k
      then none
      else some (u64 (at.offset + 2 ^ 64 - bkey_start_offset v.k), v')
]

-- `bch_cut_subtract_back`, likewise.
unfoldable pub cut_subtract_back : Bpos → KeyValue → Option (ℕ × KeyValue)
cut_subtract_back at v = elim (cut_back at v.k) [
  | none ↦ none
  | some (k, cut) ↦
      if bkey_deleted k then none else some (u64 (v.k.p.offset + 2 ^ 64 - at.offset), with_key v k)
]

-- `__extent_save`: whether the key can be stored where the old one was. The format is `b->format`
-- where the stored key is packed, and `none` where `packed_to_bkey` finds it unpacked.
unfoldable pub extent_saves : Option BkeyFormat → Bkey → Bool
extent_saves none k = true
extent_saves (some f) k = elim (pack_key f k) [ none ↦ false | some ws ↦ true ]

-- `extent_save`: its BUG_ON is `none`.
unfoldable pub extent_save : Option BkeyFormat → KeyValue → Option KeyValue
extent_save stored v = if extent_saves stored v.k then some v else none

-- The key of which nothing is left, at the start of the insertion, or at its own end where it cannot
-- be packed there.
unfoldable pub squash_all : Option BkeyFormat → Bkey → KeyValue → Option KeyValue
squash_all stored insert v =
    let gone = with_size v.k key_type_deleted 0 (bkey_start_pos insert) in
    if extent_saves stored gone
    then some (with_key v gone)
    else extent_save stored (with_key v (with_size v.k key_type_deleted 0 v.k.p))

-- `extent_squash`, by how `insert` overlaps with the key: what it does to the old key. (Where the key
-- cannot be packed at the start of the insertion, the code then advances the insertion to its end.)
-- `stored` is how the key is stored, and `written` is `bset_written` of its set.
unfoldable pub extent_squash : Option BkeyFormat → ℕ → Bkey → KeyValue → Overlap → Option Squashed
extent_squash stored written insert v overlap_front = do
  (n, v') ← cut_subtract_front insert.p v
  saved ← extent_save stored v'
  some (record { split = none; k = saved; subtracted = n; added = 0 })
extent_squash stored written insert v overlap_back = do
  (n, v') ← cut_subtract_back (bkey_start_pos insert) v
  saved ← extent_save stored v'
  some (record { split = none; k = saved; subtracted = n; added = 0 })
extent_squash stored written insert v overlap_all = do
  saved ← squash_all stored insert v
  some (record { split = none; k = saved; subtracted = v.k.size; added = 0 })
extent_squash stored written insert v overlap_middle = do
  (k, cut) ← cut_back (bkey_start_pos insert) v.k
  (n, v') ← if bkey_deleted k then none else cut_subtract_front insert.p v
  saved ← extent_save stored v'
  some (record {
    split = some (with_whiteout written (with_key v k));
    k = saved;
    subtracted = n;
    added = k.size;
  })
