-- ===== src/Extents/Cut.antt =====
-- Extents that are cut at either end, and how two overlap: libbcache/extents.c, bkey.h and bset.h.
use bcache_tools.Base.{
  Bool, List, Option, false, if◌then◌else◌, ltb, none, not, some, true, u64, ℕ, ◌%◌, ◌&&◌, ◌+◌, ◌-◌,
  ◌==◌, ◌^◌, ◌||◌,
}
use bcache_tools.Bkey.Key.{Bkey, Bpos, bkey_start_offset}
use bcache_tools.Bkey.Order.{Cmp, bkey_cmp, greater, less}
use bcache_tools.Extents.{Entry, forward}

-- The types of keys, `KEY_TYPE_*` and `BCH_*`.
abbrev pub key_type_deleted : ℕ
key_type_deleted = 0

abbrev pub key_type_discard : ℕ
key_type_discard = 1

abbrev pub key_type_error : ℕ
key_type_error = 2

abbrev pub key_type_cookie : ℕ
key_type_cookie = 3

abbrev pub bch_extent : ℕ
bch_extent = 128

abbrev pub bch_extent_cached : ℕ
bch_extent_cached = 129

abbrev pub bch_reservation : ℕ
bch_reservation = 130

-- `struct bkey_i`: a key with its value. `generation` and `nr_replicas` are the value of a
-- reservation, `entries` that of an extent, `cookie` that of a cookie.
pub record KeyValue : Type 0 where
  pub k : Bkey
  pub entries : List Entry
  pub generation : ℕ
  pub nr_replicas : ℕ
  pub cookie : ℕ

-- `bkey_whiteout`
abbrev pub bkey_whiteout : Bkey → Bool
bkey_whiteout k = (k.kind == key_type_deleted) || (k.kind == key_type_discard)

-- `bkey_extent_is_data`
abbrev pub extent_is_data : Bkey → Bool
extent_is_data k = (k.kind == bch_extent) || (k.kind == bch_extent_cached)

-- `bkey_start_pos`
abbrev pub bkey_start_pos : Bkey → Bpos
bkey_start_pos k = record {
  inode = k.p.inode;
  offset = bkey_start_offset k;
  snapshot = k.p.snapshot;
}

-- `k` with another type, size and position; a size has 32 bits.
abbrev pub with_size : Bkey → ℕ → ℕ → Bpos → Bkey
with_size k kind size p = record {
  u64s = k.u64s;
  format = k.format;
  needs_whiteout = k.needs_whiteout;
  kind = kind;
  version = k.version;
  size = size % 2 ^ 32;
  p = p;
}

abbrev pub is_greater : Cmp → Bool
is_greater greater = true
is_greater _ = false

abbrev pub is_less : Cmp → Bool
is_less less = true
is_less _ = false

-- The last `len` sectors of a key: the end of `__bch_cut_front`.
abbrev pub last_sectors : ℕ → KeyValue → KeyValue
last_sectors len v = record {
  k = with_size v.k (if len == 0 then key_type_deleted else v.k.kind) len v.k.p;
  entries =
      if not (len == 0) && extent_is_data v.k
      then forward false (v.k.size - len) v.entries
      else v.entries;
  generation = v.generation;
  nr_replicas = v.nr_replicas;
  cookie = v.cookie;
}

-- `__bch_cut_front`: what is left, and whether the key was cut. Its BUG_ON is `none`.
unfoldable pub cut_front : Bpos → KeyValue → Option (KeyValue × Bool)
cut_front at v =
    let len = u64 (v.k.p.offset + 2 ^ 64 - at.offset) in
    if not (is_greater (bkey_cmp at (bkey_start_pos v.k)))
    then some (v, false)
    else if ltb v.k.size len
    then none
    else some (last_sectors len v, true)

-- `bch_cut_back`
unfoldable pub cut_back : Bpos → Bkey → Option (Bkey × Bool)
cut_back at k =
    let len = u64 (at.offset + 2 ^ 64 - bkey_start_offset k) in
    if not (is_less (bkey_cmp at k.p))
    then some (k, false)
    else if ltb k.size len
    then none
    else some (with_size k (if len == 0 then key_type_deleted else k.kind) len at, true)

-- `bch_key_resize`
abbrev pub key_resize : Bkey → ℕ → Bkey
key_resize k new_size = with_size k k.kind new_size (record {
  inode = k.p.inode;
  offset = u64 (u64 (k.p.offset + 2 ^ 64 - k.size) + new_size);
  snapshot = k.p.snapshot;
})

-- `enum bch_extent_overlap`
pub data Overlap : Type 0 where
  overlap_all : Overlap
  overlap_back : Overlap
  overlap_front : Overlap
  overlap_middle : Overlap

-- `bch_extent_overlap`: how `k` overlaps with `m`.
unfoldable pub extent_overlap : Bkey → Bkey → Overlap
extent_overlap k m =
    if is_less (bkey_cmp k.p m.p)
    then (if is_greater (bkey_cmp (bkey_start_pos k) (bkey_start_pos m))
        then overlap_middle
        else overlap_front)
    else if is_greater (bkey_cmp (bkey_start_pos k) (bkey_start_pos m))
    then overlap_back
    else overlap_all
