-- ===== src/Extents/Merge.antt =====
-- Joining two extents that lie next to each other: `bch_extent_merge` of libbcache/extents.c.
use bcache_tools.Base.{
  Bool, List, Option, [], bit_and, bit_or, bit_xor, false, if◌then◌else◌, ltb, none, not, some,
  true, u64, ℕ, ◌&&◌, ◌+◌, ◌-◌, ◌==◌, ◌^◌, ◌||◌, ◌∷◌,
}
use bcache_tools.Bkey.Key.{Bkey, Bversion}
use bcache_tools.Bkey.Order.{Cmp, bkey_cmp, equal}
use bcache_tools.Extents.{Entry, ExtentPtr, of_ptr}
use bcache_tools.Extents.Cut.{
  KeyValue, bch_reservation, bkey_start_pos, bkey_whiteout, cut_front, extent_is_data, key_resize,
  key_type_error,
}

-- `enum merge_result`, with what has become of the two keys: both, or the first alone.
pub data Merge : Type 0 where
  nomerge : Merge
  partial : KeyValue → KeyValue → Merge
  merged : KeyValue → Merge

-- `KEY_SIZE_MAX`
abbrev pub key_size_max : ℕ
key_size_max = 2 ^ 32 - 1

-- `bversion_cmp`, as a test for equality
abbrev pub same_version : Bversion → Bversion → Bool
same_version l r = (l.hi == r.hi) && (l.lo == r.lo)

abbrev pub is_equal : Cmp → Bool
is_equal equal = true
is_equal _ = false

-- `l->k.needs_whiteout |= r->k.needs_whiteout`
abbrev pub joined_whiteout : KeyValue → KeyValue → KeyValue
joined_whiteout l r = record {
  k = record {
    u64s = l.k.u64s;
    format = l.k.format;
    needs_whiteout = bit_or l.k.needs_whiteout r.k.needs_whiteout;
    kind = l.k.kind;
    version = l.k.version;
    size = l.k.size;
    p = l.k.p;
  };
  entries = l.entries;
  generation = l.generation;
  nr_replicas = l.nr_replicas;
  cookie = l.cookie;
}

-- `bch_key_resize(&l->k, new_size)`
abbrev pub resized : KeyValue → ℕ → KeyValue
resized v new_size = record {
  k = key_resize v.k new_size;
  entries = v.entries;
  generation = v.generation;
  nr_replicas = v.nr_replicas;
  cookie = v.cookie;
}

-- The tests on the headers.
abbrev pub headers_follow : Bkey → Bkey → Bool
headers_follow l r =
    (l.u64s == r.u64s)
    && (l.kind == r.kind)
    && same_version l.version r.version
    && is_equal (bkey_cmp l.p (bkey_start_pos r))

-- `m->bucket_size` of each device, the sectors of its buckets.
module _ (bucket_size : ℕ → ℕ) where
  -- `offset & ~((u64) m->bucket_size - 1)`: the bits of `offset` that are not in the mask.
  abbrev pub bucket_base : ℕ → ℕ → ℕ
  bucket_base dev offset =
      bit_and offset (bit_xor (u64 (bucket_size dev + 2 ^ 64 - 1)) (2 ^ 64 - 1))

  -- The body of the loop over the entries of the left key, which has `size` sectors.
  abbrev pub ptr_follows : ℕ → ExtentPtr → ExtentPtr → Bool
  ptr_follows size l r =
      (l.offset + size == r.offset)
      && (l.dev == r.dev)
      && (l.gen == r.gen)
      && (bucket_base l.dev l.offset == bucket_base l.dev r.offset)

  -- The loop; the entries of the right key are as many as those of the left, as they have the same words.
  unfoldable pub entries_follow : ℕ → List Entry → List Entry → Bool
  entries_follow size [] _ = true
  entries_follow size (of_ptr l ∷ ls) (of_ptr r ∷ rs) =
      ptr_follows size l r && entries_follow size ls rs
  entries_follow size _ _ = false

  -- The `switch` on the type of the left key.
  unfoldable pub values_follow : KeyValue → KeyValue → Bool
  values_follow l r =
      if bkey_whiteout l.k || (l.k.kind == key_type_error)
      then true
      else if extent_is_data l.k
      then entries_follow l.k.size l.entries r.entries
      else if l.k.kind == bch_reservation
      then (l.generation == r.generation) && (l.nr_replicas == r.nr_replicas)
      else false

  -- `bch_extent_merge`; `disabled` is `key_merging_disabled(c)`. A BUG of `bch_cut_front` is `none`.
  unfoldable pub extent_merge : Bool → KeyValue → KeyValue → Option Merge
  extent_merge disabled l r =
      let l' = joined_whiteout l r in
      if disabled || not (headers_follow l.k r.k) || not (values_follow l r)
      then some nomerge
      else if ltb key_size_max (l.k.size + r.k.size)
      then (elim (cut_front (resized l' key_size_max).k.p r) [
        | none ↦ none
        | some (r', cut) ↦ some (partial (resized l' key_size_max) r')
      ])
      else some (merged (resized l' (l.k.size + r.k.size)))
