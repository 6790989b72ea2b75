-- ===== src/Extents/Cmpxchg.antt =====
-- Whether an extent is still, or still is a part of, what a replacement was made from:
-- `bch_extent_cmpxchg_cmp` of libbcache/extents.c.
use bcache_tools.Base.{
  Bool, List, Option, [], false, if◌then◌else◌, ltb, none, not, some, true, u64, ℕ, ◌&&◌, ◌+◌, ◌-◌,
  ◌==◌, ◌^◌, ◌||◌, ◌∷◌,
}
use bcache_tools.Bkey.Key.{bkey_start_offset}
use bcache_tools.Extents.{Entry, ExtentPtr, entry_u64s, of_crc, of_ptr}
use bcache_tools.Extents.Cut.{KeyValue, extent_is_data, key_type_cookie}
use bcache_tools.Extents.Merge.{same_version}

-- `vstruct_idx`: the entry that starts at a word of the value. There is none in the middle of an entry,
-- nor past the last.
unfoldable pub entry_at : ℕ → List Entry → Option Entry
entry_at n [] = none
entry_at n (e ∷ es) =
    let rest = entry_at (n - entry_u64s e) es in
    if n == 0 then some e else if ltb n (entry_u64s e) then none else rest

-- `lp->offset == rp->offset + offset`, of the same device and generation.
abbrev pub ptr_moved : ℕ → ExtentPtr → ExtentPtr → Bool
ptr_moved offset l r = (l.offset == u64 (r.offset + offset)) && (l.dev == r.dev) && (l.gen == r.gen)

-- The loop over the pointers of the left extent, from the word `n` on. It is `none` where the word of a
-- pointer is in the middle of an entry of the right extent.
unfoldable pub ptrs_moved : ℕ → ℕ → List Entry → List Entry → Option Bool
ptrs_moved offset n [] rs = some true
ptrs_moved offset n (of_crc c ∷ ls) rs = ptrs_moved offset (n + entry_u64s (of_crc c)) ls rs
ptrs_moved offset n (of_ptr l ∷ ls) rs =
    let rest = ptrs_moved offset (n + 1) ls rs in
    elim (entry_at n rs) [
      | none ↦ none
      | some (of_crc c) ↦ some false
      | some (of_ptr r) ↦ if ptr_moved offset l r then rest else some false
    ]

-- `bch_extent_cmpxchg_cmp`. A key of no sectors is a BUG, `none`.
unfoldable pub cmpxchg_cmp : KeyValue → KeyValue → Option Bool
cmpxchg_cmp l r =
    let offset = u64 (bkey_start_offset l.k + 2 ^ 64 - bkey_start_offset r.k) in
    if (l.k.size == 0) || (r.k.size == 0)
    then none
    else if not (l.k.kind == r.k.kind) || not (same_version l.k.version r.k.version)
    then some false
    else if l.k.kind == key_type_cookie
    then some (l.cookie == r.cookie)
    else if not (extent_is_data l.k)
    then some false
    else if not (l.k.u64s == r.k.u64s)
    then some false
    else ptrs_moved offset 0 l.entries r.entries
