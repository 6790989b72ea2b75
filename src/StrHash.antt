-- ===== src/StrHash.antt =====
-- String hash tables in a btree, libbcache/str_hash.h: linear probing with whiteouts, as directories
-- and extended attributes use it.
mod Lookup
mod Chains
mod Tests
use bcache_tools.Base.{Bool, Option, false, if◌then◌else◌, leb, none, some, suc, true, zero, ℕ, ◌-◌}
use bcache_tools.Base.Family.{assign}

-- What `bch_btree_iter_peek_with_holes` finds at an offset of the directory's inode: a key of
-- `desc.key_type`, one of `desc.whiteout_type`, or neither.
pub data Slot (K : Type 0) : Type 0 where
  hole whiteout : Slot K
  key : K → Slot K

-- `struct bch_hash_desc`, with the hash info that its functions are called with. `cmp_key` and
-- `cmp_bkey` answer true where the names differ.
pub record HashDesc (K S : Type 0) : Type 0 where
  pub hash_key : S → ℕ
  pub hash_bkey : K → ℕ
  pub cmp_key : K → S → Bool
  pub cmp_bkey : K → K → Bool

-- The `int` results.
pub data Result : Type 0 where
  done enoent eexist : Result

-- `BCH_HASH_SET_MUST_CREATE` and `BCH_HASH_SET_MUST_REPLACE`.
pub record Flags : Type 0 where
  pub must_create : Bool
  pub must_replace : Bool

module _ {K S : Type 0} (d : HashDesc K S) where
  -- `bch_hash_lookup_at`. `n` offsets are left before `iter->pos.inode` changes. The result is the
  -- iterator's offset and the key there, and none is `-ENOENT`.
  pub lookup_at : S → ℕ → ℕ → (ℕ → Slot K) → Option (ℕ × K)
  lookup_at wanted zero pos t = none
  lookup_at wanted (suc n) pos t = elim (t pos) [
    | hole ↦ none
    | whiteout ↦ lookup_at wanted n (suc pos) t
    | key k ↦ elim (d.cmp_key k wanted) [
      | false ↦ some (pos, k)
      | true ↦ lookup_at wanted n (suc pos) t
    ]
  ]

  -- `bch_hash_lookup_bkey_at`
  pub lookup_bkey_at : K → ℕ → ℕ → (ℕ → Slot K) → Option (ℕ × K)
  lookup_bkey_at wanted zero pos t = none
  lookup_bkey_at wanted (suc n) pos t = elim (t pos) [
    | hole ↦ none
    | whiteout ↦ lookup_bkey_at wanted n (suc pos) t
    | key k ↦ elim (d.cmp_bkey k wanted) [
      | false ↦ some (pos, k)
      | true ↦ lookup_bkey_at wanted n (suc pos) t
    ]
  ]

  -- `bch_hash_hole_at`: the offset of the first slot that holds no key.
  pub hole_at : ℕ → ℕ → (ℕ → Slot K) → Option ℕ
  hole_at zero pos t = none
  hole_at (suc n) pos t = elim (t pos) [
    | hole ↦ some pos
    | whiteout ↦ some pos
    | key k ↦ hole_at n (suc pos) t
  ]

  -- The loop of `bch_hash_needs_whiteout`, `start` being `start->pos.offset`. It does not look at the
  -- inode, and `beyond` is what it answers on the slots of the next one.
  pub whiteout_scan : Bool → ℕ → ℕ → ℕ → (ℕ → Slot K) → Bool
  whiteout_scan beyond start zero pos t = beyond
  whiteout_scan beyond start (suc n) pos t = elim (t pos) [
    | hole ↦ false
    | whiteout ↦ whiteout_scan beyond start n (suc pos) t
    | key k ↦ elim (leb (d.hash_bkey k) start) [
      | true ↦ true
      | false ↦ whiteout_scan beyond start n (suc pos) t
    ]
  ]

  -- The offsets of an inode are below `limit`, which is 2^64.
  pub lookup : ℕ → S → (ℕ → Slot K) → Option (ℕ × K)
  lookup limit wanted t = lookup_at wanted (limit - d.hash_key wanted) (d.hash_key wanted) t

  pub hash_hole : ℕ → S → (ℕ → Slot K) → Option ℕ
  hash_hole limit wanted t = hole_at (limit - d.hash_key wanted) (d.hash_key wanted) t

  pub needs_whiteout : ℕ → Bool → ℕ → (ℕ → Slot K) → Bool
  needs_whiteout limit beyond start t = whiteout_scan beyond start (limit - suc start) (suc start) t

  -- `bch_hash_set`; the insert and its retries are one step.
  pub hash_set : ℕ → Flags → K → (ℕ → Slot K) → Result × (ℕ → Slot K)
  hash_set limit flags k t =
      let start = d.hash_bkey k in
      elim (lookup_bkey_at k (limit - start) start t) [
        | none ↦ elim flags.must_replace [
          | true ↦ (enoent, t)
          | false ↦ elim (hole_at (limit - start) start t) [
            | none ↦ (enoent, t)
            | some pos ↦ (done, assign t pos (key k))
          ]
        ]
        | some (pos, _) ↦ elim flags.must_create [
          | true ↦ (eexist, t)
          | false ↦ (done, assign t pos (key k))
        ]
      ]

  -- `bch_hash_delete`
  pub hash_delete : ℕ → Bool → S → (ℕ → Slot K) → Result × (ℕ → Slot K)
  hash_delete limit beyond wanted t = elim (lookup limit wanted t) [
    | none ↦ (enoent, t)
    | some (pos, _) ↦
        (done, assign t pos (if needs_whiteout limit beyond pos t then whiteout else hole))
  ]
