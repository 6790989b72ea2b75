-- ===== src/Bkey/Order.antt =====
-- Comparing keys, packed or not: `bkey_cmp`, `__bkey_cmp_bits` and `__bkey_cmp_packed` of
-- libbcache/bkey.c and libbcache/bkey.h.
use bcache_tools.Base.{
  List, Option, false, if◌then◌else◌, ltb, none, shr, some, take, true, ℕ, ◌-◌, ◌==◌, ◌∷◌,
}
use bcache_tools.Bkey.{BkeyFormat, fields_bits}
use bcache_tools.Bkey.Key.{Bkey, Bpos, unpack_pos}

-- -1, 0 and 1
pub data Cmp : Type 0 where
  less : Cmp
  equal : Cmp
  greater : Cmp

-- `-cmp`
abbrev pub negate : Cmp → Cmp
negate less = greater
negate equal = equal
negate greater = less

-- `if (l != r) return l < r ? -1 : 1;`, and what follows it.
unfoldable pub cmp_then : ℕ → ℕ → Cmp → Cmp
cmp_then l r next = if l == r then next else if ltb l r then less else greater

-- `bkey_cmp`
unfoldable pub bkey_cmp : Bpos → Bpos → Cmp
bkey_cmp l r =
    cmp_then l.inode r.inode (cmp_then l.offset r.offset (cmp_then l.snapshot r.snapshot equal))

-- The loop of `__bkey_cmp_bits`, with `nr` bits of the words left to compare. A read past the words
-- is `none`.
unfoldable pub cmp_words : ℕ → List ℕ → List ℕ → Option Cmp
cmp_words nr (x ∷ l) (y ∷ r) = elim (ltb nr 64) [
  | true ↦ some (cmp_then (shr x (64 - nr)) (shr y (64 - nr)) equal)
  | false ↦ elim (x == y) [
    | false ↦ some (if ltb x y then less else greater)
    | true ↦ elim (nr == 64) [ true ↦ some equal | false ↦ cmp_words (nr - 64) l r ]
  ]
]
cmp_words nr _ _ = none

-- `__bkey_cmp_bits`; `high_bit_offset` is 0.
unfoldable pub cmp_bits : List ℕ → List ℕ → ℕ → Option Cmp
cmp_bits l r nr_key_bits = elim (nr_key_bits == 0) [
  | true ↦ some equal
  | false ↦ cmp_words nr_key_bits l r
]

-- `bkey_format_key_bits`
abbrev pub key_bits : BkeyFormat → ℕ
key_bits f = fields_bits (take 3 f.fields)

-- A key in a btree node: in the node's format, or unpacked.
pub data NodeKey : Type 0 where
  local : List ℕ → NodeKey
  current : Bkey → NodeKey

-- `bkey_cmp_left_packed`
unfoldable pub cmp_left_packed : BkeyFormat → NodeKey → Bpos → Option Cmp
cmp_left_packed f (local ws) r = elim (unpack_pos f ws) [
  | none ↦ none
  | some p ↦ some (bkey_cmp p r)
]
cmp_left_packed f (current k) r = some (bkey_cmp k.p r)

-- `__bkey_cmp_packed`; `nr_key_bits` of the node is that of its format.
unfoldable pub cmp_packed : BkeyFormat → NodeKey → NodeKey → Option Cmp
cmp_packed f (local l) (local r) = cmp_bits l r (key_bits f)
cmp_packed f (current l) (current r) = some (bkey_cmp l.p r.p)
cmp_packed f (local l) (current r) = cmp_left_packed f (local l) r.p
cmp_packed f (current l) (local r) = elim (cmp_left_packed f (local r) l.p) [
  | none ↦ none
  | some c ↦ some (negate c)
]
