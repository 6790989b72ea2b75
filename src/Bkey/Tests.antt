-- ===== src/Bkey/Tests.antt =====
-- Packed keys on concrete keys, libbcache/bkey.c.
use bcache_tools.Base.Fls.{fls64, fls_upto}
use bcache_tools.Bkey.Layout.{IsFormat, IsKey}
use bcache_tools.Bkey.Order.{bkey_cmp, cmp_packed, current, local}
use bcache_tools.Bkey.Packs.{format_done-IsFormat, format_done-packs}
use bcache_tools.Bkey.Position.{IsOf, cmp_packed-bkey_cmp}
use bcache_tools.Bkey.Range.{Added, Collected, add_key, init}
use bcache_tools.Bkey.RoundTrip.{unpack_key-pack_key}
use bcache_tools.Bkey.Transform.{transform_key-unpack_key}
use bcache_tools.Bkey.Trim.{pack_key-trimmed, trimmed}
use bcache_tools.Base.{List, [], arith, inl, inr, refl, some, ℕ, ◌<◌, ◌^◌, ◌∷◌, ◌≡◌}
use bcache_tools.Bkey.{BkeyFormat, get_inc_field, put_bits, set_fields, set_header, set_inc_field}
use bcache_tools.Bkey.Key.{Bkey, pack_key, transform_fields, transform_key, unpack_key}
use bcache_tools.Bkey.Format.{
  FieldRange, format_add, format_add_key, format_done, format_init, format_validate, grow_field,
  round_fields, set_format_field, validate_field, validate_fields,
}

abbrev extent : ℕ → ℕ → ℕ → Bkey
extent inode offset size = record {
  u64s = 7;
  format = 1;
  needs_whiteout = 0;
  kind = 128;
  version = record { hi = 0; lo = 9 };
  size = size;
  p = record { inode = inode; offset = offset; snapshot = 0 };
}

abbrev key_one : Bkey
key_one = extent 4096 100 8

abbrev key_two : Bkey
key_two = extent 4096 70000 16

abbrev ranges : List FieldRange
ranges = format_add_key (format_add_key format_init key_one) key_two

abbrev narrow : BkeyFormat
narrow = format_done ranges

-- The format of unpacked keys, but for the version's high part and the size.
abbrev wide : BkeyFormat
wide = record {
  key_u64s = 4;
  nr_fields = 6;
  fields =
      record { bits = 64; offset = 0 }
      ∷ record { bits = 64; offset = 0 }
      ∷ record { bits = 32; offset = 0 }
      ∷ record { bits = 32; offset = 0 }
      ∷ record { bits = 0; offset = 0 }
      ∷ record { bits = 32; offset = 0 }
      ∷ [];
}

extent-IsKey :
    (inode offset size : ℕ)
    → inode < 2 ^ 64
    → offset < 2 ^ 64
    → size < 2 ^ 32
    → IsKey (extent inode offset size)
extent-IsKey inode offset size hi ho hs = record {
  u64s = omega arith;
  format = refl;
  needs_whiteout = omega arith;
  kind = omega arith;
  hi = omega arith;
  lo = omega arith;
  size = hs;
  inode = hi;
  offset = ho;
  snapshot = omega arith;
}

key_one-IsKey : IsKey key_one
key_one-IsKey = extent-IsKey 4096 100 8 (omega arith) (omega arith) (omega arith)

key_two-IsKey : IsKey key_two
key_two-IsKey = extent-IsKey 4096 70000 16 (omega arith) (omega arith) (omega arith)

both : Collected ranges (key_two ∷ key_one ∷ [])
both = add_key key_two key_two-IsKey (add_key key_one key_one-IsKey init)

narrow-IsFormat : IsFormat narrow
narrow-IsFormat = format_done-IsFormat ranges (key_two ∷ key_one ∷ []) both

wide-IsFormat : IsFormat wide
unfolding format_validate validate_fields validate_field
wide-IsFormat = record { valid = refl; fields = refl; key_u64s = omega arith }

abbrev words_one : List ℕ
words_one = 8796235628547 ∷ []

abbrev words_two : List ℕ
words_two = 76864659151388675 ∷ []

abbrev wide_words : List ℕ
wide_words = 4096 ∷ 100 ∷ 8 ∷ 38663094278 ∷ []

packs_one : pack_key narrow key_one ≡ some words_one
unfolding pack_key set_fields set_inc_field put_bits set_header format_done format_add_key
    format_add set_format_field round_fields grow_field fls64 fls_upto
packs_one = refl

packs_two : pack_key narrow key_two ≡ some words_two
unfolding pack_key set_fields set_inc_field put_bits set_header format_done format_add_key
    format_add set_format_field round_fields grow_field fls64 fls_upto
packs_two = refl

moves_one : transform_key wide narrow words_one ≡ some wide_words
unfolding transform_key transform_fields get_inc_field set_inc_field put_bits set_header format_done
    format_add_key format_add set_format_field round_fields grow_field fls64 fls_upto
moves_one = refl

unpack_key-pack_key_example : unpack_key narrow words_one ≡ some key_one
unpack_key-pack_key_example =
    unpack_key-pack_key narrow key_one words_one narrow-IsFormat key_one-IsKey packs_one

transform_key-unpack_key_example : unpack_key wide wide_words ≡ some key_one
transform_key-unpack_key_example =
    transform_key-unpack_key wide narrow key_one words_one wide_words wide-IsFormat narrow-IsFormat
      key_one-IsKey packs_one moves_one

cmp_packed-bkey_cmp_example :
    cmp_packed narrow (local words_one) (current key_two) ≡ some (bkey_cmp key_one.p key_two.p)
unfolding IsOf
cmp_packed-bkey_cmp_example =
    cmp_packed-bkey_cmp narrow (local words_one) (current key_two) key_one key_two narrow-IsFormat
      key_one-IsKey key_two-IsKey packs_one refl

format_done-packs_example :
    (ws : List ℕ) × (pack_key (format_done ranges) key_one ≡ some ws)
    × (unpack_key (format_done ranges) ws ≡ some key_one)
unfolding Added
format_done-packs_example =
    format_done-packs ranges (key_two ∷ key_one ∷ []) key_one both (inr (inl refl))

pack_key-trimmed_example : (ws : List ℕ) × (pack_key narrow (trimmed key_one 98 4) ≡ some ws)
unfolding format_done format_add_key format_add set_format_field round_fields grow_field fls64
    fls_upto
pack_key-trimmed_example =
    pack_key-trimmed narrow key_one words_one 98 4 narrow-IsFormat key_one-IsKey refl (omega arith)
      (omega arith) (omega arith) (omega arith) packs_one
