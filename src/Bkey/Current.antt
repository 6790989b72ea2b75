-- ===== src/Bkey/Current.antt =====
-- The format with the widths of an unpacked key, `BKEY_FORMAT_CURRENT` of include/linux/bcache.h.
use bcache_tools.Base.{List, [], arith, refl, some, ℕ, ◌∷◌, ◌≡◌}
use bcache_tools.Bkey.{BkeyFormat}
use bcache_tools.Bkey.Key.{Bkey, bkey_u64s, pack_key}
use bcache_tools.Bkey.Format.{format_validate, validate_field, validate_fields}
use bcache_tools.Bkey.Layout.{IsFormat, IsKey, format_validate-Layout}
use bcache_tools.Bkey.Fields.{Holds}
use bcache_tools.Bkey.RoundTrip.{pack_key-some}

-- `bch_bkey_format_current`
abbrev pub bkey_format_current : BkeyFormat
bkey_format_current = record {
  key_u64s = bkey_u64s;
  nr_fields = 6;
  fields =
      record { bits = 64; offset = 0 }
      ∷ record { bits = 64; offset = 0 }
      ∷ record { bits = 32; offset = 0 }
      ∷ record { bits = 32; offset = 0 }
      ∷ record { bits = 32; offset = 0 }
      ∷ record { bits = 64; offset = 0 }
      ∷ [];
}

pub bkey_format_current-IsFormat : IsFormat bkey_format_current
unfolding format_validate validate_fields validate_field
bkey_format_current-IsFormat = record { valid = refl; fields = refl; key_u64s = omega arith }

-- Every key packs in it.
pub bkey_format_current-packs :
    (k : Bkey) → IsKey k → (ws : List ℕ) × (pack_key bkey_format_current k ≡ some ws)
unfolding Holds
bkey_format_current-packs k h =
    let (ws, e, p) =
      pack_key-some bkey_format_current k
        (format_validate-Layout bkey_format_current bkey_format_current-IsFormat.valid)
        (
          (omega arith, omega (arith, h.inode)),
          (
            (omega arith, omega (arith, h.offset)),
            (
              (omega arith, omega (arith, h.snapshot)),
              (
                (omega arith, omega (arith, h.size)),
                ((omega arith, omega (arith, h.hi)), ((omega arith, omega (arith, h.lo)), tt)),
              ),
            ),
          ),
        )
        (omega arith) in
    (ws, e)
