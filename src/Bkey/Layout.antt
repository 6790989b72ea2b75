-- ===== src/Bkey/Layout.antt =====
-- Keys and formats that are well formed, and what `bch_bkey_format_validate` of libbcache/bkey.c
-- establishes.
use bcache_tools.Base.{
  List, Option-cases, [], arith, inl, inr, length, none, none-ne-some, refl, sym, ◌*◌, ◌+◌, ◌<◌,
  ◌^◌, ◌∙◌, ◌∷◌, ◌≡◌, ◌≤◌,
}
use bcache_tools.Bkey.{BkeyFormat, FormatField, fields_bits, key_packed_bits_start}
use bcache_tools.Bkey.Key.{Bkey, bkey_fields, key_format_current}
use bcache_tools.Bkey.Format.{format_validate, validate_field, validate_fields, words_for}
use bcache_tools.Bkey.Stream.{AreWords}
use bcache_tools.Bkey.Fields.{FitWords}

-- The widths of `struct bkey`.
pub record IsKey (k : Bkey) : Type 0 where
  pub u64s : k.u64s < 2 ^ 8
  pub format : k.format ≡ key_format_current
  pub needs_whiteout : k.needs_whiteout < 2
  pub kind : k.kind < 2 ^ 8
  pub hi : k.version.hi < 2 ^ 32
  pub lo : k.version.lo < 2 ^ 64
  pub size : k.size < 2 ^ 32
  pub inode : k.p.inode < 2 ^ 64
  pub offset : k.p.offset < 2 ^ 64
  pub snapshot : k.p.snapshot < 2 ^ 32

-- A format of six fields that validates.
pub record IsFormat (f : BkeyFormat) : Type 0 where
  pub valid : format_validate f ≡ none
  pub fields : length f.fields ≡ 6
  pub key_u64s : f.key_u64s < 2 ^ 8

validate_fields-FitWords : (fs : List FormatField) → validate_fields fs ≡ none → FitWords fs
unfolding validate_fields validate_field FitWords
validate_fields-FitWords [] e = tt
validate_fields-FitWords (f ∷ fs) e = elim (Option-cases (validate_field f)) [
  | inl fine ↦ (
    ground (arith, fine),
    validate_fields-FitWords fs (sym (rw (fine, validate_fields) refl) ∙ e),
  )
  | inr (err, bad) ↦ absurd (none-ne-some {a = err} (sym e ∙ rw (bad, validate_fields) refl))
]

-- What `bch_bkey_format_validate` establishes.
pub record Layout (f : BkeyFormat) : Type 0 where
  pub fit : FitWords f.fields
  pub room : fields_bits f.fields + 24 ≤ 64 * f.key_u64s
  pub tight : 64 * f.key_u64s < fields_bits f.fields + 24 + 64

pub format_validate-Layout : (f : BkeyFormat) → format_validate f ≡ none → Layout f
unfolding format_validate
format_validate-Layout f e = elim (Option-cases (validate_fields f.fields)) [
  | inl fine ↦
      let size : f.key_u64s ≡ words_for (key_packed_bits_start + fields_bits f.fields) =
        ground (arith, e, fine) in
      record {
        fit = validate_fields-FitWords f.fields fine;
        room = omega arith;
        tight = omega arith;
      }
  | inr (err, bad) ↦ ground (arith, e, bad)
]

pub bkey_fields-AreWords : (k : Bkey) → IsKey k → AreWords (bkey_fields k)
unfolding AreWords
bkey_fields-AreWords k h = (
  h.inode,
  (
    h.offset,
    (omega (arith, h.snapshot), (omega (arith, h.size), (omega (arith, h.hi), (h.lo, tt)))),
  ),
)
