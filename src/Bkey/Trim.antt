-- ===== src/Bkey/Trim.antt =====
-- A packed extent still packs when it is trimmed: the last check of `bkey_pack_key`, libbcache/bkey.c.
use mathlib.Core.Path.{subst}
use bcache_tools.Base.{
  List, [], ap, arith, get_elem?, length, none, refl, some, sym, ℕ, ◌-◌, ◌∙◌, ◌∷◌, ◌≡◌, ◌≤◌,
}
use bcache_tools.Bkey.{BkeyFormat, FormatField}
use bcache_tools.Bkey.Key.{Bkey, bkey_fields, bkey_start_offset, offset_field_offset, pack_key}
use bcache_tools.Bkey.Layout.{IsFormat, IsKey, format_validate-Layout}
use bcache_tools.Bkey.Fields.{Holds}
use bcache_tools.Bkey.RoundTrip.{pack_key-Holds, pack_key-some}

-- `k` with other bounds.
abbrev pub trimmed : Bkey → ℕ → ℕ → Bkey
trimmed k offset size = record {
  u64s = k.u64s;
  format = k.format;
  needs_whiteout = k.needs_whiteout;
  kind = k.kind;
  version = k.version;
  size = size;
  p = record { inode = k.p.inode; offset = offset; snapshot = k.p.snapshot };
}

six_fields :
    (f : BkeyFormat)
    → length f.fields ≡ 6
    → (a b c d : FormatField) × (fs : List FormatField) × (f.fields ≡ a ∷ b ∷ c ∷ d ∷ fs)
six_fields f e = go f.fields e
  where
    go :
        (fs : List FormatField)
        → length fs ≡ 6
        → (a b c d : FormatField) × (rest : List FormatField) × (fs ≡ a ∷ b ∷ c ∷ d ∷ rest)
    go [] e = absurd (omega arith)
    go (a ∷ []) e = absurd (omega arith)
    go (a ∷ b ∷ []) e = absurd (omega arith)
    go (a ∷ b ∷ c ∷ []) e = absurd (omega arith)
    go (a ∷ b ∷ c ∷ d ∷ rest) e = (a, b, c, d, rest, refl)

-- `field_offset[BKEY_FIELD_SIZE]`
abbrev pub size_field_offset : BkeyFormat → ℕ
size_field_offset f = elim (get_elem? f.fields 3) [ none ↦ 0 | some g ↦ g.offset ]

-- An extent that packs in a format that validates also packs when it is trimmed to a range within
-- its own: the format stores a size of 0, and the extent does not start below 0.
pub pack_key-trimmed :
    (f : BkeyFormat) (k : Bkey) (ws : List ℕ) (offset size : ℕ)
    → IsFormat f
    → IsKey k
    → size_field_offset f ≡ 0
    → k.size ≤ k.p.offset
    → size ≤ offset
    → k.p.offset - k.size ≤ offset - size
    → offset ≤ k.p.offset
    → pack_key f k ≡ some ws
    → (ws' : List ℕ) × (pack_key f (trimmed k offset size) ≡ some ws')
unfolding Holds
pack_key-trimmed f k ws offset size hf hk zero_size h0 h1 h2 h3 e =
    let (holds, start) = pack_key-Holds f k ws hf.fields hk e in
    let (a, b, c, d, fs, ef) = six_fields f hf.fields in
    let shaped : Holds (a ∷ b ∷ c ∷ d ∷ fs) (bkey_fields k) =
      subst (λ t. Holds t (bkey_fields k)) ef holds in
    let (ha, (hb, (hc, (hd, rest)))) = shaped in
    let size_offset : d.offset ≡ 0 =
      ap (λ t. elim (get_elem? t 3) [ none ↦ 0 | some g ↦ g.offset ]) (sym ef) ∙ zero_size in
    let first : offset_field_offset f ≡ b.offset =
      ap (λ t. elim (get_elem? t 1) [ none ↦ 0 | some g ↦ g.offset ]) ef in
    let low : b.offset ≤ k.p.offset - k.size = omega (arith, hk.offset) in
    let new_start : bkey_start_offset (trimmed k offset size) ≡ offset - size =
      omega (arith, hk.offset) in
    let holds' : Holds (a ∷ b ∷ c ∷ d ∷ fs) (bkey_fields (trimmed k offset size)) =
      (ha, ((omega arith, omega arith), (hc, ((omega arith, omega arith), rest)))) in
    let (ws', e', p) =
      pack_key-some f (trimmed k offset size) (format_validate-Layout f hf.valid)
        (subst (λ t. Holds t (bkey_fields (trimmed k offset size))) (sym ef) holds')
        (omega (arith, hk.offset)) in
    (ws', e')
