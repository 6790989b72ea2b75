-- ===== src/Extents/Saved.antt =====
-- A part of an extent can be stored where the extent was: `__extent_save` of libbcache/extents.c.
use bcache_tools.Base.{
  Bool, Bool-cases, List, Option, Option-cases, ap, ap₂, arith, false, inl, inr, ltb, none, not,
  refl, some, sym, true, ℕ, ◌∙◌, ◌≡◌, ◌≤◌,
}
use bcache_tools.Bkey.{BkeyFormat, pack_state_init, set_fields}
use bcache_tools.Bkey.Key.{Bkey, bkey_fields, bkey_start_offset, offset_field_offset, pack_key}
use bcache_tools.Bkey.Layout.{IsFormat, IsKey}
use bcache_tools.Bkey.Trim.{pack_key-trimmed, size_field_offset, trimmed}
use bcache_tools.Extents.Cut.{KeyValue}
use bcache_tools.Extents.CutReads.{IsRange, start}
use bcache_tools.Extents.Squash.{extent_save, extent_saves}
use bcache_tools.Extents.SquashParts.{IsPart}

-- The key is stored unpacked, or packed in a format that validates and that stores a size of 0.
unfoldable pub Stored : Option BkeyFormat → Bkey → Type 0
Stored none k = Unit
Stored (some f) k =
    IsFormat f × IsKey k × (size_field_offset f ≡ 0) × (ws : List ℕ) × (pack_key f k ≡ some ws)

-- Whether a key packs, by its fields and where it starts.
fields_pack : BkeyFormat → List ℕ → ℕ → Bool
fields_pack f xs begin = elim (set_fields pack_state_init f.fields xs) [
  | none ↦ false
  | some s ↦ not (ltb begin (offset_field_offset f))
]

extent_saves-fields_pack :
    (f : BkeyFormat) (k : Bkey)
    → extent_saves (some f) k ≡ fields_pack f (bkey_fields k) (bkey_start_offset k)
unfolding extent_saves pack_key fields_pack
extent_saves-fields_pack f k =
    elim (Option-cases (set_fields pack_state_init f.fields (bkey_fields k))) [
      | inl bug ↦ rw (extent_saves, pack_key, fields_pack, bug) refl
      | inr (s, q) ↦ elim (Bool-cases (ltb (bkey_start_offset k) (offset_field_offset f))) [
        | inl low ↦ rw (extent_saves, pack_key, fields_pack, q, low) refl
        | inr high ↦ rw (extent_saves, pack_key, fields_pack, q, high) refl
      ]
    ]

pack_key-saves :
    (f : BkeyFormat) (k k' : Bkey) (ws : List ℕ)
    → bkey_fields k' ≡ bkey_fields k
    → bkey_start_offset k' ≡ bkey_start_offset k
    → pack_key f k ≡ some ws
    → extent_saves (some f) k' ≡ true
unfolding extent_saves
pack_key-saves f k k' ws fields begin e =
    extent_saves-fields_pack f k'
    ∙ ap₂ (fields_pack f) fields begin
    ∙ sym (extent_saves-fields_pack f k)
    ∙ rw (extent_saves, e) refl

pub extent_saves-part :
    (stored : Option BkeyFormat) (k k' : Bkey)
    → Stored stored k
    → k.size ≤ k.p.offset
    → k'.size ≤ k'.p.offset
    → start k ≤ start k'
    → k'.p.offset ≤ k.p.offset
    → bkey_fields k' ≡ bkey_fields (trimmed k k'.p.offset k'.size)
    → extent_saves stored k' ≡ true
unfolding Stored extent_saves
extent_saves-part none k k' st h0 h1 low high fields = refl
extent_saves-part (some f) k k' (hf, hk, zero_size, ws, e) h0 h1 low high fields =
    let (ws', e') = pack_key-trimmed f k ws k'.p.offset k'.size hf hk zero_size h0 h1 low high e in
    pack_key-saves f (trimmed k k'.p.offset k'.size) k' ws' fields refl e'

-- A part that is left of an extent meets no BUG of `extent_save`.
pub IsPart-extent_save :
    (stored : Option BkeyFormat) (v v' : KeyValue) (low high : ℕ)
    → Stored stored v.k
    → IsRange v.k
    → IsPart v v' low high
    → start v.k ≤ low
    → high ≤ v.k.p.offset
    → extent_save stored v' ≡ some v'
unfolding extent_save
IsPart-extent_save stored v v' low high st hv p h h' =
    let fields = p.fields ∙ ap (λ t. bkey_fields (trimmed v.k t v'.k.size)) (sym p.end) in
    let saved =
      extent_saves-part stored v.k v'.k st hv.fits p.range.fits (omega (arith, p.begin))
        (omega (arith, p.end)) fields in
    rw saved refl
