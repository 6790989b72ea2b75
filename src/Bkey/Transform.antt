-- ===== src/Bkey/Transform.antt =====
-- A key that is moved from one format to another, `bch_bkey_transform_key` of libbcache/bkey.c.
use mathlib.Core.Option.{some-injective}
use mathlib.Core.Path.{subst}
use bcache_tools.Bkey.Fields.{set_fields-Holds}
use bcache_tools.Base.{
  List, Option-cases, [], arith, inl, inr, length, none-ne-some, refl, some, sym, ℕ, ◌+◌, ◌-◌, ◌^◌,
  ◌∙◌, ◌∷◌, ◌≡◌,
}
use bcache_tools.Bkey.{
  BkeyFormat, FormatField, PackState, UnpackState, get_fields, get_inc_field, pack_state_finish,
  pack_state_init, set_fields, set_header, set_inc_field,
}
use bcache_tools.Bkey.Key.{
  Bkey, bkey_fields, bkey_u64s, header, key_format_local_btree, low_word, pack_key, packed_u64s,
  transform_fields, transform_key, unpack_key,
}
use bcache_tools.Bkey.Layout.{IsFormat, IsKey, bkey_fields-AreWords, format_validate-Layout}
use bcache_tools.Bkey.Stored.{Stored, get_all-Stored, set_fields-Stored}
use bcache_tools.Bkey.RoundTrip.{
  header-kind, header-lt, header-needs_whiteout, header-u64s, pack_header, pack_key-PackedKey,
  unpack_key-Stored,
}

-- The loop reads every field and writes it.
transform_fields-set_fields :
    (gs fs : List FormatField) (vs : List ℕ) (o : PackState) (i : UnpackState)
    → length gs ≡ length fs
    → get_fields i fs ≡ some vs
    → transform_fields o gs i fs ≡ set_fields o gs vs
unfolding transform_fields get_fields set_fields
transform_fields-set_fields [] [] [] o i l e = refl
transform_fields-set_fields [] [] (v ∷ vs) o i l e = refl
transform_fields-set_fields (g ∷ gs) (f ∷ fs) vs o i l e = elim (Option-cases (get_inc_field i f)) [
  | inl fails ↦ absurd (none-ne-some {a = vs} (sym (rw (fails, get_fields) refl) ∙ e))
  | inr ((v, i'), reads) ↦ elim (Option-cases (get_fields i' fs)) [
    | inl fails ↦ absurd (none-ne-some {a = vs} (sym (rw (reads, fails, get_fields) refl) ∙ e))
    | inr (ws, rest) ↦
        let all : v ∷ ws ≡ vs =
          some-injective (v ∷ ws) vs (sym (rw (reads, rest, get_fields) refl) ∙ e) in
        rw (sym all) (elim (Option-cases (set_inc_field o g v)) [
          | inl refused ↦ rw (reads, refused, transform_fields, set_fields) refl
          | inr (o', sets) ↦
              rw (reads, sets, transform_fields, set_fields)
                (transform_fields-set_fields gs fs ws o' i' (omega arith) rest)
        ])
  ]
]
transform_fields-set_fields [] (f ∷ fs) vs o i l e = absurd (omega arith)
transform_fields-set_fields (g ∷ gs) [] vs o i l e = absurd (omega arith)

-- A key that is packed in one format and moved to another is unpacked there as it was: both formats
-- validate.
pub transform_key-unpack_key :
    (out_f in_f : BkeyFormat) (k : Bkey) (ws out : List ℕ)
    → IsFormat out_f
    → IsFormat in_f
    → IsKey k
    → pack_key in_f k ≡ some ws
    → transform_key out_f in_f ws ≡ some out
    → unpack_key out_f out ≡ some k
unfolding transform_key
transform_key-unpack_key out_f in_f k ws out ho hi hk packed moved =
    let vs = bkey_fields k in
    let lo = format_validate-Layout out_f ho.valid in
    let li = format_validate-Layout in_f hi.valid in
    let p = pack_key-PackedKey in_f k ws hi hk packed in
    let (i, init, got) =
      get_all-Stored in_f vs (pack_header in_f k) ws li (bkey_fields-AreWords k hk) hi.fields p in
    let same =
      transform_fields-set_fields out_f.fields in_f.fields vs pack_state_init i
        (ho.fields ∙ sym hi.fields) got in
    let u = out_f.key_u64s + packed_u64s ws + 2 ^ 8 - in_f.key_u64s in
    let h = header u key_format_local_btree k.needs_whiteout k.kind in
    let x = low_word ws in
    let in_u = in_f.key_u64s + k.u64s + 2 ^ 8 - bkey_u64s in
    let u' = header-u64s x in_u 0 k.needs_whiteout k.kind p.low in
    let n' = header-needs_whiteout x in_u 0 k.needs_whiteout k.kind p.low hk.needs_whiteout in
    let t' = header-kind x in_u 0 k.needs_whiteout k.kind p.low hk.kind in
    elim (Option-cases (set_fields pack_state_init out_f.fields vs)) [
      | inl refused ↦
          absurd
            (none-ne-some {a = out} (sym (rw (init, same, refused, transform_key) refl) ∙ moved))
      | inr (o, sets) ↦
          let holds =
            set_fields-Holds out_f.fields vs pack_state_init o ho.fields (bkey_fields-AreWords k hk)
              sets in
          let (s, sets', stored) =
            set_fields-Stored out_f vs h lo holds (header-lt u 0 k.needs_whiteout k.kind) in
          let moves : transform_key out_f in_f ws
              ≡ some (set_header h (pack_state_finish s out_f.key_u64s)) =
            rw (init, same, sets', n', t', transform_key) refl in
          unpack_key-Stored out_f k u out lo ho.fields hk
            (omega (arith, u', ho.key_u64s, hi.key_u64s, hk.u64s))
            (subst (Stored out_f vs h)
              (some-injective (set_header h (pack_state_finish s out_f.key_u64s)) out
                (sym moves ∙ moved))
              stored)
    ]
