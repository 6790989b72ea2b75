-- ===== src/Bkey/Packs.antt =====
-- Every key that was added packs in the format chosen: `bch_bkey_format_done` and `bkey_pack_key` of
-- libbcache/bkey.c.
use bcache_tools.Base.{
  Bool-cases, List, [], ap, arith, inl, inr, leb, length, map, refl, some, suc, true, ℕ, ◌%◌, ◌*◌,
  ◌+◌, ◌-◌, ◌==◌, ◌^◌, ◌∙◌, ◌∷◌, ◌≡◌, ◌≤◌,
}
use bcache_tools.Bkey.{FormatField, fields_bits}
use bcache_tools.Bkey.Key.{
  Bkey, bkey_fields, bkey_start_offset, offset_field_offset, pack_key, unpack_key,
}
use bcache_tools.Bkey.Format.{
  FieldRange, format_done, format_field, format_validate, grow_size, round_fields, to_byte,
  words_for,
}
use bcache_tools.Bkey.Layout.{IsFormat, format_validate-Layout}
use bcache_tools.Bkey.Fields.{Holds}
use bcache_tools.Bkey.Stored.{spare}
use bcache_tools.Bkey.RoundTrip.{pack_key-some, unpack_key-pack_key}
use bcache_tools.Bkey.Range.{
  Added, Collected, Collected-IsKey, Collected-Limits, Collected-Spans, Limits, Spans, six,
  start_fields,
}
use bcache_tools.Bkey.Fits.{
  AllSound, Sound, round_fields-AllSound, round_fields-Holds, round_fields-bits,
}
use bcache_tools.Bkey.Chosen.{AllSound-valid, fields_before-AllSound, fields_before-Holds}

fields_bits-le : (fs : List FormatField) → AllSound fs → fields_bits fs ≤ 64 * length fs
unfolding AllSound Sound
fields_bits-le [] h = omega arith
fields_bits-le (f ∷ fs) (h, hs) = omega (arith, fields_bits-le fs hs, h.0)

length-round_fields :
    (spare : ℕ) (fs : List FormatField) → length (round_fields spare fs) ≡ length fs
unfolding round_fields
length-round_fields spare [] = refl
length-round_fields spare (f ∷ fs) = elim (Bool-cases (leb (to_byte f.bits) spare)) [
  | inl rounds ↦
      rw (rounds, round_fields) (ap suc (length-round_fields (spare - to_byte f.bits) fs))
  | inr stays ↦ rw (stays, round_fields) (ap suc (length-round_fields spare fs))
]

six_before : (s : List FieldRange) → Limits s → length (grow_size (map format_field s)) ≡ 6
six_before s (six a b c d e g ha hd he) = refl

-- The spare bits below a whole number of words do not change how many words there are.
words_for-spare :
    (n n' : ℕ)
    → n ≤ 384
    → n ≤ n'
    → n' ≤ n + (words_for (24 + n) % 2 ^ 8 * 64 - (24 + n))
    → words_for (24 + n) % 2 ^ 8 ≡ words_for (24 + n')
words_for-spare n n' h h' h'' = omega arith

-- The format made of any keys and positions validates: it has six fields.
pub format_done-IsFormat :
    (s : List FieldRange) (ks : List Bkey) → Collected s ks → IsFormat (format_done s)
unfolding format_done format_validate
format_done-IsFormat s ks c =
    let before = grow_size (map format_field s) in
    let sound = fields_before-AllSound s (Collected-Limits c) in
    let len = six_before s (Collected-Limits c) in
    let n = fields_bits before in
    let spare = words_for (24 + n) % 2 ^ 8 * 64 - (24 + n) in
    let (low, high) = round_fields-bits spare before in
    let small : n ≤ 384 = omega (arith, fields_bits-le before sound, len) in
    let size = words_for-spare n (fields_bits (round_fields spare before)) small low high in
    let fine =
      AllSound-valid (round_fields spare before) (round_fields-AllSound spare before sound) in
    let same : ((words_for (24 + n) % 2 ^ 8)
          == words_for (24 + fields_bits (round_fields spare before)))
        ≡ true =
      ground arith in
    record {
      valid = rw (fine, same, format_validate) refl;
      fields = length-round_fields spare before ∙ len;
      key_u64s = omega arith;
    }

offset_first :
    (fs : List FormatField) (n u : ℕ) (i o : ℕ) (vs : List ℕ)
    → Holds fs (i ∷ o ∷ vs)
    → offset_field_offset (record { key_u64s = u; nr_fields = n; fields = fs }) ≤ o
unfolding Holds
offset_first [] n u i o vs h = elim h [ ]
offset_first (f ∷ []) n u i o vs h = elim h.1 [ ]
offset_first (f ∷ g ∷ fs) n u i o vs h = h.1.0.0

-- Every key that was added packs in the format made of what was added, and unpacks as it was.
pub format_done-packs :
    (s : List FieldRange) (ks : List Bkey) (k : Bkey)
    → Collected s ks
    → Added k ks
    → (ws : List ℕ) × (pack_key (format_done s) k ≡ some ws)
      × (unpack_key (format_done s) ws ≡ some k)
unfolding format_done Spans
format_done-packs s ks k c added =
    let before = grow_size (map format_field s) in
    let n = fields_bits before in
    let spare = words_for (24 + n) % 2 ^ 8 * 64 - (24 + n) in
    let limits = Collected-Limits c in
    let sound = fields_before-AllSound s limits in
    let (whole, start) = Collected-Spans c k added in
    let fmt = format_done-IsFormat s ks c in
    let hk = Collected-IsKey c k added in
    let holds = round_fields-Holds spare before (bkey_fields k) sound (
      fields_before-Holds s k.p.inode k.p.offset k.p.snapshot k.size k.version.hi k.version.lo
        limits whole) in
    let holds' = round_fields-Holds spare before (start_fields k) sound (
      fields_before-Holds s k.p.inode (bkey_start_offset k) k.p.snapshot k.size k.version.hi
        k.version.lo limits start) in
    let above =
      offset_first (round_fields spare before) 6 (words_for (24 + n) % 2 ^ 8) k.p.inode
        (bkey_start_offset k) (k.p.snapshot ∷ k.size ∷ k.version.hi ∷ k.version.lo ∷ []) holds' in
    let (ws, e, p) =
      pack_key-some (format_done s) k (format_validate-Layout (format_done s) fmt.valid) holds
        above in
    (ws, e, unpack_key-pack_key (format_done s) k ws fmt hk e)
