-- ===== src/Bkey/Fits.antt =====
-- The format that `bch_bkey_format_done` makes, libbcache/bkey.c: it validates, and its fields hold
-- what lies in the ranges.
use bcache_tools.Base.{
  Bool-cases, List, [], arith, inl, inr, leb, min, pow-pos, ℕ, ◌+◌, ◌-◌, ◌<◌, ◌==◌, ◌^◌, ◌∷◌, ◌≡◌,
  ◌≤◌,
}
use bcache_tools.Base.Div.{pow_mono}
use bcache_tools.Base.Fls.{fls64, fls64-le, lt-fls64}
use bcache_tools.Bkey.{FormatField, fields_bits}
use bcache_tools.Bkey.Format.{FieldRange, format_field, round_fields, set_format_field, to_byte}
use bcache_tools.Bkey.Fields.{Holds}
use bcache_tools.Bkey.Range.{InRange}

-- A field of which no value is above the largest word.
unfoldable pub Sound : FormatField → Type 0
Sound f = (f.bits ≤ 64) × (f.offset + 2 ^ f.bits ≤ 2 ^ 64)

unfoldable pub AllSound : List FormatField → Type 0
AllSound [] = Unit
AllSound (f ∷ fs) = Sound f × AllSound fs

unfoldable pub HoldsOne : FormatField → ℕ → Type 0
HoldsOne f v = (f.offset ≤ v) × (v - f.offset < 2 ^ f.bits)

pub set_format_field-Sound : (b o : ℕ) → b ≤ 64 → Sound (set_format_field b o)
unfolding set_format_field Sound
set_format_field-Sound b o hb = elim (Bool-cases (b == 64)) [
  | inl full ↦
      let e : b ≡ 64 = ground arith in rw (full, e, set_format_field) (omega arith, omega arith)
  | inr less ↦
      let p = pow_mono b 64 hb in let q = pow-pos b in rw (less, set_format_field) (hb, omega arith)
]

-- A lower offset, where the bits make up for it.
pub set_format_field-HoldsOne :
    (b o v : ℕ) → b ≤ 64 → v < 2 ^ 64 → o ≤ v → v - o < 2 ^ b → HoldsOne (set_format_field b o) v
unfolding set_format_field HoldsOne
set_format_field-HoldsOne b o v hb hv ho h = elim (Bool-cases (b == 64)) [
  | inl full ↦
      let e : b ≡ 64 = ground arith in rw (full, e, set_format_field) (omega arith, omega arith)
  | inr less ↦
      let p = pow_mono b 64 hb in
      let q = pow-pos b in rw (less, set_format_field) (omega arith, omega arith)
]

-- The field of a range holds what lies in the range.
pub format_field-HoldsOne :
    (r : FieldRange) (v : ℕ) → r.field_max < 2 ^ 64 → InRange r v → HoldsOne (format_field r) v
unfolding InRange
format_field-HoldsOne r v hr (h, h') =
    let low = min r.field_min r.field_max in
    let b = fls64 (r.field_max - low) in
    let fits : r.field_max - low < 2 ^ b =
      fls64-le (r.field_max - low) b (omega arith) (omega arith) in
    set_format_field-HoldsOne b low v (lt-fls64 (r.field_max - low) 64 (omega arith)) (omega arith)
      (omega arith) (omega arith)

pub format_field-Sound : (r : FieldRange) → r.field_max < 2 ^ 64 → Sound (format_field r)
format_field-Sound r hr =
    let low = min r.field_min r.field_max in
    set_format_field-Sound (fls64 (r.field_max - low)) low
      (lt-fls64 (r.field_max - low) 64 (omega arith))

-- Rounding up leaves every field sound and takes no more bits than are spare.
pub round_fields-bits :
    (spare : ℕ) (fs : List FormatField)
    → (fields_bits fs ≤ fields_bits (round_fields spare fs))
      × (fields_bits (round_fields spare fs) ≤ fields_bits fs + spare)
unfolding round_fields set_format_field
round_fields-bits spare [] = (omega arith, omega arith)
round_fields-bits spare (f ∷ fs) = elim (Bool-cases (leb (to_byte f.bits) spare)) [
  | inl rounds ↦
      let (a, b) = round_fields-bits (spare - to_byte f.bits) fs in
      rw (rounds, round_fields) (omega arith, ground arith)
  | inr stays ↦
      let (a, b) = round_fields-bits spare fs in rw (stays, round_fields) (omega arith, omega arith)
]

pub round_fields-AllSound :
    (spare : ℕ) (fs : List FormatField) → AllSound fs → AllSound (round_fields spare fs)
unfolding round_fields AllSound Sound
round_fields-AllSound spare [] h = tt
round_fields-AllSound spare (f ∷ fs) ((hb, ho), h) =
    elim (Bool-cases (leb (to_byte f.bits) spare)) [
      | inl rounds ↦
          rw (rounds, round_fields)
            (
              set_format_field-Sound (f.bits + to_byte f.bits) f.offset (omega arith),
              round_fields-AllSound (spare - to_byte f.bits) fs h,
            )
      | inr stays ↦ rw (stays, round_fields) ((hb, ho), round_fields-AllSound spare fs h)
    ]

pub round_fields-Holds :
    (spare : ℕ) (fs : List FormatField) (vs : List ℕ)
    → AllSound fs
    → Holds fs vs
    → Holds (round_fields spare fs) vs
unfolding round_fields AllSound Sound Holds HoldsOne
round_fields-Holds spare [] [] hs h = tt
round_fields-Holds spare (f ∷ fs) (v ∷ vs) ((hb, hf), hs) ((ho, hv), h) =
    elim (Bool-cases (leb (to_byte f.bits) spare)) [
      | inl rounds ↦
          let more : 2 ^ f.bits ≤ 2 ^ (f.bits + to_byte f.bits) =
            pow_mono f.bits (f.bits + to_byte f.bits) (omega arith) in
          rw (rounds, round_fields)
            (
              set_format_field-HoldsOne (f.bits + to_byte f.bits) f.offset v (omega arith)
                  (omega arith) ho (omega arith),
              round_fields-Holds (spare - to_byte f.bits) fs vs hs h,
            )
      | inr stays ↦ rw (stays, round_fields) ((ho, hv), round_fields-Holds spare fs vs hs h)
    ]
round_fields-Holds spare [] (v ∷ vs) hs h = elim h [ ]
round_fields-Holds spare (f ∷ fs) [] hs h = elim h [ ]
