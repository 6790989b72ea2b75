-- ===== src/Bkey/Chosen.antt =====
-- The format that `bch_bkey_format_done` makes of the keys that were added, libbcache/bkey.c.
use mathlib.Core.Path.{subst}
use bcache_tools.Base.{
  Bool-cases, List, [], arith, false, inl, inr, ltb, map, min, none, pow-pos, refl, true, u64, ℕ,
  ◌+◌, ◌-◌, ◌<◌, ◌==◌, ◌^◌, ◌∷◌, ◌≡◌, ◌≤◌,
}
use bcache_tools.Base.Div.{pow_mono}
use bcache_tools.Base.Fls.{lt-fls64}
use bcache_tools.Bkey.{FormatField}
use bcache_tools.Bkey.Format.{
  FieldRange, format_field, grow_field, grow_size, set_format_field, validate_field,
  validate_fields,
}
use bcache_tools.Bkey.Fields.{Holds}
use bcache_tools.Bkey.Range.{Limits, Ranged, six}
use bcache_tools.Bkey.Fits.{AllSound, HoldsOne, Sound, format_field-HoldsOne, format_field-Sound}

Sound-valid : (f : FormatField) → Sound f → validate_field f ≡ none
unfolding validate_field Sound
Sound-valid f (hb, hf) = elim (Bool-cases (f.bits == 64)) [
  | inl full ↦
      let e : f.bits ≡ 64 = ground arith in
      let top : f.offset + 2 ^ 64 ≤ 2 ^ 64 = subst (λ t. f.offset + 2 ^ t ≤ 2 ^ 64) e hf in
      let zero_offset : (f.offset == 0) ≡ true = ground arith in
      let narrow : ltb 64 f.bits ≡ false = ground arith in
      rw (narrow, zero_offset, validate_field) refl
  | inr less ↦
      let p = pow-pos f.bits in
      let narrow : ltb 64 f.bits ≡ false = ground arith in
      let whole_sum : u64 (f.offset + (2 ^ f.bits - 1)) ≡ f.offset + (2 ^ f.bits - 1) =
        omega arith in
      let no_overflow : ltb (f.offset + (2 ^ f.bits - 1)) f.offset ≡ false = ground arith in
      elim (Bool-cases (f.offset == 0)) [
        | inl z ↦ rw (narrow, z, validate_field) refl
        | inr z ↦ rw (narrow, z, less, whole_sum, no_overflow, validate_field) refl
      ]
]

pub AllSound-valid : (fs : List FormatField) → AllSound fs → validate_fields fs ≡ none
unfolding validate_fields AllSound
AllSound-valid [] h = refl
AllSound-valid (f ∷ fs) (h, hs) = rw (Sound-valid f h, validate_fields) (AllSound-valid fs hs)

-- The size's field is grown by four bits where it starts at 0.
size_field : (r : FieldRange) → r.field_min ≡ 0 → (format_field r).offset ≡ 0
unfolding set_format_field
size_field r h =
    let low : min r.field_min r.field_max ≡ 0 = omega arith in
    elim (Bool-cases ((format_field r).bits == 64)) [
      | inl full ↦ rw (full, set_format_field) refl
      | inr less ↦ rw (less, low, set_format_field) (omega arith)
    ]

size_bits : (r : FieldRange) → r.field_max < 2 ^ 32 → (format_field r).bits ≤ 32
unfolding set_format_field
size_bits r h = lt-fls64 (r.field_max - min r.field_min r.field_max) 32 (omega arith)

grow_field-Sound :
    (r : FieldRange) → r.field_min ≡ 0 → r.field_max < 2 ^ 32 → Sound (grow_field (format_field r))
unfolding grow_field Sound
grow_field-Sound r h h' = elim (Bool-cases ((format_field r).bits == 0)) [
  | inl none_needed ↦ rw (none_needed, grow_field) (format_field-Sound r (omega arith))
  | inr some_bits ↦
      let b = size_bits r h' in
      let p = pow_mono ((format_field r).bits + 4) 64 (omega arith) in
      let o = size_field r h in rw (some_bits, o, grow_field) (omega arith, omega arith)
]

grow_field-HoldsOne : (f : FormatField) (v : ℕ) → HoldsOne f v → HoldsOne (grow_field f) v
unfolding grow_field HoldsOne
grow_field-HoldsOne f v (ho, hv) = elim (Bool-cases (f.bits == 0)) [
  | inl none_needed ↦ rw (none_needed, grow_field) (ho, hv)
  | inr some_bits ↦
      let more = pow_mono f.bits (f.bits + 4) (omega arith) in
      rw (some_bits, grow_field) (ho, omega arith)
]

-- The fields before they are rounded up.
pub fields_before-AllSound :
    (s : List FieldRange) → Limits s → AllSound (grow_size (map format_field s))
unfolding AllSound
fields_before-AllSound s (six a b c d e g (ha, hb, hc) (hd, hd') (he, hg)) = (
  format_field-Sound a ha,
  (
    format_field-Sound b hb,
    (
      format_field-Sound c (omega arith),
      (
        grow_field-Sound d hd hd',
        (format_field-Sound e (omega arith), (format_field-Sound g hg, tt)),
      ),
    ),
  ),
)

pub fields_before-Holds :
    (s : List FieldRange) (u v w x y z : ℕ)
    → Limits s
    → Ranged s (u ∷ v ∷ w ∷ x ∷ y ∷ z ∷ [])
    → Holds (grow_size (map format_field s)) (u ∷ v ∷ w ∷ x ∷ y ∷ z ∷ [])
unfolding Ranged Holds HoldsOne
fields_before-Holds s u v w x y z (six a b c d e g (ha, hb, hc) (hd, hd') (he, hg))
      (iu, (iv, (iw, (ix, (iy, (iz, t)))))) =
    (
      format_field-HoldsOne a u ha iu,
      (
        format_field-HoldsOne b v hb iv,
        (
          format_field-HoldsOne c w (omega arith) iw,
          (
            grow_field-HoldsOne (format_field d) x (format_field-HoldsOne d x (omega arith) ix),
            (format_field-HoldsOne e y (omega arith) iy, (format_field-HoldsOne g z hg iz, tt)),
          ),
        ),
      ),
    )
