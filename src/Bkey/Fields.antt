-- ===== src/Bkey/Fields.antt =====
-- All fields of a key in turn, written and read: `bkey_fields()` of libbcache/bkey.c.
use mathlib.Core.Path.{subst₂}
use bcache_tools.Base.{
  Bool-cases, List, Option-cases, [], ap, arith, false, inl, inr, length, ltb, none-ne-some, refl,
  some, suc, sym, take, u64, zero, ℕ, ◌*◌, ◌+◌, ◌-◌, ◌<◌, ◌^◌, ◌∙◌, ◌∷◌, ◌≡◌, ◌≤◌,
}
use bcache_tools.Base.Div.{split_pow, two_digits-lt}
use bcache_tools.Base.Fls.{fls64, fls64-le, lt-fls64}
use bcache_tools.Bkey.{
  FormatField, PackState, UnpackState, fields_bits, get_fields, put_bits, set_fields, set_inc_field,
}
use bcache_tools.Bkey.Stream.{AreWords, PackedAs, put_bits-PackedAs}
use bcache_tools.Bkey.Remains.{Remains}
use bcache_tools.Bkey.Get.{Got, get_inc_field-Got}

-- The fields, less their offsets, as the digits of one number.
unfoldable pub fields_value : List FormatField → List ℕ → ℕ
fields_value (f ∷ fs) (v ∷ vs) = (v - f.offset) * 2 ^ fields_bits fs + fields_value fs vs
fields_value _ _ = 0

-- No field has more bits than a word.
unfoldable pub FitWords : List FormatField → Type 0
FitWords [] = Unit
FitWords (f ∷ fs) = (f.bits ≤ 64) × FitWords fs

-- Each value can be stored in its field.
unfoldable pub Holds : List FormatField → List ℕ → Type 0
Holds [] [] = Unit
Holds (f ∷ fs) (v ∷ vs) = ((f.offset ≤ v) × (v - f.offset < 2 ^ f.bits)) × Holds fs vs
Holds _ _ = ⊥

pub fields_value-lt :
    (fs : List FormatField) (vs : List ℕ) → Holds fs vs → fields_value fs vs < 2 ^ fields_bits fs
unfolding fields_value Holds
fields_value-lt [] [] h = omega arith
fields_value-lt (f ∷ fs) (v ∷ vs) ((ho, hv), h) =
    rw (split_pow (f.bits + fields_bits fs) f.bits (fields_bits fs) refl) (
      two_digits-lt (v - f.offset) (fields_value fs vs) (2 ^ f.bits) (2 ^ fields_bits fs) hv
        (fields_value-lt fs vs h))
fields_value-lt [] (v ∷ vs) h = elim h [ ]
fields_value-lt (f ∷ fs) [] h = elim h [ ]

-- A value that its field can hold is stored.
pub set_inc_field-some :
    (s : PackState) (f : FormatField) (v : ℕ)
    → f.offset ≤ v
    → v - f.offset < 2 ^ f.bits
    → set_inc_field s f v ≡ some (put_bits s f.bits (v - f.offset))
unfolding set_inc_field
set_inc_field-some s f v ho hv =
    let above : ltb v f.offset ≡ false = ground arith in
    let fits : fls64 (v - f.offset) ≤ f.bits = lt-fls64 (v - f.offset) f.bits hv in
    let small : ltb f.bits (fls64 (v - f.offset)) ≡ false = ground arith in rw (above, small) refl

-- Another is not.
pub set_inc_field-holds :
    (s : PackState) (f : FormatField) (v : ℕ) (s' : PackState)
    → v < 2 ^ 64
    → set_inc_field s f v ≡ some s'
    → (f.offset ≤ v) × (v - f.offset < 2 ^ f.bits)
unfolding set_inc_field
set_inc_field-holds s f v s' hv e = elim (Bool-cases (ltb v f.offset)) [
  | inl below ↦ absurd (none-ne-some (sym (rw (below, set_inc_field) refl) ∙ e))
  | inr above ↦ elim (Bool-cases (ltb f.bits (fls64 (v - f.offset)))) [
    | inl large ↦ absurd (none-ne-some (sym (rw (above, large, set_inc_field) refl) ∙ e))
    | inr small ↦ (ground arith, fls64-le (v - f.offset) f.bits (omega arith) (ground arith))
  ]
]

-- All fields are stored, and the bits packed are their number.
pub set_fields-PackedAs :
    (fs : List FormatField) (vs : List ℕ) (s : PackState) (n acc : ℕ)
    → FitWords fs
    → Holds fs vs
    → PackedAs s n acc
    → (s' : PackState) × (set_fields s fs vs ≡ some s')
      × PackedAs s' (n + fields_bits fs) (acc * 2 ^ fields_bits fs + fields_value fs vs)
unfolding set_fields FitWords Holds fields_value
set_fields-PackedAs [] [] s n acc hw h p =
    (s, refl, subst₂ (PackedAs s) (omega arith) (omega arith) p)
set_fields-PackedAs (f ∷ fs) (v ∷ vs) s n acc (hb, hw) ((ho, hv), h) p =
    let s1 = put_bits s f.bits (v - f.offset) in
    let (s', e, p') =
      set_fields-PackedAs fs vs s1 (n + f.bits) (acc * 2 ^ f.bits + (v - f.offset)) hw h
        (put_bits-PackedAs s n acc f.bits (v - f.offset) p hb hv) in
    (
      s',
      rw (set_inc_field-some s f v ho hv, set_fields) e,
      subst₂ (PackedAs s') (omega arith)
          (regroup acc (2 ^ f.bits) (v - f.offset) (2 ^ fields_bits fs)
            (2 ^ (f.bits + fields_bits fs)) (fields_value fs vs)
            (split_pow (f.bits + fields_bits fs) f.bits (fields_bits fs) refl))
          p',
    )
  where
    regroup : (a p v q pq x : ℕ) → pq ≡ p * q → (a * p + v) * q + x ≡ a * pq + (v * q + x)
    regroup a p v q pq x e = rw e (grind arith)
set_fields-PackedAs [] (v ∷ vs) s n acc hw h p = elim h [ ]
set_fields-PackedAs (f ∷ fs) [] s n acc hw h p = elim h [ ]

-- Only such values are stored.
pub set_fields-Holds :
    (fs : List FormatField) (vs : List ℕ) (s s' : PackState)
    → length fs ≡ length vs
    → AreWords vs
    → set_fields s fs vs ≡ some s'
    → Holds fs vs
unfolding set_fields Holds AreWords
set_fields-Holds [] [] s s' l hv e = tt
set_fields-Holds (f ∷ fs) (v ∷ vs) s s' l (hv, hs) e = elim (Option-cases (set_inc_field s f v)) [
  | inl none_set ↦ absurd (none-ne-some (sym (rw (none_set, set_fields) refl) ∙ e))
  | inr (s1, e1) ↦ (
    set_inc_field-holds s f v s1 hv e1,
    set_fields-Holds fs vs s1 s' (omega arith) hs (sym (rw (e1, set_fields) refl) ∙ e),
  )
]
set_fields-Holds [] (v ∷ vs) s s' l hv e = absurd (omega arith)
set_fields-Holds (f ∷ fs) [] s s' l hv e = absurd (omega arith)

-- The first `j` fields are read back, where a bit remains after all of them.
pub get_fields-take :
    (j : ℕ) (fs : List FormatField) (vs : List ℕ) (s : UnpackState) (m r : ℕ)
    → FitWords fs
    → AreWords vs
    → Holds fs vs
    → 0 < m
    → r < 2 ^ m
    → Remains s (fields_bits fs + m) (fields_value fs vs * 2 ^ m + r)
    → get_fields s (take j fs) ≡ some (take j vs)
unfolding get_fields FitWords Holds AreWords fields_value Got
get_fields-take zero fs vs s m r hw ha h hm hr p = refl
get_fields-take (suc j) [] [] s m r hw ha h hm hr p = refl
get_fields-take (suc j) (f ∷ fs) (v ∷ vs) s m r (hb, hw) (ha, has) ((ho, hv), h) hm hr p =
    let n = fields_bits fs + m in
    let r' = fields_value fs vs * 2 ^ m + r in
    let en : 2 ^ n ≡ 2 ^ fields_bits fs * 2 ^ m = split_pow n (fields_bits fs) m refl in
    let below : r' < 2 ^ n = rw en (
      two_digits-lt (fields_value fs vs) r (2 ^ fields_bits fs) (2 ^ m) (fields_value-lt fs vs h)
        hr) in
    let p' : Remains s (f.bits + n) ((v - f.offset) * 2 ^ n + r') =
      subst₂ (Remains s) (omega arith)
        (regroup (v - f.offset) (2 ^ fields_bits fs) (fields_value fs vs) (2 ^ m) (2 ^ n) r en) p in
    let (s', e, q) = get_inc_field-Got s f n (v - f.offset) r' p' (omega arith) hb below in
    let value : u64 (v - f.offset + f.offset) ≡ v = omega arith in
    rw
      (
        e ∙ ap (λ t. some (t, s')) value,
        get_fields-take j fs vs s' m r hw has h hm hr q,
        get_fields,
      )
      refl
  where
    regroup : (v p x q pq r : ℕ) → pq ≡ p * q → (v * p + x) * q + r ≡ v * pq + (x * q + r)
    regroup v p x q pq r e = rw e (grind arith)
get_fields-take (suc j) [] (v ∷ vs) s m r hw ha h hm hr p = elim h [ ]
get_fields-take (suc j) (f ∷ fs) [] s m r hw ha h hm hr p = elim h [ ]
