-- ===== src/Bkey/Stored.antt =====
-- The fields of a key and its header as the words of a packed key, written and read back:
-- libbcache/bkey.c.
use mathlib.Core.Path.{subst, subst₂}
use bcache_tools.Base.{
  List, ap, arith, length, pow-pos, refl, some, sym, take, take-length, ℕ, ◌%◌, ◌*◌, ◌+◌, ◌-◌, ◌<◌,
  ◌^◌, ◌∙◌, ◌≡◌,
}
use bcache_tools.Base.Div.{split_pow}
use bcache_tools.Bkey.{
  BkeyFormat, PackState, UnpackState, fields_bits, get_fields, pack_state_finish, pack_state_init,
  set_fields, set_header, unpack_state_init,
}
use bcache_tools.Bkey.Key.{low_word}
use bcache_tools.Bkey.Layout.{Layout}
use bcache_tools.Bkey.Stream.{AreWords, PackedAs, word_value}
use bcache_tools.Bkey.Remains.{Remains}
use bcache_tools.Bkey.Fields.{Holds, fields_value, get_fields-take, set_fields-PackedAs}
use bcache_tools.Bkey.Finish.{
  Words, low_word-Words, pack_state_finish-Words, set_header-Words, unpack_state_init-Remains,
}

-- The bits below the fields.
abbrev pub spare : BkeyFormat → ℕ
spare f = 64 * f.key_u64s - fields_bits f.fields

-- `ws` hold the values `vs` and the header `h`.
pub record Stored (f : BkeyFormat) (vs : List ℕ) (h : ℕ) (ws : List ℕ) : Type 0 where
  pub holds : Holds f.fields vs
  pub words : Words ws f.key_u64s (fields_value f.fields vs * 2 ^ spare f + h)
  pub low : low_word ws % 2 ^ 24 ≡ h
  pub small : h < 2 ^ 24

init-PackedAs : PackedAs pack_state_init 0 0
unfolding word_value AreWords
init-PackedAs = record {
  top = 0;
  within = omega arith;
  aligned = refl;
  fits = omega arith;
  counted = refl;
  valued = refl;
  words = tt;
}

-- Values that the fields hold are stored.
pub set_fields-Stored :
    (f : BkeyFormat) (vs : List ℕ) (h : ℕ)
    → Layout f
    → Holds f.fields vs
    → h < 2 ^ 24
    → (s : PackState) × (set_fields pack_state_init f.fields vs ≡ some s)
      × Stored f vs h (set_header h (pack_state_finish s f.key_u64s))
set_fields-Stored f vs h l holds hh =
    let n = fields_bits f.fields in
    let value = fields_value f.fields vs in
    let (s, e, p) = set_fields-PackedAs f.fields vs pack_state_init 0 0 l.fit holds init-PackedAs in
    let p' : PackedAs s n value = subst₂ (PackedAs s) (omega arith) (omega arith) p in
    let done = pack_state_finish-Words s n value f.key_u64s p' (omega (arith, l.room)) in
    let some_words : 0 < f.key_u64s = omega (arith, l.room) in
    (
      s,
      e,
      record {
        holds = holds;
        words =
            set_header-Words h (pack_state_finish s f.key_u64s) f.key_u64s value (spare f)
              some_words hh (omega (arith, l.room)) done;
        low =
            low_word-Words h (pack_state_finish s f.key_u64s) f.key_u64s (value * 2 ^ spare f)
              some_words hh done;
        small = hh;
      },
    )

-- What is stored is read back, any number of fields of it.
pub get_fields-Stored :
    (f : BkeyFormat) (vs : List ℕ) (h : ℕ) (ws : List ℕ)
    → Layout f
    → AreWords vs
    → Stored f vs h ws
    → (s : UnpackState) × (unpack_state_init ws ≡ some s)
      × ((j : ℕ) → get_fields s (take j f.fields) ≡ some (take j vs))
get_fields-Stored f vs h ws l hv p =
    let n = fields_bits f.fields in
    let value = fields_value f.fields vs in
    let m = spare f in
    let (s, e, r) =
      unpack_state_init-Remains ws f.key_u64s (value * 2 ^ m + h) (omega (arith, l.room)) p.words in
    let e24 : 2 ^ m ≡ 2 ^ (m - 24) * 2 ^ 24 = split_pow m (m - 24) 24 (omega (arith, l.room)) in
    let low : h < 2 ^ m = two_to_24 (2 ^ (m - 24)) (2 ^ m) e24 (pow-pos (m - 24)) p.small in
    let r' : Remains s (n + m) (value * 2 ^ m + h) =
      subst (λ t. Remains s t (value * 2 ^ m + h)) (omega (arith, l.room)) r in
    (s, e, λ j. get_fields-take j f.fields vs s m h l.fit hv p.holds (omega (arith, l.room)) low r')
  where
    two_to_24 : {h : ℕ} (q x : ℕ) → x ≡ q * 2 ^ 24 → 0 < q → h < 2 ^ 24 → h < x
    two_to_24 q x e hq hh = omega arith

pub get_all-Stored :
    (f : BkeyFormat) (vs : List ℕ) (h : ℕ) (ws : List ℕ)
    → Layout f
    → AreWords vs
    → length f.fields ≡ length vs
    → Stored f vs h ws
    → (s : UnpackState) × (unpack_state_init ws ≡ some s) × (get_fields s f.fields ≡ some vs)
get_all-Stored f vs h ws l hv len p =
    let (s, e, r) = get_fields-Stored f vs h ws l hv p in
    (
      s,
      e,
      ap (get_fields s) (sym (take-length f.fields))
          ∙ r (length f.fields)
          ∙ ap (λ t. some (take t vs)) len
          ∙ ap some (take-length vs),
    )
