-- ===== src/Bkey/RoundTrip.antt =====
-- A packed key holds the key: `bkey_pack_key` and its readers in libbcache/bkey.c.
use mathlib.Core.Option.{some-injective}
use mathlib.Core.Path.{subst}
use native.Mathlib.Nat.{mod-eq_of_lt}
use bcache_tools.Base.{
  Bool-cases, List, Option-cases, arith, false, inl, inr, length, ltb, none-ne-some, refl, some,
  sym, ℕ, ◌%◌, ◌+◌, ◌-◌, ◌/◌, ◌<◌, ◌^◌, ◌∙◌, ◌≡◌, ◌≤◌,
}
use bcache_tools.Bkey.{BkeyFormat, pack_state_finish, pack_state_init, set_fields, set_header}
use bcache_tools.Bkey.Key.{
  Bkey, bkey_fields, bkey_start_offset, bkey_u64s, header, key_format_local_btree, low_word,
  offset_field_offset, pack_key, unpack_key, unpack_pos,
}
use bcache_tools.Bkey.Layout.{IsFormat, IsKey, Layout, bkey_fields-AreWords, format_validate-Layout}
use bcache_tools.Bkey.Fields.{Holds, set_fields-Holds}
use bcache_tools.Bkey.Stored.{Stored, get_all-Stored, get_fields-Stored, set_fields-Stored}

-- The header that `bkey_pack_key` writes.
abbrev pub pack_header : BkeyFormat → Bkey → ℕ
pack_header f k =
    header (f.key_u64s + k.u64s + 2 ^ 8 - bkey_u64s) key_format_local_btree k.needs_whiteout k.kind

pub header-lt : (u f n t : ℕ) → header u f n t < 2 ^ 24
header-lt u f n t = omega arith

abbrev pub PackedKey : BkeyFormat → Bkey → List ℕ → Type 0
PackedKey f k ws = Stored f (bkey_fields k) (pack_header f k) ws

-- A key whose fields hold its values is packed, where the start of its extent is not below the
-- offset's range.
pub pack_key-some :
    (f : BkeyFormat) (k : Bkey)
    → Layout f
    → Holds f.fields (bkey_fields k)
    → offset_field_offset f ≤ bkey_start_offset k
    → (ws : List ℕ) × (pack_key f k ≡ some ws) × PackedKey f k ws
unfolding pack_key
pack_key-some f k l h start =
    let (s, e, p) =
      set_fields-Stored f (bkey_fields k) (pack_header f k) l h
        (header-lt (f.key_u64s + k.u64s + 2 ^ 8 - bkey_u64s) 0 k.needs_whiteout k.kind) in
    let fine : ltb (bkey_start_offset k) (offset_field_offset f) ≡ false = ground arith in
    (set_header (pack_header f k) (pack_state_finish s f.key_u64s), rw (e, fine, pack_key) refl, p)

-- No other key is packed.
pub pack_key-Holds :
    (f : BkeyFormat) (k : Bkey) (ws : List ℕ)
    → length f.fields ≡ 6
    → IsKey k
    → pack_key f k ≡ some ws
    → Holds f.fields (bkey_fields k) × (offset_field_offset f ≤ bkey_start_offset k)
unfolding pack_key
pack_key-Holds f k ws len hk e =
    elim (Option-cases (set_fields pack_state_init f.fields (bkey_fields k))) [
      | inl fails ↦ absurd (none-ne-some {a = ws} (sym (rw (fails, pack_key) refl) ∙ e))
      | inr (s, sets) ↦ elim (Bool-cases (ltb (bkey_start_offset k) (offset_field_offset f))) [
        | inl below ↦ absurd (none-ne-some {a = ws} (sym (rw (sets, below, pack_key) refl) ∙ e))
        | inr above ↦ (
          set_fields-Holds f.fields (bkey_fields k) pack_state_init s len
              (bkey_fields-AreWords k hk) sets,
          ground arith,
        )
      ]
    ]

pub pack_key-PackedKey :
    (f : BkeyFormat) (k : Bkey) (ws : List ℕ)
    → IsFormat f
    → IsKey k
    → pack_key f k ≡ some ws
    → PackedKey f k ws
pack_key-PackedKey f k ws hf hk e =
    let (holds, start) = pack_key-Holds f k ws hf.fields hk e in
    let (ws', e', p) = pack_key-some f k (format_validate-Layout f hf.valid) holds start in
    subst (PackedKey f k) (some-injective ws' ws (sym e' ∙ e)) p

pub header-u64s : (x u f n t : ℕ) → x % 2 ^ 24 ≡ header u f n t → x % 2 ^ 8 ≡ u % 2 ^ 8
header-u64s x u f n t e = omega arith

pub header-needs_whiteout :
    (x u f n t : ℕ) → x % 2 ^ 24 ≡ header u f n t → n < 2 → x / 2 ^ 15 % 2 ≡ n
header-needs_whiteout x u f n t e h = omega arith

pub header-kind : (x u f n t : ℕ) → x % 2 ^ 24 ≡ header u f n t → t < 2 ^ 8 → x / 2 ^ 16 % 2 ^ 8 ≡ t
header-kind x u f n t e h = omega arith

-- The words of a key are unpacked to the key.
pub unpack_key-Stored :
    (f : BkeyFormat) (k : Bkey) (u : ℕ) (ws : List ℕ)
    → Layout f
    → length f.fields ≡ 6
    → IsKey k
    → (bkey_u64s + u % 2 ^ 8 + 2 ^ 8 - f.key_u64s) % 2 ^ 8 ≡ k.u64s
    → Stored f (bkey_fields k) (header u key_format_local_btree k.needs_whiteout k.kind) ws
    → unpack_key f ws ≡ some k
unfolding unpack_key
unpack_key-Stored f k u ws l len hk size p =
    let h = header u key_format_local_btree k.needs_whiteout k.kind in
    let (s, init, got) =
      get_all-Stored f (bkey_fields k) h ws l (bkey_fields-AreWords k hk) len p in
    let x = low_word ws in
    let u' = header-u64s x u 0 k.needs_whiteout k.kind p.low in
    let n' = header-needs_whiteout x u 0 k.needs_whiteout k.kind p.low hk.needs_whiteout in
    let t' = header-kind x u 0 k.needs_whiteout k.kind p.low hk.kind in
    rw
      (
        init,
        got,
        u',
        size,
        n',
        t',
        mod-eq_of_lt hk.hi,
        mod-eq_of_lt hk.size,
        mod-eq_of_lt hk.snapshot,
        sym hk.format,
        unpack_key,
      )
      refl

-- A key that is packed in a format that validates is unpacked as it was: the value's size is what it
-- was, and no field is cut.
pub unpack_key-pack_key :
    (f : BkeyFormat) (k : Bkey) (ws : List ℕ)
    → IsFormat f
    → IsKey k
    → pack_key f k ≡ some ws
    → unpack_key f ws ≡ some k
unpack_key-pack_key f k ws hf hk e =
    unpack_key-Stored f k (f.key_u64s + k.u64s + 2 ^ 8 - bkey_u64s) ws
      (format_validate-Layout f hf.valid) hf.fields hk (omega (arith, hf.key_u64s, hk.u64s))
      (pack_key-PackedKey f k ws hf hk e)

-- The position alone is read as it was.
pub unpack_pos-pack_key :
    (f : BkeyFormat) (k : Bkey) (ws : List ℕ)
    → IsFormat f
    → IsKey k
    → pack_key f k ≡ some ws
    → unpack_pos f ws ≡ some k.p
unfolding unpack_pos
unpack_pos-pack_key f k ws hf hk e =
    let l = format_validate-Layout f hf.valid in
    let (s, init, got) =
      get_fields-Stored f (bkey_fields k) (pack_header f k) ws l (bkey_fields-AreWords k hk)
        (pack_key-PackedKey f k ws hf hk e) in
    rw (init, got 3, mod-eq_of_lt hk.snapshot, unpack_pos) refl
