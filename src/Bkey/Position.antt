-- ===== src/Bkey/Position.antt =====
-- Keys of a node compare as their positions, packed or not: `__bkey_cmp_packed` and
-- `bkey_cmp_left_packed` of libbcache/bkey.c.
use mathlib.Core.Path.{subst}
use bcache_tools.Base.Div.{div_of_eq, split_pow, two_digits-lt}
use bcache_tools.Bkey.Fields.{Holds, fields_value, fields_value-lt}
use bcache_tools.Bkey.Key.{Bkey, Bpos, bkey_fields, pack_key}
use bcache_tools.Bkey.RoundTrip.{pack_header, pack_key-PackedKey, unpack_pos-pack_key}
use bcache_tools.Bkey.Stream.{word_value}
use bcache_tools.Base.{
  Bool-cases, List, [], ap, ap₂, arith, dec_lt, inl, inr, length, pow-pos, refl, some, sym, take, ℕ,
  ◌*◌, ◌+◌, ◌-◌, ◌/◌, ◌<◌, ◌==◌, ◌^◌, ◌∙◌, ◌∷◌, ◌≡◌, ◌≤◌,
}
use bcache_tools.Bkey.{BkeyFormat, FormatField, fields_bits}
use bcache_tools.Bkey.Order.{
  Cmp, NodeKey, bkey_cmp, cmp_bits, cmp_left_packed, cmp_packed, cmp_then, current, equal, key_bits,
  local, negate,
}
use bcache_tools.Bkey.Layout.{IsFormat, IsKey, Layout, format_validate-Layout}
use bcache_tools.Bkey.Stored.{Stored, spare}
use bcache_tools.Bkey.Compare.{
  cmp_then-digits, cmp_then_self, cmp_words-high, high_bits, high_bits-lt,
}

-- The first three fields as one number.
position_value : FormatField → FormatField → FormatField → ℕ → ℕ → ℕ → ℕ
position_value f g h x y z =
    ((x - f.offset) * 2 ^ g.bits + (y - g.offset)) * 2 ^ h.bits + (z - h.offset)

module _ (f : BkeyFormat) (l : Layout f) (f0 f1 f2 : FormatField) (fs : List FormatField)
    (ef : f.fields ≡ f0 ∷ f1 ∷ f2 ∷ fs) where
  high_bits-Stored :
      (x y z : ℕ) (vs : List ℕ) (h : ℕ) (ws : List ℕ)
      → Stored f (x ∷ y ∷ z ∷ vs) h ws
      → high_bits (key_bits f) ws ≡ position_value f0 f1 f2 x y z
  unfolding high_bits position_value fields_value Holds
  high_bits-Stored x y z vs h ws p =
      let rb = fields_bits fs in
      let m = spare f in
      let e0 : fields_bits f.fields ≡ f0.bits + (f1.bits + (f2.bits + rb)) = ap fields_bits ef in
      let e3 : key_bits f ≡ f0.bits + (f1.bits + (f2.bits + 0)) =
        ap (λ t. fields_bits (take 3 t)) ef in
      let holds : Holds (f0 ∷ f1 ∷ f2 ∷ fs) (x ∷ y ∷ z ∷ vs) =
        subst (λ t. Holds t (x ∷ y ∷ z ∷ vs)) ef p.holds in
      let rest = fields_value fs vs in
      let below : rest < 2 ^ rb = fields_value-lt fs vs holds.1.1.1 in
      let room : 24 ≤ m = omega (arith, l.room) in
      let low : h < 2 ^ m =
        small_header h (2 ^ (m - 24)) (2 ^ m) (split_pow m (m - 24) 24 (omega arith))
          (pow-pos (m - 24)) p.small in
      let place : 64 * length ws - key_bits f ≡ rb + m =
        omega (arith, e0, e3, p.words.count, l.room) in
      let value : fields_value f.fields (x ∷ y ∷ z ∷ vs)
          ≡ position_value f0 f1 f2 x y z * 2 ^ rb + rest =
        ap (λ t. fields_value t (x ∷ y ∷ z ∷ vs)) ef
        ∙ three (x - f0.offset) (y - f1.offset) (z - f2.offset) (2 ^ f1.bits) (2 ^ f2.bits) (2 ^ rb)
            (2 ^ (f1.bits + (f2.bits + rb))) (2 ^ (f2.bits + rb)) rest
            (split_pow (f1.bits + (f2.bits + rb)) f1.bits (f2.bits + rb) refl)
            (split_pow (f2.bits + rb) f2.bits rb refl) in
      let q = 2 ^ (rb + m) in
      let eq : q ≡ 2 ^ rb * 2 ^ m = split_pow (rb + m) rb m refl in
      ap (λ t. word_value 0 ws / 2 ^ t) place
      ∙ div_of_eq (word_value 0 ws) q (position_value f0 f1 f2 x y z) (rest * 2 ^ m + h)
          (p.words.number
            ∙ ap (λ t. t * 2 ^ m + h) value
            ∙ joined (position_value f0 f1 f2 x y z) rest h (2 ^ rb) (2 ^ m) q eq)
          (rw eq (two_digits-lt rest h (2 ^ rb) (2 ^ m) below low))
    where
      small_header : (h q x : ℕ) → x ≡ q * 2 ^ 24 → 0 < q → h < 2 ^ 24 → h < x
      small_header h q x e hq hh = omega arith

      three :
          (a b c p q r pqr qr v : ℕ)
          → pqr ≡ p * qr
          → qr ≡ q * r
          → a * pqr + (b * qr + (c * r + v)) ≡ ((a * p + b) * q + c) * r + v
      three a b c p q r pqr qr v e e' = rw (e, e') (grind arith)

      joined : (w v h p m q : ℕ) → q ≡ p * m → (w * p + v) * m + h ≡ w * q + (v * m + h)
      joined w v h p m q e = rw e (grind arith)

cmp_then-sub :
    (a b o : ℕ) (next : Cmp) → o ≤ a → o ≤ b → cmp_then (a - o) (b - o) next ≡ cmp_then a b next
unfolding cmp_then
cmp_then-sub a b o next ha hb = ground arith

module _ (f g h : FormatField) where
  -- The numbers of two positions compare as the positions do.
  cmp_then-position_value :
      (x y z x' y' z' : ℕ)
      → f.offset ≤ x
      → f.offset ≤ x'
      → (g.offset ≤ y) × (y - g.offset < 2 ^ g.bits)
      → (g.offset ≤ y') × (y' - g.offset < 2 ^ g.bits)
      → (h.offset ≤ z) × (z - h.offset < 2 ^ h.bits)
      → (h.offset ≤ z') × (z' - h.offset < 2 ^ h.bits)
      → cmp_then (position_value f g h x y z) (position_value f g h x' y' z') equal
        ≡ cmp_then x x' (cmp_then y y' (cmp_then z z' equal))
  unfolding position_value
  cmp_then-position_value x y z x' y' z' hx hx' hy hy' hz hz' =
      let (oy, by) = hy in
      let (oy', by') = hy' in
      let (oz, bz) = hz in
      let (oz', bz') = hz' in
      let xs = (x - f.offset) * 2 ^ g.bits + (y - g.offset) in
      let xs' = (x' - f.offset) * 2 ^ g.bits + (y' - g.offset) in
      cmp_then-digits xs xs' (z - h.offset) (z' - h.offset) (2 ^ h.bits) equal bz bz'
      ∙ ap (cmp_then xs xs') (cmp_then-sub z z' h.offset equal oz oz')
      ∙ cmp_then-digits (x - f.offset) (x' - f.offset) (y - g.offset) (y' - g.offset) (2 ^ g.bits)
          (cmp_then z z' equal) by by'
      ∙ ap (cmp_then (x - f.offset) (x' - f.offset))
          (cmp_then-sub y y' g.offset (cmp_then z z' equal) oy oy')
      ∙ cmp_then-sub x x' f.offset (cmp_then y y' (cmp_then z z' equal)) hx hx'

three_fields :
    (fs : List FormatField)
    → length fs ≡ 6
    → (f g h : FormatField) × (rest : List FormatField) × (fs ≡ f ∷ g ∷ h ∷ rest)
three_fields [] e = absurd (omega arith)
three_fields (f ∷ []) e = absurd (omega arith)
three_fields (f ∷ g ∷ []) e = absurd (omega arith)
three_fields (f ∷ g ∷ h ∷ rest) e = (f, g, h, rest, refl)

-- Two keys packed in one format compare by their bits as `bkey_cmp` compares their positions: the
-- format validates.
cmp_bits-pack_key :
    (f : BkeyFormat) (l r : Bkey) (lws rws : List ℕ)
    → IsFormat f
    → IsKey l
    → IsKey r
    → pack_key f l ≡ some lws
    → pack_key f r ≡ some rws
    → cmp_bits lws rws (key_bits f) ≡ some (bkey_cmp l.p r.p)
unfolding cmp_bits bkey_cmp Holds
cmp_bits-pack_key f l r lws rws hf hl hr el er =
    let lay = format_validate-Layout f hf.valid in
    let pl = pack_key-PackedKey f l lws hf hl el in
    let pr = pack_key-PackedKey f r rws hf hr er in
    let (f0, f1, f2, fs, ef) = three_fields f.fields hf.fields in
    let hol : Holds (f0 ∷ f1 ∷ f2 ∷ fs) (bkey_fields l) =
      subst (λ t. Holds t (bkey_fields l)) ef pl.holds in
    let hor : Holds (f0 ∷ f1 ∷ f2 ∷ fs) (bkey_fields r) =
      subst (λ t. Holds t (bkey_fields r)) ef pr.holds in
    let same : cmp_then (high_bits (key_bits f) lws) (high_bits (key_bits f) rws) equal
        ≡ bkey_cmp l.p r.p =
      ap₂ (λ s t. cmp_then s t equal)
        (high_bits-Stored f lay f0 f1 f2 fs ef l.p.inode l.p.offset l.p.snapshot
          (l.size ∷ l.version.hi ∷ l.version.lo ∷ []) (pack_header f l) lws pl)
        (high_bits-Stored f lay f0 f1 f2 fs ef r.p.inode r.p.offset r.p.snapshot
          (r.size ∷ r.version.hi ∷ r.version.lo ∷ []) (pack_header f r) rws pr)
      ∙ cmp_then-position_value f0 f1 f2 l.p.inode l.p.offset l.p.snapshot r.p.inode r.p.offset
          r.p.snapshot hol.0.0 hor.0.0 hol.1.0 hor.1.0 hol.1.1.0 hor.1.1.0 in
    let fits : key_bits f ≤ 64 * f.key_u64s =
      omega (arith, lay.room, ap fields_bits ef, ap (λ t. fields_bits (take 3 t)) ef) in
    elim (Bool-cases (key_bits f == 0)) [
      | inl none_to_compare ↦
          let zero_bits : key_bits f ≡ 0 = ground arith in
          let a : high_bits (key_bits f) lws ≡ 0 =
            no_bits (key_bits f) (high_bits (key_bits f) lws) zero_bits
              (high_bits-lt (key_bits f) lws pl.words.bound (omega (arith, pl.words.count))) in
          let b : high_bits (key_bits f) rws ≡ 0 =
            no_bits (key_bits f) (high_bits (key_bits f) rws) zero_bits
              (high_bits-lt (key_bits f) rws pr.words.bound (omega (arith, pr.words.count))) in
          rw (none_to_compare, cmp_bits)
            (ap some (
              sym (cmp_then_self 0 equal) ∙ ap₂ (λ s t. cmp_then s t equal) (sym a) (sym b) ∙ same))
      | inr some_bits ↦
          rw (some_bits, cmp_bits)
            (cmp_words-high (key_bits f) lws rws pl.words.bound pr.words.bound
                (pl.words.count ∙ sym pr.words.count) (ground arith) (omega (arith, pl.words.count))
              ∙ ap some same)
    ]
  where
    no_bits : (n a : ℕ) → n ≡ 0 → a < 2 ^ n → a ≡ 0
    no_bits n a e h = let h' : a < 2 ^ 0 = subst (λ t. a < 2 ^ t) e h in omega arith

-- A key of a node, and the key it holds.
unfoldable pub IsOf : BkeyFormat → NodeKey → Bkey → Type 0
IsOf f (local ws) k = pack_key f k ≡ some ws
IsOf f (current k') k = k' ≡ k

negate-cmp_then : (a b : ℕ) (next : Cmp) → negate (cmp_then a b next) ≡ cmp_then b a (negate next)
unfolding cmp_then
negate-cmp_then a b next = elim (dec_lt a b) [
  | yes lt ↦ ground arith
  | no ge ↦ elim (dec_lt b a) [ yes gt ↦ ground arith | no le ↦ ground arith ]
]

negate-bkey_cmp : (l r : Bpos) → negate (bkey_cmp l r) ≡ bkey_cmp r l
unfolding bkey_cmp
negate-bkey_cmp l r =
    negate-cmp_then l.inode r.inode
      (cmp_then l.offset r.offset (cmp_then l.snapshot r.snapshot equal))
    ∙ ap (cmp_then r.inode l.inode) (
        negate-cmp_then l.offset r.offset (cmp_then l.snapshot r.snapshot equal)
        ∙ ap (cmp_then r.offset l.offset) (negate-cmp_then l.snapshot r.snapshot equal))

-- Keys of a node compare as `bkey_cmp` compares the positions of the keys they hold, each packed in the
-- node's format or not packed: the format validates.
pub cmp_packed-bkey_cmp :
    (f : BkeyFormat) (x y : NodeKey) (l r : Bkey)
    → IsFormat f
    → IsKey l
    → IsKey r
    → IsOf f x l
    → IsOf f y r
    → cmp_packed f x y ≡ some (bkey_cmp l.p r.p)
unfolding cmp_packed cmp_left_packed IsOf
cmp_packed-bkey_cmp f (local lws) (local rws) l r hf hl hr el er =
    cmp_bits-pack_key f l r lws rws hf hl hr el er
cmp_packed-bkey_cmp f (local lws) (current r') l r hf hl hr el er =
    rw (unpack_pos-pack_key f l lws hf hl el, er, cmp_packed, cmp_left_packed) refl
cmp_packed-bkey_cmp f (current l') (local rws) l r hf hl hr el er =
    rw
      (
        unpack_pos-pack_key f r rws hf hr er,
        el,
        negate-bkey_cmp r.p l.p,
        cmp_packed,
        cmp_left_packed,
      )
      refl
cmp_packed-bkey_cmp f (current l') (current r') l r hf hl hr el er = rw (el, er) refl
