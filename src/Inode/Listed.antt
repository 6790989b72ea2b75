-- ===== src/Inode/Listed.antt =====
-- The fields of an inode, packed one after the other, are unpacked as they were: libbcache/inode.c.
use native.Mathlib.Nat.{pow-le-pow_right, mod-eq_of_lt}
use mathlib.Core.Option.{some-injective}
use mathlib.Core.Path.{subst}
use bcache_tools.Inode.RoundTrip.{decode_field-encode_field, field_bits-le}
use bcache_tools.Base.{
  List, [], ap, append_assoc, append_nil, ap₂, arith, drop, false, if◌then◌else◌, inl, inr, length,
  length-append, ltb, refl, replicate, some, suc, sym, true, ℕ, ℕ_discrete, ◌%◌, ◌*◌, ◌++◌, ◌+◌,
  ◌-◌, ◌<◌, ◌==◌, ◌^◌, ◌∙◌, ◌∷◌, ◌≡◌, ◌≤◌, ◌⊎◌,
}
use bcache_tools.Inode.{Decoded, be64_at, decode_field, encode_field, field_bits}
use bcache_tools.Inode.Record.{pack_fields, pack_room, unpack_fields}

-- Every field fits its width.
unfoldable pub InWidths : List ℕ → List ℕ → Type 0
InWidths [] [] = Unit
InWidths [] (f ∷ fs) = ⊥
InWidths (w ∷ ws) [] = ⊥
InWidths (w ∷ ws) (f ∷ fs) = (w ≤ 64) × (f < 2 ^ w) × InWidths ws fs

-- `more` is read back as the first `j` of the fields, and the others are 0.
unfoldable pub Restores : List ℕ → List ℕ → ℕ → List ℕ → Type 0
Restores ws fs j more =
    (before fieldnr : ℕ) (rest : List ℕ)
    → unpack_fields ws (fieldnr + j) fieldnr before (more ++ rest) ≡ some fs

drop-append_length : (xs ys : List ℕ) → drop (length xs) (xs ++ ys) ≡ ys
drop-append_length [] ys = refl
drop-append_length (x ∷ xs) ys = drop-append_length xs ys

-- At the last field that was packed, the others are cleared.
pub unpack_fields-cleared :
    (ws : List ℕ) (n before : ℕ) (input : List ℕ)
    → unpack_fields ws n n before input ≡ some (replicate (length ws) 0)
unfolding unpack_fields
unpack_fields-cleared [] n before input = refl
unpack_fields-cleared (w ∷ ws) n before input =
    let e : (n == n) ≡ true = ground arith in rw (e, unpack_fields) refl

-- One more field in front.
unpack_fields-cons :
    (w f j before fieldnr : ℕ) (ws fs input : List ℕ) (d : Decoded)
    → 0 < j
    → decode_field before input ≡ some d
    → d.bits ≤ w
    → d.lo % 2 ^ w ≡ f
    → unpack_fields ws
        (fieldnr + j)
        (suc fieldnr)
        (be64_at before input d.bytes)
        (drop d.bytes input)
      ≡ some fs
    → unpack_fields (w ∷ ws) (fieldnr + j) fieldnr before input ≡ some (f ∷ fs)
unfolding unpack_fields
unpack_fields-cons w f j before fieldnr ws fs input d hj hd hb hf more =
    let here : (fieldnr == fieldnr + j) ≡ false = ground arith in
    let fits : ltb w d.bits ≡ false = ground arith in
    rw (here, hd, fits, more, hf, unpack_fields) refl

-- What the loop of `bch_inode_pack` has packed when it is done, from some field on: nothing more if
-- these fields are all 0, or bytes that restore them.
unfoldable pub Packs : List ℕ → List ℕ → List ℕ → ℕ → List ℕ → ℕ → List ℕ × ℕ → Type 0
Packs ws fs out nr last last_nr result =
    ((fs ≡ replicate (length ws) 0) × (result ≡ (last, last_nr)))
    ⊎ ((more : List ℕ) × (j : ℕ) × (result ≡ (out ++ more, nr + j))
        × (0 < j)
        × (j ≤ length fs)
        × Restores ws fs j more)

field-lt : (w f : ℕ) → w ≤ 64 → f < 2 ^ w → f < 2 ^ 64
field-lt w f hw hf =
    let p : 2 ^ w ≤ 2 ^ 64 = pow-le-pow_right {n = 2} (omega arith) {j = 64} hw in omega arith

-- A field that was encoded in the room there was.
field-Reads :
    (w f room : ℕ) (bytes : List ℕ)
    → w ≤ 64
    → f < 2 ^ w
    → 13 ≤ room
    → encode_field room f 0 ≡ some bytes
    → (length bytes ≤ 13)
      × ((before : ℕ) (rest : List ℕ)
          → decode_field before (bytes ++ rest)
            ≡ some (record { lo = f; hi = 0; bits = field_bits f 0; bytes = length bytes }))
field-Reads w f room bytes hw hf hr e =
    let lo = field-lt w f hw hf in
    (
      (let (bs, e', len, _) = decode_field-encode_field room 0 f 0 [] lo (omega arith) hr in
          subst (λ t. length t ≤ 13) (some-injective bs bytes (sym e' ∙ e)) len),
      λ before rest.
          let (bs, e', _, reads) =
            decode_field-encode_field room before f 0 rest lo (omega arith) hr in
          subst
            (λ t.
              decode_field before (t ++ rest)
              ≡ some (record { lo = f; hi = 0; bits = field_bits f 0; bytes = length t }))
            (some-injective bs bytes (sym e' ∙ e)) reads,
    )

Restores-cons :
    (w f j room : ℕ) (ws fs bytes more : List ℕ)
    → w ≤ 64
    → f < 2 ^ w
    → 13 ≤ room
    → encode_field room f 0 ≡ some bytes
    → ((before fieldnr : ℕ) (rest : List ℕ)
        → unpack_fields ws (fieldnr + suc j) (suc fieldnr) before (more ++ rest) ≡ some fs)
    → Restores (w ∷ ws) (f ∷ fs) (suc j) (bytes ++ more)
unfolding Restores
Restores-cons w f j room ws fs bytes more hw hf hr e later before fieldnr rest =
    let reads = field-Reads w f room bytes hw hf hr e in
    let input = bytes ++ (more ++ rest) in
    rw (append_assoc bytes more rest) (
      unpack_fields-cons w f (suc j) before fieldnr ws fs input
        (record { lo = f; hi = 0; bits = field_bits f 0; bytes = length bytes }) (omega arith)
        (reads.1 before (more ++ rest)) (field_bits-le f w hf) (mod-eq_of_lt hf)
        (rw (drop-append_length bytes (more ++ rest))
          (later (be64_at before input (length bytes)) fieldnr rest)))

pair_path : {a a' : List ℕ} {n n' : ℕ} → a ≡ a' → n ≡ n' → ◌≡◌ {A = List ℕ × ℕ} (a, n) (a', n')
pair_path p q = λ i. (p i, q i)

Restores-last :
    (w f room : ℕ) (ws fs bytes : List ℕ)
    → w ≤ 64
    → f < 2 ^ w
    → 13 ≤ room
    → encode_field room f 0 ≡ some bytes
    → fs ≡ replicate (length ws) 0
    → Restores (w ∷ ws) (f ∷ fs) 1 bytes
Restores-last w f room ws fs bytes hw hf hr e zeros =
    subst (Restores (w ∷ ws) (f ∷ fs) 1) (append_nil bytes) (
      Restores-cons w f 0 room ws fs bytes [] hw hf hr e (λ before fieldnr rest.
        let next : fieldnr + 1 ≡ suc fieldnr = omega arith in
        rw next (unpack_fields-cleared ws (suc fieldnr) before rest ∙ ap some (sym zeros))))

Restores-more :
    (w f j room : ℕ) (ws fs bytes more : List ℕ)
    → w ≤ 64
    → f < 2 ^ w
    → 13 ≤ room
    → encode_field room f 0 ≡ some bytes
    → Restores ws fs j more
    → Restores (w ∷ ws) (f ∷ fs) (suc j) (bytes ++ more)
unfolding Restores
Restores-more w f j room ws fs bytes more hw hf hr e restores =
    Restores-cons w f j room ws fs bytes more hw hf hr e (λ before fieldnr rest.
      let next : fieldnr + suc j ≡ suc fieldnr + j = omega arith in
      rw next (restores before (suc fieldnr) rest))

pub pack_fields-Packs :
    (ws fs out : List ℕ) (nr : ℕ) (last : List ℕ) (last_nr : ℕ)
    → InWidths ws fs
    → length out + 13 * length fs ≤ pack_room
    → (result : List ℕ × ℕ) × (pack_fields fs out nr last last_nr ≡ some result)
      × Packs ws fs out nr last last_nr result
unfolding pack_fields InWidths Packs
pack_fields-Packs [] [] out nr last last_nr h room = ((last, last_nr), refl, inl (refl, refl))
pack_fields-Packs [] (f ∷ fs) out nr last last_nr h room = elim h [ ]
pack_fields-Packs (w ∷ ws) [] out nr last last_nr h room = elim h [ ]
pack_fields-Packs (w ∷ ws) (f ∷ fs) out nr last last_nr (hw, hf, hs) room =
    let space = pack_room - length out in
    let hr : 13 ≤ space = omega arith in
    let (bytes, e, len, _) =
      decode_field-encode_field space 0 f 0 [] (field-lt w f hw hf) (omega arith) hr in
    let out' = out ++ bytes in
    let last' = if f == 0 then last else out' in
    let last_nr' = if f == 0 then last_nr else suc nr in
    let (result, done, packs) =
      pack_fields-Packs ws fs out' (suc nr) last' last_nr' hs
        (omega (arith, length-append out bytes)) in
    (
      result,
      rw (e, pack_fields) done,
      elim packs [
        | inl (zeros, same) ↦ elim (ℕ_discrete f 0) [
          | yes f0 ↦
              let zero_now : (f == 0) ≡ true = ground arith in
              inl (
                ap₂ (λ a t. a ∷ t) f0 zeros,
                same ∙ pair_path (rw zero_now refl) (rw zero_now refl),
              )
          | no ne ↦
              let nonzero : (f == 0) ≡ false = ground arith in
              inr (
                bytes,
                1,
                same ∙ pair_path (rw nonzero refl) (rw nonzero (omega arith)),
                omega arith,
                omega arith,
                Restores-last w f space ws fs bytes hw hf hr e zeros,
              )
        ]
        | inr (more, j, same, hj, le, restores) ↦ inr (
          bytes ++ more,
          suc j,
          same ∙ pair_path (append_assoc out bytes more) (omega arith),
          omega arith,
          omega arith,
          Restores-more w f j space ws fs bytes more hw hf hr e restores,
        )
      ],
    )
