-- ===== src/Extents/CrcReads.antt =====
-- Narrowing the crcs of an extent leaves its data where it is: `bch_extent_narrow_crcs` of
-- libbcache/extents.c.
use bcache_tools.Base.{
  Bool-cases, List, Option, Option-cases, [], ap, ap₂, arith, false, inl, inr, length, none, not,
  refl, some, suc, sym, true, zero, ℕ, ◌%◌, ◌+◌, ◌<◌, ◌^◌, ◌||◌, ◌∙◌, ◌∷◌, ◌≡◌,
}
use bcache_tools.Extents.{Crc, Entry, ExtentPtr, narrow_pointers, of_crc, of_ptr, ptr_forward}
use bcache_tools.Extents.Crcs.{
  Found, crc_bytes, find_crcs, found_crc, found_none, is_narrowed, narrow_crcs, narrow_each,
  narrowed,
}
use bcache_tools.Extents.Reads.{Roomy, locate, places, plain}

pub narrow_pointers-length : (n : ℕ) (es : List Entry) → length (narrow_pointers n es) ≡ length es
narrow_pointers-length n [] = refl
narrow_pointers-length n (of_ptr p ∷ es) = ap suc (narrow_pointers-length n es)
narrow_pointers-length n (of_crc c ∷ es) = refl

pub narrow_pointers-Roomy :
    (n size : ℕ) (es : List Entry)
    → 0 < size
    → Roomy n size es
    → Roomy 0 size (narrow_pointers n es)
unfolding Roomy
narrow_pointers-Roomy n size [] h r = tt
narrow_pointers-Roomy n size (of_ptr p ∷ es) h (hp, r) =
    (omega arith, narrow_pointers-Roomy n size es h r)
narrow_pointers-Roomy n size (of_crc c ∷ es) h r = r

module _ (size d : ℕ) (some_size : 0 < size) where
  locate-plain :
      (c : Crc) (p : ExtentPtr)
      → c.compression_type ≡ 0
      → locate (some c) p d ≡ plain p.dev p.gen (p.offset + c.offset + d)
  unfolding locate
  locate-plain c p e = rw e refl

  -- Pointers that are moved by the offset of a crc that does not compress need it no more.
  pub narrow_pointers-places :
      (c : Crc) (q : Option Crc) (es : List Entry)
      → ((p : ExtentPtr) → locate q p d ≡ plain p.dev p.gen (p.offset + d))
      → c.compression_type ≡ 0
      → Roomy c.offset size es
      → places q (narrow_pointers c.offset es) d ≡ places (some c) es d
  unfolding places Roomy locate
  narrow_pointers-places c q [] hq hc r = refl
  narrow_pointers-places c q (of_ptr p ∷ es) hq hc (hp, r) =
      let whole : (p.offset + c.offset) % 2 ^ 44 ≡ p.offset + c.offset = omega arith in
      let moved = hq (ptr_forward c.offset p) ∙ ap (λ t. plain p.dev p.gen (t + d)) whole in
      ap₂ (λ x xs. x ∷ xs) (moved ∙ sym (locate-plain c p hc))
        (narrow_pointers-places c q es hq hc r)
  narrow_pointers-places c q (of_crc c' ∷ es) hq hc r = refl

  narrow_each-narrowed :
      (fuel bytes : ℕ) (f : Found) (c : Crc) (es : List Entry)
      → is_narrowed size bytes c ≡ true
      → narrow_each (suc fuel) size bytes f (of_crc c ∷ es)
        ≡ of_crc (narrowed size f c) ∷ narrow_each fuel size bytes f (narrow_pointers c.offset es)
  unfolding narrow_each
  narrow_each-narrowed fuel bytes f c es e = rw (narrow_each, e) refl

  narrow_each_stays :
      (fuel bytes : ℕ) (f : Found) (c : Crc) (es : List Entry)
      → is_narrowed size bytes c ≡ false
      → narrow_each (suc fuel) size bytes f (of_crc c ∷ es)
        ≡ of_crc c ∷ narrow_each fuel size bytes f es
  unfolding narrow_each
  narrow_each_stays fuel bytes f c es e = rw (narrow_each, e) refl

  narrow_each-places :
      (fuel bytes : ℕ) (f : Found) (q : Option Crc) (n : ℕ) (es : List Entry)
      → Roomy n size es
      → places q (narrow_each fuel size bytes f es) d ≡ places q es d
  unfolding places narrow_each Roomy locate
  narrow_each-places zero bytes f q n es r = refl
  narrow_each-places (suc fuel) bytes f q n [] r = refl
  narrow_each-places (suc fuel) bytes f q n (of_ptr p ∷ es) (hp, r) =
      ap (λ t. locate q p d ∷ t) (narrow_each-places fuel bytes f q n es r)
  narrow_each-places (suc fuel) bytes f q n (of_crc c ∷ es) (hc, r) =
      elim (Bool-cases (is_narrowed size bytes c)) [
        | inl yes_narrow ↦
            let null : c.compression_type ≡ 0 = ground (arith, yes_narrow) in
            ap (λ t. places q t d) (narrow_each-narrowed fuel bytes f c es yes_narrow)
            ∙ (narrow_each-places fuel bytes f (some (narrowed size f c)) 0
                  (narrow_pointers c.offset es) (narrow_pointers-Roomy c.offset size es some_size r)
                ∙ narrow_pointers-places c (some (narrowed size f c)) es
                    (λ p.
                      locate-plain (narrowed size f c) p null
                      ∙ ap (λ t. plain p.dev p.gen (t + d)) (omega arith))
                    null r)
        | inr stays ↦
            ap (λ t. places q t d) (narrow_each_stays fuel bytes f c es stays)
            ∙ (narrow_each-places fuel bytes f (some c) c.offset es r)
      ]

-- The checksum types are those of the table, as `bch_extent_invalid` asks for.
unfoldable pub KnownTypes : List Entry → Type 0
KnownTypes [] = Unit
KnownTypes (of_ptr p ∷ es) = KnownTypes es
KnownTypes (of_crc c ∷ es) = (c.csum_type < 5) × KnownTypes es

find_crcs-lt :
    (size : ℕ) (f : Found) (es : List Entry)
    → f.csum_type < 5
    → KnownTypes es
    → (find_crcs size f es).csum_type < 5
unfolding KnownTypes
find_crcs-lt size f [] h k = h
find_crcs-lt size f (of_ptr p ∷ es) h k = find_crcs-lt size f es h k
find_crcs-lt size f (of_crc c ∷ es) h (hc, k) =
    find_crcs-lt size (found_crc size f c) es (ground arith) k

crc_bytes-known : (t : ℕ) → t < 5 → (bytes : ℕ) × (crc_bytes t ≡ some bytes)
crc_bytes-known t h = elim (Option-cases (crc_bytes t)) [
  | inl bad ↦ absurd (ground (arith, bad))
  | inr found ↦ found
]

-- Where the entries have room for the size of the extent, which is not 0, and the checksum types
-- are known, narrowing the crcs gives a result, and leaves every sector at its places.
pub narrow_crcs-places :
    (size d : ℕ) (es : List Entry)
    → 0 < size
    → Roomy 0 size es
    → KnownTypes es
    → (es' : List Entry) × (narrow_crcs size es ≡ some es') × (places none es' d ≡ places none es d)
unfolding narrow_crcs
narrow_crcs-places size d es h r k =
    let f = find_crcs size found_none es in
    let known : f.csum_type < 5 = find_crcs-lt size _ es (omega arith) k in
    let (bytes, e) = crc_bytes-known f.csum_type known in
    elim (Bool-cases (not f.have_wide || not f.have_narrow)) [
      | inl nothing ↦ (es, rw nothing refl, refl)
      | inr both ↦ (
        narrow_each (length es) size bytes f es,
        rw (both, e) refl,
        narrow_each-places size d h (length es) bytes f none 0 es r,
      )
    ]
