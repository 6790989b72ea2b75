-- ===== src/Extents/Reads.antt =====
-- Where the data of an extent lies: what the entries of include/linux/bcache.h mean to a reader.
use native.Mathlib.Nat.{mod-eq_of_lt}
use bcache_tools.Base.{
  List, Option, [], ap, ap₂, arith, false, if◌then◌else◌, none, refl, some, true, ℕ, ◌%◌, ◌+◌, ◌<◌,
  ◌==◌, ◌^◌, ◌∷◌, ◌≡◌, ◌≤◌,
}
use bcache_tools.Extents.{Crc, Entry, ExtentPtr, crc_forward, forward, of_crc, of_ptr, offset_bits}

-- A sector of a device, or a sector of what is decompressed from the sectors at an offset.
pub data Place : Type 0 where
  plain : ℕ → ℕ → ℕ → Place
  packed : ℕ → ℕ → ℕ → ℕ → ℕ → Place

-- The sector `d` of the extent, by one pointer and the crc that it is under.
unfoldable pub locate : Option Crc → ExtentPtr → ℕ → Place
locate none p d = plain p.dev p.gen (p.offset + d)
locate (some c) p d =
    if c.compression_type == 0
    then plain p.dev p.gen (p.offset + c.offset + d)
    else packed p.dev p.gen p.offset c.compression_type (c.offset + d)

-- The sector `d` by each of the pointers: a crc is that of the pointers up to the next.
unfoldable pub places : Option Crc → List Entry → ℕ → List Place
places c [] d = []
places c (of_ptr p ∷ es) d = locate c p d ∷ places c es d
places c (of_crc c' ∷ es) d = places (some c') es d

-- The bit fields of the entries have room for `size` sectors; `under` is the offset of the crc that the
-- first pointers are under.
unfoldable pub Roomy : ℕ → ℕ → List Entry → Type 0
Roomy under size [] = Unit
Roomy under size (of_ptr p ∷ es) = (p.offset + under + size ≤ 2 ^ 44) × Roomy under size es
Roomy under size (of_crc c ∷ es) =
    (c.offset + size ≤ 2 ^ offset_bits c.kind) × Roomy c.offset size es

pub locate-crc_forward :
    (n size : ℕ) (c : Crc) (p : ExtentPtr) (d : ℕ)
    → n < size
    → c.offset + size ≤ 2 ^ offset_bits c.kind
    → locate (some (crc_forward n c)) p d ≡ locate (some c) p (n + d)
unfolding locate
locate-crc_forward n size c p d hn h =
    let whole : (c.offset + n) % 2 ^ offset_bits c.kind ≡ c.offset + n =
      mod-eq_of_lt (omega arith) in
    let a : p.offset + (c.offset + n) + d ≡ p.offset + c.offset + (n + d) = omega arith in
    let b : c.offset + n + d ≡ c.offset + (n + d) = omega arith in rw (whole, a, b) refl

-- Moving an extent's entries forward by `n` sectors makes its sector `d` what was the sector `n + d`.
pub places-forward_under :
    (n size : ℕ) (c : Crc) (es : List Entry) (d : ℕ)
    → n < size
    → c.offset + size ≤ 2 ^ offset_bits c.kind
    → Roomy c.offset size es
    → places (some (crc_forward n c)) (forward true n es) d ≡ places (some c) es (n + d)
unfolding places Roomy
places-forward_under n size c [] d hn hc h = refl
places-forward_under n size c (of_ptr p ∷ es) d hn hc (hp, h) =
    ap₂ (λ x xs. x ∷ xs) (locate-crc_forward n size c p d hn hc)
      (places-forward_under n size c es d hn hc h)
places-forward_under n size c (of_crc c' ∷ []) d hn hc (hc', h) = refl
places-forward_under n size c (of_crc c' ∷ of_ptr p ∷ es) d hn hc (hc', h) =
    places-forward_under n size c' (of_ptr p ∷ es) d hn hc' h
places-forward_under n size c (of_crc c' ∷ of_crc c'' ∷ es) d hn hc (hc', h) =
    places-forward_under n size c' (of_crc c'' ∷ es) d hn hc' h

pub places-forward :
    (n size : ℕ) (es : List Entry) (d : ℕ)
    → n < size
    → Roomy 0 size es
    → places none (forward false n es) d ≡ places none es (n + d)
unfolding places Roomy locate
places-forward n size [] d hn h = refl
places-forward n size (of_ptr p ∷ es) d hn (hp, h) =
    let whole : (p.offset + n) % 2 ^ 44 ≡ p.offset + n = omega arith in
    let a : p.offset + n + d ≡ p.offset + (n + d) = omega arith in
    rw (whole, a)
      (ap (λ t. plain p.dev p.gen (p.offset + (n + d)) ∷ t) (places-forward n size es d hn h))
places-forward n size (of_crc c ∷ []) d hn (hc, h) = refl
places-forward n size (of_crc c ∷ of_ptr p ∷ es) d hn (hc, h) =
    places-forward_under n size c (of_ptr p ∷ es) d hn hc h
places-forward n size (of_crc c ∷ of_crc c' ∷ es) d hn (hc, h) =
    places-forward_under n size c (of_crc c' ∷ es) d hn hc h
