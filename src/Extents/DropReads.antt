-- ===== src/Extents/DropReads.antt =====
-- Dropping the crcs of an extent that say nothing leaves its data where it is:
-- `bch_extent_drop_redundant_crcs` of libbcache/extents.c.
use mathlib.Core.Path.{subst}
use bcache_tools.Base.{
  Bool-cases, List, Option, [], ap, arith, inl, inr, length, none, refl, some, suc, sym, true,
  true-ne-false, zero, ℕ, ◌&&◌, ◌<◌, ◌==◌, ◌∙◌, ◌∷◌, ◌≡◌, ◌≤◌,
}
use bcache_tools.Extents.{
  Crc, CrcKind, Entry, crc128, crc32, crc64, narrow_pointers, of_crc, of_ptr,
}
use bcache_tools.Extents.Crcs.{
  Fate, crc_cmp, crc_fate, drop_crcs, drop_redundant_crcs, dropped, kept, nulled, same_kind,
}
use bcache_tools.Extents.Reads.{Roomy, locate, places}
use bcache_tools.Extents.CrcReads.{
  narrow_pointers-Roomy, narrow_pointers-length, narrow_pointers-places,
}

same_kind-eq : (a b : CrcKind) → same_kind a b ≡ true → a ≡ b
same_kind-eq crc32 crc32 e = refl
same_kind-eq crc64 crc64 e = refl
same_kind-eq crc128 crc128 e = refl
same_kind-eq crc32 crc64 e = absurd (true-ne-false (sym e))
same_kind-eq crc32 crc128 e = absurd (true-ne-false (sym e))
same_kind-eq crc64 crc32 e = absurd (true-ne-false (sym e))
same_kind-eq crc64 crc128 e = absurd (true-ne-false (sym e))
same_kind-eq crc128 crc32 e = absurd (true-ne-false (sym e))
same_kind-eq crc128 crc64 e = absurd (true-ne-false (sym e))

crc_of : CrcKind → ℕ → ℕ → ℕ → ℕ → ℕ → ℕ → ℕ → ℕ → Crc
crc_of k a b c d e f g h = record {
  kind = k;
  compressed_size = a;
  uncompressed_size = b;
  offset = c;
  nonce = d;
  csum_type = e;
  compression_type = f;
  csum_lo = g;
  csum_hi = h;
}

crc_of-eq :
    (k k' : CrcKind) (a b c d e f g h a' b' c' d' e' f' g' h' : ℕ)
    → k ≡ k'
    → a ≡ a'
    → b ≡ b'
    → c ≡ c'
    → d ≡ d'
    → e ≡ e'
    → f ≡ f'
    → g ≡ g'
    → h ≡ h'
    → crc_of k a b c d e f g h ≡ crc_of k' a' b' c' d' e' f' g' h'
crc_of-eq k k' a b c d e f g h a' b' c' d' e' f' g' h' ek ea eb ec ed ee ef eg eh =
    rw (ek, ea, eb, ec, ed, ee, ef, eg, eh) refl

kept-ne-dropped : ¬ (kept ≡ dropped)
kept-ne-dropped e = cc

crc_cmp-eq : (c c' : Crc) → crc_cmp c c' ≡ true → c ≡ c'
unfolding crc_of
crc_cmp-eq c c' e =
    let k : same_kind c.kind c'.kind ≡ true = ground (arith, e) in
    crc_of-eq c.kind c'.kind c.compressed_size c.uncompressed_size c.offset c.nonce c.csum_type
      c.compression_type c.csum_lo c.csum_hi c'.compressed_size c'.uncompressed_size c'.offset
      c'.nonce c'.csum_type c'.compression_type c'.csum_lo c'.csum_hi
      (same_kind-eq c.kind c'.kind k) (ground (arith, e)) (ground (arith, e)) (ground (arith, e))
      (ground (arith, e)) (ground (arith, e)) (ground (arith, e)) (ground (arith, e))
      (ground (arith, e))

-- A step of the loop, by what becomes of the crc.
drop_step : ℕ → Option Crc → Crc → List Entry → Fate → List Entry
drop_step fuel prev c es dropped = drop_crcs fuel prev es
drop_step fuel prev c es nulled = drop_crcs fuel prev (narrow_pointers c.offset es)
drop_step fuel prev c es kept = of_crc c ∷ drop_crcs fuel (some c) es

drop_crcs_by :
    (fuel : ℕ) (prev : Option Crc) (c : Crc) (es : List Entry) (fate : Fate)
    → crc_fate prev c es ≡ fate
    → drop_crcs (suc fuel) prev (of_crc c ∷ es) ≡ drop_step fuel prev c es fate
unfolding drop_crcs drop_step
drop_crcs_by fuel prev c es dropped e = rw (drop_crcs, e) refl
drop_crcs_by fuel prev c es nulled e = rw (drop_crcs, e) refl
drop_crcs_by fuel prev c es kept e = rw (drop_crcs, e) refl

module _ (size d : ℕ) (some_size : 0 < size) where
  under : Option Crc → ℕ
  under none = 0
  under (some c) = c.offset

  drop_crcs-places :
      (fuel : ℕ) (prev : Option Crc) (es : List Entry)
      → Roomy (under prev) size es
      → places prev (drop_crcs fuel prev es) d ≡ places prev es d
  unfolding places drop_crcs Roomy locate drop_step under
  drop_crcs-places zero prev es r = refl
  drop_crcs-places (suc fuel) prev [] r = refl
  drop_crcs-places (suc fuel) prev (of_ptr p ∷ es) (hp, r) =
      ap (λ t. locate prev p d ∷ t) (drop_crcs-places fuel prev es r)
  drop_crcs-places (suc fuel) prev (of_crc c ∷ []) (hc, r) = drop_crcs-places fuel prev [] tt
  drop_crcs-places (suc fuel) prev (of_crc c ∷ of_crc c' ∷ es) (hc, r) =
      drop_crcs-places fuel prev (of_crc c' ∷ es) r
  drop_crcs-places (suc fuel) none (of_crc c ∷ of_ptr p ∷ es) (hc, r) =
      elim (Bool-cases ((c.csum_type == 0) && (c.compression_type == 0))) [
        | inl null ↦
            let plain_c : c.compression_type ≡ 0 = ground (arith, null) in
            ap (λ t. places none t d)
              (drop_crcs_by fuel none c (of_ptr p ∷ es) nulled (rw null refl))
            ∙ (drop_crcs-places fuel none (narrow_pointers c.offset (of_ptr p ∷ es))
                  (narrow_pointers-Roomy c.offset size (of_ptr p ∷ es) some_size r)
                ∙ narrow_pointers-places size d some_size c none (of_ptr p ∷ es) (λ p. refl) plain_c
                    r)
        | inr live ↦
            ap (λ t. places none t d) (drop_crcs_by fuel none c (of_ptr p ∷ es) kept (rw live refl))
            ∙ (drop_crcs-places fuel (some c) (of_ptr p ∷ es) r)
      ]
  drop_crcs-places (suc fuel) (some c') (of_crc c ∷ of_ptr p ∷ es) (hc, r) =
      elim (Bool-cases (crc_cmp c c')) [
        | inl same ↦
            let e : c ≡ c' = crc_cmp-eq c c' same in
            ap (λ t. places (some c') t d)
              (drop_crcs_by fuel (some c') c (of_ptr p ∷ es) dropped (rw same refl))
            ∙ (drop_crcs-places fuel (some c') (of_ptr p ∷ es)
                  (subst (λ t. Roomy t.offset size (of_ptr p ∷ es)) e r)
                ∙ ap (λ t. places (some t) (of_ptr p ∷ es) d) (sym e))
        | inr differ ↦
            ap (λ t. places (some c') t d)
              (drop_crcs_by fuel (some c') c (of_ptr p ∷ es) kept (rw differ refl))
            ∙ (drop_crcs-places fuel (some c) (of_ptr p ∷ es) r)
      ]

-- No crc is left that could be dropped; the first argument is the crc before.
unfoldable pub IsReduced : Option Crc → List Entry → Type 0
IsReduced prev [] = Unit
IsReduced prev (of_ptr p ∷ es) = IsReduced prev es
IsReduced prev (of_crc c ∷ es) = (crc_fate prev c es ≡ kept) × IsReduced (some c) es

-- The tests on a crc read only the kind of the entry after it, which the loop keeps.
crc_fate-drop_crcs :
    (fuel : ℕ) (prev : Option Crc) (c : Crc) (es : List Entry)
    → length es ≤ fuel
    → crc_fate prev c es ≡ kept
    → crc_fate prev c (drop_crcs fuel (some c) es) ≡ kept
unfolding drop_crcs
crc_fate-drop_crcs fuel prev c [] h e = absurd (kept-ne-dropped (sym e))
crc_fate-drop_crcs fuel prev c (of_crc c' ∷ es) h e = absurd (kept-ne-dropped (sym e))
crc_fate-drop_crcs zero prev c (of_ptr p ∷ es) h e = absurd (omega arith)
crc_fate-drop_crcs (suc fuel) prev c (of_ptr p ∷ es) h e = e

drop_step-IsReduced :
    (fuel : ℕ) (prev : Option Crc) (c : Crc) (es : List Entry) (fate : Fate)
    → length es ≤ fuel
    → crc_fate prev c es ≡ fate
    → IsReduced prev (drop_crcs fuel prev es)
    → IsReduced prev (drop_crcs fuel prev (narrow_pointers c.offset es))
    → IsReduced (some c) (drop_crcs fuel (some c) es)
    → IsReduced prev (drop_step fuel prev c es fate)
unfolding drop_step IsReduced
drop_step-IsReduced fuel prev c es dropped h e a b k = a
drop_step-IsReduced fuel prev c es nulled h e a b k = b
drop_step-IsReduced fuel prev c es kept h e a b k = (crc_fate-drop_crcs fuel prev c es h e, k)

drop_crcs-IsReduced :
    (fuel : ℕ) (prev : Option Crc) (es : List Entry)
    → length es ≤ fuel
    → IsReduced prev (drop_crcs fuel prev es)
unfolding IsReduced drop_crcs
drop_crcs-IsReduced zero prev [] h = tt
drop_crcs-IsReduced (suc fuel) prev [] h = tt
drop_crcs-IsReduced zero prev (e ∷ es) h = absurd (omega arith)
drop_crcs-IsReduced (suc fuel) prev (of_ptr p ∷ es) h =
    drop_crcs-IsReduced fuel prev es (omega arith)
drop_crcs-IsReduced (suc fuel) prev (of_crc c ∷ es) h =
    let short : length es ≤ fuel = omega arith in
    subst (IsReduced prev) (sym (drop_crcs_by fuel prev c es (crc_fate prev c es) refl)) (
      drop_step-IsReduced fuel prev c es (crc_fate prev c es) short refl
        (drop_crcs-IsReduced fuel prev es short)
        (drop_crcs-IsReduced fuel prev (narrow_pointers c.offset es)
          (omega (arith, narrow_pointers-length c.offset es)))
        (drop_crcs-IsReduced fuel (some c) es short))

-- Where the entries have room for the size of the extent, which is not 0, dropping the redundant
-- crcs leaves every sector at its places. Of the crcs that are left, each has a pointer, differs
-- from the crc before it, and is not null where it is the first.
pub drop_redundant_crcs-places :
    (size d : ℕ) (es : List Entry)
    → 0 < size
    → Roomy 0 size es
    → (places none (drop_redundant_crcs es) d ≡ places none es d)
      × IsReduced none (drop_redundant_crcs es)
unfolding drop_redundant_crcs under
drop_redundant_crcs-places size d es h r = (
  drop_crcs-places size d h (length es) none es r,
  drop_crcs-IsReduced (length es) none es (omega arith),
)
