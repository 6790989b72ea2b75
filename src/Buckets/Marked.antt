-- ===== src/Buckets/Marked.antt =====
-- `bch_mark_pointer` and its callers leave the counters a recount, libbcache/buckets.c.
use bcache_tools.Buckets.Extent.{
  Alloc, Call, Delta, Devs, FsUsage, Key, Ptr, extent, gen_after, int_sectors, mark_key,
  mark_pointer, mark_pointer_at, mark_ptrs, other, pointer_mark, reservation, s_cached, s_dirty,
  s_meta, saturated,
}
use bcache_tools.Base.{
  ==_iff, Bool, Bool-cases, List, Option-cases, [], arith, if◌then◌else◌, inl, inr, refl, some, suc,
  u16, zero, ℕ, ◌+◌, ◌/◌, ◌<◌, ◌==◌, ◌^◌, ◌∷◌, ◌≡◌, ◌⊎◌,
}
use mathlib.Core.Path.{subst}
use mathlib.Core.Option.{some-injective}
use bcache_tools.Base.Family.{assign}
use bcache_tools.Buckets.{Dev, Mark, mark_set}
use bcache_tools.Buckets.Counts.{IsCounted, mark_set-IsCounted, same_counts}
use bcache_tools.Buckets.Pointer.{pointer_mark-IsMark}

-- A device whose counters are a recount of its marks.
abbrev pub Counted : Dev → Type 0
Counted ca = IsCounted ca.nbuckets ca

-- The pointer is into a bucket of the device.
abbrev pub InRange : Dev → Ptr → Type 0
InRange ca p = p.offset / 2 ^ ca.bucket_bits < ca.nbuckets

mark_pointer_at-cases :
    (c : Call) (p : Ptr) (type : Alloc) (change : Delta) (ca : Dev) (stats : FsUsage)
    (out : Dev × FsUsage)
    → mark_pointer_at c p type change ca stats ≡ some out
    → let g = p.offset / 2 ^ ca.bucket_bits in
      (out.0 ≡ ca)
      ⊎ (out.0 ≡ record ca {
        marks = assign ca.marks g (record (ca.marks g) { journal_seq = u16 c.seq });
      })
      ⊎ ((new : Mark) × (pointer_mark type (int_sectors change) c.seq (ca.marks g) ≡ some new)
          × (out.0 ≡ record (mark_set ca g new) {
            saturated_count = ca.saturated_count + saturated type (int_sectors change) (ca.marks g);
          }))
unfolding mark_pointer_at
mark_pointer_at-cases c p type change ca stats out e = elim (Bool-cases c.visit) [
  | inl v ↦ elim (Bool-cases (c.seq == 0)) [
    | inl z ↦ inl (ground arith)
    | inr z ↦ inr (inl (ground arith))
  ]
  | inr v ↦ elim (Option-cases (gen_after old.gen p.gen)) [
    | inl bug ↦ ground arith
    | inr (zero, q) ↦ elim (Option-cases (pointer_mark type (int_sectors change) c.seq old)) [
      | inl bug ↦ ground arith
      | inr (new, r) ↦ inr (inr (new, r, ground arith))
    ]
    | inr (suc k, q) ↦ inl (ground arith)
  ]
]
  where
    old : Mark
    old = ca.marks (p.offset / 2 ^ ca.bucket_bits)

-- `saturated_count` is no counter of marks.
saturated_count-IsCounted :
    {n : ℕ} {ca : Dev} (x : ℕ) → IsCounted n ca → IsCounted n (record ca { saturated_count = x })
saturated_count-IsCounted x k = record {
  marks = k.marks;
  buckets_dirty = k.buckets_dirty;
  buckets_cached = k.buckets_cached;
  buckets_meta = k.buckets_meta;
  buckets_alloc = k.buckets_alloc;
  sectors_dirty = k.sectors_dirty;
  sectors_cached = k.sectors_cached;
  sectors_meta = k.sectors_meta;
}

mark_pointer_at-Counted :
    (c : Call) (p : Ptr) (type : Alloc) (change : Delta) (ca : Dev) (stats : FsUsage)
    (out : Dev × FsUsage)
    → InRange ca p
    → Counted ca
    → mark_pointer_at c p type change ca stats ≡ some out
    → Counted out.0 × (out.0.nbuckets ≡ ca.nbuckets) × (out.0.bucket_bits ≡ ca.bucket_bits)
mark_pointer_at-Counted c p type change ca stats out lt k e =
    elim (mark_pointer_at-cases c p type change ca stats out e) [
      | inl q ↦ rw q (k, refl, refl)
      | inr (inl q) ↦ rw q (same_counts g (u16 c.seq) k, refl, refl)
      | inr (inr (new, r, q)) ↦ rw q (stored new r, refl, refl)
    ]
  where
    g : ℕ
    g = p.offset / 2 ^ ca.bucket_bits

    stored :
        (new : Mark)
        → pointer_mark type (int_sectors change) c.seq (ca.marks g) ≡ some new
        → Counted (record (mark_set ca g new) {
          saturated_count = ca.saturated_count + saturated type (int_sectors change) (ca.marks g);
        })
    stored new r = saturated_count-IsCounted _ (
        mark_set-IsCounted g new lt
          (pointer_mark-IsMark type (int_sectors change) c.seq (ca.marks g) (k.marks g) r) k)

-- Every device that is online has counters that are a recount of its marks, and every pointer is
-- into a bucket of its device.
abbrev pub AllCounted : Devs → Type 0
AllCounted devs = (d : ℕ) (ca : Dev) → devs d ≡ some ca → Counted ca

abbrev pub PtrsInRange : Devs → List Ptr → Type 0
PtrsInRange devs [] = Unit
PtrsInRange devs (p ∷ ps) = ((ca : Dev) → devs p.dev ≡ some ca → InRange ca p) × PtrsInRange devs ps

-- The geometry that decides whether a pointer is in range.
abbrev SameShape : Devs → Devs → Type 0
SameShape devs devs' =
    (d : ℕ) (ca' : Dev)
    → devs' d ≡ some ca'
    → (ca : Dev) × (devs d ≡ some ca)
      × (ca'.nbuckets ≡ ca.nbuckets)
      × (ca'.bucket_bits ≡ ca.bucket_bits)

mark_pointer-eq-some :
    (c : Call) (change : Delta) (type : Alloc) (p : Ptr) (s t : Devs × FsUsage)
    → mark_pointer c change type p s ≡ some t
    → (t.0 ≡ s.0)
      ⊎ ((ca : Dev) × (out : Dev × FsUsage) × (s.0 p.dev ≡ some ca)
          × (mark_pointer_at c p type change ca s.1 ≡ some out)
          × (t.0 ≡ assign s.0 p.dev (some out.0)))
unfolding mark_pointer
mark_pointer-eq-some c change type p s t e = elim (Option-cases (s.0 p.dev)) [
  | inl gone ↦ inl (ground arith)
  | inr (ca, here) ↦ elim (Option-cases (mark_pointer_at c p type change ca s.1)) [
    | inl bug ↦ ground arith
    | inr (out, q) ↦ inr (ca, out, here, q, ground arith)
  ]
]

-- What holds of each device after one of them is replaced by a device of the same shape.
assign-AllCounted :
    (devs : Devs) (d : ℕ) (ca ca' : Dev)
    → AllCounted devs
    → devs d ≡ some ca
    → Counted ca' × (ca'.nbuckets ≡ ca.nbuckets) × (ca'.bucket_bits ≡ ca.bucket_bits)
    → AllCounted (assign devs d (some ca')) × SameShape devs (assign devs d (some ca'))
assign-AllCounted devs d ca ca' k here new = (
  λ j x e. elim (Bool-cases (j == d)) [
    | inl q ↦ subst (λ y. Counted y) (some-injective _ _ (rw q at e)) new.0
    | inr q ↦ k j x (rw q at e)
  ],
  λ j x e. elim (Bool-cases (j == d)) [
    | inl q ↦
        let same : j ≡ d = (==_iff j d).0 q in
        subst
          (λ y.
            (z : Dev) × (devs j ≡ some z)
            × (y.nbuckets ≡ z.nbuckets)
            × (y.bucket_bits ≡ z.bucket_bits))
          (some-injective _ _ (rw q at e)) (ca, rw same here, new.1, new.2)
    | inr q ↦ (x, rw q at e, refl, refl)
  ],
)

mark_pointer-AllCounted :
    (c : Call) (change : Delta) (type : Alloc) (p : Ptr) (s t : Devs × FsUsage)
    → AllCounted s.0
    → ((ca : Dev) → s.0 p.dev ≡ some ca → InRange ca p)
    → mark_pointer c change type p s ≡ some t
    → AllCounted t.0 × SameShape s.0 t.0
mark_pointer-AllCounted c change type p s t k lt e =
    elim (mark_pointer-eq-some c change type p s t e) [
      | inl q ↦ rw q (k, λ d x h. (x, h, refl, refl))
      | inr (ca, out, here, q, r) ↦ rw r (
          assign-AllCounted s.0 p.dev ca out.0 k here
            (mark_pointer_at-Counted c p type change ca s.1 out (lt ca here) (k p.dev ca here) q))
    ]

SameShape-PtrsInRange :
    (ps : List Ptr) (devs devs' : Devs)
    → SameShape devs devs'
    → PtrsInRange devs ps
    → PtrsInRange devs' ps
SameShape-PtrsInRange [] devs devs' s r = tt
SameShape-PtrsInRange (p ∷ ps) devs devs' s r = (
  λ ca' h. let (ca, e, n, b) = s p.dev ca' h in rw (n, b) (r.0 ca e),
  SameShape-PtrsInRange ps devs devs' s r.1,
)

mark_ptrs-AllCounted :
    (c : Call) (change : Delta) (type : Alloc) (ps : List Ptr) (s t : Devs × FsUsage)
    → AllCounted s.0
    → PtrsInRange s.0 ps
    → mark_ptrs c change type ps s ≡ some t
    → AllCounted t.0
unfolding mark_ptrs
mark_ptrs-AllCounted c change type [] s t k r e =
    subst (λ z. AllCounted z.0) (some-injective _ _ e) k
mark_ptrs-AllCounted c change type (p ∷ ps) s t k r e =
    elim (Option-cases (mark_pointer c change (if p.cached then s_cached else type) p s)) [
      | inl bug ↦ ground arith
      | inr (u, q) ↦
          let (k', shape) = mark_pointer-AllCounted c change _ p s u k r.0 q in
          mark_ptrs-AllCounted c change type ps u t k' (SameShape-PtrsInRange ps s.0 u.0 shape r.1)
            (ground arith)
    ]

abbrev pub key_ptrs : Key → List Ptr
key_ptrs (extent cached ps) = ps
key_ptrs (reservation k) = []
key_ptrs other = []

-- Marking a key (adding or removing its sectors, on any call of `bch_mark_key`) whose pointers are
-- in range leaves, where it returns, the counters of every online device a recount of its marks.
pub mark_key-AllCounted :
    (c : Call) (k : Key) (change : Delta) (metadata : Bool) (s t : Devs × FsUsage)
    → AllCounted s.0
    → PtrsInRange s.0 (key_ptrs k)
    → mark_key c k change metadata s ≡ some t
    → AllCounted t.0
unfolding mark_key
mark_key-AllCounted c (extent cached ps) change metadata s t k r e =
    mark_ptrs-AllCounted c change (if metadata then s_meta else s_dirty) ps s t k r (ground arith)
mark_key-AllCounted c (reservation n) change metadata s t k r e =
    subst (λ z. AllCounted z.0) (some-injective _ _ e) k
mark_key-AllCounted c other change metadata s t k r e =
    subst (λ z. AllCounted z.0) (some-injective _ _ e) k
