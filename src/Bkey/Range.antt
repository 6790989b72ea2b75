-- ===== src/Bkey/Range.antt =====
-- The ranges of `struct bkey_format_state` contain what was added to them, libbcache/bkey.c.
use mathlib.Core.Path.{subst}
use bcache_tools.Base.{List, [], arith, inl, inr, refl, sym, ℕ, ◌-◌, ◌<◌, ◌^◌, ◌∷◌, ◌≡◌, ◌≤◌, ◌⊎◌}
use bcache_tools.Bkey.Key.{Bkey, Bpos, bkey_fields, bkey_start_offset}
use bcache_tools.Bkey.Format.{
  FieldRange, format_add, format_add_key, format_add_pos, format_init, widen,
}
use bcache_tools.Bkey.Layout.{IsKey}

unfoldable pub InRange : FieldRange → ℕ → Type 0
InRange r v = (r.field_min ≤ v) × (v ≤ r.field_max)

-- Each value lies in the range of its field.
unfoldable pub Ranged : List FieldRange → List ℕ → Type 0
Ranged [] [] = Unit
Ranged (r ∷ rs) (v ∷ vs) = InRange r v × Ranged rs vs
Ranged _ _ = ⊥

-- A key with the start of its extent in the place of its offset.
abbrev pub start_fields : Bkey → List ℕ
start_fields k =
    k.p.inode ∷ bkey_start_offset k ∷ k.p.snapshot ∷ k.size ∷ k.version.hi ∷ k.version.lo ∷ []

unfoldable pub Spans : List FieldRange → Bkey → Type 0
Spans s k = Ranged s (bkey_fields k) × Ranged s (start_fields k)

-- Six ranges within the fields' widths; a size of 0 is in range.
pub data Limits : List FieldRange → Type 0 where
  six :
      (a b c d e g : FieldRange)
      → (a.field_max < 2 ^ 64) × (b.field_max < 2 ^ 64) × (c.field_max < 2 ^ 32)
      → (d.field_min ≡ 0) × (d.field_max < 2 ^ 32)
      → (e.field_max < 2 ^ 32) × (g.field_max < 2 ^ 64)
      → Limits (a ∷ b ∷ c ∷ d ∷ e ∷ g ∷ [])

-- The widths of `struct bpos`
pub record IsPos (p : Bpos) : Type 0 where
  pub inode : p.inode < 2 ^ 64
  pub offset : p.offset < 2 ^ 64
  pub snapshot : p.snapshot < 2 ^ 32

-- What a sequence of calls leaves in a `struct bkey_format_state`, and the keys added by them.
pub data Collected : List FieldRange → List Bkey → Type 0 where
  init : Collected format_init []
  add_key :
      {s : List FieldRange} {ks : List Bkey}
      → (k : Bkey) → IsKey k
      → Collected s ks
      → Collected (format_add_key s k) (k ∷ ks)
  add_pos :
      {s : List FieldRange} {ks : List Bkey}
      → (p : Bpos) → IsPos p
      → Collected s ks
      → Collected (format_add_pos s p) ks

widen-InRange : (r : FieldRange) (v : ℕ) → InRange (widen r v) v
unfolding InRange
widen-InRange r v = (omega arith, omega arith)

InRange-widen : (r : FieldRange) (v w : ℕ) → InRange r w → InRange (widen r v) w
unfolding InRange
InRange-widen r v w (h, h') = (omega arith, omega arith)

format_add_key-Limits :
    (s : List FieldRange) (k : Bkey) → IsKey k → Limits s → Limits (format_add_key s k)
unfolding format_add_key format_add
format_add_key-Limits s k hk (six a b c d e g (ha, hb, hc) (hd, hd') (he, hg)) =
    let start : bkey_start_offset k < 2 ^ 64 = omega arith in
    six (widen a k.p.inode) (widen (widen b k.p.offset) (bkey_start_offset k))
      (widen c k.p.snapshot) (widen d k.size) (widen e k.version.hi) (widen g k.version.lo)
      (omega (arith, hk.inode), omega (arith, hk.offset, start), omega (arith, hk.snapshot))
      (omega arith, omega (arith, hk.size)) (omega (arith, hk.hi), omega (arith, hk.lo))

format_add_pos-Limits :
    (s : List FieldRange) (p : Bpos) → IsPos p → Limits s → Limits (format_add_pos s p)
unfolding format_add_pos format_add
format_add_pos-Limits s p hp (six a b c d e g (ha, hb, hc) hd he) =
    six (widen a p.inode) (widen b p.offset) (widen c p.snapshot) d e g
      (omega (arith, hp.inode), omega (arith, hp.offset), omega (arith, hp.snapshot)) hd he

format_add_key-Spans : (s : List FieldRange) (k : Bkey) → Limits s → Spans (format_add_key s k) k
unfolding format_add_key format_add Spans Ranged
format_add_key-Spans s k (six a b c d e g ha hd he) =
    let o = k.p.offset in
    let start = bkey_start_offset k in
    let rest : Ranged
        (widen c k.p.snapshot ∷ widen d k.size ∷ widen e k.version.hi ∷ widen g k.version.lo ∷ [])
        (k.p.snapshot ∷ k.size ∷ k.version.hi ∷ k.version.lo ∷ []) =
      (
        widen-InRange c k.p.snapshot,
        (
          widen-InRange d k.size,
          (widen-InRange e k.version.hi, (widen-InRange g k.version.lo, tt)),
        ),
      ) in
    (
      (widen-InRange a k.p.inode, (InRange-widen (widen b o) start o (widen-InRange b o), rest)),
      (widen-InRange a k.p.inode, (widen-InRange (widen b o) start, rest)),
    )

-- A range with more in it.
Wider : FieldRange → FieldRange → Type 0
Wider r r' = (v : ℕ) → InRange r v → InRange r' v

unfoldable AllWider : List FieldRange → List FieldRange → Type 0
AllWider [] [] = Unit
AllWider (r ∷ rs) (r' ∷ rs') = Wider r r' × AllWider rs rs'
AllWider _ _ = ⊥

Ranged-AllWider :
    (rs rs' : List FieldRange) (vs : List ℕ) → AllWider rs rs' → Ranged rs vs → Ranged rs' vs
unfolding Ranged Wider AllWider
Ranged-AllWider [] [] vs w h = h
Ranged-AllWider (r ∷ rs) (r' ∷ rs') (v ∷ vs) (w, ws) (h, hs) =
    (w v h, Ranged-AllWider rs rs' vs ws hs)
Ranged-AllWider (r ∷ rs) (r' ∷ rs') [] w h = elim h [ ]
Ranged-AllWider [] (r' ∷ rs') vs w h = elim w [ ]
Ranged-AllWider (r ∷ rs) [] vs w h = elim w [ ]

format_add_key-keeps :
    (s : List FieldRange) (k : Bkey) (vs : List ℕ)
    → Limits s
    → Ranged s vs
    → Ranged (format_add_key s k) vs
unfolding format_add_key format_add Wider AllWider
format_add_key-keeps s k vs (six a b c d e g ha hd he) h =
    Ranged-AllWider (a ∷ b ∷ c ∷ d ∷ e ∷ g ∷ []) (format_add_key (a ∷ b ∷ c ∷ d ∷ e ∷ g ∷ []) k) vs
      (
        InRange-widen a k.p.inode,
        (
          λ v h.
              InRange-widen (widen b k.p.offset) (bkey_start_offset k) v
                (InRange-widen b k.p.offset v h),
          (
            InRange-widen c k.p.snapshot,
            (
              InRange-widen d k.size,
              (InRange-widen e k.version.hi, (InRange-widen g k.version.lo, tt)),
            ),
          ),
        ),
      )
      h

format_add_pos-keeps :
    (s : List FieldRange) (p : Bpos) (vs : List ℕ)
    → Limits s
    → Ranged s vs
    → Ranged (format_add_pos s p) vs
unfolding format_add_pos format_add Wider AllWider
format_add_pos-keeps s p vs (six a b c d e g ha hd he) h =
    Ranged-AllWider (a ∷ b ∷ c ∷ d ∷ e ∷ g ∷ []) (format_add_pos (a ∷ b ∷ c ∷ d ∷ e ∷ g ∷ []) p) vs
      (
        InRange-widen a p.inode,
        (
          InRange-widen b p.offset,
          (InRange-widen c p.snapshot, (λ v h. h, (λ v h. h, (λ v h. h, tt)))),
        ),
      )
      h

pub Collected-Limits : {s : List FieldRange} {ks : List Bkey} → Collected s ks → Limits s
Collected-Limits init =
    let none_yet : FieldRange = record { field_min = 2 ^ 64 - 1; field_max = 0 } in
    six none_yet none_yet none_yet (record { field_min = 0; field_max = 0 }) none_yet none_yet
      (omega arith, omega arith, omega arith) (refl, omega arith) (omega arith, omega arith)
Collected-Limits (add_key k hk c) = format_add_key-Limits _ k hk (Collected-Limits c)
Collected-Limits (add_pos p hp c) = format_add_pos-Limits _ p hp (Collected-Limits c)

unfoldable pub Added : Bkey → List Bkey → Type 0
Added k [] = ⊥
Added k (x ∷ xs) = (k ≡ x) ⊎ Added k xs

-- Every key that was added lies in the ranges.
pub Collected-Spans :
    {s : List FieldRange} {ks : List Bkey} → Collected s ks → (k : Bkey) → Added k ks → Spans s k
unfolding Added Spans
Collected-Spans init k h = elim h [ ]
Collected-Spans (add_key x hk c) k (inl e) =
    subst (Spans (format_add_key _ x)) (sym e) (format_add_key-Spans _ x (Collected-Limits c))
Collected-Spans (add_key x hk c) k (inr h) =
    let (p, q) = Collected-Spans c k h in
    (
      format_add_key-keeps _ x (bkey_fields k) (Collected-Limits c) p,
      format_add_key-keeps _ x (start_fields k) (Collected-Limits c) q,
    )
Collected-Spans (add_pos x hp c) k h =
    let (p, q) = Collected-Spans c k h in
    (
      format_add_pos-keeps _ x (bkey_fields k) (Collected-Limits c) p,
      format_add_pos-keeps _ x (start_fields k) (Collected-Limits c) q,
    )

pub Collected-IsKey :
    {s : List FieldRange} {ks : List Bkey} → Collected s ks → (k : Bkey) → Added k ks → IsKey k
unfolding Added
Collected-IsKey init k h = elim h [ ]
Collected-IsKey (add_key x hk c) k (inl e) = subst IsKey (sym e) hk
Collected-IsKey (add_key x hk c) k (inr h) = Collected-IsKey c k h
Collected-IsKey (add_pos x hp c) k h = Collected-IsKey c k h
