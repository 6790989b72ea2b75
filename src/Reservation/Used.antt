-- ===== src/Reservation/Used.antt =====
-- The use of a reservation, `bch_fs_stats_apply` of libbcache/buckets.c: space that is used or promised
-- is conserved.
use bcache_tools.Base.{
  ℕ, ◌+◌, ◌^◌, ◌<◌, ◌≡◌, ap, true, false, Option, none, some, u64, arith, refl, ◌∙◌, inl, inr,
  Bool-cases,
}
use mathlib.Core.Path.{subst}
use mathlib.Core.Option.{some-injective}
use native.Mathlib.Nat.{add-zero}
use bcache_tools.Base.Family.{assign, total, total-assign}
use bcache_tools.Reservation.{
  Usage, Reservation, Fs, slt, sub64, set_cpu, stats_apply, held, pay, applied,
}

-- All the space that is used or promised.
abbrev pub promised : Usage → ℕ
promised u = u.meta + u.dirty + u.persistent_reserved + u.online_reserved

abbrev pub change : Usage → ℕ
change s = u64 (s.meta + s.dirty + s.persistent_reserved + s.online_reserved)

promised-applied :
    (s u : Usage) (o k : ℕ)
    → u64 (s.meta + s.dirty + s.persistent_reserved + o) ≡ u64 k
    → u64 (promised (applied false s o u)) ≡ u64 (promised u + k)
unfolding applied
promised-applied s u o k e = omega arith

promised-set_cpu :
    (c : Fs) (i k : ℕ) (u : Usage)
    → i < c.cpus
    → u64 (promised u) ≡ u64 (promised (c.cpu i) + k)
    → u64 (total promised c.cpus (assign c.cpu i u)) ≡ u64 (total promised c.cpus c.cpu + k)
promised-set_cpu c i k u lt e = omega (arith, total-assign promised c.cpu u lt)

promised-set_cpu_same :
    (c : Fs) (i : ℕ) (u : Usage)
    → i < c.cpus
    → u64 (promised u) ≡ u64 (promised (c.cpu i))
    → u64 (total promised c.cpus (assign c.cpu i u)) ≡ u64 (total promised c.cpus c.cpu)
promised-set_cpu_same c i u lt e = omega (arith, total-assign promised c.cpu u lt)

held-pay :
    (n : ℕ) (res : Option Reservation)
    → held res < 2 ^ 64
    → n < 2 ^ 64
    → slt 0 n ≡ true
    → slt (held res) n ≡ false
    → held (pay n res) + n ≡ held res
held-pay n none small fits h k = ground arith
held-pay n (some r) small fits h k = ground arith

-- Space that `bch_fs_stats_apply` counts (where gc is not going to count it) is paid for: if the
-- change adds space, the sum of used and promised sectors stays, and the reservation shrinks by the
-- change; otherwise the sum moves by the change, and the reservation stays.
pub stats_apply-conserves :
    (i : ℕ) (s : Usage) (res : Option Reservation) (c : Fs) (out : Fs × Option Reservation)
    → i < c.cpus
    → held res < 2 ^ 64
    → stats_apply i false s res c ≡ some out
    → (slt 0 (change s) ≡ true
        → (u64 (total promised out.0.cpus out.0.cpu) ≡ u64 (total promised c.cpus c.cpu))
          × (held out.1 + change s ≡ held res))
      × (slt 0 (change s) ≡ false
          → (u64 (total promised out.0.cpus out.0.cpu)
              ≡ u64 (total promised c.cpus c.cpu + change s))
            × (out.1 ≡ res))
unfolding stats_apply
stats_apply-conserves i s res c out lt small e = elim (Bool-cases (slt (held res) (change s))) [
  | inl bug ↦ absurd_none (rw bug at e)
  | inr okay ↦ (
    λ up.
        let q : some (
          set_cpu c i (applied false s (sub64 s.online_reserved (change s)) (c.cpu i)),
          pay (change s) res,
        )
            ≡ some out =
          rw (okay, up) at e in
        subst
          (λ (z : Fs × Option Reservation).
            (u64 (total promised z.0.cpus z.0.cpu) ≡ u64 (total promised c.cpus c.cpu))
            × (held z.1 + change s ≡ held res))
          (some-injective _ _ q)
          (
            promised-set_cpu_same c i _ lt (
                promised-applied s (c.cpu i) (sub64 s.online_reserved (change s)) 0 (omega arith)
                ∙ ap u64 (add-zero (promised (c.cpu i)))),
            held-pay (change s) res small (omega arith) up okay,
          ),
    λ down.
        let q : some (set_cpu c i (applied false s s.online_reserved (c.cpu i)), res) ≡ some out =
          rw (okay, down) at e in
        subst
          (λ (z : Fs × Option Reservation).
            (u64 (total promised z.0.cpus z.0.cpu) ≡ u64 (total promised c.cpus c.cpu + change s))
            × (z.1 ≡ res))
          (some-injective _ _ q)
          (
            promised-set_cpu c i (change s) _ lt
                (promised-applied s (c.cpu i) s.online_reserved (change s) (omega arith)),
            refl,
          ),
  )
]
  where
    absurd_none : {A : Type 0} → none ≡ some out → A
    absurd_none p = cc
