-- ===== src/Reservation/Balance.antt =====
-- The sectors available, those in the caches of the cpus and the online reservations are one budget,
-- which `bch_disk_reservation_add` of libbcache/buckets.c moves sectors within.
use bcache_tools.Base.{
  Bool, Bool-cases, arith, if◌then◌else◌, inl, inr, leb, ltb, not, refl, u32, u64, ℕ, ◌&&◌, ◌*◌,
  ◌+◌, ◌-◌, ◌<◌, ◌^◌, ◌||◌, ◌≡◌, ◌≢◌, ◌≤◌, ◌⊎◌,
}
use bcache_tools.Reservation.{
  Flags, Fs, Reservation, Usage, eintr, grant, read_raw, recalc_sectors_available, recalculate,
  reservation_add, sectors_cache, slt, smax_zero, sub64, take_from_cache,
}
use bcache_tools.Reservation.Conserved.{grant-online, online, read_raw-set_cpu}

-- The budget, a u64.
abbrev pub budget : Fs → ℕ
budget c = u64 (c.sectors_available + read_raw (λ u. u.available_cache) c + online c)

-- The budget once `sectors_available` is counted anew.
abbrev pub recounted : Fs → ℕ
recounted c = budget (record c { sectors_available = recalc_sectors_available c })

-- A grant adds the sectors, and what the cpu's cache gains.
grant-budget :
    (i s k : ℕ) (u : Usage) (c : Fs) (res : Reservation)
    → i < c.cpus
    → u.online_reserved ≡ (c.cpu i).online_reserved
    → u.available_cache ≡ u64 ((c.cpu i).available_cache + k)
    → budget (grant i s u c res).0 ≡ u64 (budget c + k + s)
grant-budget i s k u c res lt same e =
    let cached =
      read_raw-set_cpu (λ v. v.available_cache) c i k
        (record u { online_reserved = u64 (u.online_reserved + s) }) lt e in
    omega (arith, cached, grant-online i s u c res lt same)

-- Sectors taken from the cache, after `d` were put into it.
take_from_cache-budget :
    (i s d : ℕ) (c : Fs) (res : Reservation)
    → i < c.cpus
    → s < 2 ^ 32
    → budget (take_from_cache i s (u64 ((c.cpu i).available_cache + d)) c res).1
      ≡ u64 (budget c + d)
unfolding take_from_cache
take_from_cache-budget i s d c res lt small =
    let cache = u64 ((c.cpu i).available_cache + d) in
    let moved =
      grant-budget i s (d + (2 ^ 64 - s)) (record (c.cpu i) { available_cache = sub64 cache s }) c
        res lt refl (omega arith) in
    omega (arith, moved)

-- The sectors promised beyond those that are left.
abbrev pub excess : ℕ → Bool → Fs → ℕ
excess s nofail c = if nofail then s - recalc_sectors_available c else 0

recalc_sectors_available-le : (c : Fs) → recalc_sectors_available c ≤ c.capacity
unfolding recalc_sectors_available
recalc_sectors_available-le c = omega arith

-- What `recalculate` leaves in `sectors_available` where it grants, with the grant.
left-budget :
    (i s left : ℕ) (c : Fs) (res : Reservation)
    → i < c.cpus
    → (c.cpu i).available_cache < 2 ^ 64
    → budget (grant i s (c.cpu i) (record c { sectors_available = left }) res).0
      ≡ u64 (left + s + read_raw (λ u. u.available_cache) c + online c)
left-budget i s left c res lt cached =
    let granted =
      grant-budget i s 0 (c.cpu i) (record c { sectors_available = left }) res lt refl
        (omega arith) in
    omega (arith, granted)

recalculate-budget :
    (i s : ℕ) (nofail : Bool) (c : Fs) (res : Reservation)
    → i < c.cpus
    → (c.cpu i).available_cache < 2 ^ 64
    → s < 2 ^ 32
    → c.capacity < 2 ^ 63
    → budget (recalculate i s nofail c res).1 ≡ u64 (recounted c + excess s nofail c)
unfolding recalculate
recalculate-budget i s nofail c res lt cached small cap = elim (Bool-cases (slt a s)) [
  | inl short ↦ elim (Bool-cases nofail) [
    | inl force ↦
        let less : a < s = ground (arith, a_small, short) in
        let left : smax_zero (sub64 a s) ≡ 0 = ground (arith, a_small, short) in
        rw (short, force, left) (omega (arith, left-budget i s 0 c res lt cached, less))
    | inr no_force ↦ rw (short, no_force) (omega arith)
  ]
  | inr fits ↦
      let enough : s ≤ a = ground (arith, a_small, fits) in
      let left : smax_zero (sub64 a s) ≡ a - s = ground (arith, a_small, fits) in
      let none_over : excess s nofail c ≡ 0 = ground (arith, enough) in
      rw (fits, left, none_over) (omega (arith, left-budget i s (a - s) c res lt cached, enough))
]
  where
    a : ℕ
    a = recalc_sectors_available c

    a_small : a < 2 ^ 63
    a_small = omega (arith, recalc_sectors_available-le c)

recalculate-ret :
    (i s : ℕ) (nofail : Bool) (c : Fs) (res : Reservation)
    → (recalculate i s nofail c res).0 ≢ eintr
unfolding recalculate
recalculate-ret i s nofail c res =
    elim (Bool-cases (not (slt (recalc_sectors_available c) s) || nofail)) [
      | inl e ↦ rw e (λ q. ground (arith, q))
      | inr e ↦ rw e (λ q. ground (arith, q))
    ]

-- A call of `bch_disk_reservation_add`, with any flags and whatever the lock answers, on a cpu whose
-- cached sectors are a u64 and with a capacity below 2^63. Either the request is not below the cpu's
-- cache, or the sectors available cover it, or -EINTR is returned, and the budget stays: what the
-- reservation gets is taken from the sectors available or from the cache. Or none of these; then the
-- sectors available are counted anew, and the budget is what it is with that count, on success or
-- not, but that with NOFAIL it exceeds this by the part of the request that the count does not cover.
pub reservation_add-budget :
    (i : ℕ) (trylock : Bool) (requested : ℕ) (flags : Flags) (c : Fs) (res : Reservation)
    → i < c.cpus
    → (c.cpu i).available_cache < 2 ^ 64
    → c.capacity < 2 ^ 63
    → let sectors = u32 (requested * res.nr_replicas) in
      let out = reservation_add i trylock requested flags c res in
      ((((c.cpu i).available_cache ≤ sectors) ⊎ (sectors ≤ c.sectors_available) ⊎ (out.0 ≡ eintr))
        × (budget out.1 ≡ budget c))
      ⊎ ((sectors < (c.cpu i).available_cache)
          × (c.sectors_available < sectors)
          × (out.0 ≢ eintr)
          × (budget out.1 ≡ u64 (recounted c + excess sectors flags.nofail c)))
unfolding reservation_add take_from_cache
reservation_add-budget i trylock requested flags c res lt cached cap =
    elim (Bool-cases (leb (c.cpu i).available_cache sectors)) [
      | inl e ↦ inl (inl (ground arith), rw e (omega (arith, fast)))
      | inr e ↦ elim (Bool-cases (ltb c.sectors_available sectors)) [
        | inl f ↦
            elim (Bool-cases (not flags.gc_lock_held && flags.btree_locks_held && not trylock)) [
              | inl g ↦ inl (rw (e, f, g) (inr (inr refl), refl))
              | inr g ↦ inr (
                ground arith,
                ground arith,
                rw (e, f, g) (recalculate-ret i sectors flags.nofail c res),
                rw (e, f, g)
                    (recalculate-budget i sectors flags.nofail c res lt cached (omega arith) cap),
              )
            ]
        | inr f ↦ inl (inr (inl (ground arith)), rw (e, f) (omega (arith, refilled, new_small)))
      ]
    ]
  where
    sectors : ℕ
    sectors = u32 (requested * res.nr_replicas)

    new : ℕ
    new = smax_zero (sub64 (sub64 c.sectors_available sectors) sectors_cache)

    new_small : new < 2 ^ 64
    new_small = ground arith

    fast :
        budget
          (grant i sectors
            (record (c.cpu i) { available_cache = sub64 (c.cpu i).available_cache sectors })
            c
            res).0
        ≡ u64 (budget c + (2 ^ 64 - sectors) + sectors)
    fast = grant-budget i sectors (2 ^ 64 - sectors) _ c res lt refl (omega arith)

    refilled :
        budget
          (take_from_cache i sectors
            (u64 ((c.cpu i).available_cache + sub64 c.sectors_available new))
            (record c { sectors_available = new })
            res).1
        ≡ u64 (budget (record c { sectors_available = new }) + sub64 c.sectors_available new)
    refilled =
        take_from_cache-budget i sectors (sub64 c.sectors_available new)
          (record c { sectors_available = new }) res lt (omega arith)
