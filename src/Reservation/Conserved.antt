-- ===== src/Reservation/Conserved.antt =====
-- No sectors appear or vanish between a reservation, the per-cpu counters and the data that it pays
-- for. All sums are u64 sums over the cpus.
use bcache_tools.Base.{
  Bool, Bool-cases, ap, arith, if◌then◌else◌, inl, inr, leb, ltb, not, refl, u32, u64, ℕ, ◌&&◌, ◌*◌,
  ◌+◌, ◌-◌, ◌<◌, ◌==◌, ◌^◌, ◌||◌, ◌≡◌, ◌≢◌,
}
use bcache_tools.Base.Family.{total-assign}
use bcache_tools.Reservation.{
  Flags, Fs, Reservation, Ret, Usage, eintr, enospc, grant, read_raw, recalc_sectors_available,
  recalculate, reservation_add, reservation_get, reservation_put, sectors_cache, set_cpu, slt,
  smax_zero, sub64, success, take_from_cache,
}

abbrev pub online : Fs → ℕ
online = read_raw (λ u. u.online_reserved)

-- A change of one cpu's counter changes the sum by as much.
pub read_raw-set_cpu :
    (w : Usage → ℕ) (c : Fs) (i k : ℕ) (u : Usage)
    → i < c.cpus
    → w u ≡ u64 (w (c.cpu i) + k)
    → read_raw w (set_cpu c i u) ≡ u64 (read_raw w c + k)
read_raw-set_cpu w c i k u lt e = omega (arith, total-assign w c.cpu u lt)

-- What an operation on cpu `i` that may grant sectors to a reservation does, on success or not.
pub record Granted (i : ℕ) (c : Fs) (res : Reservation) (out : Ret × Fs × Reservation)
    : Type 0 where
  pub sectors : ℕ
  pub reserved : out.2.sectors ≡ u64 (res.sectors + sectors)
  pub counted : online out.1 ≡ u64 (online c + sectors)
  pub refused : out.0 ≢ success → sectors ≡ 0

pub grant-online :
    (i s : ℕ) (u : Usage) (c : Fs) (res : Reservation)
    → i < c.cpus
    → u.online_reserved ≡ (c.cpu i).online_reserved
    → online (grant i s u c res).0 ≡ u64 (online c + s)
grant-online i s u c res lt e =
    read_raw-set_cpu (λ v. v.online_reserved) c i s
      (record u { online_reserved = u64 (u.online_reserved + s) }) lt (ap (λ t. u64 (t + s)) e)

take_from_cache-Granted :
    (i s cache : ℕ) (c : Fs) (res : Reservation)
    → i < c.cpus
    → Granted i c res (take_from_cache i s cache c res)
unfolding take_from_cache
take_from_cache-Granted i s cache c res lt = record {
  sectors = s;
  reserved = refl;
  counted = grant-online i s (record (c.cpu i) { available_cache = sub64 cache s }) c res lt refl;
  refused = λ ne. absurd (ne refl);
}

-- `sectors_available` takes no part in the sums.
available-Granted :
    (i : ℕ) (c : Fs) (a : ℕ) (res : Reservation) (out : Ret × Fs × Reservation)
    → Granted i (record c { sectors_available = a }) res out
    → Granted i c res out
available-Granted i c a res out g = record {
  sectors = g.sectors;
  reserved = g.reserved;
  counted = g.counted;
  refused = g.refused;
}

nothing-Granted :
    (i : ℕ) (r : Ret) (c c' : Fs) (res : Reservation)
    → res.sectors < 2 ^ 64
    → online c' ≡ online c
    → Granted i c res (r, c', res)
nothing-Granted i r c c' res small same = record {
  sectors = 0;
  reserved = omega arith;
  counted = omega arith;
  refused = λ ne. refl;
}

recalculate-Granted :
    (i s : ℕ) (nofail : Bool) (c : Fs) (res : Reservation)
    → i < c.cpus
    → res.sectors < 2 ^ 64
    → Granted i c res (recalculate i s nofail c res)
unfolding recalculate
recalculate-Granted i s nofail c res lt small =
    elim (Bool-cases (not (slt (recalc_sectors_available c) s) || nofail)) [
      | inl e ↦ rw e (record {
        sectors = s;
        reserved = refl;
        counted = grant-online i s (c.cpu i) c res lt refl;
        refused = λ ne. absurd (ne refl);
      })
      | inr e ↦ rw e (
          nothing-Granted i enospc c (record c { sectors_available = recalc_sectors_available c })
            res small refl)
    ]

-- On every branch, a call of `bch_disk_reservation_add` adds to the reservation what it adds to the
-- online reservations of the file system, and nothing where it returns an error.
pub reservation_add-Granted :
    (i : ℕ) (trylock : Bool) (requested : ℕ) (flags : Flags) (c : Fs) (res : Reservation)
    → i < c.cpus
    → res.sectors < 2 ^ 64
    → Granted i c res (reservation_add i trylock requested flags c res)
unfolding reservation_add
reservation_add-Granted i trylock requested flags c res lt small =
    elim (Bool-cases (leb (c.cpu i).available_cache sectors)) [
      | inl e ↦ rw e (take_from_cache-Granted i sectors (c.cpu i).available_cache c res lt)
      | inr e ↦ elim (Bool-cases (ltb c.sectors_available sectors)) [
        | inl f ↦
            elim (Bool-cases (not flags.gc_lock_held && flags.btree_locks_held && not trylock)) [
              | inl g ↦ rw (e, f, g) (nothing-Granted i eintr c c res small refl)
              | inr g ↦ rw (e, f, g) (recalculate-Granted i sectors flags.nofail c res lt small)
            ]
        | inr f ↦
            rw (e, f)
              (available-Granted i c new res _ (
                take_from_cache-Granted i sectors
                  (u64 ((c.cpu i).available_cache + sub64 c.sectors_available new))
                  (record c { sectors_available = new }) res lt))
      ]
    ]
  where
    sectors : ℕ
    sectors = u32 (requested * res.nr_replicas)

    new : ℕ
    new = smax_zero (sub64 (sub64 c.sectors_available sectors) sectors_cache)

put-online :
    (i : ℕ) (c : Fs) (res : Reservation)
    → i < c.cpus
    → res.sectors < 2 ^ 64
    → (online (reservation_put i c res).0 ≡ u64 (online c + (2 ^ 64 - res.sectors)))
      × ((reservation_put i c res).1.sectors ≡ 0)
unfolding reservation_put
put-online i c res lt small = elim (Bool-cases (res.sectors == 0)) [
  | inl e ↦ rw e (ground arith, ground arith)
  | inr e ↦ rw e (
    read_raw-set_cpu (λ v. v.online_reserved) c i (2 ^ 64 - res.sectors)
        (record (c.cpu i) { online_reserved = sub64 (c.cpu i).online_reserved res.sectors }) lt
        (omega arith),
    refl,
  )
]

-- The file system is what it was but for counters on cpus.
cpus-add :
    (i : ℕ) (trylock : Bool) (requested : ℕ) (flags : Flags) (c : Fs) (res : Reservation)
    → (reservation_add i trylock requested flags c res).1.cpus ≡ c.cpus
unfolding reservation_add take_from_cache recalculate
cpus-add i trylock requested flags c res = ground arith

-- A reservation that is made by `bch_disk_reservation_get` on one cpu and given back by
-- `bch_disk_reservation_put` on any leaves the online reservations of the file system as they were,
-- and the reservation empty, whether or not the first call succeeded.
get-put :
    (i j : ℕ) (trylock : Bool) (requested : ℕ) (flags : Flags) (c : Fs)
    → i < c.cpus
    → j < c.cpus
    → let (ret, c', res) = reservation_get i trylock requested flags c in
      let (c'', res') = reservation_put j c' res in (online c'' ≡ online c) × (res'.sectors ≡ 0)
unfolding reservation_get
get-put i j trylock requested flags c hi hj =
    let start : Reservation = record {
      sectors = 0;
      gen = c.capacity_gen;
      nr_replicas = if flags.metadata then c.metadata_replicas else c.data_replicas;
    } in
    let g = reservation_add-Granted i trylock requested flags c start hi (omega arith) in
    let out = reservation_add i trylock requested flags c start in
    let p =
      put-online j out.1 out.2 (rw (cpus-add i trylock requested flags c start) hj)
        (omega (arith, g.reserved)) in
    (omega (arith, p.0, g.reserved, g.counted), p.1)
