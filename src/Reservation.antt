-- ===== src/Reservation.antt =====
-- libbcache/buckets.c, from `bch_fs_stats_apply` on the reservations of disk space: the per-cpu
-- counters, `bch_disk_reservation_add`, `_get`, `_put`, and the use of a reservation.
pub mod Conserved
pub mod Used
pub mod Balance
mod Tests
use bcache_tools.Base.{
  ℕ, zero, suc, ◌+◌, ◌-◌, ◌*◌, ◌/◌, ◌%◌, ◌^◌, Bool, true, false, not, ◌&&◌, ◌||◌, Option, none,
  some, if◌then◌else◌, ◌==◌, ltb, leb, u32, u64, min,
}
use bcache_tools.Base.Family.{assign, total}

-- `struct bch_fs_usage` of one cpu, or a change of it: the compressed sectors of metadata and of
-- dirty data, and the reservations. Each is a u64.
pub record Usage : Type 0 where
  pub meta : ℕ
  pub dirty : ℕ
  pub persistent_reserved : ℕ
  pub online_reserved : ℕ
  pub available_cache : ℕ

-- `struct disk_reservation`
pub record Reservation : Type 0 where
  pub sectors : ℕ  -- u64
  pub gen : ℕ
  pub nr_replicas : ℕ

-- The fields of `struct cache_set` that the functions use; `cpu` holds `bucket_stats_percpu`.
pub record Fs : Type 0 where
  pub capacity : ℕ
  pub capacity_gen : ℕ
  pub metadata_replicas : ℕ
  pub data_replicas : ℕ
  pub sectors_available : ℕ  -- atomic64_t
  pub cpus : ℕ
  pub cpu : ℕ → Usage

-- `a < b` on s64, for the bit patterns
abbrev pub slt : ℕ → ℕ → Bool
slt a b = ltb (u64 (a + 2 ^ 63)) (u64 (b + 2 ^ 63))

-- `max_t(s64, 0, a)`
abbrev pub smax_zero : ℕ → ℕ
smax_zero a = if slt a 0 then 0 else a

abbrev pub sub64 : ℕ → ℕ → ℕ
sub64 a b = u64 (a + 2 ^ 64 - b)

-- `bucket_stats_read_raw`, one field.
abbrev pub read_raw : (Usage → ℕ) → Fs → ℕ
read_raw w c = u64 (total w c.cpus c.cpu)

-- `__bch_fs_sectors_used` and `bch_fs_sectors_used`
pub sectors_used_raw : Fs → ℕ
sectors_used_raw c =
    let reserved =
      u64 (read_raw (λ u. u.persistent_reserved) c + read_raw (λ u. u.online_reserved) c) in
    u64 (read_raw (λ u. u.meta) c + read_raw (λ u. u.dirty) c + reserved + reserved / 2 ^ 7)

pub sectors_used : Fs → ℕ
sectors_used c = min c.capacity (sectors_used_raw c)

-- `__recalc_sectors_available`
pub recalc_sectors_available : Fs → ℕ
recalc_sectors_available c = c.capacity - sectors_used c

abbrev pub set_cpu : Fs → ℕ → Usage → Fs
set_cpu c i u = record c { cpu = assign c.cpu i u }

-- `bch_recalc_sectors_available`
pub recalc : Fs → Fs
recalc c = record c {
  cpu = λ i. record (c.cpu i) { available_cache = 0 };
  sectors_available = recalc_sectors_available c;
}

-- `bch_disk_reservation_put` on cpu `i`
pub reservation_put : ℕ → Fs → Reservation → Fs × Reservation
reservation_put i c res = if res.sectors == 0 then (c, res) else (
  set_cpu c i (record (c.cpu i) { online_reserved = sub64 (c.cpu i).online_reserved res.sectors }),
  record res { sectors = 0 },
)

pub record Flags : Type 0 where
  pub nofail : Bool
  pub metadata : Bool
  pub gc_lock_held : Bool
  pub btree_locks_held : Bool

-- What the functions return: 0, -EINTR or -ENOSPC.
pub data Ret : Type 0 where
  success eintr enospc : Ret

abbrev pub sectors_cache : ℕ
sectors_cache = 1024

-- `online_reserved += sectors; res->sectors += sectors`
abbrev pub grant : ℕ → ℕ → Usage → Fs → Reservation → Fs × Reservation
grant i sectors u c res = (
  set_cpu c i (record u { online_reserved = u64 (u.online_reserved + sectors) }),
  record res { sectors = u64 (res.sectors + sectors) },
)

-- The statements under `recalculate:`, once the locks are held.
pub recalculate : ℕ → ℕ → Bool → Fs → Reservation → Ret × Fs × Reservation
recalculate i sectors nofail c res =
    let available = recalc_sectors_available c in
    if not (slt available sectors) || nofail
    then (let (c', res') =
          grant i sectors (c.cpu i)
            (record c { sectors_available = smax_zero (sub64 available sectors) }) res in
        (success, c', res'))
    else (enospc, record c { sectors_available = available }, res)

-- The statements under `out:`, with `available_cache` as `cache`.
pub take_from_cache : ℕ → ℕ → ℕ → Fs → Reservation → Ret × Fs × Reservation
take_from_cache i sectors cache c res =
    let (c', res') =
      grant i sectors (record (c.cpu i) { available_cache = sub64 cache sectors }) c res in
    (success, c', res')

-- `bch_disk_reservation_add` on cpu `i`. `unsigned sectors *= nr_replicas` wraps; `trylock` is what
-- `down_read_trylock` answers.
pub reservation_add : ℕ → Bool → ℕ → Flags → Fs → Reservation → Ret × Fs × Reservation
reservation_add i trylock requested flags c res =
    let sectors = u32 (requested * res.nr_replicas) in
    let cache = (c.cpu i).available_cache in
    if leb cache sectors
    then take_from_cache i sectors cache c res
    else if ltb c.sectors_available sectors
    then (if not flags.gc_lock_held && flags.btree_locks_held && not trylock
        then (eintr, c, res)
        else recalculate i sectors flags.nofail c res)
    else (let new = smax_zero (sub64 (sub64 c.sectors_available sectors) sectors_cache) in
        take_from_cache i sectors (u64 (cache + sub64 c.sectors_available new))
          (record c { sectors_available = new }) res)

-- `bch_disk_reservation_get`; the old contents of `*res` are overwritten.
pub reservation_get : ℕ → Bool → ℕ → Flags → Fs → Ret × Fs × Reservation
reservation_get i trylock requested flags c = reservation_add i trylock requested flags c (record {
  sectors = 0;
  gen = c.capacity_gen;
  nr_replicas = if flags.metadata then c.metadata_replicas else c.data_replicas;
})

-- `disk_res ? disk_res->sectors : 0`, and `disk_res->sectors -= added`
abbrev pub held : Option Reservation → ℕ
held none = 0
held (some r) = r.sectors

abbrev pub pay : ℕ → Option Reservation → Option Reservation
pay n none = none
pay n (some r) = some (record r { sectors = sub64 r.sectors n })

-- The counters of the cpu after `online_reserved += …` and, unless gc will count the change,
-- `bucket_stats_add`, to which `online_reserved` comes as 0.
pub applied : Bool → Usage → ℕ → Usage → Usage
applied gc_will_visit s online u =
    let u' = record u { online_reserved = u64 (u.online_reserved + online) } in
    if gc_will_visit then u' else record u' {
      meta = u64 (u'.meta + s.meta);
      dirty = u64 (u'.dirty + s.dirty);
      persistent_reserved = u64 (u'.persistent_reserved + s.persistent_reserved);
      available_cache = u64 (u'.available_cache + s.available_cache);
    }

-- `bch_fs_stats_apply` on cpu `i`: the change, and the reservation that pays for it, if one is given.
-- `none` is the BUG. The stores into `*stats` are dead: it is zeroed at the end.
pub stats_apply : ℕ → Bool → Usage → Option Reservation → Fs → Option (Fs × Option Reservation)
stats_apply i gc_will_visit s res c =
    let added = u64 (s.meta + s.dirty + s.persistent_reserved + s.online_reserved) in
    let paid = slt 0 added in
    let online = if paid then sub64 s.online_reserved added else s.online_reserved in
    if slt (held res) added
    then none
    else some (
      set_cpu c i (applied gc_will_visit s online (c.cpu i)),
      if paid then pay added res else res,
    )
