-- ===== src/Reservation/Tests.antt =====
-- The theorems on reservations at a concrete file system, with tests.
use bcache_tools.Base.{
  Option, arith, false, if◌then◌else◌, refl, some, true, u64, ◌+◌, ◌-◌, ◌<◌, ◌==◌, ◌^◌, ◌≡◌, ◌≢◌,
  ◌≤◌, ◌⊎◌,
}
use bcache_tools.Base.Family.{total}
use bcache_tools.Reservation.{
  Flags, Fs, Reservation, Usage, applied, eintr, held, reservation_add, reservation_get, slt,
  stats_apply, success, take_from_cache,
}
use bcache_tools.Reservation.Conserved.{Granted, reservation_add-Granted}
use bcache_tools.Reservation.Balance.{budget, excess, recounted, reservation_add-budget}
use bcache_tools.Reservation.Used.{change, promised, stats_apply-conserves}

abbrev idle : Usage
idle = record {
  meta = 0;
  dirty = 0;
  persistent_reserved = 0;
  online_reserved = 0;
  available_cache = 0;
}

-- 1000 sectors, all of them dirty on cpu 0, and none available.
abbrev full : Fs
full = record {
  capacity = 1000;
  capacity_gen = 1;
  metadata_replicas = 1;
  data_replicas = 2;
  sectors_available = 0;
  cpus = 1;
  cpu = λ _. record idle { dirty = 1000 };
}

abbrev plain : Flags
plain = record { nofail = false; metadata = false; gc_lock_held = true; btree_locks_held = false }

abbrev no_sectors : Reservation
no_sectors = record { sectors = 0; gen = 1; nr_replicas = 2 }

-- A full file system grants 8 sectors, twice replicated; the cpu's cache wraps.
full_grants :
    ((reservation_get 0 true 8 plain full).0 ≡ success)
    × ((reservation_get 0 true 8 plain full).2.sectors ≡ 16)
    × (((reservation_get 0 true 8 plain full).1.cpu 0).available_cache ≡ 2 ^ 64 - 16)
unfolding reservation_get reservation_add take_from_cache
full_grants = (refl, refl, refl)

reservation_add-Granted_example :
    Granted 0 full no_sectors (reservation_add 0 true 8 plain full no_sectors)
reservation_add-Granted_example =
    reservation_add-Granted 0 true 8 plain full no_sectors (omega arith) (omega arith)

-- The cache of cpu 0 exceeds the request, and no sectors are available: they are counted anew.
abbrev cached : Fs
cached = record full { cpu = λ _. record idle { dirty = 1000; available_cache = 20 } }

abbrev forced : Flags
forced = record plain { nofail = true }

reservation_add-budget_example :
    let out = reservation_add 0 true 8 forced cached no_sectors in
    (((20 ≤ 16) ⊎ (16 ≤ 0) ⊎ (out.0 ≡ eintr)) × (budget out.1 ≡ budget cached))
    ⊎ ((16 < 20)
        × (0 < 16)
        × (out.0 ≢ eintr)
        × (budget out.1 ≡ u64 (recounted cached + excess 16 true cached)))
reservation_add-budget_example =
    reservation_add-budget 0 true 8 forced cached no_sectors (omega arith) (omega arith)
      (omega arith)

-- 16 sectors of data, paid for by a reservation of 20.
abbrev written : Usage
written = record idle { dirty = 16 }

abbrev twenty : Option Reservation
twenty = some (record no_sectors { sectors = 20 })

abbrev after : Fs × Option Reservation
after = (
  record full {
    cpu = λ j.
        if j == 0 then record idle { dirty = 1016; online_reserved = 2 ^ 64 - 16 } else full.cpu j;
  },
  some (record no_sectors { sectors = 4 }),
)

stats_apply-conserves_example :
    (slt 0 (change written) ≡ true
      → (u64 (total promised after.0.cpus after.0.cpu) ≡ u64 (total promised full.cpus full.cpu))
        × (held after.1 + change written ≡ held twenty))
    × (slt 0 (change written) ≡ false
        → (u64 (total promised after.0.cpus after.0.cpu)
            ≡ u64 (total promised full.cpus full.cpu + change written))
          × (after.1 ≡ twenty))
unfolding stats_apply applied
stats_apply-conserves_example =
    stats_apply-conserves 0 written twenty full after (omega arith) (omega arith) refl
