-- ===== src/Clock/Tests.antt =====
-- Runs of libbcache/clock.c, and the theorems at these.
use bcache_tools.Base.{List, Option, arith, if◌then◌else◌, none, refl, some, ℕ, ◌<◌, ◌==◌, ◌^◌, ◌≡◌}
use bcache_tools.Heap.{first_child, heap_del, resift, sift, sift_down, swap}
use bcache_tools.Heap.Sift.{IsHeapFrom}
use bcache_tools.Heap.Ordered.{IsHeap}
use bcache_tools.Clock.{IoClock, IoTimer, find_timer, increment_clock, io_timer_cmp, io_timer_del}
use bcache_tools.Clock.Fired.{Fires, increment_clock-Fires, io_timer_order}

abbrev timer : (address expire : ℕ) → expire < 2 ^ 63 → IoTimer
timer address expire near = record { address = address; expire = expire; near = near }

abbrev early : IoTimer
early = timer 1 150 (omega arith)

abbrev late : IoTimer
late = timer 2 900 (omega arith)

-- A clock at 100 with two timers and room for eight.
two_timers : ℕ → IoTimer
two_timers k = if k == 0 then early else late

abbrev clock : IoClock
clock = record {
  now = 100;
  pcpu_buf = 30;
  timers = record { size = 8; used = 2; items = two_timers };
}

clock-IsHeap : IsHeap io_timer_cmp io_timer_order clock.timers
unfolding IsHeap IsHeapFrom two_timers io_timer_cmp
clock-IsHeap j c z lo hi h =
    let ej : j ≡ 0 = omega arith in let ec : c ≡ 1 = omega arith in rw (ej, ec) refl

increment_clock-Fires_example :
    (ts : List IoTimer) × (c' : IoClock) × (increment_clock 100 clock ≡ some (ts, c'))
    × (c'.now ≡ 230)
    × (c'.pcpu_buf ≡ 0)
    × Fires IoTimer.address c'.now clock.timers ts c'.timers
increment_clock-Fires_example =
    increment_clock-Fires IoTimer.address 100 clock clock-IsHeap (omega arith) (omega arith)
      (omega arith)

-- The address of the first timer that is left.
first_address : Option IoClock → ℕ
first_address none = 0
first_address (some c) = IoTimer.address (c.timers.items 0)

-- The first is taken out, and the other comes first.
io_timer_del-first : first_address (io_timer_del early clock) ≡ 2
unfolding first_address io_timer_del find_timer heap_del resift sift_down sift first_child swap
    two_timers io_timer_cmp
io_timer_del-first = refl
