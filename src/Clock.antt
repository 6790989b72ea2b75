-- ===== src/Clock.antt =====
-- The clocks that count sectors of IO, and their timers: libbcache/clock.c and clock_types.h.
mod Fired
mod Tests
use bcache_tools.Base.{
  Bool, List, Option, [], if◌then◌else◌, leb, ltb, none, not, some, suc, u16, u64, zero, ℕ, ◌&&◌,
  ◌+◌, ◌-◌, ◌<◌, ◌==◌, ◌^◌, ◌∷◌,
}
use bcache_tools.Heap.{Heap, heap_add, heap_del, heap_pop}

-- `struct io_timer`, with a number for its address. A clock counts sectors of IO, of which there are
-- fewer than 2 ^ 63.
pub record IoTimer : Type 0 where
  pub address : ℕ
  pub expire : ℕ
  pub near : expire < 2 ^ 63

-- `time_after`
abbrev pub time_after : ℕ → ℕ → Bool
time_after a b = leb (2 ^ 63) (u64 (b + 2 ^ 64 - a))

-- `time_after_eq`
abbrev pub time_after_eq : ℕ → ℕ → Bool
time_after_eq a b = ltb (u64 (a + 2 ^ 64 - b)) (2 ^ 63)

-- `io_timer_cmp`
unfoldable pub io_timer_cmp : IoTimer → IoTimer → Bool
io_timer_cmp l r = time_after l.expire r.expire

-- `struct io_clock`; `pcpu_buf` is that of the cpu at hand.
pub record IoClock : Type 0 where
  pub now : ℕ
  pub pcpu_buf : ℕ
  pub timers : Heap IoTimer

-- `IO_CLOCK_PCPU_SECTORS`
abbrev pub io_clock_pcpu_sectors : ℕ
io_clock_pcpu_sectors = 128

abbrev pub with_timers : IoClock → Heap IoTimer → IoClock
with_timers c h = record { now = c.now; pcpu_buf = c.pcpu_buf; timers = h }

-- The loops that look for a timer, with `n` slots left: where it is.
unfoldable pub find_timer : ℕ → ℕ → Heap IoTimer → Option ℕ
find_timer zero address h = none
find_timer (suc n) address h =
    let i = h.used - suc n in
    let rest = find_timer n address h in
    if IoTimer.address (h.items i) == address then some i else rest

-- `bch_io_timer_add`. A heap with no room is a BUG, `none`.
unfoldable pub io_timer_add : IoTimer → IoClock → Option IoClock
io_timer_add t c = elim (find_timer c.timers.used t.address c.timers) [
  | some i ↦ some c
  | none ↦
      let (added, h) = heap_add io_timer_cmp t c.timers in
      if added then some (with_timers c h) else none
]

-- `bch_io_timer_del`
unfoldable pub io_timer_del : IoTimer → IoClock → Option IoClock
io_timer_del t c = elim (find_timer c.timers.used t.address c.timers) [
  | none ↦ some c
  | some i ↦ elim (heap_del io_timer_cmp i c.timers) [
    | none ↦ none
    | some h ↦ some (with_timers c h)
  ]
]

-- `get_expired_timer`: the timer, if there is one, and the heap.
unfoldable pub get_expired_timer : ℕ → Heap IoTimer → Option (Option IoTimer × Heap IoTimer)
get_expired_timer now h =
    if not (h.used == 0) && time_after_eq now (IoTimer.expire (h.items 0))
    then heap_pop io_timer_cmp h
    else some (none, h)

-- The loop of `bch_increment_clock`, on fuel: the timers whose functions are called, in turn.
unfoldable pub fire : ℕ → ℕ → Heap IoTimer → Option (List IoTimer × Heap IoTimer)
fire zero now h = some ([], h)
fire (suc fuel) now h = elim (get_expired_timer now h) [
  | none ↦ none
  | some (none, h') ↦ some ([], h')
  | some (some t, h') ↦ elim (fire fuel now h') [
    | none ↦ none
    | some (ts, h'') ↦ some (t ∷ ts, h'')
  ]
]

-- `bch_increment_clock`: the timers that fire, and the clock. No timer is set while it runs, so as many
-- rounds as there are timers are enough.
unfoldable pub increment_clock : ℕ → IoClock → Option (List IoTimer × IoClock)
increment_clock sectors c =
    let buf = u16 (c.pcpu_buf + sectors) in
    let now = u64 (c.now + buf) in
    if ltb buf io_clock_pcpu_sectors
    then some ([], record { now = c.now; pcpu_buf = buf; timers = c.timers })
    else (elim (fire c.timers.used now c.timers) [
      | none ↦ none
      | some (ts, h) ↦ some (ts, record { now = now; pcpu_buf = 0; timers = h })
    ])
