-- ===== src/Clock/Fired.antt =====
-- When an IO clock moves on, the timers that expire fire, and no others: libbcache/clock.c.
use bcache_tools.Base.{
  Bool-cases, List, [], ap, arith, false, inl, inr, ltb, not, refl, some, suc, sym, true, u16, u64,
  zero, ℕ, ◌&&◌, ◌+◌, ◌<◌, ◌==◌, ◌^◌, ◌∙◌, ◌∷◌, ◌≡◌, ◌≤◌,
}
use bcache_tools.Heap.{Heap}
use bcache_tools.Heap.Sift.{IsOrder}
use bcache_tools.Heap.Weight.{weight}
use bcache_tools.Heap.Ordered.{IsHeap, IsHeap-first}
use bcache_tools.Heap.Removed.{heap_pop-first}
use bcache_tools.Clock.{
  IoClock, IoTimer, fire, get_expired_timer, increment_clock, io_clock_pcpu_sectors, io_timer_cmp,
  time_after_eq,
}

io_timer_cmp-ltb : (l r : IoTimer) → io_timer_cmp l r ≡ ltb r.expire l.expire
unfolding io_timer_cmp
io_timer_cmp-ltb l r = ground (arith, l.near, r.near)

-- The timers of a clock that has not wrapped are in order.
pub io_timer_order : IsOrder io_timer_cmp
io_timer_order = record {
  asym = λ a b h.
      let h' : ltb b.expire a.expire ≡ true = sym (io_timer_cmp-ltb a b) ∙ h in
      io_timer_cmp-ltb b a ∙ ground (arith, h');
  trans = λ a b c h k.
      let h' : ltb b.expire a.expire ≡ false = sym (io_timer_cmp-ltb a b) ∙ h in
      let k' : ltb c.expire b.expire ≡ false = sym (io_timer_cmp-ltb b c) ∙ k in
      io_timer_cmp-ltb a c ∙ ground (arith, h', k');
}

-- Every timer of a list has expired.
unfoldable pub AllExpired : ℕ → List IoTimer → Type 0
AllExpired now [] = Unit
AllExpired now (t ∷ ts) = (t.expire ≤ now) × AllExpired now ts

-- The sum of the weights of a list.
unfoldable pub list_weight : (IoTimer → ℕ) → List IoTimer → ℕ
list_weight f [] = 0
list_weight f (t ∷ ts) = f t + list_weight f ts

-- What is promised of the timers that fire and the heap that is left, by any weight.
pub record Fires (f : IoTimer → ℕ) (now : ℕ) (h : Heap IoTimer) (ts : List IoTimer)
    (h' : Heap IoTimer) : Type 0 where
  pub heap : IsHeap io_timer_cmp io_timer_order h'
  pub expired : AllExpired now ts
  pub waiting : (k : ℕ) → k < h'.used → now < IoTimer.expire (h'.items k)
  pub all : weight f h'.used h'.items + list_weight f ts ≡ weight f h.used h.items

module _ (f : IoTimer → ℕ) (now : ℕ) (small : now < 2 ^ 63) where
  -- Where the first timer has not expired, none has.
  none_expired :
      (h : Heap IoTimer)
      → IsHeap io_timer_cmp io_timer_order h
      → (not (h.used == 0) && time_after_eq now (IoTimer.expire (h.items 0))) ≡ false
      → Fires f now h [] h
  unfolding AllExpired list_weight
  none_expired h w e = record {
    heap = w;
    expired = tt;
    waiting = λ k hk.
        let t0 = h.items 0 in
        let tk = h.items k in
        let first : ltb tk.expire t0.expire ≡ false =
          sym (io_timer_cmp-ltb t0 tk)
          ∙ IsHeap-first io_timer_cmp io_timer_order h w k k (omega arith) hk in
        let some_timer : (h.used == 0) ≡ false = ground arith in
        let not_yet : time_after_eq now t0.expire ≡ false = ground (arith, e, some_timer) in
        let later : now < t0.expire = ground (arith, not_yet, t0.near, small) in
        ground (arith, first, later);
    all = omega arith;
  }

  fire-Fires :
      (fuel : ℕ) (h : Heap IoTimer)
      → IsHeap io_timer_cmp io_timer_order h
      → h.used ≤ fuel
      → (ts : List IoTimer) × (h' : Heap IoTimer) × (fire fuel now h ≡ some (ts, h'))
        × Fires f now h ts h'
  unfolding fire get_expired_timer AllExpired list_weight
  fire-Fires zero h w hf = ([], h, refl, none_expired h w (ground arith))
  fire-Fires (suc fuel) h w hf =
      elim (Bool-cases (not (h.used == 0) && time_after_eq now (IoTimer.expire (h.items 0)))) [
        | inr e ↦ ([], h, rw (fire, get_expired_timer, e) refl, none_expired h w e)
        | inl e ↦
            let t0 = h.items 0 in
            let some_timer : 0 < h.used = ground (arith, e) in
            let (h1, pop, w1, u1, s1, first) =
              heap_pop-first io_timer_cmp io_timer_order f h w some_timer in
            let (ts, h', run, g) = fire-Fires fuel h1 w1 (omega (arith, u1)) in
            (
              t0 ∷ ts,
              h',
              rw (fire, get_expired_timer, e, pop, run) refl,
              record {
                heap = g.heap;
                expired = (ground (arith, e, t0.near, small), g.expired);
                waiting = g.waiting;
                all = omega (arith, g.all, s1);
              },
            )
      ]

increment_clock_fires :
    (sectors : ℕ) (c : IoClock) (ts : List IoTimer) (h : Heap IoTimer)
    → io_clock_pcpu_sectors ≤ c.pcpu_buf + sectors
    → c.pcpu_buf + sectors < 2 ^ 16
    → c.now + c.pcpu_buf + sectors < 2 ^ 63
    → fire c.timers.used (c.now + c.pcpu_buf + sectors) c.timers ≡ some (ts, h)
    → increment_clock sectors c
      ≡ some (ts, record { now = c.now + c.pcpu_buf + sectors; pcpu_buf = 0; timers = h })
unfolding increment_clock
increment_clock_fires sectors c ts h full short small run =
    let buf : u16 (c.pcpu_buf + sectors) ≡ c.pcpu_buf + sectors = omega (arith, short) in
    let over : ltb (u16 (c.pcpu_buf + sectors)) io_clock_pcpu_sectors ≡ false = ground arith in
    let now : u64 (c.now + u16 (c.pcpu_buf + sectors)) ≡ c.now + c.pcpu_buf + sectors =
      omega (arith, small) in
    rw (increment_clock, over, now, run)
      (ap (λ t. some (ts, record { now = t; pcpu_buf = 0; timers = h })) now)

-- A clock whose timers are a heap moves on by enough sectors to leave the buffer of the cpu,
-- without its wrapping or the clock's. Each timer that fires has expired, each that is left
-- expires later, they are together the timers that there were, by any weight, and what is left is
-- a heap.
pub increment_clock-Fires :
    (f : IoTimer → ℕ) (sectors : ℕ) (c : IoClock)
    → IsHeap io_timer_cmp io_timer_order c.timers
    → io_clock_pcpu_sectors ≤ c.pcpu_buf + sectors
    → c.pcpu_buf + sectors < 2 ^ 16
    → c.now + c.pcpu_buf + sectors < 2 ^ 63
    → (ts : List IoTimer) × (c' : IoClock) × (increment_clock sectors c ≡ some (ts, c'))
      × (c'.now ≡ c.now + c.pcpu_buf + sectors)
      × (c'.pcpu_buf ≡ 0)
      × Fires f c'.now c.timers ts c'.timers
unfolding increment_clock
increment_clock-Fires f sectors c w full short small =
    let n = c.now + c.pcpu_buf + sectors in
    let (ts, h, run, fires) = fire-Fires f n small c.timers.used c.timers w (omega arith) in
    (
      ts,
      record { now = n; pcpu_buf = 0; timers = h },
      increment_clock_fires sectors c ts h full short small run,
      refl,
      refl,
      fires,
    )
