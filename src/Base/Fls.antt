-- ===== src/Base/Fls.antt =====
-- `fls64`: the number of the highest bit set, from 1, and 0 for 0.
use native.Mathlib.Nat.{pow-le-pow_right}
use Prim.Native.Nat.{ℕ, zero, suc, ◌≤◌, ◌<◌, ◌^◌}
use mathlib.Core.Path.{◌≡◌, refl, ap, sym, ◌∙◌}
use mathlib.Core.Logic.{inl, inr}
use native.Mathlib.Decide.{dec_lt}
use native.Mathlib.Omega.{arith}
use bcache_tools.Base.Tests.{Bool-cases, if◌then◌else◌, ltb, ltb→lt, lt→ltb}
use bcache_tools.Base.Nats.{pow-pos}

unfoldable pub fls_upto : ℕ → ℕ → ℕ
fls_upto zero x = 0
fls_upto (suc n) x = if ltb x (2 ^ n) then fls_upto n x else suc n

unfoldable pub fls64 : ℕ → ℕ
unfolding fls_upto
fls64 x = fls_upto 64 x

fls_upto-below : (n x : ℕ) → x < 2 ^ n → fls_upto (suc n) x ≡ fls_upto n x
unfolding fls_upto
fls_upto-below n x h = rw (lt→ltb x (2 ^ n) h) refl

fls_upto-above : (n x : ℕ) → ¬ (x < 2 ^ n) → fls_upto (suc n) x ≡ suc n
unfolding fls_upto
fls_upto-above n x h = elim (Bool-cases (ltb x (2 ^ n))) [
  | inl e ↦ absurd (h (ltb→lt x (2 ^ n) e))
  | inr e ↦ rw e refl
]

pub fls_upto-le : (n x k : ℕ) → x < 2 ^ n → fls_upto n x ≤ k → x < 2 ^ k
fls_upto-le zero x k h le = omega (arith, pow-pos k)
fls_upto-le (suc n) x k h le = elim (dec_lt x (2 ^ n)) [
  | yes lt ↦ fls_upto-le n x k lt (omega (arith, fls_upto-below n x lt))
  | no above ↦
      let big : suc n ≤ k = omega (arith, fls_upto-above n x above) in
      omega (arith, h, pow-le-pow_right {n = 2} (omega arith) big)
]

pub fls_upto-eq : (n x k : ℕ) → k < n → 2 ^ k ≤ x → x < 2 ^ suc k → fls_upto n x ≡ suc k
fls_upto-eq zero x k kn low high = elim kn [ ]
fls_upto-eq (suc n) x k kn low high = elim (dec_lt k n) [
  | yes lt ↦
      let below : 2 ^ suc k ≤ 2 ^ n = pow-le-pow_right {n = 2} (omega arith) lt in
      fls_upto-below n x (omega arith) ∙ fls_upto-eq n x k lt low high
  | no ge ↦
      let e : k ≡ n = omega arith in
      let p : 2 ^ k ≡ 2 ^ n = ap (λ j. 2 ^ j) e in
      fls_upto-above n x (λ lt. omega arith) ∙ ap suc (sym e)
]

pub fls_upto-le_of_lt : (n x k : ℕ) → x < 2 ^ k → fls_upto n x ≤ k
unfolding fls_upto
fls_upto-le_of_lt zero x k h = omega arith
fls_upto-le_of_lt (suc n) x k h = elim (dec_lt x (2 ^ n)) [
  | yes lt ↦ omega (arith, fls_upto-below n x lt, fls_upto-le_of_lt n x k h)
  | no above ↦ elim (dec_lt n k) [
    | yes lt ↦ omega (arith, fls_upto-above n x above)
    | no ge ↦
        let p : 2 ^ k ≤ 2 ^ n = pow-le-pow_right {n = 2} (omega arith) {j = n} (omega arith) in
        omega arith
  ]
]

-- A number has at most `k` bits where it is below `2 ^ k`.
pub fls64-le : (x k : ℕ) → x < 2 ^ 64 → fls64 x ≤ k → x < 2 ^ k
unfolding fls64
fls64-le x k h = fls_upto-le 64 x k h

pub lt-fls64 : (x k : ℕ) → x < 2 ^ k → fls64 x ≤ k
unfolding fls64
lt-fls64 x k h = fls_upto-le_of_lt 64 x k h
