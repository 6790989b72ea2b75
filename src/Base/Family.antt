-- ===== src/Base/Family.antt =====
-- Families indexed by the threads (or buckets, or devices) below a bound: a change at one index, and
-- the sum of a weight over all of them.
use Prim.Native.Nat.{ℕ, zero, suc, ◌+◌, ◌≤◌, ◌<◌}
use mathlib.Core.Path.{◌≡◌, refl}
use mathlib.Core.Logic.{◌≢◌}
use native.Mathlib.Decide.{ℕ_discrete}
use native.Mathlib.Omega.{arith}
use bcache_tools.Base.Tests.{if◌then◌else◌, ◌==◌}

-- `f[i] = a`
abbrev pub assign {ℓ} : {A : Type ℓ} → (ℕ → A) → ℕ → A → ℕ → A
assign f i a = λ j. if j == i then a else f j

-- What all but the member `i` weigh, and what all weigh.
pub rest {ℓ} : {A : Type ℓ} → (A → ℕ) → ℕ → ℕ → (ℕ → A) → ℕ
rest w i zero f = 0
rest w i (suc n) f = (if n == i then 0 else w (f n)) + rest w i n f

unfoldable pub total {ℓ} : {A : Type ℓ} → (A → ℕ) → ℕ → (ℕ → A) → ℕ
total w zero f = 0
total w (suc n) f = w (f n) + total w n f

rest-above {ℓ} : {A : Type ℓ} (w : A → ℕ) (i n : ℕ) (f : ℕ → A) → n ≤ i → rest w i n f ≡ total w n f
unfolding rest total
rest-above w i zero f h = refl
rest-above w i (suc n) f h = ground (arith, rest-above w i n f)

-- One member and the rest are all.
pub total-eq-rest {ℓ} :
    {A : Type ℓ} (w : A → ℕ) (i n : ℕ) (f : ℕ → A) → i < n → total w n f ≡ rest w i n f + w (f i)
unfolding rest total
total-eq-rest w i zero f h = elim h [ ]
total-eq-rest w i (suc n) f h = elim (ℕ_discrete n i) [
  | yes e ↦ ground (arith, rest-above w i n f)
  | no ne ↦ ground (arith, total-eq-rest w i n f)
]

rest-assign {ℓ} :
    {A : Type ℓ} (w : A → ℕ) (i n : ℕ) (f : ℕ → A) (a : A)
    → rest w i n (assign f i a) ≡ rest w i n f
unfolding rest
rest-assign w i zero f a = refl
rest-assign w i (suc n) f a = ground (arith, rest-assign w i n f a)

-- A change of one member exchanges its weight in the sum.
pub total-assign {ℓ} :
    {A : Type ℓ} (w : A → ℕ) {i n : ℕ} (f : ℕ → A) (a : A)
    → i < n
    → w a + total w n f ≡ w (f i) + total w n (assign f i a)
total-assign w {i} {n} f a h =
    ground
      (arith, total-eq-rest w i n f h, total-eq-rest w i n (assign f i a) h, rest-assign w i n f a)

pub le-total {ℓ} :
    {A : Type ℓ} (w : A → ℕ) (n : ℕ) (f : ℕ → A) (i : ℕ) → i < n → w (f i) ≤ total w n f
le-total w n f i h = omega (arith, total-eq-rest w i n f h)

le-rest {ℓ} :
    {A : Type ℓ} (w : A → ℕ) (i n : ℕ) (f : ℕ → A) (j : ℕ) → j < n → j ≢ i → w (f j) ≤ rest w i n f
unfolding rest
le-rest w i zero f j h ne = elim h [ ]
le-rest w i (suc n) f j h ne = elim (ℕ_discrete n j) [
  | yes e ↦ ground arith
  | no other ↦ omega (arith, le-rest w i n f j (omega arith) ne)
]

-- Two members weigh no more than all.
pub two-le-total {ℓ} :
    {A : Type ℓ} (w : A → ℕ) (n : ℕ) (f : ℕ → A) (i j : ℕ)
    → i < n
    → j < n
    → i ≢ j
    → w (f i) + w (f j) ≤ total w n f
two-le-total w n f i j hi hj ne =
    omega (arith, total-eq-rest w i n f hi, le-rest w i n f j hj (λ e. ne (omega arith)))

rest-eq-zero {ℓ} :
    {A : Type ℓ} (w : A → ℕ) (i n : ℕ) (f : ℕ → A)
    → ((j : ℕ) → j < n → j ≢ i → w (f j) ≡ 0)
    → rest w i n f ≡ 0
unfolding rest
rest-eq-zero w i zero f h = refl
rest-eq-zero w i (suc n) f h =
    ground (arith, h n, rest-eq-zero w i n f (λ j hj ne. h j (omega arith) ne))

-- Where no other member weighs anything, the sum is the weight of one.
pub total-eq-one {ℓ} :
    {A : Type ℓ} (w : A → ℕ) (n : ℕ) (f : ℕ → A) (i : ℕ)
    → i < n
    → ((j : ℕ) → j < n → j ≢ i → w (f j) ≡ 0)
    → total w n f ≡ w (f i)
total-eq-one w n f i hi h = omega (arith, total-eq-rest w i n f hi, rest-eq-zero w i n f h)

pub total_of_zero {ℓ} : {A : Type ℓ} (w : A → ℕ) (n : ℕ) (a : A) → w a ≡ 0 → total w n (λ _. a) ≡ 0
unfolding total
total_of_zero w zero a h = refl
total_of_zero w (suc n) a h = omega (arith, h, total_of_zero w n a h)

total_congr {ℓ} :
    {A : Type ℓ} (w : A → ℕ) (n : ℕ) (f g : ℕ → A)
    → ((j : ℕ) → w (f j) ≡ w (g j))
    → total w n f ≡ total w n g
unfolding total
total_congr w zero f g h = refl
total_congr w (suc n) f g h = omega (arith, h n, total_congr w n f g h)

-- A member of the same weight leaves the sum alone, also above the bound.
pub total-assign_same {ℓ} :
    {A : Type ℓ} (w : A → ℕ) (n : ℕ) (f : ℕ → A) (i : ℕ) (a : A)
    → w a ≡ w (f i)
    → total w n (assign f i a) ≡ total w n f
total-assign_same w n f i a e = total_congr w n (assign f i a) f (λ j. ground arith)
