-- ===== src/Base/Bits.antt =====
-- `bit_and`, `bit_or` and `bit_xor` at variables: an equation for the lowest digit, and what a mask
-- of adjacent bits does.
use Prim.Native.Nat.{ℕ, zero, suc, ◌+◌, ◌-◌, ◌*◌, ◌/◌, ◌%◌, ◌^◌, ◌≤◌, ◌<◌, min}
use Prim.Native.Nat.{bit_and, bit_or, bitwise, digits, bit_and-bitwise, bit_or-bitwise, max}
use mathlib.Core.Path.{◌≡◌, refl, ap, sym, ◌∙◌}
use native.Mathlib.Nat.{
  mod-eq_of_lt, mod-lt, add-mul-mod_self_left, div-add-mod, div-div-eq-div-mul,
}
use native.Mathlib.Omega.{arith}
use bcache_tools.Base.Nats.{pow-pos, shl, shl-suc, two-pow-suc}

-- `bitwise` runs the library's recursion on binary digits with its first number as fuel; any fuel
-- that covers the number gives the same.
module _ (unit : ℕ → ℕ) (op : ℕ → ℕ → ℕ) where
  enough_fuel :
      (bound fuel x y : ℕ) → fuel ≤ bound → x ≤ fuel → digits unit op fuel x y ≡ bitwise unit op x y
  enough_fuel bound zero zero y hb hx = refl
  enough_fuel bound (suc fuel) zero y hb hx = refl
  enough_fuel bound zero (suc x) y hb hx = elim hx [ ]
  enough_fuel zero (suc fuel) (suc x) y hb hx = elim hb [ ]
  enough_fuel (suc bound) (suc fuel) (suc x) y hb hx =
      let half = suc x / 2 in
      ap (λ t. t * 2 + op (suc x % 2) (y % 2))
        (enough_fuel bound fuel half (y / 2) (omega arith) (omega arith)
          ∙ sym (enough_fuel bound x half (y / 2) (omega arith) (omega arith)))

  lowest_digit :
      (x y : ℕ)
      → bitwise unit op (suc x) y ≡ bitwise unit op (suc x / 2) (y / 2) * 2 + op (suc x % 2) (y % 2)
  lowest_digit x y =
      ap (λ t. t * 2 + op (suc x % 2) (y % 2))
        (enough_fuel x x (suc x / 2) (y / 2) (omega arith) (omega arith))

pub bit_and_digit : (a b : ℕ) → bit_and a b ≡ bit_and (a / 2) (b / 2) * 2 + min (a % 2) (b % 2)
bit_and_digit zero b = omega (arith, bit_and-bitwise 0 b, bit_and-bitwise 0 (b / 2))
bit_and_digit (suc a) b = omega (
  arith,
  bit_and-bitwise (suc a) b,
  bit_and-bitwise (suc a / 2) (b / 2),
  lowest_digit (λ _. zero) min a b,
)

bit_and-zero_below : (n a : ℕ) → a ≤ n → bit_and a 0 ≡ 0
bit_and-zero_below n zero h = refl
bit_and-zero_below zero (suc a) h = absurd (omega arith)
bit_and-zero_below (suc n) (suc a) h =
    omega (arith, bit_and_digit (suc a) 0, bit_and-zero_below n (suc a / 2) (omega arith))

pub bit_and-zero : (a : ℕ) → bit_and a 0 ≡ 0
bit_and-zero a = bit_and-zero_below a a (omega arith)

-- The digits of `a % (2 * n)`.
mod-two-mul : (a n : ℕ) → 0 < n → a % (2 * n) ≡ a / 2 % n * 2 + a % 2
mod-two-mul a n h =
    ap (λ t. t % (2 * n)) whole
    ∙ add-mul-mod_self_left (a / 2 % n * 2 + a % 2) (2 * n) (a / 2 / n)
    ∙ mod-eq_of_lt (omega (arith, mod-lt (a / 2) h))
  where
    whole : a ≡ a / 2 % n * 2 + a % 2 + 2 * n * (a / 2 / n)
    whole = omega (arith, div-add-mod (a / 2) n)

-- A mask of the `k` low bits is the remainder by `2 ^ k`.
pub bit_and-low_mask : (k a : ℕ) → bit_and a (2 ^ k - 1) ≡ a % 2 ^ k
bit_and-low_mask zero a = omega (arith, bit_and-zero a)
bit_and-low_mask (suc k) a = ground (
  arith,
  bit_and_digit a (2 ^ suc k - 1),
  two-pow-suc k,
  pow-pos k,
  bit_and-low_mask k (a / 2),
  mod-two-mul a (2 ^ k) (pow-pos k),
)

-- A mask of adjacent bits, `s` of them up, picks a field and leaves it in place.
pub bit_and-shl : (s a m : ℕ) → bit_and a (m * 2 ^ s) ≡ bit_and (a / 2 ^ s) m * 2 ^ s
bit_and-shl zero a m =
    let e : m * 1 ≡ m = omega arith in let f : a / 1 ≡ a = omega arith in rw (e, f) (omega arith)
bit_and-shl (suc s) a m = ground (
  arith,
  bit_and_digit a (m * 2 ^ suc s),
  shl-suc s m,
  shl-suc s (bit_and (a / 2 ^ suc s) m),
  bit_and-shl s (a / 2) m,
  div-div-eq-div-mul a 2 (2 ^ s),
  two-pow-suc s,
)

pub bit_or_digit : (a b : ℕ) → bit_or a b ≡ bit_or (a / 2) (b / 2) * 2 + max (a % 2) (b % 2)
bit_or_digit zero b = ground (arith, bit_or-bitwise 0 b, bit_or-bitwise 0 (b / 2))
bit_or_digit (suc a) b = ground (
  arith,
  bit_or-bitwise (suc a) b,
  bit_or-bitwise (suc a / 2) (b / 2),
  lowest_digit (λ y. y) max a b,
)

bit_or-zero_below : (n a : ℕ) → a ≤ n → bit_or a 0 ≡ a
bit_or-zero_below n zero h = refl
bit_or-zero_below zero (suc a) h = absurd (omega arith)
bit_or-zero_below (suc n) (suc a) h =
    ground (arith, bit_or_digit (suc a) 0, bit_or-zero_below n (suc a / 2) (omega arith))

-- Below the field that it sets, `|=` adds.
pub bit_or-shl : (s a m : ℕ) → a < 2 ^ s → bit_or a (shl m s) ≡ a + shl m s
bit_or-shl zero zero m h = ground (arith, bit_or-bitwise 0 (m * 1))
bit_or-shl zero (suc a) m h = absurd (omega arith)
bit_or-shl (suc s) a m h = ground (
  arith,
  bit_or_digit a (shl m (suc s)),
  shl-suc s m,
  two-pow-suc s,
  bit_or-shl s (a / 2) m (omega (arith, two-pow-suc s)),
)

bit_or_comm_below : (n a b : ℕ) → a + b ≤ n → bit_or a b ≡ bit_or b a
bit_or_comm_below zero zero zero h = refl
bit_or_comm_below zero (suc a) b h = absurd (omega arith)
bit_or_comm_below zero zero (suc b) h = absurd (omega arith)
bit_or_comm_below (suc n) zero zero h = refl
bit_or_comm_below (suc n) (suc a) b h = ground (
  arith,
  bit_or_digit (suc a) b,
  bit_or_digit b (suc a),
  bit_or_comm_below n (suc a / 2) (b / 2) (omega arith),
)
bit_or_comm_below (suc n) zero (suc b) h = ground (
  arith,
  bit_or_digit 0 (suc b),
  bit_or_digit (suc b) 0,
  bit_or_comm_below n 0 (suc b / 2) (omega arith),
)

-- Likewise where the field is set first.
pub bit_or-shl_left : (s m a : ℕ) → a < 2 ^ s → bit_or (shl m s) a ≡ shl m s + a
bit_or-shl_left s m a h =
    bit_or_comm_below (shl m s + a) (shl m s) a (omega arith) ∙ bit_or-shl s a m h ∙ omega arith

pub bit_or_zero_left : (a : ℕ) → bit_or 0 a ≡ a
bit_or_zero_left a = bit_or_comm_below a 0 a (omega arith) ∙ bit_or-zero_below a a (omega arith)
