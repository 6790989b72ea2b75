-- ===== src/Base/Div.antt =====
-- Division with remainder, where the divisor is no numeral, and powers of two that are factors.
use native.Mathlib.Nat.{
  mul-add-div_right, mul-add-mod_self_right, mod-eq_of_lt, div-eq_of_lt, div-add-mod, mod-lt,
  div-lt_iff_lt-mul, mul-le-mul_right, mul-lt-mul_of_pos_right, mul_comm, pow-le-pow_right,
}
use Prim.Native.Nat.{ℕ, suc, ◌+◌, ◌*◌, ◌/◌, ◌%◌, ◌≤◌, ◌<◌, ◌^◌}
use mathlib.Core.Path.{◌≡◌, ap, sym, ◌∙◌}
use native.Mathlib.Omega.{arith}
use bcache_tools.Base.Nats.{two-pow-add}

pub div_of_eq : (x d q r : ℕ) → x ≡ q * d + r → r < d → x / d ≡ q
div_of_eq x d q r e h =
    ap (λ t. t / d) e ∙ mul-add-div_right (omega arith) q r ∙ omega (arith, div-eq_of_lt h)

pub mod_of_eq : (x d q r : ℕ) → x ≡ q * d + r → r < d → x % d ≡ r
mod_of_eq x d q r e h = ap (λ t. t % d) e ∙ mul-add-mod_self_right q d r ∙ mod-eq_of_lt h

-- `a` above `b`, as two digits.
pub two_digits-lt : (a b p q : ℕ) → a < p → b < q → a * q + b < p * q
two_digits-lt a b p q ha hb =
    let room : suc a * q ≤ p * q = mul-le-mul_right q ha in
    let next : suc a * q ≡ a * q + q = grind arith in omega arith

pub div-lt : (v p q : ℕ) → 0 < q → v < p * q → v / q < p
div-lt v p q hq h = (div-lt_iff_lt-mul hq).1 h

pub whole : (v d : ℕ) → v ≡ v / d * d + v % d
whole v d = sym (div-add-mod v d) ∙ ap (λ t. t + v % d) (mul_comm d (v / d))

-- The low digit of a product.
pub mul-mod-mul : (v p q : ℕ) → 0 < p → 0 < q → v * q % (p * q) ≡ v % p * q
mul-mod-mul v p q hp hq =
    mod_of_eq (v * q) (p * q) (v / p) (v % p * q)
      (ap (λ t. t * q) (whole v p) ∙ regroup (v / p) p (v % p) q)
      (mul-lt-mul_of_pos_right (mod-lt v hp) hq)
  where
    regroup : (a p r q : ℕ) → (a * p + r) * q ≡ a * (p * q) + r * q
    regroup a p r q = grind arith

pub split_pow : (a b c : ℕ) → a ≡ b + c → 2 ^ a ≡ 2 ^ b * 2 ^ c
split_pow a b c e = ap (λ k. 2 ^ k) e ∙ two-pow-add b c

pub pow_mono : (a b : ℕ) → a ≤ b → 2 ^ a ≤ 2 ^ b
pow_mono a b h = pow-le-pow_right {n = 2} (omega arith) h
