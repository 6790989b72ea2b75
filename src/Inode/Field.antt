-- ===== src/Inode/Field.antt =====
-- What libbcache/inode.c reads back from an encoded field.
use native.Mathlib.Nat.{mul-le-mul_right, add-mul-mod_self_left, mod-eq_of_lt, mod-lt, div-add-mod}
use bcache_tools.Base.{
  List, [], ap, arith, length, pow-pos, refl, suc, sym, take, two-pow-add, zero, ℕ, ◌%◌, ◌*◌, ◌++◌,
  ◌+◌, ◌/◌, ◌<◌, ◌^◌, ◌∙◌, ◌∷◌, ◌≡◌, ◌≤◌,
}
use bcache_tools.Inode.{be_bytes, be_value}

pub length-be_bytes : (n v : ℕ) → length (be_bytes n v) ≡ n
length-be_bytes zero v = refl
length-be_bytes (suc n) v = ap suc (length-be_bytes n v)

pub be_value-append :
    (acc : ℕ) (xs ys : List ℕ) → be_value acc (xs ++ ys) ≡ be_value (be_value acc xs) ys
be_value-append acc [] ys = refl
be_value-append acc (x ∷ xs) ys = be_value-append (acc * 2 ^ 8 + x) xs ys

regroup : (p a b r : ℕ) → p * (256 * a + b) + r ≡ b * p + r + 256 * p * a
regroup p a b r = grind arith

mod-mul_byte : (v p : ℕ) → 0 < p → v % (2 ^ 8 * p) ≡ v / p % 2 ^ 8 * p + v % p
mod-mul_byte v p h =
    let small : v / p % 256 * p ≤ 255 * p = mul-le-mul_right p (omega arith) in
    let q = v / p in
    ap (λ t. t % (256 * p))
      (sym (div-add-mod v p)
        ∙ ap (λ t. p * t + v % p) (sym (div-add-mod q 256))
        ∙ regroup p (q / 256) (q % 256) (v % p))
    ∙ add-mul-mod_self_left (q % 256 * p + v % p) (256 * p) (q / 256)
    ∙ mod-eq_of_lt (omega (arith, small, mod-lt v h))

pub be_value-be_bytes :
    (acc n v : ℕ) → be_value acc (be_bytes n v) ≡ acc * 2 ^ (8 * n) + v % 2 ^ (8 * n)
be_value-be_bytes acc zero v = omega arith
be_value-be_bytes acc (suc n) v =
    let e : 8 * suc n ≡ 8 + 8 * n = omega arith in
    let p = 2 ^ (8 * n) in
    rw (e, two-pow-add 8 (8 * n))
      (be_value-be_bytes (acc * 256 + v / p % 256) n v
        ∙ push acc (v / p % 256) p (v % p)
        ∙ ap (λ t. acc * (256 * p) + t) (sym (mod-mul_byte v p (pow-pos (8 * n)))))
  where
    push : (acc b p r : ℕ) → (acc * 256 + b) * p + r ≡ acc * (256 * p) + (b * p + r)
    push acc b p r = grind arith

pub take-append_length : (xs ys : List ℕ) → take (length xs) (xs ++ ys) ≡ xs
take-append_length [] ys = refl
take-append_length (x ∷ xs) ys = ap (◌∷◌ x) (take-append_length xs ys)
