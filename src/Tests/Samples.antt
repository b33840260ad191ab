-- ===== src/Tests/Samples.antt =====
-- Test data that the runs share: whole numbers in place of floats.
use fast_api_boilerplate.Base.{ℕ, zero, suc, ◌*◌, ◌^◌, ◌≤◌, ◌≡◌, refl, true, false, ltb, arith}
use fast_api_boilerplate.Floats.{Floats}

abbrev pub power : ℕ → ℕ → ℕ
power m zero = 1
power m (suc n) = m * power m n

pub power_two : (n : ℕ) → power 2 n ≡ 2 ^ n
power_two zero = refl
power_two (suc n) = grind (arith, power_two n)

pub not_below_zero : (x : ℕ) → ltb x 0 ≡ false
not_below_zero x = ground arith

pub ltb_irrefl : (x : ℕ) → ltb x x ≡ false
ltb_irrefl x = ground arith

pub ltb_asym : (x y : ℕ) → ltb x y ≡ true → ltb y x ≡ false
ltb_asym x y h = ground arith

pub ltb_trans : (x y z : ℕ) → ltb y x ≡ false → ltb z y ≡ false → ltb z x ≡ false
ltb_trans x y z h k = ground arith

product_le : (x y z : ℕ) → y ≤ z → x * y ≤ x * z
product_le zero y z h = omega arith
product_le (suc x) y z h = omega (arith, product_le x y z h)

pub product_mono : (x y z : ℕ) → ltb z y ≡ false → ltb (x * z) (x * y) ≡ false
product_mono x y z h = let le : x * y ≤ x * z = product_le x y z (ground arith) in ground arith

pub power_mono : (m n : ℕ) → ltb m 1 ≡ false → ltb (m * power m n) (power m n) ≡ false
power_mono m n h =
    let le : power m n * 1 ≤ power m n * m = product_le (power m n) 1 m (ground arith) in
    grind arith

-- Every sample is the lower end of the range.
abbrev pub nat_floats : Floats
nat_floats = record {
  F = ℕ;
  ltb = ltb;
  zero = 0;
  of_nat = λ n. n;
  mul = λ x y. x * y;
  pow = power;
  uniform = λ seed low high. low;
  irrefl = ltb_irrefl;
  trans_le = ltb_trans;
  lt_le = ltb_asym;
  zero_of_nat = refl;
  mul_nonneg = λ x y h k. not_below_zero (x * y);
  mul_mono = λ x y z h k. product_mono x y z k;
  pow_nonneg = λ m n h. not_below_zero (power m n);
  pow_mono = power_mono;
  pow_two = power_two;
  uniform_range = λ seed low high h. (ltb_irrefl low, h);
}
