-- ===== src/Floats.antt =====
-- Python's `float` as an interface: the operations that the backoff code uses, and the facts about
-- finite floats (no NaN, no overflow) that it relies on. `x <=F y` is `not (y < x)`.
use fast_api_boilerplate.Base.{ℕ, suc, ◌^◌, ◌≡◌, Bool, true, false, if◌then◌else◌, arith}

pub record Floats : Type 1 where
  pub F : Type 0
  pub ltb : F → F → Bool
  pub zero : F
  -- the conversion of an `int`
  pub of_nat : ℕ → F
  pub mul : F → F → F
  -- `x ** n`
  pub pow : F → ℕ → F
  -- `random.uniform(low, high)`; the first argument is the state that the sample is drawn from
  pub uniform : ℕ → F → F → F
  pub irrefl : (x : F) → ltb x x ≡ false
  pub trans_le : (x y z : F) → ltb y x ≡ false → ltb z y ≡ false → ltb z x ≡ false
  pub lt_le : (x y : F) → ltb x y ≡ true → ltb y x ≡ false
  pub zero_of_nat : of_nat 0 ≡ zero
  pub mul_nonneg : (x y : F) → ltb x zero ≡ false → ltb y zero ≡ false → ltb (mul x y) zero ≡ false
  pub mul_mono :
      (x y z : F) → ltb x zero ≡ false → ltb z y ≡ false → ltb (mul x z) (mul x y) ≡ false
  pub pow_nonneg : (m : F) (n : ℕ) → ltb zero m ≡ true → ltb (pow m n) zero ≡ false
  pub pow_mono : (m : F) (n : ℕ) → ltb m (of_nat 1) ≡ false → ltb (pow m (suc n)) (pow m n) ≡ false
  pub pow_two : (n : ℕ) → pow (of_nat 2) n ≡ of_nat (2 ^ n)
  pub uniform_range :
      (r : ℕ) (low high : F)
      → ltb high low ≡ false
      → (ltb (uniform r low high) low ≡ false) × (ltb high (uniform r low high) ≡ false)

module _ (fl : Floats) where
  open fl use {F}

  -- `x <= y`
  abbrev pub AtMost : F → F → Type 0
  AtMost x y = fl.ltb y x ≡ false

  -- `min(x, y)`, which keeps its first argument where neither is smaller
  abbrev pub fmin : F → F → F
  fmin x y = if fl.ltb y x then y else x

  -- `max(x, y)`
  abbrev pub fmax : F → F → F
  fmax x y = if fl.ltb x y then y else x

  pub fmin-le_left : (x y : F) → AtMost (fmin x y) x
  fmin-le_left x y = ground (arith, fl.irrefl x, fl.lt_le y x)

  pub fmin-le_right : (x y : F) → AtMost (fmin x y) y
  fmin-le_right x y = ground (arith, fl.irrefl y, fl.lt_le y x)

  pub le-fmin : (x y z : F) → AtMost z x → AtMost z y → AtMost z (fmin x y)
  le-fmin x y z hx hy = ground arith

  pub fmin_mono : (x y z : F) → AtMost x y → AtMost (fmin x z) (fmin y z)
  fmin_mono x y z h = ground (arith, fl.irrefl z, fl.lt_le z x, fl.trans_le z x y)

  -- A delay `x` that is capped at `y`, or sampled below the cap, lies between 0 and `y`.
  pub capped_bounds :
      (x y : F) (jitter : Bool) (seed : ℕ)
      → AtMost fl.zero x
      → AtMost fl.zero y
      → let d = (if jitter then fl.uniform seed fl.zero (fmin x y) else fmin x y) in
        AtMost fl.zero d × AtMost d y
  capped_bounds x y true seed hx hy =
      let r = fl.uniform_range seed fl.zero (fmin x y) (le-fmin x y fl.zero hx hy) in
      (r.0, fl.trans_le _ _ _ r.1 (fmin-le_right x y))
  capped_bounds x y false seed hx hy = (le-fmin x y fl.zero hx hy, fmin-le_right x y)
