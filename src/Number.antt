-- ===== src/Number.antt =====
-- The JavaScript `number`: an interface with the operators and `Math` functions that the code
-- calls, the laws of IEEE arithmetic that the proofs rest on, and exact decimals that meet them.
use native.Mathlib.Nat.{le_trans, mul-le-mul_right, div-mul-le_self}
use blend_posv.Prelude.{
  ℕ, ◌≤◌, ◌+◌, ◌-◌, ◌*◌, ◌/◌, min, max, ◌≡◌, Bool, true, false, arith, ltb, leb, ◌==◌,
}

-- `num n` is the literal n; `lt a b` is `a < b` and `b > a`, and `le a b` is `a <= b` and `b >= a`.
pub record Number (N : Type 0) : Type 0 where
  pub num : ℕ → N
  pub add : N → N → N
  pub sub : N → N → N
  pub mul : N → N → N
  pub div : N → N → N
  pub max_of : N → N → N
  pub min_of : N → N → N
  pub floor : N → N
  pub lt : N → N → Bool
  pub le : N → N → Bool
  pub eq : N → N → Bool

-- What the arithmetic promises, for numbers other than NaN and the negative zero.
pub record IsLawful (N : Type 0) ⦃n : Number N⦄ : Type 0 where
  pub one_mul : (x : N) → n.mul (n.num 1) x ≡ x
  -- a discount of nothing leaves the price
  pub full_price : (x : N) → n.mul x (n.sub (n.num 1) (n.div (n.num 0) (n.num 100))) ≡ x
  pub zero_add : (x : N) → n.add (n.num 0) x ≡ x
  pub max_self : (x : N) → n.max_of x x ≡ x
  pub eq_sound : (x y : N) → n.eq x y ≡ true → x ≡ y
  pub eq_refl : (x : N) → n.eq x x ≡ true
  pub min_le : (x y : N) → n.le (n.min_of x y) x ≡ true
  pub le_max : (x y : N) → n.le x (n.max_of x y) ≡ true
  pub le_refl : (x : N) → n.le x x ≡ true
  pub le_trans : (x y z : N) → n.le x y ≡ true → n.le y z ≡ true → n.le x z ≡ true
  pub le_of_lt : (x y : N) → n.lt x y ≡ true → n.le x y ≡ true
  pub lt_of_le_of_lt : (x y z : N) → n.le x y ≡ true → n.lt y z ≡ true → n.lt x z ≡ true
  pub le_of_not_lt : (x y : N) → n.lt x y ≡ false → n.le y x ≡ true

-- What holds of amounts whose sums and differences are not rounded, and of literals below 2^53.
pub record IsExact (N : Type 0) ⦃n : Number N⦄ : Type 0 where
  pub add_zero : (x : N) → n.add x (n.num 0) ≡ x
  pub zero_add : (x : N) → n.add (n.num 0) x ≡ x
  pub add_sub : (x y : N) → n.le x y ≡ true → n.add x (n.sub y x) ≡ y
  pub sub_nonneg : (x y : N) → n.le x y ≡ true → n.le (n.num 0) (n.sub y x) ≡ true
  pub le_of_sub_pos : (x y : N) → n.lt (n.num 0) (n.sub y x) ≡ true → n.le x y ≡ true
  pub le_antisymm : (x y : N) → n.le x y ≡ true → n.le y x ≡ true → x ≡ y
  pub add_assoc : (x y z : N) → n.add (n.add x y) z ≡ n.add x (n.add y z)
  pub lt_irrefl : (x : N) → n.lt x x ≡ false
  pub le_num : (a b : ℕ) → a ≤ b → n.le (n.num a) (n.num b) ≡ true

-- What holds of quantities that are counted: as many sets as fit into `r` units, at `k` units each,
-- take no more than `r`.
pub record IsCounting (N : Type 0) ⦃n : Number N⦄ : Type 0 where
  pub min_right : (x y : N) → n.le (n.min_of x y) y ≡ true
  pub le_max_left : (x y : N) → n.le x (n.max_of x y) ≡ true
  pub sets_fit :
      (m r k : N)
      → n.le (n.num 1) k ≡ true
      → n.le m (n.div r k) ≡ true
      → n.le (n.mul (n.floor m) k) r ≡ true

-- What holds of sums and differences of exact amounts, where nothing gets below zero.
pub record IsAdditive (N : Type 0) ⦃n : Number N⦄ : Type 0 where
  pub max_zero : (x : N) → n.le (n.num 0) x ≡ true → n.max_of (n.num 0) x ≡ x
  pub add_nonneg :
      (x y : N)
      → n.le (n.num 0) x ≡ true
      → n.le (n.num 0) y ≡ true
      → n.le (n.num 0) (n.add x y) ≡ true
  pub le_add : (x y z : N) → n.le x y ≡ true → n.le (n.num 0) z ≡ true → n.le x (n.add y z) ≡ true
  pub sub_add : (x y z : N) → n.le y x ≡ true → n.add (n.sub x y) z ≡ n.sub (n.add x z) y
  pub le_sum :
      (a b x y : N) → n.le b a ≡ true → n.le y x ≡ true → n.le (n.add b y) (n.add a x) ≡ true
  pub sub_sum :
      (a b x y : N)
      → n.le b a ≡ true
      → n.le y x ≡ true
      → n.sub (n.add a x) (n.add b y) ≡ n.add (n.sub a b) (n.sub x y)
  pub sub_self : (x : N) → n.sub x x ≡ n.num 0

-- Exact amounts in ten-thousandths; what would be negative is zero.
abbrev pub Decimal : Type 0
Decimal = ℕ

abbrev pub unit : ℕ
unit = 10_000

instance abbrev pub decimal_number : Number Decimal
decimal_number = record {
  num = λ n. n * unit;
  add = λ a b. a + b;
  sub = λ a b. a - b;
  mul = λ a b. a * b / unit;
  div = λ a b. a * unit / b;
  max_of = λ a b. max a b;
  min_of = λ a b. min a b;
  floor = λ a. a / unit * unit;
  lt = ltb;
  le = leb;
  eq = ◌==◌;
}

pub Decimal-IsLawful : IsLawful Decimal
Decimal-IsLawful = record {
  one_mul = λ x. omega arith;
  full_price = λ x. omega arith;
  zero_add = λ x. omega arith;
  max_self = λ x. omega arith;
  eq_sound = λ x y h. ground arith;
  eq_refl = λ x. ground arith;
  min_le = λ x y. ground arith;
  le_max = λ x y. ground arith;
  le_refl = λ x. ground arith;
  le_trans = λ x y z h k. ground arith;
  le_of_lt = λ x y h. ground arith;
  lt_of_le_of_lt = λ x y z h k. ground arith;
  le_of_not_lt = λ x y h. ground arith;
}

pub Decimal-IsExact : IsExact Decimal
Decimal-IsExact = record {
  add_zero = λ x. omega arith;
  zero_add = λ x. omega arith;
  add_sub = λ x y h. ground arith;
  sub_nonneg = λ x y h. ground arith;
  le_of_sub_pos = λ x y h. ground arith;
  le_antisymm = λ x y h k. ground arith;
  add_assoc = λ x y z. omega arith;
  lt_irrefl = λ x. ground arith;
  le_num = λ a b h. ground arith;
}

sets_fit_lem : (m r k : ℕ) → 1 ≤ k → m ≤ r * unit / k → m / unit * unit * k / unit ≤ r
sets_fit_lem m r k h e =
    let low : m / unit * unit * k ≤ m * k = mul-le-mul_right k (omega arith) in
    let high : m * k ≤ r * unit / k * k = mul-le-mul_right k e in
    let whole : r * unit / k * k ≤ r * unit = div-mul-le_self (r * unit) k in
    let fit : m / unit * unit * k ≤ r * unit = le_trans low (le_trans high whole) in omega arith

pub Decimal-IsCounting : IsCounting Decimal
Decimal-IsCounting = record {
  min_right = λ x y. ground arith;
  le_max_left = λ x y. ground arith;
  sets_fit = λ m r k h e. ground (arith, sets_fit_lem m r k);
}

pub Decimal-IsAdditive : IsAdditive Decimal
Decimal-IsAdditive = record {
  max_zero = λ x h. ground arith;
  add_nonneg = λ x y h k. ground arith;
  le_add = λ x y z h k. ground arith;
  sub_add = λ x y z h. ground arith;
  le_sum = λ a b x y h k. ground arith;
  sub_sum = λ a b x y h k. ground arith;
  sub_self = λ x. omega arith;
}
