-- ===== src/Double/Fractions.antt =====
-- Exact fractions as an instance of the parameter `Double`: the numbers of the examples.
use dwn_server.Common.{
  ℕ, zero, suc, ◌*◌, ◌/◌, ◌%◌, ◌≤◌, ◌≡◌, Option, none, some, arith, if◌then◌else◌, nat_beq,
}
use dwn_server.Common.Int.{ℤ, pos}
use dwn_server.Double.{Double, IsRounded}

-- A numerator and a denominator; with the denominator 0 the number is infinite or NaN.
abbrev floor : ℕ × ℕ → ℕ × ℕ
floor (a, zero) = (a, 0)
floor (a, suc b) = (a / suc b, 1)

abbrev whole : ℕ × ℕ → Option ℤ
whole (a, zero) = none
whole (a, suc b) = if nat_beq (a % suc b) 0 then some (pos (a / suc b)) else none

abbrev pub fractions : Double
fractions = record {
  Num = ℕ × ℕ;
  of_ℕ = λ n. (n, 1);
  div = λ x y. (x.0 * y.1, x.1 * y.0);
  mul = λ x y. (x.0 * y.0, x.1 * y.1);
  floor = floor;
  big_int = whole;
}

abbrev AtLeast : ℕ → ℕ × ℕ → Type 0
AtLeast k (a, b) = k * b ≤ a

times-le : (a x y : ℕ) → x ≤ y → a * x ≤ a * y
times-le zero x y h = omega arith
times-le (suc a) x y h = grind (arith, times-le a x y h)

pub product-AtLeast : (k a b c d : ℕ) → c ≤ a → k * d ≤ b → k * (c * d) ≤ a * b
product-AtLeast k a b c d h e =
    let swap : k * (c * d) ≡ c * (k * d) = grind arith in
    let left = times-le (k * d) c a h in
    let right = times-le a (k * d) b e in
    let same : k * d * c ≡ c * (k * d) = grind arith in
    let same' : k * d * a ≡ a * (k * d) = grind arith in
    omega (arith, swap, left, right, same, same')

pub floor-AtLeast :
    (k : ℕ) (x : ℕ × ℕ) (r : ℤ)
    → AtLeast k x
    → whole (floor x) ≡ some r
    → (j : ℕ) × (r ≡ pos j) × (k ≤ j)
floor-AtLeast k (a, zero) r h e = absurd (ground arith)
floor-AtLeast k (a, suc b) r h e = (a / suc b, ground arith, grind arith)

abbrev pub fractions-IsRounded : IsRounded fractions
fractions-IsRounded = record {
  AtLeast = AtLeast;
  at_least-of_ℕ = λ k h. omega arith;
  at_least-div = λ n m h e. omega arith;
  at_least-mul = λ k x y h p q. product-AtLeast k x.0 y.0 x.1 y.1 (omega (arith, p)) q;
  at_least-floor = floor-AtLeast;
}
