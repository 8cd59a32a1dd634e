-- ===== src/Double.antt =====
-- The floating-point numbers of the language: a parameter, with what the difficulty relies on.
pub mod Fractions
use dwn_server.Common.{ℕ, ◌^◌, ◌≤◌, ◌<◌, ◌≡◌, Option, some}
use dwn_server.Common.Int.{ℤ, pos}

-- `of_ℕ n` is the number nearest to n, `floor` is Math.floor, and `big_int` is the conversion
-- `BigInt(x)`, where `none` is the RangeError of a number that is no integer.
pub record Double : Type 1 where
  pub Num : Type 0
  pub of_ℕ : ℕ → Num
  pub div : Num → Num → Num
  pub mul : Num → Num → Num
  pub floor : Num → Num
  pub big_int : Num → Option ℤ

-- What IEEE 754 arithmetic gives. `AtLeast k x` says that x is not less than k: it holds of an
-- infinite x and of NaN too, neither of which converts to an integer. Rounding keeps such a bound
-- where k is an integer of at most 53 bits, and so is exact.
pub record IsRounded (d : Double) : Type 1 where
  pub AtLeast : ℕ → d.Num → Type 0
  pub at_least-of_ℕ : (k : ℕ) → k ≤ 2 ^ 53 → AtLeast k (d.of_ℕ k)
  pub at_least-div : (n m : ℕ) → 0 < m → m ≤ n → AtLeast 1 (d.div (d.of_ℕ n) (d.of_ℕ m))
  pub at_least-mul :
      (k : ℕ) (x y : d.Num) → k ≤ 2 ^ 53 → AtLeast 1 x → AtLeast k y → AtLeast k (d.mul x y)
  pub at_least-floor :
      (k : ℕ) (x : d.Num) (r : ℤ)
      → AtLeast k x
      → d.big_int (d.floor x) ≡ some r
      → (j : ℕ) × (r ≡ pos j) × (k ≤ j)
