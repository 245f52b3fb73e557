-- ===== src/Base/Bits.antt =====
-- Laws of `&`, `|` and `^` at variables, from the digit recursion that they stand for.
use Prim.Native.Nat.{
  ℕ, zero, suc, ◌+◌, ◌-◌, ◌*◌, ◌/◌, ◌%◌, ◌^◌, ◌≤◌, ◌<◌, min, max, bit_and, bit_or, bit_xor, digits,
  bitwise, differ, bit_and-bitwise, bit_or-bitwise, bit_xor-bitwise,
}
use mathlib.Core.Path.{◌≡◌, refl, ap}
use native.Mathlib.Nat.{pow-suc, one-le-pow}
use native.Mathlib.Omega.{arith}

-- The recursion does not depend on its fuel, so one digit splits off at a time.
module _ (rest : ℕ → ℕ) (bit : ℕ → ℕ → ℕ) where
  digits_enough : (n m x y : ℕ) → x ≤ n → x ≤ m → digits rest bit n x y ≡ digits rest bit m x y
  digits_enough zero m (suc x) y p q = absurd (omega arith)
  digits_enough zero zero zero y p q = refl
  digits_enough zero (suc m) zero y p q = refl
  digits_enough (suc n) zero zero y p q = refl
  digits_enough (suc n) (suc m) zero y p q = refl
  digits_enough (suc n) zero (suc x) y p q = absurd (omega arith)
  digits_enough (suc n) (suc m) (suc x) y p q =
      let half = digits_enough n m (suc x / 2) (y / 2) (omega arith) (omega arith) in
      omega (arith, half)

  split_digit :
      (x y : ℕ)
      → bitwise rest bit (suc x) y
        ≡ bitwise rest bit (suc x / 2) (y / 2) * 2 + bit (suc x % 2) (y % 2)
  split_digit x y =
      omega (arith, digits_enough x (suc x / 2) (suc x / 2) (y / 2) (omega arith) (omega arith))

pub lowest_xor : (x y : ℕ) → bit_xor x y ≡ bit_xor (x / 2) (y / 2) * 2 + differ (x % 2) (y % 2)
lowest_xor zero y = simp bit_xor-bitwise (omega arith)
lowest_xor (suc x) y = simp bit_xor-bitwise (split_digit (λ z. z) differ x y)

lowest_or : (x y : ℕ) → bit_or x y ≡ bit_or (x / 2) (y / 2) * 2 + max (x % 2) (y % 2)
lowest_or zero y = simp bit_or-bitwise (omega arith)
lowest_or (suc x) y = simp bit_or-bitwise (split_digit (λ z. z) max x y)

lowest_and : (x y : ℕ) → bit_and x y ≡ bit_and (x / 2) (y / 2) * 2 + min (x % 2) (y % 2)
lowest_and zero y = simp bit_and-bitwise (omega arith)
lowest_and (suc x) y = simp bit_and-bitwise (split_digit (λ z. 0) min x y)

-- Where one side is 0, every digit is decided.
zero_right_or : (n a : ℕ) → a ≤ n → bit_or a 0 ≡ a
zero_right_or n zero h = refl
zero_right_or zero (suc a) h = absurd (omega arith)
zero_right_or (suc n) (suc a) h =
    omega (arith, lowest_or (suc a) 0, zero_right_or n (suc a / 2) (omega arith))

zero_right_and : (n a : ℕ) → a ≤ n → bit_and a 0 ≡ 0
zero_right_and n zero h = refl
zero_right_and zero (suc a) h = absurd (omega arith)
zero_right_and (suc n) (suc a) h =
    omega (arith, lowest_and (suc a) 0, zero_right_and n (suc a / 2) (omega arith))

-- Twice a multiple of 2 ^ k.
pub double : (k q : ℕ) → q * 2 ^ suc k ≡ q * 2 ^ k * 2
double k q = omega (arith, ap (λ (t : ℕ). q * t) (pow-suc 2 k))

low_part : (k q r : ℕ) → r < 2 ^ k → bit_and (q * 2 ^ k + r) (2 ^ k - 1) ≡ r
low_part zero q r h = omega (arith, zero_right_and (q * 1 + r) (q * 1 + r) (omega arith))
low_part (suc k) q r h = ground (
  arith,
  lowest_and (q * 2 ^ suc k + r) (2 ^ suc k - 1),
  double k q,
  pow-suc 2 k,
  low_part k q (r / 2) (omega (arith, pow-suc 2 k)),
)

-- `&` with k low ones is the remainder by 2 ^ k.
pub bit_and-ones : (k a : ℕ) → bit_and a (2 ^ k - 1) ≡ a % 2 ^ k
bit_and-ones k a = ground (arith, one-le-pow k 2, low_part k (a / 2 ^ k) (a % 2 ^ k))

-- `|` with a value shifted past all the other's digits is a sum.
pub bit_or-shifted : (k q r : ℕ) → r < 2 ^ k → bit_or (q * 2 ^ k) r ≡ q * 2 ^ k + r
bit_or-shifted zero q r h =
    let e : r ≡ 0 = omega arith in
    rw e (omega (arith, zero_right_or (q * 2 ^ 0) (q * 2 ^ 0) (omega arith)))
bit_or-shifted (suc k) q r h = ground (
  arith,
  lowest_or (q * 2 ^ suc k) r,
  double k q,
  bit_or-shifted k q (r / 2) (omega (arith, pow-suc 2 k)),
)

pub differ_small : (x y : ℕ) → x < 2 → y < 2 → differ x y < 2
differ_small zero y p q = q
differ_small (suc x) zero p q = p
differ_small (suc x) (suc y) p q = let h : x ≡ 0 = omega arith in rw h (omega arith)

pub bit_xor-lt : (k a b : ℕ) → a < 2 ^ k → b < 2 ^ k → bit_xor a b < 2 ^ k
bit_xor-lt zero a b p q =
    let e : a ≡ 0 = omega arith in let h : b ≡ 0 = omega arith in rw (e, h) (omega arith)
bit_xor-lt (suc k) a b p q = omega (
  arith,
  lowest_xor a b,
  pow-suc 2 k,
  differ_small (a % 2) (b % 2) (omega arith) (omega arith),
  bit_xor-lt k (a / 2) (b / 2) (omega (arith, pow-suc 2 k)) (omega (arith, pow-suc 2 k)),
)
