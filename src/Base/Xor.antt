-- ===== src/Base/Xor.antt =====
-- `^` is a commutative group in which every number is its own inverse, and goes digit by digit.
use Prim.Native.Nat.{
  ℕ, zero, suc, ◌+◌, ◌*◌, ◌/◌, ◌%◌, ◌^◌, ◌≤◌, ◌<◌, bit_xor, bit_xor-bitwise, differ,
}
use mathlib.Core.Path.{◌≡◌, refl, ◌∙◌, sym}
use native.Mathlib.Nat.{pow-suc, div-div-eq-div-mul}
use native.Mathlib.Omega.{arith}
use cascade.Base.Bits.{lowest_xor, differ_small, double}

pub half-bit_xor : (a b : ℕ) → bit_xor a b / 2 ≡ bit_xor (a / 2) (b / 2)
half-bit_xor a b =
    omega (arith, lowest_xor a b, differ_small (a % 2) (b % 2) (omega arith) (omega arith))

pub parity-bit_xor : (a b : ℕ) → bit_xor a b % 2 ≡ differ (a % 2) (b % 2)
parity-bit_xor a b =
    omega (arith, lowest_xor a b, differ_small (a % 2) (b % 2) (omega arith) (omega arith))

-- Digits 0 and 1.
differ_cases :
    (P : ℕ → ℕ → Type 0) (x y : ℕ) → x < 2 → y < 2 → P 0 0 → P 0 1 → P 1 0 → P 1 1 → P x y
differ_cases P zero zero p q a b c d = a
differ_cases P zero (suc zero) p q a b c d = b
differ_cases P zero (suc (suc y)) p q a b c d = absurd (omega arith)
differ_cases P (suc zero) zero p q a b c d = c
differ_cases P (suc zero) (suc zero) p q a b c d = d
differ_cases P (suc zero) (suc (suc y)) p q a b c d = absurd (omega arith)
differ_cases P (suc (suc x)) y p q a b c d = absurd (omega arith)

differ_comm : (x y : ℕ) → x < 2 → y < 2 → differ x y ≡ differ y x
differ_comm x y p q = differ_cases (λ x y. differ x y ≡ differ y x) x y p q refl refl refl refl

differ_assoc : (x y z : ℕ) → x < 2 → y < 2 → z < 2 → differ (differ x y) z ≡ differ x (differ y z)
differ_assoc x y zero p q r =
    differ_cases (λ x y. differ (differ x y) 0 ≡ differ x (differ y 0)) x y p q refl refl refl refl
differ_assoc x y (suc zero) p q r =
    differ_cases (λ x y. differ (differ x y) 1 ≡ differ x (differ y 1)) x y p q refl refl refl refl
differ_assoc x y (suc (suc z)) p q r = absurd (omega arith)

comm_fuel : (n a b : ℕ) → a ≤ n → b ≤ n → bit_xor a b ≡ bit_xor b a
comm_fuel zero a b p q = let e : a ≡ 0 = omega arith in let h : b ≡ 0 = omega arith in rw (e, h)
comm_fuel (suc n) a b p q = omega (
  arith,
  lowest_xor a b,
  lowest_xor b a,
  comm_fuel n (a / 2) (b / 2) (omega arith) (omega arith),
  differ_comm (a % 2) (b % 2) (omega arith) (omega arith),
)

pub bit_xor_comm : (a b : ℕ) → bit_xor a b ≡ bit_xor b a
bit_xor_comm a b = comm_fuel (a + b) a b (omega arith) (omega arith)

assoc_fuel :
    (n a b c : ℕ) → a ≤ n → b ≤ n → c ≤ n → bit_xor (bit_xor a b) c ≡ bit_xor a (bit_xor b c)
assoc_fuel zero a b c p q r =
    let e : a ≡ 0 = omega arith in
    let h : b ≡ 0 = omega arith in let k : c ≡ 0 = omega arith in rw (e, h, k)
assoc_fuel (suc n) a b c p q r =
    lowest_xor (bit_xor a b) c
    ∙ rw (half-bit_xor a b, parity-bit_xor a b)
        (sym (
          lowest_xor a (bit_xor b c)
          ∙ rw (half-bit_xor b c, parity-bit_xor b c)
              (omega (
                arith,
                assoc_fuel n (a / 2) (b / 2) (c / 2) (omega arith) (omega arith) (omega arith),
                differ_assoc (a % 2) (b % 2) (c % 2) (omega arith) (omega arith) (omega arith),
              ))))

pub bit_xor_assoc : (a b c : ℕ) → bit_xor (bit_xor a b) c ≡ bit_xor a (bit_xor b c)
bit_xor_assoc a b c = assoc_fuel (a + b + c) a b c (omega arith) (omega arith) (omega arith)

self_fuel : (n a : ℕ) → a ≤ n → bit_xor a a ≡ 0
self_fuel zero a p = let e : a ≡ 0 = omega arith in rw e
self_fuel (suc n) a p = omega (
  arith,
  lowest_xor a a,
  self_fuel n (a / 2) (omega arith),
  differ_cases (λ x y. x ≡ y → differ x y ≡ 0) (a % 2) (a % 2) (omega arith) (omega arith)
      (λ e. refl) (λ e. absurd (omega arith)) (λ e. absurd (omega arith)) (λ e. refl) refl,
)

pub bit_xor_self : (a : ℕ) → bit_xor a a ≡ 0
bit_xor_self a = self_fuel a a (omega arith)

pub zero-bit_xor : (a : ℕ) → bit_xor 0 a ≡ a
zero-bit_xor a = bit_xor-bitwise 0 a

pub bit_xor-zero : (a : ℕ) → bit_xor a 0 ≡ a
bit_xor-zero a = bit_xor_comm a 0 ∙ zero-bit_xor a

div_halves : (k x : ℕ) → x / 2 ^ suc k ≡ x / 2 / 2 ^ k
div_halves k x =
    let e : 2 ^ suc k ≡ 2 * 2 ^ k = omega (arith, pow-suc 2 k) in
    rw (e, div-div-eq-div-mul x 2 (2 ^ k))

pub bit_xor-div : (k a b : ℕ) → bit_xor a b / 2 ^ k ≡ bit_xor (a / 2 ^ k) (b / 2 ^ k)
bit_xor-div zero a b =
    let e : a / 2 ^ 0 ≡ a = omega arith in
    let h : b / 2 ^ 0 ≡ b = omega arith in rw (e, h) (omega arith)
bit_xor-div (suc k) a b =
    rw (div_halves k (bit_xor a b), half-bit_xor a b, div_halves k a, div_halves k b)
      (bit_xor-div k (a / 2) (b / 2))

pub bit_xor_left_comm : (a b c : ℕ) → bit_xor a (bit_xor b c) ≡ bit_xor b (bit_xor a c)
bit_xor_left_comm a b c = rw (← bit_xor_assoc a b c, bit_xor_comm a b) (bit_xor_assoc b a c)

-- Disjoint digits: `^` is a sum.
pub bit_xor-shifted : (k q r : ℕ) → r < 2 ^ k → bit_xor (q * 2 ^ k) r ≡ q * 2 ^ k + r
bit_xor-shifted zero q r h =
    let e : r ≡ 0 = omega arith in rw e (omega (arith, bit_xor-zero (q * 2 ^ 0)))
bit_xor-shifted (suc k) q r h = ground (
  arith,
  lowest_xor (q * 2 ^ suc k) r,
  double k q,
  bit_xor-shifted k q (r / 2) (omega (arith, pow-suc 2 k)),
)
