-- ===== src/Timer/Wheel/Turn.antt =====
-- How far the slots of a wheel lie ahead.
use cascade.Base.{
  ℕ, zero, suc, ◌+◌, ◌-◌, ◌*◌, ◌%◌, ◌^◌, ◌<◌, ◌≡◌, refl, ◌∙◌, ◌≢◌, true, false, arith, ◌==◌, leb,
  if◌then◌else◌,
}
use native.Mathlib.Nat.{suc-mul, mod-eq_of_lt, mod-eq-sub-mod, mod_self}
use native.Mathlib.Decide.{dec_lt}
use cascade.Base.Word.{add64}

-- The slots that the wheel still passes before it sweeps slot `i`.
abbrev pub distance : ℕ → ℕ → ℕ → ℕ
distance n current i = if leb current i then i - current else i + n - current

-- The next slot.
pub turn : (n c : ℕ) → c < n → n < 2 ^ 32 → add64 c 1 % n ≡ (if c + 1 == n then 0 else c + 1)
turn n c h small =
    let step : add64 c 1 ≡ c + 1 = omega arith in
    elim (dec_lt (c + 1) n) [
      | yes inside ↦
          let same = mod-eq_of_lt inside in
          let ne : (c + 1 == n) ≡ false = ground arith in rw (step, same, ne) refl
      | no around ↦
          let e : c + 1 ≡ n = omega arith in
          let eq : (c + 1 == n) ≡ true = ground arith in rw (step, eq) (rw (e) (mod_self n))
    ]

-- The slot that lies `m` ahead, `m` less than a revolution.
pub ahead : (n c m : ℕ) → c < n → m < n → ((c + m) % n < n) × (distance n c ((c + m) % n) ≡ m)
ahead n c m h k = elim (dec_lt (c + m) n) [
  | yes inside ↦ rw (mod-eq_of_lt inside) (inside, ground arith)
  | no around ↦
      let wrapped : (c + m) % n ≡ c + m - n =
        mod-eq-sub-mod (omega arith) ∙ mod-eq_of_lt (omega arith) in
      rw (wrapped) (omega arith, ground arith)
]

pub ==→≡ : (a b : ℕ) → (a == b) ≡ true → a ≡ b
==→≡ a b h = ground arith

pub time_up : (n c i r : ℕ) → c < n → i < n → distance n c i + r * n ≡ 0 → (i ≡ c) × (r ≡ 0)
time_up n c i zero hc hi e = (ground arith, refl)
time_up n c i (suc r) hc hi e = absurd (omega (arith, suc-mul r n))

-- One slot further, every other slot is one tick nearer.
pub nearer :
    (n c i r k : ℕ)
    → c < n
    → i < n
    → i ≢ c
    → distance n c i + r * n ≡ suc k
    → distance n (if c + 1 == n then 0 else c + 1) i + r * n ≡ k
nearer n c i r k hc hi ne e = ground arith

-- The slot just swept is a revolution less one away.
pub round_again :
    (n c r k : ℕ)
    → c < n
    → distance n c c + suc r * n ≡ suc k
    → distance n (if c + 1 == n then 0 else c + 1) c + r * n ≡ k
round_again n c r k hc e = ground (arith, suc-mul r n)
