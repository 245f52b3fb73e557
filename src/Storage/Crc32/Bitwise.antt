-- ===== src/Storage/Crc32/Bitwise.antt =====
-- The table-driven CRC against the plain one, which takes a byte in bit by bit.
use Prim.Native.Nat.{bit_and, bit_xor, differ}
use cascade.Base.{
  ℕ, zero, suc, ◌+◌, ◌*◌, ◌/◌, ◌%◌, ◌^◌, ◌<◌, ◌≡◌, refl, ap, sym, ◌∙◌, List, [], ◌∷◌, arith, get_or,
  ◌⊎◌, inl, inr,
}
use cascade.Base.Bits.{double, bit_xor-lt, bit_and-ones}
use cascade.Base.Xor.{
  half-bit_xor, parity-bit_xor, bit_xor_comm, bit_xor_assoc, bit_xor_left_comm, bit_xor_self,
  zero-bit_xor, bit_xor-zero, bit_xor-div, bit_xor-shifted,
}
use cascade.Storage.Bytes.{AreBytes}
use cascade.Storage.Crc32.{polynomial, crc_bit, crc_bits, table_from, crc32_table, crc_loop, crc32}

-- The definition of the checksum: add a byte, divide by the polynomial for eight bits.
pub crc_serial : ℕ → List ℕ → ℕ
crc_serial c [] = c
crc_serial c (d ∷ ds) = crc_serial (crc_bits 8 (bit_xor c d)) ds

crc_bit_even : (c : ℕ) → c % 2 ≡ 0 → crc_bit c ≡ c / 2
unfolding crc_bit
crc_bit_even c h = ground (arith, bit_and-ones 1 c)

crc_bit_odd : (c : ℕ) → c % 2 ≡ 1 → crc_bit c ≡ bit_xor polynomial (c / 2)
unfolding crc_bit
crc_bit_odd c h = ground (arith, bit_and-ones 1 c)

parity_cases : (c : ℕ) → (c % 2 ≡ 0) ⊎ (c % 2 ≡ 1)
parity_cases c = omega arith

parity : (a b : ℕ) {x y : ℕ} → a % 2 ≡ x → b % 2 ≡ y → bit_xor a b % 2 ≡ differ x y
parity a b e h = rw (parity-bit_xor a b, e, h)

-- Added to both sides, a number cancels.
cancel : (p a b : ℕ) → bit_xor (bit_xor p a) (bit_xor p b) ≡ bit_xor a b
cancel p a b =
    rw
      (
        bit_xor_assoc p a (bit_xor p b),
        bit_xor_left_comm a p b,
        ← bit_xor_assoc p p (bit_xor a b),
        bit_xor_self p,
      )
      (zero-bit_xor (bit_xor a b))

-- Division by the polynomial is linear.
crc_bit-bit_xor : (a b : ℕ) → crc_bit (bit_xor a b) ≡ bit_xor (crc_bit a) (crc_bit b)
crc_bit-bit_xor a b = elim (parity_cases a) [
  | inl ea ↦ elim (parity_cases b) [
    | inl eb ↦
        rw (crc_bit_even (bit_xor a b) (parity a b ea eb), crc_bit_even a ea, crc_bit_even b eb)
          (half-bit_xor a b)
    | inr ob ↦
        rw
          (
            crc_bit_odd (bit_xor a b) (parity a b ea ob),
            crc_bit_even a ea,
            crc_bit_odd b ob,
            half-bit_xor a b,
          )
          (bit_xor_left_comm polynomial (a / 2) (b / 2))
  ]
  | inr oa ↦ elim (parity_cases b) [
    | inl eb ↦
        rw
          (
            crc_bit_odd (bit_xor a b) (parity a b oa eb),
            crc_bit_odd a oa,
            crc_bit_even b eb,
            half-bit_xor a b,
          )
          (sym (bit_xor_assoc polynomial (a / 2) (b / 2)))
    | inr ob ↦
        rw
          (
            crc_bit_even (bit_xor a b) (parity a b oa ob),
            crc_bit_odd a oa,
            crc_bit_odd b ob,
            half-bit_xor a b,
          )
          (sym (cancel polynomial (a / 2) (b / 2)))
  ]
]

crc_bits-bit_xor : (k a b : ℕ) → crc_bits k (bit_xor a b) ≡ bit_xor (crc_bits k a) (crc_bits k b)
unfolding crc_bits
crc_bits-bit_xor zero a b = refl
crc_bits-bit_xor (suc k) a b = rw (crc_bit-bit_xor a b) (crc_bits-bit_xor k (crc_bit a) (crc_bit b))

-- Zero bits only shift.
shift_bit : (q : ℕ) → crc_bit (q * 2) ≡ q
shift_bit q = crc_bit_even (q * 2) (omega arith) ∙ omega arith

crc_bits_shift : (k q : ℕ) → crc_bits k (q * 2 ^ k) ≡ q
unfolding crc_bits
crc_bits_shift zero q = omega arith
crc_bits_shift (suc k) q = rw (double k q, shift_bit (q * 2 ^ k)) (crc_bits_shift k q)

table-get_or : (n i j : ℕ) → j < n → get_or (table_from n i) j 0 ≡ crc_bits 8 (i + j)
unfolding table_from
table-get_or zero i j h = absurd (omega arith)
table-get_or (suc n) i zero h = ap (crc_bits 8) (omega arith)
table-get_or (suc n) i (suc j) h =
    table-get_or n (i + 1) j (omega arith) ∙ ap (crc_bits 8) (omega arith)

-- A step of the table is eight steps of the division.
table_step :
    (c d : ℕ)
    → d < 256
    → bit_xor (get_or crc32_table (bit_and (bit_xor c d) 0xFF) 0) (c / 2 ^ 8)
      ≡ crc_bits 8 (bit_xor c d)
unfolding crc32_table
table_step c d h =
    let w = bit_xor c d in
    let top : w / 256 ≡ c / 256 = bit_xor-div 8 c d ∙ small (c / 256) in
    let parts : w ≡ bit_xor (w / 256 * 2 ^ 8) (w % 256) =
      omega (arith, bit_xor-shifted 8 (w / 256) (w % 256) (omega arith)) in
    let first : 0 + w % 256 ≡ w % 256 = omega arith in
    rw (bit_and-ones 8 w, table-get_or 256 0 (w % 256) (omega arith), first)
      (sym (
        ap (crc_bits 8) parts
        ∙ crc_bits-bit_xor 8 (w / 256 * 2 ^ 8) (w % 256)
        ∙ rw (crc_bits_shift 8 (w / 256), top, bit_xor_comm (c / 256) (crc_bits 8 (w % 256)))))
  where
    small : (x : ℕ) → bit_xor x (d / 2 ^ 8) ≡ x
    small x = let e : d / 2 ^ 8 ≡ 0 = omega arith in rw e (bit_xor-zero x)

crc_loop-eq-crc_serial : (ds : List ℕ) (c : ℕ) → AreBytes ds → crc_loop c ds ≡ crc_serial c ds
unfolding crc_loop crc_serial
crc_loop-eq-crc_serial [] c h = refl
crc_loop-eq-crc_serial (d ∷ ds) c h =
    rw (table_step c d h.0) (crc_loop-eq-crc_serial ds (crc_bits 8 (bit_xor c d)) h.1)

-- On bytes, the table-driven checksum is the plain one, which divides by the polynomial bit by bit.
pub crc32-eq-serial :
    (ds : List ℕ) → AreBytes ds → crc32 ds ≡ bit_xor (crc_serial 0xFFFFFFFF ds) 0xFFFFFFFF
unfolding crc32
crc32-eq-serial ds h = ap (λ c. bit_xor c 0xFFFFFFFF) (crc_loop-eq-crc_serial ds 0xFFFFFFFF h)

crc_bit-lt : (c : ℕ) → c < 2 ^ 32 → crc_bit c < 2 ^ 32
crc_bit-lt c h = elim (parity_cases c) [
  | inl e ↦ rw (crc_bit_even c e) (omega arith)
  | inr o ↦ rw (crc_bit_odd c o) (bit_xor-lt 32 polynomial (c / 2) (omega arith) (omega arith))
]

crc_bits-lt : (k c : ℕ) → c < 2 ^ 32 → crc_bits k c < 2 ^ 32
unfolding crc_bits
crc_bits-lt zero c h = h
crc_bits-lt (suc k) c h = crc_bits-lt k (crc_bit c) (crc_bit-lt c h)

crc_serial-lt : (ds : List ℕ) (c : ℕ) → AreBytes ds → c < 2 ^ 32 → crc_serial c ds < 2 ^ 32
unfolding crc_serial
crc_serial-lt [] c b h = h
crc_serial-lt (d ∷ ds) c b h =
    crc_serial-lt ds (crc_bits 8 (bit_xor c d)) b.1
      (crc_bits-lt 8 (bit_xor c d) (bit_xor-lt 32 c d h (omega arith)))

-- A checksum fits its 32-bit field.
pub crc32-lt : (ds : List ℕ) → AreBytes ds → crc32 ds < 2 ^ 32
crc32-lt ds h = rw (crc32-eq-serial ds h) (
    bit_xor-lt 32 (crc_serial 0xFFFFFFFF ds) 0xFFFFFFFF
      (crc_serial-lt ds 0xFFFFFFFF h (omega arith)) (omega arith))
