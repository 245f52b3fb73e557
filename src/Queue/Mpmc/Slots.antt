-- ===== src/Queue/Mpmc/Slots.antt =====
-- The slots of the ring: which positions share one, and what a store to one leaves alone.
use cascade.Base.{
  ℕ, ◌+◌, ◌-◌, ◌/◌, ◌%◌, ◌^◌, ◌≤◌, ◌<◌, ◌≡◌, ap, sym, ◌∙◌, ◌≢◌, Option, arith, get_or, set, length,
  length-set, get_or-set_same, get_or-set_other,
}
use cascade.Base.Bits.{bit_and-ones}
use cascade.Queue.Mpmc.{Slot, MpmcQueue, blank_slot, slot_at, set_slot}
use native.Mathlib.Decide.{dec_lt}
use native.Mathlib.Nat.{mod-lt, mod-add-div', mul-le-mul_right, suc-mul}
use Prim.Native.Nat.{bit_and}

-- Numbers that are apart by less than `n` have different remainders by `n`.
pub short_apart : (n a d : ℕ) → 0 < d → d < n → a % n ≢ (a + d) % n
short_apart n a d positive short e =
    let low = mod-add-div' a n in
    let high = mod-add-div' (a + d) n in
    elim (dec_lt (a / n) ((a + d) / n)) [
      | yes more ↦
          let far = mul-le-mul_right {m = a / n + 1} {n = (a + d) / n} n (omega arith) in
          absurd (omega (arith, suc-mul (a / n) n))
      | no less ↦
          let near = mul-le-mul_right {m = (a + d) / n} {n = a / n} n (omega arith) in
          absurd (omega arith)
    ]

module _ {A : Type 0} where
  -- A ring of two or more slots, as many as a power of two.
  pub record Shape (q : MpmcQueue A) : Type 0 where
    pub bits : ℕ
    pub power : q.capacity ≡ 2 ^ bits
    pub masked : q.mask ≡ q.capacity - 1
    pub sized : length q.slots ≡ q.capacity
    pub two : 2 ≤ q.capacity

  unfoldable pub sequence_at : MpmcQueue A → ℕ → ℕ
  sequence_at q pos = (slot_at q pos).sequence

  unfoldable pub storage_at : MpmcQueue A → ℕ → Option A
  storage_at q pos = (slot_at q pos).storage

  module _ (q : MpmcQueue A) (h : Shape q) where
    masked_is : (x : ℕ) → bit_and x q.mask ≡ x % q.capacity
    masked_is x = rw (h.masked, h.power) (bit_and-ones h.bits x)

    masked_lt : (x : ℕ) → bit_and x q.mask < length q.slots
    masked_lt x =
        let l = mod-lt x {m = q.capacity} (omega (arith, h.two)) in
        omega (arith, l, masked_is x, h.sized)

    -- Positions with one remainder share a slot.
    pub shared : (x y : ℕ) → x % q.capacity ≡ y % q.capacity → slot_at q x ≡ slot_at q y
    unfolding slot_at
    shared x y e = ap (λ i. get_or q.slots i blank_slot) (masked_is x ∙ e ∙ sym (masked_is y))

    pub next_apart : (x y : ℕ) → y ≡ x + 1 → x % q.capacity ≢ y % q.capacity
    next_apart x y e = rw e (short_apart q.capacity x 1 (omega arith) (omega (arith, h.two)))

    pub lap_apart : (x y : ℕ) → x + 1 ≡ y + q.capacity → y % q.capacity ≢ x % q.capacity
    lap_apart x y e =
        let e' : x ≡ y + (q.capacity - 1) = omega (arith, h.two) in
        rw e'
          (short_apart q.capacity y (q.capacity - 1) (omega (arith, h.two)) (omega (arith, h.two)))

    pub set_slot-same :
        (p x : ℕ) (s : Slot A) → x % q.capacity ≡ p % q.capacity → slot_at (set_slot p s q) x ≡ s
    unfolding slot_at set_slot
    set_slot-same p x s e =
        ap (λ i. get_or (set q.slots (bit_and p q.mask) s) i blank_slot)
          (masked_is x ∙ e ∙ sym (masked_is p))
        ∙ get_or-set_same q.slots (bit_and p q.mask) s blank_slot (masked_lt p)

    pub set_slot-other :
        (p x : ℕ) (s : Slot A)
        → x % q.capacity ≢ p % q.capacity
        → slot_at (set_slot p s q) x ≡ slot_at q x
    unfolding slot_at set_slot
    set_slot-other p x s ne =
        get_or-set_other q.slots (bit_and p q.mask) (bit_and x q.mask) s blank_slot
          (λ e. ne (sym (masked_is x) ∙ sym e ∙ masked_is p))

    pub set_slot-Shape : (p : ℕ) (s : Slot A) → Shape (set_slot p s q)
    unfolding set_slot
    set_slot-Shape p s = record {
      bits = h.bits;
      power = h.power;
      masked = h.masked;
      sized = length-set q.slots (bit_and p q.mask) s ∙ h.sized;
      two = h.two;
    }
