-- ===== src/Queue/Spsc/Fifo.antt =====
-- The ring buffer as a first-in, first-out queue of bounded size.
use cascade.Base.{
  ℕ, suc, ◌+◌, ◌-◌, ◌/◌, ◌%◌, ◌^◌, ◌≤◌, ◌<◌, ◌≡◌, refl, ap, subst, sym, ◌∙◌, ◌≢◌, ◌⊎◌, inl, inr,
  true, false, List, [], ◌∷◌, ◌++◌, none, some, arith, ltb, leb, length, length-set, length-append,
  get_or, get_elem?, get_elem?-append_left, get_elem?-append_right, set, Bool-cases,
  get_or-set_same, get_or-set_other,
}
use native.Mathlib.Decide.{dec_lt}
use native.Mathlib.Nat.{mod-lt, mod-add-div', mul-le-mul_right, suc-mul}
use cascade.Base.Bits.{bit_and-ones}
use cascade.Base.Word.{add64, sub64}
use cascade.Queue.Spsc.{SpscQueue, put, take_out, try_push, try_pop}
use Prim.Native.Nat.{bit_and}

-- Numbers less than `n` apart are different modulo `n`.
apart : (n a d : ℕ) → 0 < d → d < n → a % n ≢ (a + d) % n
apart n a d positive short e =
    let p = a / n in
    let p' = (a + d) / n in
    let low = mod-add-div' a n in
    let high = mod-add-div' (a + d) n in
    elim (dec_lt p p') [
      | yes more ↦
          let far = mul-le-mul_right {m = p + 1} {n = p'} n (omega arith) in
          absurd (omega (arith, suc-mul p n))
      | no less ↦
          let near = mul-le-mul_right {m = p'} {n = p} n (omega arith) in absurd (omega arith)
    ]

module _ {A : Type 0} where
  -- The queue holds `xs`, the oldest first. The counters stay below 2 ^ 64.
  pub record HoldsFifo (q : SpscQueue A) (xs : List A) : Type 0 where
    pub bits : ℕ
    pub power : q.capacity ≡ 2 ^ bits
    pub masked : q.mask ≡ q.capacity - 1
    pub sized : length q.buffer ≡ q.capacity
    pub fits : length xs ≤ q.capacity
    pub ends : q.tail ≡ q.head + length xs
    pub small : q.tail < 2 ^ 64
    pub seen_head : q.head_cached ≤ q.head
    pub seen_tail : q.tail_cached ≤ q.tail
    pub stored :
        (i : ℕ) → i < length xs → get_or q.buffer ((q.head + i) % q.capacity) none ≡ get_elem? xs i

  slot_of :
      (q : SpscQueue A) (xs : List A) (x : ℕ) → HoldsFifo q xs → bit_and x q.mask ≡ x % q.capacity
  slot_of q xs x h = rw (h.masked, h.power) (bit_and-ones h.bits x)

  put-stored :
      (v : A) (q : SpscQueue A) (xs : List A)
      → HoldsFifo q xs
      → length xs < q.capacity
      → (i : ℕ) → i < length xs + 1
      → get_or (set q.buffer (q.tail % q.capacity) (some v)) ((q.head + i) % q.capacity) none
        ≡ get_elem? (xs ++ v ∷ []) i
  put-stored v q xs h room i within = elim (dec_lt i (length xs)) [
    | yes old ↦
        let other = apart q.capacity (q.head + i) (length xs - i) (omega arith) (omega arith) in
        let end : q.head + i + (length xs - i) ≡ q.tail = omega (arith, h.ends) in
        get_or-set_other q.buffer (q.tail % q.capacity) ((q.head + i) % q.capacity) (some v) none
          (λ e. other (sym (ap (λ j. j % q.capacity) end ∙ e)))
        ∙ h.stored i old
        ∙ sym (get_elem?-append_left i xs (v ∷ []) old)
    | no new ↦
        let at : i ≡ length xs + 0 = omega arith in
        let end : q.head + i ≡ q.tail = omega (arith, h.ends) in
        rw (end) (
          get_or-set_same q.buffer (q.tail % q.capacity) (some v) none
            (subst (λ m. q.tail % q.capacity < m) (sym h.sized) (mod-lt q.tail (omega arith)))
          ∙ sym (ap (get_elem? (xs ++ v ∷ [])) at ∙ get_elem?-append_right 0 xs (v ∷ [])))
  ]

  rest-stored :
      (x : A) (q : SpscQueue A) (xs : List A)
      → HoldsFifo q (x ∷ xs)
      → (i : ℕ) → i < length xs
      → get_or (set q.buffer (q.head % q.capacity) none) ((q.head + 1 + i) % q.capacity) none
        ≡ get_elem? xs i
  rest-stored x q xs h i within =
      let ahead : q.head + 1 + i ≡ q.head + suc i = omega arith in
      let other = apart q.capacity q.head (suc i) (omega arith) (omega (arith, h.fits)) in
      rw (ahead) (
        get_or-set_other q.buffer (q.head % q.capacity) ((q.head + suc i) % q.capacity) none none
          other
        ∙ h.stored (suc i) (omega arith))

  put-HoldsFifo :
      (v : A) (q : SpscQueue A) (xs : List A)
      → HoldsFifo q xs
      → length xs < q.capacity
      → q.tail + 1 < 2 ^ 64
      → HoldsFifo (put v q) (xs ++ v ∷ [])
  put-HoldsFifo v q xs h room small =
      let at = slot_of q xs q.tail h in
      let step : add64 q.tail 1 ≡ q.tail + 1 = omega arith in
      let more = length-append xs (v ∷ []) in
      rw (at, step)
        (record {
          bits = h.bits;
          power = h.power;
          masked = h.masked;
          sized = length-set q.buffer (q.tail % q.capacity) (some v) ∙ h.sized;
          fits = omega arith;
          ends = omega (arith, h.ends);
          small = omega arith;
          seen_head = h.seen_head;
          seen_tail = omega (arith, h.seen_tail);
          stored = λ i within. put-stored v q xs h room i (omega (arith, within));
        })

  take_out-HoldsFifo :
      (x : A) (q : SpscQueue A) (xs : List A)
      → HoldsFifo q (x ∷ xs)
      → ((take_out q).0 ≡ some x) × HoldsFifo (take_out q).1 xs
  take_out-HoldsFifo x q xs h =
      let at = slot_of q (x ∷ xs) q.head h in
      let step : add64 q.head 1 ≡ q.head + 1 = omega (arith, h.ends, h.small) in
      let here : q.head + 0 ≡ q.head = omega arith in
      rw (at, step)
        (
          subst (λ j. get_or q.buffer (j % q.capacity) none ≡ some x) here
              (h.stored 0 (omega arith)),
          record {
            bits = h.bits;
            power = h.power;
            masked = h.masked;
            sized = length-set q.buffer (q.head % q.capacity) none ∙ h.sized;
            fits = omega (arith, h.fits);
            ends = omega (arith, h.ends);
            small = h.small;
            seen_head = omega (arith, h.seen_head);
            seen_tail = h.seen_tail;
            stored = λ i within. rest-stored x q xs h i within;
          },
        )

  refresh_head :
      (q : SpscQueue A) (xs : List A)
      → HoldsFifo q xs
      → HoldsFifo (record q { head_cached = q.head }) xs
  refresh_head q xs h = record {
    bits = h.bits;
    power = h.power;
    masked = h.masked;
    sized = h.sized;
    fits = h.fits;
    ends = h.ends;
    small = h.small;
    seen_head = omega arith;
    seen_tail = h.seen_tail;
    stored = h.stored;
  }

  refresh_tail :
      (q : SpscQueue A) (xs : List A)
      → HoldsFifo q xs
      → HoldsFifo (record q { tail_cached = q.tail }) xs
  refresh_tail q xs h = record {
    bits = h.bits;
    power = h.power;
    masked = h.masked;
    sized = h.sized;
    fits = h.fits;
    ends = h.ends;
    small = h.small;
    seen_head = h.seen_head;
    seen_tail = omega arith;
    stored = h.stored;
  }

  -- A push appends while there is room, and is refused, with nothing changed, just when the queue
  -- is full. The counters must not have come to 2 ^ 64.
  pub try_push_lem :
      (v : A) (q : SpscQueue A) (xs : List A)
      → HoldsFifo q xs
      → q.tail + 1 < 2 ^ 64
      → (((try_push v q).0 ≡ true)
          × (length xs < q.capacity)
          × HoldsFifo (try_push v q).1 (xs ++ v ∷ []))
        ⊎ (((try_push v q).0 ≡ false) × (length xs ≡ q.capacity) × HoldsFifo (try_push v q).1 xs)
  unfolding try_push
  try_push_lem v q xs h small =
      elim (Bool-cases (ltb q.capacity (sub64 (add64 q.tail 1) q.head_cached))) [
        | inr direct ↦
            let room : length xs < q.capacity = ground (arith, h.ends, h.seen_head) in
            inl (rw (direct) refl, room, rw (direct) (put-HoldsFifo v q xs h room small))
        | inl stale ↦ elim (Bool-cases (ltb q.capacity (sub64 (add64 q.tail 1) q.head))) [
          | inl full ↦ inr (
            rw (stale, full) refl,
            ground (arith, h.ends, h.fits),
            rw (stale, full) (refresh_head q xs h),
          )
          | inr free ↦
              let room : length xs < q.capacity = ground (arith, h.ends) in
              inl (
                rw (stale, free) refl,
                room,
                rw (stale, free)
                    (put-HoldsFifo v (record q { head_cached = q.head }) xs (refresh_head q xs h)
                      room small),
              )
        ]
      ]

  -- A pop returns the oldest object and leaves the rest, and returns nothing just when the queue is
  -- empty.
  pub try_pop_lem :
      (q : SpscQueue A) (xs : List A)
      → HoldsFifo q xs
      → ((xs ≡ []) × ((try_pop q).0 ≡ none) × HoldsFifo (try_pop q).1 [])
        ⊎ ((x : A) × (rest : List A) × (xs ≡ x ∷ rest)
            × ((try_pop q).0 ≡ some x)
            × HoldsFifo (try_pop q).1 rest)
  unfolding try_pop
  try_pop_lem q [] h =
      let stale : leb q.tail_cached q.head ≡ true = ground (arith, h.ends, h.seen_tail) in
      let empty : leb q.tail q.head ≡ true = ground (arith, h.ends) in
      inl (refl, rw (stale, empty) refl, rw (stale, empty) (refresh_tail q [] h))
  try_pop_lem q (x ∷ rest) h =
      let some_left : leb q.tail q.head ≡ false = ground (arith, h.ends) in
      elim (Bool-cases (leb q.tail_cached q.head)) [
        | inr direct ↦
            let (e, held) = take_out-HoldsFifo x q rest h in
            inr (x, rest, refl, rw (direct) e, rw (direct) held)
        | inl stale ↦
            let (e, held) =
              take_out-HoldsFifo x (record q { tail_cached = q.tail }) rest
                (refresh_tail q (x ∷ rest) h) in
            inr (x, rest, refl, rw (stale, some_left) e, rw (stale, some_left) held)
      ]
