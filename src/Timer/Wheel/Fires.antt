-- ===== src/Timer/Wheel/Fires.antt =====
-- When a timer fires.
use cascade.Base.{
  ℕ, zero, suc, ◌+◌, ◌-◌, ◌*◌, ◌/◌, ◌%◌, ◌^◌, ◌<◌, ◌≡◌, refl, ap, subst, sym, ◌∙◌, ◌≢◌, ◌⊎◌, inl,
  inr, true, false, List, [], ◌∷◌, ◌++◌, arith, ◌==◌, length, length-set, get_or-set_same,
  get_or-set_other, Bool-cases,
}
use native.Mathlib.Nat.{mod-lt, mod-add-div', add-mod-mod}
use cascade.Base.Word.{add64, sub64}
use cascade.Base.Dict.{erase}
use cascade.Timer.Wheel.Turn.{distance, turn, ahead, ==→≡, time_up, nearer, round_again}
use cascade.Timer.Wheel.{Entry, TimerWheel, bucket_at, ticks_of, add_timer, sweep, tick}

ticks_positive : {A : Type 0} (delay : ℕ) (w : TimerWheel A) → 0 < ticks_of delay w
unfolding ticks_of
ticks_positive delay w = ground arith

module _ {A : Type 0} where
  abbrev pub Has : A → List A → Type 0
  Has a [] = ⊥
  Has a (x ∷ xs) = (a ≡ x) ⊎ Has a xs

  -- An entry of that callback and that many revolutions is in the bucket.
  abbrev pub HasEntry : A → ℕ → List (Entry A) → Type 0
  HasEntry cb r [] = ⊥
  HasEntry cb r (e ∷ es) = ((e.callback ≡ cb) × (e.remaining_revolutions ≡ r)) ⊎ HasEntry cb r es

  -- `cb` is due in the tick after `k` more.
  pub record DueAfter (k : ℕ) (cb : A) (w : TimerWheel A) : Type 0 where
    pub slot : ℕ
    pub revolutions : ℕ
    pub inside : slot < length w.slots
    pub there : HasEntry cb revolutions (bucket_at slot w)
    pub time : distance (length w.slots) w.current_slot slot + revolutions * length w.slots ≡ k

  -- The wheel stands at one of its slots.
  pub record IsWheel (w : TimerWheel A) : Type 0 where
    pub turned : w.current_slot < length w.slots
    pub small : length w.slots < 2 ^ 32

  HasEntry-last :
      (cb : A) (r id : ℕ) (es : List (Entry A))
      → HasEntry cb r (es ++ record { id = id; remaining_revolutions = r; callback = cb } ∷ [])
  HasEntry-last cb r id [] = inl (refl, refl)
  HasEntry-last cb r id (e ∷ es) = inr (HasEntry-last cb r id es)

  sweep-due :
      (cb : A) (es : List (Entry A)) (ids : List (ℕ × ℕ))
      → HasEntry cb 0 es
      → Has cb (sweep es ids).0.0
  unfolding sweep
  sweep-due cb [] ids h = h
  sweep-due cb (e ∷ es) ids (inl (c, z)) =
      let now : (e.remaining_revolutions == 0) ≡ true = ground arith in rw (now) (inl (sym c))
  sweep-due cb (e ∷ es) ids (inr h) = elim (Bool-cases (e.remaining_revolutions == 0)) [
    | inl now ↦ rw (now) (inr (sweep-due cb es (erase e.id ids) h))
    | inr later ↦ rw (later) (sweep-due cb es ids h)
  ]

  sweep-remaining :
      (cb : A) (r : ℕ) (es : List (Entry A)) (ids : List (ℕ × ℕ))
      → HasEntry cb (suc r) es
      → HasEntry cb r (sweep es ids).0.1
  unfolding sweep
  sweep-remaining cb r [] ids h = h
  sweep-remaining cb r (e ∷ es) ids (inl (c, z)) =
      let later : (e.remaining_revolutions == 0) ≡ false = ground arith in
      rw (later) (inl (c, omega arith))
  sweep-remaining cb r (e ∷ es) ids (inr h) = elim (Bool-cases (e.remaining_revolutions == 0)) [
    | inl now ↦ rw (now) (sweep-remaining cb r es (erase e.id ids) h)
    | inr later ↦ rw (later) (inr (sweep-remaining cb r es ids h))
  ]

  -- A timer is set for the tick that its delay asks for, counted from the next one on.
  add_timer-DueAfter :
      (delay : ℕ) (cb : A) (w : TimerWheel A)
      → IsWheel w
      → ticks_of delay w < 2 ^ 63
      → DueAfter (ticks_of delay w - 1) cb (add_timer delay cb w).1
  unfolding add_timer
  add_timer-DueAfter delay cb w ok short =
      let n = length w.slots in
      let t = ticks_of delay w in
      let positive = ticks_positive delay w in
      let at : sub64 (add64 w.current_slot t) 1 % n ≡ (w.current_slot + (t - 1) % n) % n =
        ap (λ x. x % n) (omega (arith, ok.turned, ok.small, short))
        ∙ sym (add-mod-mod w.current_slot (t - 1) n) in
      let (inside, dist) =
        ahead n w.current_slot ((t - 1) % n) ok.turned
          (mod-lt (t - 1) (omega (arith, ok.turned))) in
      let i = (w.current_slot + (t - 1) % n) % n in
      let size = length-set w.slots i (
        bucket_at i w
        ++ record { id = w.next_id; remaining_revolutions = (t - 1) / n; callback = cb } ∷ []) in
      rw (at) (record {
        slot = i;
        revolutions = (t - 1) / n;
        inside = rw (size) inside;
        there =
            rw
              (get_or-set_same w.slots i
                (bucket_at i w
                  ++ record { id = w.next_id; remaining_revolutions = (t - 1) / n; callback = cb }
                    ∷ [])
                [] inside)
              (HasEntry-last cb ((t - 1) / n) w.next_id (bucket_at i w));
        time = rw (size) (rw (dist) (mod-add-div' (t - 1) n));
      })

  tick-IsWheel : (w : TimerWheel A) → IsWheel w → IsWheel (tick w).1
  unfolding tick
  tick-IsWheel w ok = record {
    turned =
        rw (length-set w.slots w.current_slot (sweep (bucket_at w.current_slot w) w.id_to_slot).0.1)
          (mod-lt (add64 w.current_slot 1) (omega (arith, ok.turned)));
    small =
        rw (length-set w.slots w.current_slot (sweep (bucket_at w.current_slot w) w.id_to_slot).0.1)
          ok.small;
  }

  tick-here :
      (r k : ℕ) (cb : A) (w : TimerWheel A)
      → IsWheel w
      → HasEntry cb r (bucket_at w.current_slot w)
      → distance (length w.slots) w.current_slot w.current_slot + r * length w.slots ≡ suc k
      → DueAfter k cb (tick w).1
  unfolding tick
  tick-here zero k cb w ok h e = absurd (ground arith)
  tick-here (suc r) k cb w ok h e =
      let size =
        length-set w.slots w.current_slot (sweep (bucket_at w.current_slot w) w.id_to_slot).0.1 in
      record {
        slot = w.current_slot;
        revolutions = r;
        inside = rw (size) ok.turned;
        there =
            rw
              (get_or-set_same w.slots w.current_slot
                (sweep (bucket_at w.current_slot w) w.id_to_slot).0.1 [] ok.turned)
              (sweep-remaining cb r (bucket_at w.current_slot w) w.id_to_slot h);
        time =
            rw (size, turn (length w.slots) w.current_slot ok.turned ok.small)
              (round_again (length w.slots) w.current_slot r k ok.turned e);
      }

  tick-DueAfter :
      (k : ℕ) (cb : A) (w : TimerWheel A)
      → IsWheel w
      → DueAfter (suc k) cb w
      → DueAfter k cb (tick w).1
  unfolding tick
  tick-DueAfter k cb w ok d = elim (Bool-cases (d.slot == w.current_slot)) [
    | inl here ↦
        tick-here d.revolutions k cb w ok
          (subst (λ i. HasEntry cb d.revolutions (bucket_at i w)) (==→≡ d.slot w.current_slot here)
            d.there)
          (subst
            (λ i.
              distance (length w.slots) w.current_slot i + d.revolutions * length w.slots ≡ suc k)
            (==→≡ d.slot w.current_slot here) d.time)
    | inr away ↦
        let ne : w.current_slot ≢ d.slot = λ e. absurd (ground arith) in
        record {
          slot = d.slot;
          revolutions = d.revolutions;
          inside =
              rw
                (length-set w.slots w.current_slot
                  (sweep (bucket_at w.current_slot w) w.id_to_slot).0.1)
                d.inside;
          there =
              rw
                (get_or-set_other w.slots w.current_slot d.slot
                  (sweep (bucket_at w.current_slot w) w.id_to_slot).0.1 [] ne)
                d.there;
          time =
              rw
                (
                  length-set w.slots w.current_slot
                      (sweep (bucket_at w.current_slot w) w.id_to_slot).0.1,
                  turn (length w.slots) w.current_slot ok.turned ok.small,
                )
                (nearer (length w.slots) w.current_slot d.slot d.revolutions k ok.turned d.inside
                  (λ e. ne (sym e)) d.time);
        }
  ]

  -- A timer that is due after no more ticks fires in the next one.
  tick-fires : (cb : A) (w : TimerWheel A) → IsWheel w → DueAfter 0 cb w → Has cb (tick w).0
  unfolding tick
  tick-fires cb w ok d =
      let (here, now) =
        time_up (length w.slots) w.current_slot d.slot d.revolutions ok.turned d.inside d.time in
      sweep-due cb (bucket_at w.current_slot w) w.id_to_slot (
        subst (λ r. HasEntry cb r (bucket_at w.current_slot w)) now
          (subst (λ i. HasEntry cb d.revolutions (bucket_at i w)) here d.there))

  add_timer-IsWheel :
      (delay : ℕ) (cb : A) (w : TimerWheel A) → IsWheel w → IsWheel (add_timer delay cb w).1
  unfolding add_timer
  add_timer-IsWheel delay cb w ok =
      let i = sub64 (add64 w.current_slot (ticks_of delay w)) 1 % length w.slots in
      let size = length-set w.slots i (
        bucket_at i w
        ++ record {
          id = w.next_id;
          remaining_revolutions = (ticks_of delay w - 1) / length w.slots;
          callback = cb;
        }
          ∷ []) in
      record { turned = rw (size) ok.turned; small = rw (size) ok.small }

  -- The wheel after `k` ticks.
  abbrev pub after : ℕ → TimerWheel A → TimerWheel A
  after zero w = w
  after (suc k) w = after k (tick w).1

  after-fires :
      (k : ℕ) (cb : A) (w : TimerWheel A)
      → IsWheel w
      → DueAfter k cb w
      → Has cb (tick (after k w)).0
  after-fires zero cb w ok d = tick-fires cb w ok d
  after-fires (suc k) cb w ok d =
      after-fires k cb (tick w).1 (tick-IsWheel w ok) (tick-DueAfter k cb w ok d)

  -- On a wheel of fewer than 2 ^ 32 slots, for a delay of fewer than 2 ^ 63 ticks, a timer fires: its callback is among those that the tick returns which lies its delay in
  -- ticks, one at least, ahead, however many revolutions of the wheel that takes.
  pub add_timer-fires :
      (delay : ℕ) (cb : A) (w : TimerWheel A)
      → IsWheel w
      → ticks_of delay w < 2 ^ 63
      → Has cb (tick (after (ticks_of delay w - 1) (add_timer delay cb w).1)).0
  add_timer-fires delay cb w ok short =
      after-fires (ticks_of delay w - 1) cb (add_timer delay cb w).1
        (add_timer-IsWheel delay cb w ok) (add_timer-DueAfter delay cb w ok short)
