-- ===== src/Timer/Wheel/Tests.antt =====
-- The theorems on the timer wheel at concrete inputs.
use cascade.Base.{ℕ, ◌-◌, ◌^◌, ◌<◌, [], ◌∷◌, arith}
use cascade.Timer.Wheel.{TimerWheel, ticks_of, add_timer, tick}
use cascade.Timer.Wheel.Fires.{IsWheel, Has, after, add_timer-fires}

-- Four slots of 100 ms.
abbrev four_slots : TimerWheel ℕ
four_slots = record {
  slots = [] ∷ [] ∷ [] ∷ [] ∷ [];
  tick_ms = 100;
  current_slot = 3;
  next_id = 1;
  id_to_slot = [];
}

four_slots-IsWheel : IsWheel four_slots
four_slots-IsWheel = record { turned = omega arith; small = omega arith }

short_delay : ticks_of 950 four_slots < 2 ^ 63
unfolding ticks_of
short_delay = omega arith

add_timer-fires_example :
    Has 7 (tick (after (ticks_of 950 four_slots - 1) (add_timer 950 7 four_slots).1)).0
add_timer-fires_example = add_timer-fires 950 7 four_slots four_slots-IsWheel short_delay
