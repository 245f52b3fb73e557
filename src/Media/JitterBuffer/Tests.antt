-- ===== src/Media/JitterBuffer/Tests.antt =====
-- The theorems on the jitter buffer at concrete inputs.
use cascade.Base.{ℕ, zero, suc, arith, ◌≤◌, ◌<◌, ◌≡◌, refl, true, false, [], ◌∷◌}
use cascade.Media.JitterBuffer.{JitterBuffer, pull, deadline}
use cascade.Media.JitterBuffer.Playout.{pulled, slot_at, expected, pull-expected}

-- Frame 100 of every 20 ms has arrived, at time 0; 60 ms are buffered.
abbrev running : JitterBuffer
running = record {
  frame_interval_ms = 20;
  target_delay_ms = 60;
  started = true;
  base_arrival_ms = 0;
  base_sequence = 100;
  next_sequence = 100;
  buffer = (100, 1 ∷ []) ∷ [];
  last_good_payload = [];
  has_last_good = false;
  concealed_count = 0;
  packets_played = 0;
  late_after_deadline = 0;
}

-- Frame 101 is missing; each slot is pulled when all deadlines have passed.
due : (k : ℕ) → k < 2 → deadline (record running { next_sequence = slot_at k running }) ≤ 1000
unfolding deadline
due zero h = omega arith
due (suc zero) h = omega arith
due (suc (suc k)) h = absurd (omega arith)

-- The second pull conceals with the payload of the first.
pull-expected_example : (pull 1000 (pulled (λ k. 1000) 1 running)).0 ≡ expected running 1
pull-expected_example =
    pull-expected (λ k. 1000) 2 running refl (omega arith) (omega arith) due 1 (omega arith)
