-- ===== src/Media/Session/Tests.antt =====
-- The theorem on the audio session at a concrete input.
use cascade.Base.Dict.{find}
use cascade.Base.{true, false, some, refl, ◌==◌, if◌then◌else◌, ℕ, ◌≡◌, List, [], ◌∷◌, arith}
use cascade.Media.JitterBuffer.{JitterBuffer}
use cascade.Media.Session.{
  AudioSender, AudioReceiver, prepare_frame, handle_nack, handle_audio, request_retransmit,
}
use cascade.Media.Session.Recovery.{prepare_all, retransmit-recovers}

abbrev sender : AudioSender
sender = record {
  frame_interval_ms = 20;
  sequence = 5;
  cache = record { capacity = 256; cache = (4, 1 ∷ []) ∷ []; order = 4 ∷ [] };
}

abbrev waiting : JitterBuffer
waiting = record {
  frame_interval_ms = 20;
  target_delay_ms = 60;
  started = true;
  base_arrival_ms = 0;
  base_sequence = 3;
  next_sequence = 3;
  buffer = (4, 1 ∷ []) ∷ [];
  last_good_payload = [];
  has_last_good = false;
  concealed_count = 0;
  packets_played = 0;
  late_after_deadline = 0;
}

abbrev receiver : AudioReceiver
receiver = record { jitter = waiting }

abbrev samples : List ℕ
samples = 1 ∷ 2 ∷ 3 ∷ []

-- Two frames later, the receiver, which waits for frame 3, asks for frame 5.
retransmit-recovers_example :
    (handle_nack
        (request_retransmit 5)
        (prepare_all (samples ∷ samples ∷ []) (prepare_frame samples sender).1)
      ≡ (prepare_frame samples sender).0 ∷ [])
    × (find 5 (handle_audio 100 (prepare_frame samples sender).0 receiver).jitter.buffer
        ≡ (if 5 == 5 then some samples else find 5 receiver.jitter.buffer))
retransmit-recovers_example =
    retransmit-recovers samples (samples ∷ samples ∷ []) 100 sender receiver 5 (omega arith)
      (omega arith) (omega arith) (omega arith) ((λ e. absurd (omega arith)), tt) refl (omega arith)
