-- ===== src/Media/AdaptiveSender.antt =====
-- cpp/core/media/adaptive_sender.hpp: the queue of packets drained against a token bucket, which only
-- the packets of normal priority pay. The controller and its estimator are arguments of `drain`.
pub mod Drain
pub mod Tests
use cascade.Base.{
  ℕ, zero, suc, ◌+◌, ◌-◌, Bool, true, false, List, [], ◌∷◌, ◌++◌, Option, none, some, ltb,
  if◌then◌else◌, length,
}
use cascade.Base.Word.{add64}
use cascade.Base.Double.{Doubles, lesser}
use cascade.Media.SendQueue.{
  PacketPriority, high, normal, PriorityPacketQueue, push, pop_with_priority, size,
}
use cascade.Media.NetworkEstimator.{NetworkConditionEstimator}
use cascade.Media.BitrateController.{BitrateController, QualityLevel, evaluate, current}

pub record DeterministicTokenBucket (D : Type 0) : Type 0 where
  pub rate_bytes_per_sec : D
  pub capacity_bytes : D
  pub tokens : D
  pub last_refill_ms : ℕ
  pub initialized : Bool

pub record AdaptiveSender (D : Type 0) : Type 0 where
  pub queue : PriorityPacketQueue
  pub bucket : DeterministicTokenBucket D
  pub dropped_count : ℕ

module _ (D : Doubles) where
  pub new_bucket : DeterministicTokenBucket D.Double
  new_bucket = record {
    rate_bytes_per_sec = D.of_nat 0;
    capacity_bytes = D.of_nat 0;
    tokens = D.of_nat 0;
    last_refill_ms = 0;
    initialized = false;
  }

  pub refill : ℕ → DeterministicTokenBucket D.Double → DeterministicTokenBucket D.Double
  refill now_ms b =
      let elapsed_sec =
        if ltb b.last_refill_ms now_ms
        then D.div (D.of_nat (now_ms - b.last_refill_ms)) (D.of_nat 1000)
        else D.of_nat 0 in
      record b {
        last_refill_ms = now_ms;
        tokens =
            lesser D b.capacity_bytes (D.add b.tokens (D.mul elapsed_sec b.rate_bytes_per_sec));
      }

  pub reconfigure :
      D.Double
      → D.Double
      → ℕ
      → DeterministicTokenBucket D.Double
      → DeterministicTokenBucket D.Double
  reconfigure rate capacity now_ms b =
      let settled =
        if b.initialized
        then refill now_ms b
        else record b { tokens = capacity; last_refill_ms = now_ms; initialized = true } in
      record settled {
        rate_bytes_per_sec = rate;
        capacity_bytes = capacity;
        tokens = lesser D settled.tokens capacity;
      }

  pub try_consume :
      D.Double → ℕ → DeterministicTokenBucket D.Double → Bool × DeterministicTokenBucket D.Double
  try_consume bytes now_ms b =
      let full = refill now_ms b in
      if D.leq bytes full.tokens
      then (true, record full { tokens = D.sub full.tokens bytes })
      else (false, full)

  pub new_sender : AdaptiveSender D.Double
  new_sender = record {
    queue = record { high_queue = []; normal_queue = [] };
    bucket = new_bucket;
    dropped_count = 0;
  }

  pub enqueue : PacketPriority → List ℕ → AdaptiveSender D.Double → AdaptiveSender D.Double
  enqueue priority packet s = record s { queue = push priority packet s.queue }

  -- What the loop of `drain` does with a packet, and whether it sends the packet.
  pub take_packet :
      ℕ → PacketPriority → List ℕ → AdaptiveSender D.Double → Bool × AdaptiveSender D.Double
  take_packet now_ms high packet s = (true, s)
  take_packet now_ms normal packet s =
      let (granted, bucket) = try_consume (D.of_nat (length packet)) now_ms s.bucket in
      if granted
      then (true, record s { bucket = bucket })
      else (false, record s { bucket = bucket; dropped_count = add64 s.dropped_count 1 })

  -- A turn of the loop of `drain`; `next` is the turns that follow.
  pub drain_step :
      ℕ
      → (AdaptiveSender D.Double → List (List ℕ) × AdaptiveSender D.Double)
      → Option (PacketPriority × List ℕ)
      → AdaptiveSender D.Double
      → List (List ℕ) × AdaptiveSender D.Double
  drain_step now_ms next none s = ([], s)
  drain_step now_ms next (some (priority, packet)) s =
      let (sends, taken) = take_packet now_ms priority packet s in
      let (sent, last) = next taken in (if sends then packet ∷ sent else sent, last)

  -- The loop of `drain`, on fuel; it returns what is sent.
  pub drain_loop : ℕ → ℕ → AdaptiveSender D.Double → List (List ℕ) × AdaptiveSender D.Double
  drain_loop zero now_ms s = ([], s)
  drain_loop (suc fuel) now_ms s =
      let (front, queue) = pop_with_priority s.queue in
      drain_step now_ms (drain_loop fuel now_ms) front (record s { queue = queue })

  pub configure : ℕ → BitrateController D.Double → AdaptiveSender D.Double → AdaptiveSender D.Double
  configure now_ms c s =
      let kbps = D.of_nat (current D c).bitrate_kbps in
      let bytes_per_sec = D.div (D.mul kbps (D.of_nat 1000)) (D.of_nat 8) in
      let half = D.mul bytes_per_sec (D.div (D.of_nat 1) (D.of_nat 2)) in
      record s { bucket = reconfigure bytes_per_sec half now_ms s.bucket }

  -- One turn for each packet and one that finds the queue empty are enough.
  pub drain :
      ℕ
      → NetworkConditionEstimator D.Double
      → BitrateController D.Double
      → AdaptiveSender D.Double
      → List (List ℕ)
        × AdaptiveSender D.Double
        × BitrateController D.Double
        × NetworkConditionEstimator D.Double
  drain now_ms e c s =
      let (chosen, seen) = evaluate D now_ms e c in
      let (sent, last) = drain_loop (size s.queue + 1) now_ms (configure now_ms chosen s) in
      (sent, last, chosen, seen)

  pub queued_count : AdaptiveSender D.Double → ℕ
  queued_count s = size s.queue
