-- ===== src/Net/RateLimiter.antt =====
-- cpp/core/net/rate_limiter.hpp: a token bucket that is refilled by the time since the last call. The
-- clock's reading, in nanoseconds, is an argument; the mutex makes each operation one step.
use cascade.Base.{ℕ, ◌-◌, Bool, true, false, if◌then◌else◌}
use cascade.Base.Double.{Doubles, lesser}

pub record RateLimiter (D : Type 0) : Type 0 where
  pub rate_per_sec : D
  pub capacity : D
  pub tokens : D
  pub last_refill : ℕ

module _ (D : Doubles) where
  pub new_limiter : D.Double → D.Double → ℕ → RateLimiter D.Double
  new_limiter rate_per_sec burst_capacity now = record {
    rate_per_sec = rate_per_sec;
    capacity = burst_capacity;
    tokens = burst_capacity;
    last_refill = now;
  }

  pub refill : ℕ → RateLimiter D.Double → RateLimiter D.Double
  refill now l =
      let elapsed = D.div (D.of_nat (now - l.last_refill)) (D.of_nat 1000000000) in
      record l {
        last_refill = now;
        tokens = lesser D l.capacity (D.add l.tokens (D.mul elapsed l.rate_per_sec));
      }

  pub try_consume : ℕ → D.Double → RateLimiter D.Double → Bool × RateLimiter D.Double
  try_consume now wanted l =
      let full = refill now l in
      if D.leq wanted full.tokens
      then (true, record full { tokens = D.sub full.tokens wanted })
      else (false, full)

  pub tokens_available : ℕ → RateLimiter D.Double → D.Double × RateLimiter D.Double
  tokens_available now l = let full = refill now l in (full.tokens, full)
