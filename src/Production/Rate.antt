-- ===== src/Production/Rate.antt =====
-- `IngestRateLimiter` of src/production.rs, a token bucket in integers. Times are nanoseconds of the
-- process's monotonic clock, `now` is the time that a call reads. The lock is not poisoned.
use shard_log.Prelude.{
  ℕ, ◌+◌, ◌-◌, ◌*◌, ◌/◌, ◌%◌, ◌^◌, min, Bool, true, false, not, List, [], ◌∷◌, ltb, nat_eq, ◌==◌,
  if◌then◌else◌,
}

pub record IngestRateLimiter : Type 0 where
  pub bytes_per_second : ℕ
  pub burst_bytes : ℕ
  pub tokens : ℕ
  pub remainder : ℕ
  pub updated : ℕ

unfoldable pub new_limiter : ℕ → ℕ → ℕ → IngestRateLimiter
new_limiter bytes_per_second burst_bytes now = record {
  bytes_per_second = bytes_per_second;
  burst_bytes = burst_bytes;
  tokens = burst_bytes;
  remainder = 0;
  updated = now;
}

abbrev pub u64_max : ℕ
u64_max = 2 ^ 64 - 1

abbrev pub u128_max : ℕ
u128_max = 2 ^ 128 - 1

-- In billionths of a byte: `elapsed.saturating_mul(rate).saturating_add(remainder)` on u128.
unfoldable pub generated : IngestRateLimiter → ℕ → ℕ
generated l now = min (min ((now - l.updated) * l.bytes_per_second) u128_max + l.remainder) u128_max

-- The bucket with the tokens of the time that has passed.
unfoldable pub refill : IngestRateLimiter → ℕ → IngestRateLimiter
unfolding generated
refill l now = record l {
  updated = now;
  remainder = generated l now % 1000000000;
  tokens = min (min (l.tokens + min (generated l now / 1000000000) u64_max) u64_max) l.burst_bytes;
}

unfoldable pub try_acquire : IngestRateLimiter → ℕ → ℕ → IngestRateLimiter × Bool
try_acquire l now bytes =
    if l.bytes_per_second == 0
    then (l, true)
    else if not (ltb bytes (2 ^ 64))
    then (l, false)
    else if ltb l.burst_bytes bytes
    then (l, false)
    else (let l' = refill l now in
        if ltb l'.tokens bytes
        then (l', false)
        else (record l' { tokens = l'.tokens - bytes }, true))

-- Calls one after the other, each with its time and its bytes, and the bytes that were accepted.
unfoldable pub acquire_all : IngestRateLimiter → List (ℕ × ℕ) → IngestRateLimiter × ℕ
acquire_all l [] = (l, 0)
acquire_all l ((now, bytes) ∷ calls) =
    let (l', accepted) = try_acquire l now bytes in
    let (l'', total) = acquire_all l' calls in (l'', (if accepted then bytes else 0) + total)
