-- ===== src/Production/RateBound.antt =====
-- The ingest rate is bounded, and a caller that waits gets its bytes.
use native.Mathlib.Nat.{add-mul}
use shard_log.Prelude.{
  ℕ, ◌+◌, ◌-◌, ◌*◌, ◌^◌, ◌≤◌, ◌<◌, ◌≡◌, Bool, true, List, [], ◌∷◌, nat_eq, if◌then◌else◌, arith,
  subst,
}
use shard_log.Production.Rate.{
  IngestRateLimiter, generated, refill, try_acquire, acquire_all, new_limiter,
}

pub record IsValid (l : IngestRateLimiter) : Type 0 where
  pub limited : 0 < l.bytes_per_second
  pub tokens : l.tokens ≤ l.burst_bytes
  pub remainder : l.remainder < 1000000000
  pub burst : l.burst_bytes < 2 ^ 64

-- What a bucket may still give, in billionths of a byte.
abbrev pub credit : IngestRateLimiter → ℕ
credit l = l.tokens * 1000000000 + l.remainder

generated-le :
    (l : IngestRateLimiter) (now : ℕ)
    → generated l now ≤ (now - l.updated) * l.bytes_per_second + l.remainder
unfolding generated
generated-le l now = ground arith

credit-refill :
    (l : IngestRateLimiter) (now : ℕ)
    → credit (refill l now) ≤ credit l + (now - l.updated) * l.bytes_per_second
unfolding refill
credit-refill l now = ground (arith, generated-le l now)

refill-IsValid : (l : IngestRateLimiter) (now : ℕ) → IsValid l → IsValid (refill l now)
unfolding refill
refill-IsValid l now v = record {
  limited = v.limited;
  tokens = ground arith;
  remainder = ground arith;
  burst = v.burst;
}

try_acquire-IsValid :
    (l : IngestRateLimiter) (now bytes : ℕ) → IsValid l → IsValid (try_acquire l now bytes).0
unfolding try_acquire
try_acquire-IsValid l now bytes v =
    let r : IsValid (refill l now) = refill-IsValid l now v in
    record {
      limited = ground (arith, r.limited);
      tokens = ground (arith, r.tokens);
      remainder = ground (arith, r.remainder);
      burst = ground (arith, r.burst);
    }

-- What one call takes, and what is left.
paid : Bool → ℕ → ℕ
paid accepted bytes = if accepted then bytes else 0

credit-try_acquire :
    (l : IngestRateLimiter) (now bytes : ℕ)
    → IsValid l
    → l.updated ≤ now
    → (l.updated ≤ (try_acquire l now bytes).0.updated)
      × ((try_acquire l now bytes).0.updated ≤ now)
      × ((try_acquire l now bytes).0.bytes_per_second ≡ l.bytes_per_second)
      × (credit (try_acquire l now bytes).0 + paid (try_acquire l now bytes).1 bytes * 1000000000
          ≤ credit l + ((try_acquire l now bytes).0.updated - l.updated) * l.bytes_per_second)
unfolding try_acquire paid refill
credit-try_acquire l now bytes v later = (
  ground (arith, v.limited),
  ground (arith, v.limited),
  ground (arith, v.limited),
  ground (arith, v.limited, credit-refill l now),
)

-- The times of the calls do not go back.
abbrev pub InOrder : ℕ → List (ℕ × ℕ) → ℕ → Type 0
InOrder from [] until = from ≤ until
InOrder from ((now, bytes) ∷ calls) until = (from ≤ now) × InOrder now calls until

InOrder-le :
    (from from' : ℕ) (calls : List (ℕ × ℕ)) (until : ℕ)
    → from' ≤ from
    → InOrder from calls until
    → InOrder from' calls until
InOrder-le from from' [] until le h = omega arith
InOrder-le from from' ((now, bytes) ∷ calls) until le h = (omega arith, h.1)

InOrder-until :
    (from : ℕ) (calls : List (ℕ × ℕ)) (until : ℕ) → InOrder from calls until → from ≤ until
InOrder-until from [] until h = h
InOrder-until from ((now, bytes) ∷ calls) until h = omega (arith, InOrder-until now calls until h.1)

elapsed-add : (a b c r : ℕ) → a ≤ b → b ≤ c → (b - a) * r + (c - b) * r ≡ (c - a) * r
elapsed-add a b c r ab bc = let e : c - a ≡ (b - a) + (c - b) = omega arith in rw (e, add-mul)

credit-acquire_all :
    (l : IngestRateLimiter) (calls : List (ℕ × ℕ)) (until : ℕ)
    → IsValid l
    → InOrder l.updated calls until
    → credit (acquire_all l calls).0 + (acquire_all l calls).1 * 1000000000
      ≤ credit l + (until - l.updated) * l.bytes_per_second
unfolding acquire_all paid
credit-acquire_all l [] until v order = omega arith
credit-acquire_all l ((now, bytes) ∷ calls) until v order =
    let l' = (try_acquire l now bytes).0 in
    let step = credit-try_acquire l now bytes v order.0 in
    let order' : InOrder l'.updated calls until =
      InOrder-le now l'.updated calls until step.1 order.1 in
    let rest = credit-acquire_all l' calls until (try_acquire-IsValid l now bytes v) order' in
    omega (
      arith,
      step.3,
      subst
          (λ r.
            credit (acquire_all l' calls).0 + (acquire_all l' calls).1 * 1000000000
            ≤ credit l' + (until - l'.updated) * r)
          step.2 rest,
      elapsed-add l.updated l'.updated until l.bytes_per_second step.0
          (InOrder-until l'.updated calls until order'),
    )

-- Whatever is asked for from a new limiter until some time, in calls whose times do not go back, what
-- it accepts by then is the burst and what the rate gives in that time, at most. The rate is not 0,
-- which stands for no limit, and the burst is a u64.
pub acquire_all-le :
    (bytes_per_second burst_bytes start until : ℕ) (calls : List (ℕ × ℕ))
    → 0 < bytes_per_second
    → burst_bytes < 2 ^ 64
    → InOrder start calls until
    → (acquire_all (new_limiter bytes_per_second burst_bytes start) calls).1 * 1000000000
      ≤ burst_bytes * 1000000000 + (until - start) * bytes_per_second
unfolding new_limiter
acquire_all-le bytes_per_second burst_bytes start until calls limited small order =
    let l = new_limiter bytes_per_second burst_bytes start in
    omega (arith, credit-acquire_all l calls until (omega arith) order)

-- With a rate that is not 0 and a burst that is a u64, a request of at most the burst is accepted once
-- the rate has given its bytes since the bucket was filled last, whatever was in the bucket.
pub try_acquire-waited :
    (l : IngestRateLimiter) (now bytes : ℕ)
    → IsValid l
    → bytes ≤ l.burst_bytes
    → bytes * 1000000000 ≤ (now - l.updated) * l.bytes_per_second
    → (try_acquire l now bytes).1 ≡ true
unfolding try_acquire refill generated
try_acquire-waited l now bytes v small waited = ground (arith, v.limited, v.burst)
