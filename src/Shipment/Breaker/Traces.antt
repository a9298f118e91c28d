-- ===== src/Shipment/Breaker/Traces.antt =====
-- The circuit breaker over sequences of requests and outcomes, under one configuration.
use navin_contracts.Host.{◌>>=◌, ok, err, trap, committed}
use navin_contracts.Shipment.Errors.{NavinError}
use navin_contracts.Shipment.Breaker.{
  closed, open_state, half_open, CircuitBreakerConfig, CircuitBreakerTracker, new, record_success,
  record_failure, should_allow_request,
}
use Prim.Native.Nat.{min}
use navin_contracts.Shipment.Breaker.Config.{IsSane}
use navin_contracts.Prelude.{
  ◌≤◌, ◌+◌, ◌^◌, ◌-◌, if◌then◌else◌, [], ltb, ◌<◌, ◌≡◌, length, List, arith, ℕ, suc, ◌∷◌,
}

-- What each state says of the counters.
pub record IsSound (c : CircuitBreakerConfig) (t : CircuitBreakerTracker) : Type 0 where
  pub closed_below : t.state ≡ closed → t.failure_count < c.failure_threshold
  pub open_tripped : t.state ≡ open_state → c.failure_threshold ≤ t.failure_count
  pub half_open_tripped : t.state ≡ half_open → c.failure_threshold ≤ t.failure_count
  pub half_open_admitted : t.state ≡ half_open → 1 ≤ t.half_open_requests
  pub half_open_bounded : t.state ≡ half_open → t.half_open_requests ≤ c.half_open_max_requests

-- What the contract tells the breaker, with the ledger's time.
pub data Signal : Type 0 where
  success : Signal
  failure : ℕ → Signal
  request : ℕ → Signal

pub signal : CircuitBreakerConfig → Signal → CircuitBreakerTracker → CircuitBreakerTracker
signal c success t = record_success t
signal c (failure now) t = committed t (record_failure c now t)
signal c (request now) t = committed t (should_allow_request c now t)

pub signals : CircuitBreakerConfig → List Signal → CircuitBreakerTracker → CircuitBreakerTracker
signals c [] t = t
signals c (x ∷ xs) t = signals c xs (signal c x t)

signal-IsSound :
    (c : CircuitBreakerConfig) (x : Signal) (t : CircuitBreakerTracker)
    → IsSane c
    → IsSound c t
    → IsSound c (signal c x t)
unfolding ◌>>=◌ signal record_success record_failure should_allow_request
signal-IsSound c success t sane h = ground arith
signal-IsSound c (failure now) t sane h = ground arith
signal-IsSound c (request now) t sane h = ground arith

signals-IsSound_from :
    (c : CircuitBreakerConfig) (xs : List Signal) (t : CircuitBreakerTracker)
    → IsSane c
    → IsSound c t
    → IsSound c (signals c xs t)
unfolding ◌>>=◌ signals
signals-IsSound_from c [] t sane h = h
signals-IsSound_from c (x ∷ xs) t sane h =
    signals-IsSound_from c xs (signal c x t) sane (signal-IsSound c x t sane h)

-- Under a sane configuration, after any signals a closed breaker has counted fewer failures than
-- the threshold, one that is open or half open at least as many, and one that is half open has
-- admitted from one to the maximum number of requests.
pub signals-IsSound :
    (c : CircuitBreakerConfig) (xs : List Signal) → IsSane c → IsSound c (signals c xs new)
signals-IsSound c xs sane = signals-IsSound_from c xs new sane (ground arith)

-- An open breaker refuses every request until the recovery timeout has passed since it opened, and
-- is left as it was; from then on it lets one through and is half open.
pub open_refuses :
    (c : CircuitBreakerConfig) (now : ℕ) (t : CircuitBreakerTracker)
    → t.state ≡ open_state
    → t.opened_at + c.recovery_timeout < 2 ^ 64
    → should_allow_request c now t ≡ (
        if ltb now (t.opened_at + c.recovery_timeout)
        then err NavinError.circuit_breaker_open t
        else ok tt (record t { state = half_open; half_open_requests = 1 }))
unfolding ◌>>=◌ should_allow_request
open_refuses c now t o fits = ground arith

-- Requests one after the other, with no outcome reported; the number that was let through.
pub admitted : CircuitBreakerConfig → List ℕ → CircuitBreakerTracker → ℕ
admitted c [] t = 0
admitted c (now ∷ rest) t = elim (should_allow_request c now t) [
  | ok _ t' ↦ suc (admitted c rest t')
  | err e t' ↦ admitted c rest t
  | trap ↦ admitted c rest t
]

half_open_step :
    (c : CircuitBreakerConfig) (now : ℕ) (t : CircuitBreakerTracker)
    → t.state ≡ half_open
    → should_allow_request c now t ≡ (
        if ltb t.half_open_requests c.half_open_max_requests
        then ok tt (record t { half_open_requests = t.half_open_requests + 1 })
        else err NavinError.circuit_breaker_open t)
unfolding ◌>>=◌ should_allow_request
half_open_step c now t o = ground arith

-- While no outcome is reported, a half-open breaker lets through as many requests as are left up to
-- its maximum, and no more.
pub half_open_admits :
    (c : CircuitBreakerConfig) (times : List ℕ) (t : CircuitBreakerTracker)
    → t.state ≡ half_open
    → admitted c times t ≡ min (length times) (c.half_open_max_requests - t.half_open_requests)
unfolding ◌>>=◌ admitted
half_open_admits c [] t o = omega arith
half_open_admits c (now ∷ rest) t o = ground (
  arith,
  half_open_step c now t o,
  half_open_admits c rest t o,
  half_open_admits c rest (record t { half_open_requests = t.half_open_requests + 1 }) o,
)

-- The failures among the signals.
abbrev pub failures : List Signal → ℕ
failures [] = 0
failures (success ∷ xs) = failures xs
failures (failure now ∷ xs) = suc (failures xs)
failures (request now ∷ xs) = failures xs

closed_failure :
    (c : CircuitBreakerConfig) (now : ℕ) (t : CircuitBreakerTracker)
    → t.state ≡ closed
    → c.failure_threshold < 2 ^ 32
    → t.failure_count + 1 < c.failure_threshold
    → signal c (failure now) t ≡ record t { failure_count = t.failure_count + 1 }
unfolding ◌>>=◌ signal record_failure
closed_failure c now t o fits below = ground arith

closed_success :
    (c : CircuitBreakerConfig) (t : CircuitBreakerTracker)
    → t.state ≡ closed
    → signal c success t ≡ t
unfolding ◌>>=◌ signal record_success
closed_success c t o = ground arith

closed_request :
    (c : CircuitBreakerConfig) (now : ℕ) (t : CircuitBreakerTracker)
    → t.state ≡ closed
    → signal c (request now) t ≡ t
unfolding ◌>>=◌ signal should_allow_request
closed_request c now t o = ground arith

-- While the failures counted stay below the threshold, a closed breaker stays closed and its count
-- is the sum of all failures, whatever successes and requests came between them.
pub closed_failures_add_up :
    (c : CircuitBreakerConfig) (xs : List Signal) (t : CircuitBreakerTracker)
    → t.state ≡ closed
    → c.failure_threshold < 2 ^ 32
    → t.failure_count + failures xs < c.failure_threshold
    → ((signals c xs t).state ≡ closed)
      × ((signals c xs t).failure_count ≡ t.failure_count + failures xs)
unfolding ◌>>=◌ signals
closed_failures_add_up c [] t o fits below = (o, omega arith)
closed_failures_add_up c (success ∷ xs) t o fits below =
    rw (closed_success c t o, signals) (closed_failures_add_up c xs t o fits below)
closed_failures_add_up c (failure now ∷ xs) t o fits below =
    rw (closed_failure c now t o fits (omega arith), signals)
      (let (still, count) =
          closed_failures_add_up c xs (record t { failure_count = t.failure_count + 1 }) o fits
            (omega arith) in
        (still, omega arith))
closed_failures_add_up c (request now ∷ xs) t o fits below =
    rw (closed_request c now t o, signals) (closed_failures_add_up c xs t o fits below)
