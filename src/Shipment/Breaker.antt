-- ===== src/Shipment/Breaker.antt =====
-- The circuit breaker over token transfers, contracts/shipment/src/circuit_breaker.rs: its
-- configuration and the methods of `CircuitBreakerTracker`. A method that mutates its receiver is an
-- action on the tracker.
pub mod Config
pub mod Traces
use navin_contracts.Host.{Action, ◌>>=◌, ◌>>◌, gets, modify, fail_if, trap_unless, pure}
use navin_contracts.Shipment.Errors.{NavinError}
use navin_contracts.Prelude.{
  ◌+◌, Option, some, ◌||◌, ◌^◌, ◌-◌, leb, if◌then◌else◌, ltb, none, ◌==◌, ℕ, ◌*◌,
}

pub data CircuitBreakerState : Type 0 where
  closed open_state half_open : CircuitBreakerState

pub record CircuitBreakerConfig : Type 0 where
  pub failure_threshold : ℕ  -- u32
  pub recovery_timeout : ℕ  -- u64, seconds
  pub half_open_max_requests : ℕ  -- u32

abbrev pub default_config : CircuitBreakerConfig
default_config = record {
  failure_threshold = 5;
  recovery_timeout = 300;
  half_open_max_requests = 3;
}

abbrev pub strict : CircuitBreakerConfig
strict = record { failure_threshold = 3; recovery_timeout = 600; half_open_max_requests = 1 }

abbrev pub permissive : CircuitBreakerConfig
permissive = record { failure_threshold = 10; recovery_timeout = 60; half_open_max_requests = 5 }

pub data CircuitBreakerPreset : Type 0 where
  default_preset strict_preset permissive_preset : CircuitBreakerPreset
  custom : ℕ → ℕ → ℕ → CircuitBreakerPreset

abbrev pub max_failure_threshold : ℕ
max_failure_threshold = 1000

abbrev pub max_recovery_timeout : ℕ
max_recovery_timeout = 30 * 24 * 60 * 60

abbrev pub max_half_open_requests : ℕ
max_half_open_requests = 1000

-- A preset's configuration; `none` is `Err(InvalidConfig)`.
unfoldable pub resolve : CircuitBreakerPreset → Option CircuitBreakerConfig
resolve default_preset = some default_config
resolve strict_preset = some strict
resolve permissive_preset = some permissive
resolve (custom failure_threshold recovery_timeout half_open_max) =
    if failure_threshold == 0
      || (ltb max_failure_threshold failure_threshold
          || (ltb max_recovery_timeout recovery_timeout
              || (half_open_max == 0 || ltb max_half_open_requests half_open_max)))
    then none
    else some (record {
      failure_threshold = failure_threshold;
      recovery_timeout = recovery_timeout;
      half_open_max_requests = half_open_max;
    })

pub record CircuitBreakerTracker : Type 0 where
  pub state : CircuitBreakerState
  pub failure_count : ℕ  -- u32
  pub opened_at : ℕ  -- u64
  pub half_open_requests : ℕ  -- u32

abbrev pub new : CircuitBreakerTracker
new = record { state = closed; failure_count = 0; opened_at = 0; half_open_requests = 0 }

abbrev pub BreakerCall : Type 0 → Type 0
BreakerCall A = Action CircuitBreakerTracker NavinError A

success_in : CircuitBreakerState → CircuitBreakerTracker → CircuitBreakerTracker
success_in closed t = t
success_in open_state t = t
success_in half_open t = record t { state = closed; failure_count = 0; half_open_requests = 0 }

unfoldable pub record_success : CircuitBreakerTracker → CircuitBreakerTracker
unfolding success_in
record_success t = success_in t.state t

-- `self.failure_count += 1`, which panics past u32::MAX.
abbrev count_failure : BreakerCall ℕ
count_failure = do
  n ← gets (λ t. t.failure_count)
  trap_unless (ltb (n + 1) (2 ^ 32))
  modify (λ t. record t { failure_count = n + 1 })
  pure (n + 1)

failure_in : CircuitBreakerState → CircuitBreakerConfig → ℕ → BreakerCall (Unit {0})
failure_in closed config current_time = do
  n ← count_failure
  modify (λ t.
      if leb config.failure_threshold n
      then record t { state = open_state; opened_at = current_time }
      else t)
failure_in open_state config current_time = do n ← count_failure; pure tt
failure_in half_open config current_time =
    modify (λ t. record t { state = open_state; opened_at = current_time; half_open_requests = 0 })

unfoldable pub record_failure : CircuitBreakerConfig → ℕ → BreakerCall (Unit {0})
unfolding failure_in
record_failure config current_time = do s ← gets (λ t. t.state); failure_in s config current_time

allow_in : CircuitBreakerState → CircuitBreakerConfig → ℕ → BreakerCall (Unit {0})
allow_in closed config current_time = pure tt
allow_in open_state config current_time = do
  opened_at ← gets (λ t. t.opened_at)
  trap_unless (ltb (opened_at + config.recovery_timeout) (2 ^ 64))
  fail_if (ltb current_time (opened_at + config.recovery_timeout)) NavinError.circuit_breaker_open
  modify (λ t. record t { state = half_open; half_open_requests = 1 })
allow_in half_open config current_time = do
  n ← gets (λ t. t.half_open_requests)
  fail_if (leb config.half_open_max_requests n) NavinError.circuit_breaker_open
  modify (λ t. record t { half_open_requests = n + 1 })

unfoldable pub should_allow_request : CircuitBreakerConfig → ℕ → BreakerCall (Unit {0})
unfolding allow_in
should_allow_request config current_time = do
  s ← gets (λ t. t.state)
  allow_in s config current_time

-- `none` is the overflow of `opened_at + recovery_timeout`.
unfoldable pub get_recovery_time_remaining :
    CircuitBreakerTracker → CircuitBreakerConfig → ℕ → Option ℕ
get_recovery_time_remaining t config current_time = elim t.state [
  | closed ↦ some 0
  | open_state ↦
      if ltb (t.opened_at + config.recovery_timeout) (2 ^ 64)
      then some (t.opened_at + config.recovery_timeout - current_time)
      else none
  | half_open ↦ some 0
]
