-- ===== src/Shipment/RateLimit.antt =====
-- Operation quotas, contracts/shipment/src/rate_limit.rs: `QuotaTracker` and the functions over the
-- stored trackers, one for each actor. A `trap` is an overflow of u64.
pub mod Window
use navin_contracts.Host.{
  Env, Action, ◌>>=◌, ◌>>◌, gets, modify, fail_if, ok_or, trap_unless, pure, require_auth, ok, err,
  trap,
}
use navin_contracts.Shipment.Errors.{NavinError}
use navin_contracts.Prelude.{
  ◌==◌, leb, false, some, List, ◌-◌, ◌∷◌, if◌then◌else◌, get_or, [], true, ltb, Bool, ◌+◌, Option,
  ℕ, none, not, ◌^◌,
}

pub record RateLimitConfig : Type 0 where
  pub max_operations : ℕ  -- u32
  pub window_seconds : ℕ  -- u64

abbrev pub default_config : RateLimitConfig
default_config = record { max_operations = 100; window_seconds = 3600 }

pub record QuotaTracker : Type 0 where
  pub operations_count : ℕ  -- u32
  pub window_start : ℕ  -- u64

abbrev pub new : ℕ → QuotaTracker
new current_time = record { operations_count = 0; window_start = current_time }

abbrev pub checked_add_u32 : ℕ → ℕ → Option ℕ
checked_add_u32 a b = if ltb (a + b) (2 ^ 32) then some (a + b) else none

unfoldable pub check_and_update :
    ℕ → RateLimitConfig → ℕ → Action QuotaTracker NavinError (Unit {0})
check_and_update current_time config operations = do
  t ← gets (λ t. t)
  trap_unless (ltb (t.window_start + config.window_seconds) (2 ^ 64))
  modify (λ t.
      if leb (t.window_start + config.window_seconds) current_time
      then record t { window_start = current_time; operations_count = 0 }
      else t)
  count ← gets (λ t. t.operations_count)
  new_count ← ok_or (checked_add_u32 count operations) NavinError.counter_overflow
  fail_if (ltb config.max_operations new_count) NavinError.rate_limit_exceeded
  modify (λ t. record t { operations_count = new_count })

-- `saturating_sub`
unfoldable pub remaining_quota : QuotaTracker → RateLimitConfig → ℕ
remaining_quota t config = config.max_operations - t.operations_count

-- `none` is the overflow of the window's end.
unfoldable pub window_time_remaining : QuotaTracker → ℕ → RateLimitConfig → Option ℕ
window_time_remaining t current_time config =
    if ltb (t.window_start + config.window_seconds) (2 ^ 64)
    then some (t.window_start + config.window_seconds - current_time)
    else none

-- The stored trackers, `DataKey::ActorQuota(actor)`, and the admin list.
pub record Quotas : Type 0 where
  pub quota : ℕ → Option QuotaTracker
  pub admin_list : List ℕ

abbrev pub QuotaCall : Type 0 → Type 0
QuotaCall A = Action Quotas NavinError A

-- Run a method on one value of the storage; what it leaves counts only if it returned `Ok`.
abbrev pub on_tracker :
    QuotaTracker → Action QuotaTracker NavinError (Unit {0}) → QuotaCall QuotaTracker
on_tracker t m s = elim (m t) [ ok a t' ↦ ok t' s | err e t' ↦ err e s | trap ↦ trap ]

unfoldable pub check_rate_limit : Env → ℕ → ℕ → RateLimitConfig → QuotaCall (Unit {0})
unfolding check_and_update
check_rate_limit env actor operation_count config = if operation_count == 0 then pure tt else (do
  stored ← gets (λ s. s.quota actor)
  t ←
      on_tracker (get_or stored (new env.timestamp))
        (check_and_update env.timestamp config operation_count)
  modify (λ s. record s { quota = λ a. if a == actor then some t else s.quota a }))

abbrev pub contains : List ℕ → ℕ → Bool
contains [] a = false
contains (x ∷ xs) a = if x == a then true else contains xs a

unfoldable pub reset_quota : Env → ℕ → ℕ → QuotaCall (Unit {0})
reset_quota env admin actor = do
  require_auth env admin
  admins ← gets (λ s. s.admin_list)
  fail_if (not (contains admins admin)) NavinError.unauthorized
  modify (λ s. record s { quota = λ a. if a == actor then none else s.quota a })

unfoldable pub get_quota_status : Env → ℕ → RateLimitConfig → QuotaCall (ℕ × ℕ × ℕ)
unfolding remaining_quota window_time_remaining
get_quota_status env actor config s =
    let t = get_or (s.quota actor) (new env.timestamp) in
    elim (window_time_remaining t env.timestamp config) [
      | none ↦ trap
      | some left ↦ ok (t.operations_count, remaining_quota t config, left) s
    ]

unfoldable pub enforce_batch_creation_limit : Env → ℕ → ℕ → QuotaCall (Unit {0})
unfolding check_rate_limit
enforce_batch_creation_limit env company batch_size =
    check_rate_limit env company batch_size default_config
