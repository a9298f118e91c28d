-- ===== src/Shipment/RateLimit/Window.antt =====
-- What a quota lets through in one window, for any sequence of calls.
use navin_contracts.Host.{◌>>=◌, Env, Outcome, ok, err, trap, invoke, IsOk}
use navin_contracts.Shipment.Errors.{NavinError}
use navin_contracts.Shipment.RateLimit.{
  RateLimitConfig, QuotaTracker, Quotas, check_rate_limit, remaining_quota,
}
use navin_contracts.Prelude.{◌⊎◌, ◌<◌, some, List, ◌∷◌, ◌≤◌, [], ◌≡◌, ◌+◌, ℕ, ◌≢◌, arith, ◌^◌, ◌-◌}

-- A tracker never holds more operations than the maximum.
abbrev pub IsWithin : RateLimitConfig → QuotaTracker → Type 0
IsWithin c t = t.operations_count ≤ c.max_operations

-- A check in the running window is granted exactly when the operations fit what is left of the
-- quota, and then takes them off it; otherwise it fails and leaves the stored tracker alone.
pub check_rate_limit_in_window :
    (env : Env) (actor n : ℕ) (c : RateLimitConfig) (t : QuotaTracker) (s : Quotas)
    → s.quota actor ≡ some t
    → n ≢ 0
    → env.timestamp < t.window_start + c.window_seconds
    → t.window_start + c.window_seconds < 2 ^ 64
    → c.max_operations < 2 ^ 32
    → t.operations_count ≤ c.max_operations
    → let s' = invoke (check_rate_limit env actor n c) s in
      ((n ≤ remaining_quota t c)
        × (s'.quota actor ≡ some (record t { operations_count = t.operations_count + n })))
      ⊎ ((remaining_quota t c < n) × (¬ (IsOk (check_rate_limit env actor n c s))) × (s' ≡ s))
unfolding ◌>>=◌ check_rate_limit invoke remaining_quota
check_rate_limit_in_window env actor n c t s stored ne running fits small within = ground arith

-- The calls of one actor at the given times; the operations that were granted.
pub granted : ℕ → RateLimitConfig → List (Env × ℕ) → Quotas → ℕ
granted actor c [] s = 0
granted actor c ((env, n) ∷ rest) s = elim (check_rate_limit env actor n c s) [
  | ok _ s' ↦ n + granted actor c rest s'
  | err e s' ↦ granted actor c rest s
  | trap ↦ granted actor c rest s
]

-- Every call falls in the window that started at `start`.
abbrev InWindow : ℕ → RateLimitConfig → List (Env × ℕ) → Type 0
InWindow start c [] = Unit
InWindow start c ((env, n) ∷ rest) =
    (env.timestamp < start + c.window_seconds) × InWindow start c rest

-- One call in a running window, by how it ends.
abbrev Spends :
    ℕ → RateLimitConfig → ℕ → QuotaTracker → Outcome Quotas NavinError (Unit {0}) → Type 0
Spends actor c n t (ok _ s') =
    (s'.quota actor ≡ some (record t { operations_count = t.operations_count + n }))
    × (t.operations_count + n ≤ c.max_operations)
Spends actor c n t (err e s') = Unit
Spends actor c n t trap = Unit

check_rate_limit-Spends :
    (env : Env) (actor n : ℕ) (c : RateLimitConfig) (t : QuotaTracker) (s : Quotas)
    → s.quota actor ≡ some t
    → env.timestamp < t.window_start + c.window_seconds
    → IsWithin c t
    → Spends actor c n t (check_rate_limit env actor n c s)
unfolding ◌>>=◌ check_rate_limit
check_rate_limit-Spends env actor n c t s stored running within = ground arith

-- In one window an actor is granted no more operations than what was left of its quota, however
-- the calls are sized and whichever of them fail.
pub granted-le-remaining :
    (actor : ℕ) (c : RateLimitConfig) (calls : List (Env × ℕ)) (t : QuotaTracker) (s : Quotas)
    → s.quota actor ≡ some t
    → IsWithin c t
    → InWindow t.window_start c calls
    → granted actor c calls s ≤ remaining_quota t c
unfolding ◌>>=◌ granted remaining_quota
granted-le-remaining actor c [] t s stored within inside = omega arith
granted-le-remaining actor c ((env, n) ∷ rest) t s stored within inside =
    (elim (check_rate_limit env actor n c s)
        as (λ o.
          Spends actor c n t o
          → elim o [
            | ok _ s' ↦ n + granted actor c rest s'
            | err e s' ↦ granted actor c rest s
            | trap ↦ granted actor c rest s
          ]
            ≤ c.max_operations - t.operations_count) [
              | ok _ s' ↦ λ h. omega (
                arith,
                h.1,
                granted-le-remaining actor c rest
                    (record t { operations_count = t.operations_count + n }) s' h.0 h.1 inside.1,
              )
              | err e s' ↦ λ h. granted-le-remaining actor c rest t s stored within inside.1
              | trap ↦ λ h. granted-le-remaining actor c rest t s stored within inside.1
            ])
      (check_rate_limit-Spends env actor n c t s stored inside.0 within)
