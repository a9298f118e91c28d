-- ===== src/Token/Allowance.antt =====
-- The entry points of contracts/token/src/lib.rs that set what a spender may take.
use navin_contracts.Prelude.{ℕ, ℤ, pos, leb_ℤ, ltb_ℤ, ltb, ◌==◌, ◌&&◌, checked_add, checked_sub}
use navin_contracts.Host.{Env, ◌>>=◌, ◌>>◌, gets, modify, fail_if, ok_or, require_auth}
use navin_contracts.Token.State.{TokenError, HostCall}
use navin_contracts.Token.Storage.{
  get_allowance, get_allowance_raw, expiration_or_zero, set_allowance, extend_allowance_ttl,
  host_call,
}
use navin_contracts.Token.Transfer.{Call, require_initialized, require_not_paused}

unfoldable pub approve : Env → ℕ → ℕ → ℤ → ℕ → Call (Unit {0})
approve env from spender amount expiration_ledger = do
  require_initialized
  require_not_paused
  require_auth env from
  fail_if (ltb_ℤ amount (pos 0)) TokenError.invalid_amount
  fail_if (from == spender) TokenError.same_account
  fail_if (ltb_ℤ (pos 0) amount && ltb expiration_ledger env.sequence)
      TokenError.invalid_expiration_ledger
  modify (set_allowance from spender amount expiration_ledger)
  modify (extend_allowance_ttl from spender 1000 500000)
  modify (host_call (HostCall.approve from spender amount expiration_ledger))

unfoldable pub allowance : Env → ℕ → ℕ → Call ℤ
allowance env from spender = do require_initialized; gets (get_allowance env from spender)

unfoldable pub increase_allowance : Env → ℕ → ℕ → ℤ → Call (Unit {0})
increase_allowance env owner spender delta = do
  require_initialized
  require_auth env owner
  fail_if (leb_ℤ delta (pos 0)) TokenError.invalid_amount
  fail_if (owner == spender) TokenError.same_account
  current ← gets (get_allowance env owner spender)
  new_allowance ← ok_or (checked_add current delta) TokenError.overflow
  raw ← gets (get_allowance_raw owner spender)
  modify (set_allowance owner spender new_allowance (expiration_or_zero raw))
  modify (extend_allowance_ttl owner spender 1000 500000)
  modify (host_call (HostCall.inc_alw owner spender delta new_allowance))

unfoldable pub decrease_allowance : Env → ℕ → ℕ → ℤ → Call (Unit {0})
decrease_allowance env owner spender delta = do
  require_initialized
  require_auth env owner
  fail_if (leb_ℤ delta (pos 0)) TokenError.invalid_amount
  fail_if (owner == spender) TokenError.same_account
  current ← gets (get_allowance env owner spender)
  fail_if (ltb_ℤ current delta) TokenError.insufficient_allowance
  new_allowance ← ok_or (checked_sub current delta) TokenError.overflow
  raw ← gets (get_allowance_raw owner spender)
  modify (set_allowance owner spender new_allowance (expiration_or_zero raw))
  modify (extend_allowance_ttl owner spender 1000 500000)
  modify (host_call (HostCall.dec_alw owner spender delta new_allowance))
