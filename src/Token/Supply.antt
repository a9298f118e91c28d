-- ===== src/Token/Supply.antt =====
-- The entry points of contracts/token/src/lib.rs that create and destroy tokens.
use Prim.Native.String.{String}
use navin_contracts.Prelude.{ℕ, ℤ, pos, leb_ℤ, ltb_ℤ, ◌==◌, not, checked_add, checked_sub}
use navin_contracts.Host.{
  Env, ◌>>=◌, ◌>>◌, gets, modify, fail_if, ok_or, unwrap, require_auth, sub_or_trap,
}
use navin_contracts.Token.State.{TokenError, HostCall}
use navin_contracts.Token.Storage.{
  is_initialized, set_admin, set_name, set_symbol, set_total_supply, get_balance, set_balance,
  get_allowance, get_allowance_raw, expiration_or_zero, set_allowance, extend_balance_ttl,
  host_call,
}
use navin_contracts.Token.Transfer.{Call, require_initialized, require_not_paused}

unfoldable pub initialize : Env → ℕ → String → String → ℤ → Call (Unit {0})
initialize env admin name symbol total_supply = do
  i ← gets is_initialized
  fail_if i TokenError.already_initialized
  fail_if (leb_ℤ total_supply (pos 0)) TokenError.invalid_amount
  modify (set_admin admin)
  modify (set_name name)
  modify (set_symbol symbol)
  modify (set_total_supply total_supply)
  modify (set_balance admin total_supply)
  modify (host_call (HostCall.init admin total_supply))

-- `storage::get_admin`
abbrev pub get_admin : Call ℕ
get_admin = do a ← gets (λ s. s.admin); unwrap a

-- `storage::get_total_supply`
abbrev pub get_total_supply : Call ℤ
get_total_supply = do v ← gets (λ s. s.total_supply); unwrap v

-- `if storage::get_admin(&env) != admin { return Err(Unauthorized); }`
abbrev pub require_admin : ℕ → Call (Unit {0})
require_admin admin = do a ← get_admin; fail_if (not (a == admin)) TokenError.unauthorized

unfoldable pub mint : Env → ℕ → ℕ → ℤ → Call (Unit {0})
mint env admin to amount = do
  require_initialized
  require_not_paused
  require_auth env admin
  require_admin admin
  fail_if (leb_ℤ amount (pos 0)) TokenError.invalid_amount
  current_supply ← get_total_supply
  new_supply ← ok_or (checked_add current_supply amount) TokenError.overflow
  to_balance ← gets (get_balance to)
  new_to_balance ← ok_or (checked_add to_balance amount) TokenError.overflow
  modify (set_total_supply new_supply)
  modify (set_balance to new_to_balance)
  modify (extend_balance_ttl to 1000 500000)
  modify (host_call (HostCall.mint to amount))

unfoldable pub admin_burn : Env → ℕ → ℕ → ℤ → Call (Unit {0})
admin_burn env admin from amount = do
  require_initialized
  require_not_paused
  require_auth env admin
  require_admin admin
  fail_if (leb_ℤ amount (pos 0)) TokenError.invalid_amount
  from_balance ← gets (get_balance from)
  fail_if (ltb_ℤ from_balance amount) TokenError.insufficient_balance
  current_supply ← get_total_supply
  new_supply ← ok_or (checked_sub current_supply amount) TokenError.overflow
  new_from_balance ← ok_or (checked_sub from_balance amount) TokenError.overflow
  modify (set_total_supply new_supply)
  modify (set_balance from new_from_balance)
  modify (extend_balance_ttl from 1000 500000)
  modify (host_call (HostCall.adm_burn from amount))

unfoldable pub burn : Env → ℕ → ℤ → Call (Unit {0})
burn env from amount = do
  require_initialized
  require_not_paused
  require_auth env from
  fail_if (leb_ℤ amount (pos 0)) TokenError.invalid_amount
  from_balance ← gets (get_balance from)
  fail_if (ltb_ℤ from_balance amount) TokenError.insufficient_balance
  current_supply ← get_total_supply
  new_supply ← sub_or_trap current_supply amount
  modify (set_total_supply new_supply)
  new_from_balance ← sub_or_trap from_balance amount
  modify (set_balance from new_from_balance)
  modify (host_call (HostCall.burn from amount))

unfoldable pub burn_from : Env → ℕ → ℕ → ℤ → Call (Unit {0})
burn_from env spender from amount = do
  require_initialized
  require_not_paused
  require_auth env spender
  fail_if (leb_ℤ amount (pos 0)) TokenError.invalid_amount
  allowance ← gets (get_allowance env from spender)
  fail_if (ltb_ℤ allowance amount) TokenError.insufficient_allowance
  from_balance ← gets (get_balance from)
  fail_if (ltb_ℤ from_balance amount) TokenError.insufficient_balance
  raw ← gets (get_allowance_raw from spender)
  current_supply ← get_total_supply
  new_supply ← sub_or_trap current_supply amount
  modify (set_total_supply new_supply)
  new_from_balance ← sub_or_trap from_balance amount
  modify (set_balance from new_from_balance)
  new_allowance ← sub_or_trap allowance amount
  modify (set_allowance from spender new_allowance (expiration_or_zero raw))
  modify (host_call (HostCall.burn_from from spender amount))
