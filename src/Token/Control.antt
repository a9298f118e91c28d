-- ===== src/Token/Control.antt =====
-- The administration and the read-only entry points of contracts/token/src/lib.rs.
use Prim.Native.String.{String}
use navin_contracts.Prelude.{ℕ, ℤ, Bool, true, false}
use navin_contracts.Host.{Env, ◌>>=◌, ◌>>◌, pure, gets, modify, unwrap, require_auth}
use navin_contracts.Token.State.{HostCall}
use navin_contracts.Token.Storage.{set_admin, set_paused, get_balance, host_call}
use navin_contracts.Token.Transfer.{Call, require_initialized}
use navin_contracts.Token.Supply.{get_admin as stored_admin, get_total_supply, require_admin}

unfoldable pub transfer_admin : Env → ℕ → ℕ → Call (Unit {0})
transfer_admin env current_admin new_admin = do
  require_initialized
  require_auth env current_admin
  require_admin current_admin
  modify (set_admin new_admin)
  modify (host_call (HostCall.admin_tr current_admin new_admin))

unfoldable pub pause : Env → ℕ → Call (Unit {0})
pause env admin = do
  require_initialized
  require_auth env admin
  require_admin admin
  modify (set_paused true)
  modify (host_call (HostCall.paused admin))

unfoldable pub unpause : Env → ℕ → Call (Unit {0})
unpause env admin = do
  require_initialized
  require_auth env admin
  require_admin admin
  modify (set_paused false)
  modify (host_call (HostCall.unpaused admin))

unfoldable pub is_paused : Call Bool
is_paused = do require_initialized; gets (λ s. s.is_paused)

unfoldable pub get_admin : Call ℕ
get_admin = do require_initialized; stored_admin

unfoldable pub name : Call String
name = do require_initialized; n ← gets (λ s. s.name); unwrap n

unfoldable pub decimals : Call ℕ
decimals = pure 7

unfoldable pub symbol : Call String
symbol = do require_initialized; n ← gets (λ s. s.symbol); unwrap n

unfoldable pub total_supply : Call ℤ
total_supply = do require_initialized; get_total_supply

unfoldable pub balance : ℕ → Call ℤ
balance address = do require_initialized; gets (get_balance address)
